-- ===== src/Tests/Spec.antt =====
-- The abstract broker, and a string on its way through all programs, at concrete inputs.
use psmq.Prelude.{refl, [], ◌∷◌, inl, arith}
use psmq.CString.Strtok.{tokens}
use psmq.Topic.Matching.{any, done}
use psmq.TopicList.Bag.{of_list, occurrences-of_list}
use psmq.Broker.Loop.{message, shutdown, dispatch, broker_start}
use psmq.Broker.Spec.Dispatch.{Implements, dispatch-Implements}
use psmq.Broker.Spec.Drops.{All-count}
use psmq.Broker.Spec.Runs.{Reaches, broker_start-Reaches}
use psmq.Broker.Spec.Paths.{IsPath, HasPaths, HasPaths-empty, Stores, broker_start-Stores}
use psmq.Sub.Delivered.{Arrives, publish_prio-Arrives}
use psmq.Tests.{
  small, small-IsBuild, one_client, one_client-IsValid, listener, topic_a, topic_any, hello,
  hello-IsMessage, hello-accepted, hello-harmless, hello-IsSafe,
}
use psmq.Tests.Shown.{isprint, isspace, hi}
use psmq.Tests.Programs.{lively, client, client-IsReady}

dispatch-Implements_example : Implements small hello one_client (dispatch small hello 0 one_client)
dispatch-Implements_example =
    dispatch-Implements small one_client hello 0 small-IsBuild one_client-IsValid hello-IsMessage
      hello-accepted hello-harmless

broker_start-Reaches_example :
    Reaches small
      (message hello 0 ∷ shutdown ∷ [])
      one_client
      (broker_start small (message hello 0 ∷ shutdown ∷ []) one_client)
broker_start-Reaches_example =
    broker_start-Reaches small small-IsBuild (message hello 0 ∷ shutdown ∷ []) one_client
      one_client-IsValid (hello-IsMessage, hello-IsSafe, tt)

topic_any-IsPath : IsPath topic_any
unfolding tokens
topic_any-IsPath = (λ e. cc, refl)

listener-HasPaths : HasPaths (of_list listener.topics)
listener-HasPaths u h =
    All-count IsPath (topic_any ∷ []) u (topic_any-IsPath, tt) (rw occurrences-of_list at h)

broker_start-Stores_example :
    Stores (broker_start small (message hello 0 ∷ shutdown ∷ []) one_client)
broker_start-Stores_example =
    broker_start-Stores small small-IsBuild (message hello 0 ∷ shutdown ∷ []) one_client
      one_client-IsValid (listener-HasPaths, (HasPaths-empty, tt))
      (hello-IsMessage, hello-IsSafe, tt)

publish_prio-Arrives_example :
    Arrives lively small isprint isspace client [] one_client 1 5 topic_a hi
unfolding tokens
publish_prio-Arrives_example =
    publish_prio-Arrives lively small isprint isspace client [] one_client 1 0 5 listener topic_a hi
      refl (omega arith) client-IsReady (omega arith) small-IsBuild one_client-IsValid (λ _ _. refl)
      refl ((refl, (refl, tt)), (refl, (refl, tt))) (omega arith) (refl, (refl, tt)) (omega arith)
      (omega arith) (omega arith) refl refl (inl (any refl done))
