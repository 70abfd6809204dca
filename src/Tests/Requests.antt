-- ===== src/Tests/Requests.antt =====
-- Requests to the broker at concrete inputs.
use psmq.Prelude.{
  ℕ, zero, suc, ◌<◌, ◌≡◌, refl, true, false, [], ◌∷◌, some, get_elem?, set, All, arith,
}
use psmq.CString.{c_str}
use psmq.Broker.Valid.{IsTopic, IsClient}
use psmq.Broker.Publish.{publish_client}
use psmq.Broker.Effects.Stuck.{Leaves, matching, after_missed, publish_client-Leaves}
use psmq.Message.{Msg, topic, cmd_open, cmd_subscribe, cmd_unsubscribe, cmd_close}
use psmq.Platform.{Platform, opens, unlinks, closes}
use psmq.TopicList.{tl_delete}
use psmq.Broker.State.{Client, Broker}
use psmq.Broker.Reply.{is_free}
use psmq.Broker.Requests.{broker_open, broker_subscribe, broker_unsubscribe, broker_close}
use psmq.Broker.Session.{Cfg, zeroed, broker_init, broker_cleanup}
use psmq.Broker.Session.Init.{Starts, broker_init-Starts}
use psmq.Broker.Session.Cleanup.{all_closed, closings, broker_cleanup-closes}
use psmq.Broker.Publish.Delivery.{state}
use psmq.Broker.Effects.{answer, after_call}
use psmq.Broker.Effects.Open.{let_in, broker_open-let_in}
use psmq.Broker.Effects.Requests.{
  subscribed, changed, told_closed, broker_subscribe-subscribed, broker_unsubscribe-changed,
  broker_close-frees,
}
use psmq.Tests.{small, small-IsBuild, one_client, one_client-IsValid, listener, free_slot, topic_a}

-- A request with the topic "/a".
abbrev request_a : ℕ → Msg
request_a cmd = record {
  ctrl_cmd = cmd;
  ctrl_data = 0;
  paylen = 0;
  msg_data = b'/' ∷ b'a' ∷ 0 ∷ 0 ∷ 0 ∷ 0 ∷ 0 ∷ 0 ∷ [];
}

abbrev two_clients : Broker
two_clients = record { clients = listener ∷ listener ∷ []; qctrl = some 4; calls = [] }

abbrev cfg : Cfg
cfg = record { remove_queue = true; broker_name = topic_a; broker_maxmsg = 10 }

first_taken :
    (i : ℕ) (d : Client) → i < 1 → get_elem? one_client.clients i ≡ some d → is_free d ≡ false
first_taken zero d lt e = ground arith
first_taken (suc i) d lt e = absurd (omega arith)

request_fits : (cmd : ℕ) → IsTopic small (topic (request_a cmd))
unfolding c_str
request_fits cmd = ((refl, (refl, tt)), omega arith)

broker_open-let_in_example :
    broker_open small (request_a cmd_open) one_client
    ≡ some (let_in small 7 1 free_slot (after_call (opens (topic (request_a cmd_open))) one_client))
broker_open-let_in_example =
    broker_open-let_in small one_client (request_a cmd_open) 7 1 free_slot small-IsBuild
      one_client-IsValid refl refl refl first_taken

broker_subscribe-subscribed_example :
    broker_subscribe small (request_a cmd_subscribe) one_client
    ≡ some (subscribed small 0 one_client listener (topic (request_a cmd_subscribe)) 0)
broker_subscribe-subscribed_example =
    broker_subscribe-subscribed small one_client (request_a cmd_subscribe) refl
      (request_fits cmd_subscribe)

broker_unsubscribe-changed_example :
    broker_unsubscribe small (request_a cmd_unsubscribe) one_client
    ≡ some (
        changed small 0 one_client listener cmd_unsubscribe
          (topic (request_a cmd_unsubscribe))
          (tl_delete listener.topics (topic (request_a cmd_unsubscribe))))
broker_unsubscribe-changed_example =
    broker_unsubscribe-changed small one_client (request_a cmd_unsubscribe) refl
      (request_fits cmd_unsubscribe)

broker_close-frees_example :
    (let call = answer small 0 one_client listener cmd_close 0 [] in
      broker_close small 0 one_client
      ≡ some (
        true,
        record one_client {
          clients = set one_client.clients 0 (told_closed listener true);
          calls = closes listener.mq ∷ call ∷ [];
        },
      ))
broker_close-frees_example = broker_close-frees small 0 one_client listener refl (omega arith)

-- 300 milliseconds
broker_init-Starts_example : Starts small (broker_init small cfg (zeroed small))
broker_init-Starts_example = broker_init-Starts small cfg

broker_cleanup-closes_example :
    (broker_cleanup small cfg one_client
      ≡ some (
        true,
        state
            (all_closed small one_client.clients [])
            (some 4)
            (unlinks topic_a ∷ closes (some 4) ∷ closings small one_client.clients []),
      ))
    × All (λ c. is_free c ≡ true) (all_closed small one_client.clients [])
broker_cleanup-closes_example =
    broker_cleanup-closes small cfg one_client small-IsBuild one_client-IsValid

-- The broker where every send fails.
abbrev deaf : Platform
deaf = record small { mq_timedsend = λ _ _. false }

deaf-IsClient : IsClient deaf listener
deaf-IsClient = record {
  topics_fit = (((refl, (refl, tt)), omega arith), tt);
  missed_byte = omega arith;
  timeout_short = omega arith;
}

publish_client-Leaves_example :
    Leaves one_client 0
      (after_missed listener (matching 8 topic_a listener.topics))
      (publish_client deaf 0 topic_a (b'!' ∷ []) 1 0 one_client)
publish_client-Leaves_example =
    publish_client-Leaves deaf topic_a (b'!' ∷ []) 1 0 0 5 one_client listener
      ((refl, (refl, tt)), omega arith) (omega arith) (omega arith) (omega arith) (λ _ _. refl) refl
      deaf-IsClient refl (omega arith)
