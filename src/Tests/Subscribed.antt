-- ===== src/Tests/Subscribed.antt =====
-- A subscription of psmq-sub at concrete inputs.
use psmq.Prelude.{◌≡◌, refl, sym, ap, true, false, [], ◌∷◌, some, if◌then◌else◌, arith}
use psmq.Errno.{ok}
use psmq.Message.{received, cmd_subscribe}
use psmq.Topic.{subscribe_refuses, has_double_slash}
use psmq.TopicList.{tl_add}
use psmq.Broker.Requests.{broker_subscribe}
use psmq.Broker.Reply.Buffer.{topic_msg}
use psmq.Api.State.{Os, give, receives, sends}
use psmq.Api.Init.{zeroed_msg}
use psmq.Sub.Program.{Subscriber, goes_on, sub_qname, give_up, subscribe_topic}
use psmq.Sub.Subscribes.{told, tells, subscribe_topic-told}
use psmq.Tests.{small, one_client, listener, topic_a}
use psmq.Tests.Shown.{isprint, isspace}
use psmq.Tests.Programs.{lively, client, client-IsReady, no_log}

-- The program, once it is connected, and where the broker's answer to "/a" is the next message.
abbrev connected_sub : Subscriber
connected_sub = record {
  psmq = client;
  qname = sub_qname;
  got_b = false;
  got_t = true;
  connected = true;
}

abbrev answering : Os
answering = record lively { mq_receive = λ _ _. ok (topic_msg cmd_subscribe 0 topic_a [], 0) }

told_added-status : (told small one_client 0 listener topic_a).status ≡ 0
unfolding subscribe_refuses has_double_slash tl_add
told_added-status = refl

subscribe_topic-told_example :
    (let request = topic_msg cmd_subscribe 0 topic_a [] in
      let reply = told small one_client 0 listener topic_a in
      (broker_subscribe small (received 8 request) one_client ≡ some (tells small 0 topic_a reply))
      × (subscribe_topic answering 3
            (zeroed_msg lively)
            isprint
            isspace
            no_log
            connected_sub
            topic_a
            []
          ≡ (if subscribe_refuses topic_a 0
                then give_up answering 3 (zeroed_msg lively) isprint isspace no_log connected_sub
                else give (goes_on connected_sub))
              (receives (some 3) ∷ sends (some 4) request 0 ∷ [])))
subscribe_topic-told_example =
    subscribe_topic-told answering 3 (zeroed_msg lively) isprint isspace no_log small one_client
      listener connected_sub topic_a 0 [] refl client-IsReady (omega arith) refl refl
      (refl, (refl, tt)) (omega arith) refl
      (ap (λ status. ok (topic_msg cmd_subscribe status topic_a [], 0)) (sym told_added-status))
