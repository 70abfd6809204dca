-- ===== src/Tests/Clients.antt =====
-- The client library at concrete inputs.
use psmq.Prelude.{
  ◌<◌, ◌↔◌, ◌≡◌, refl, true, [], ◌∷◌, none, some, map, ◌++◌, take, arith, length, ◌==◌,
  if◌then◌else◌,
}
use psmq.Errno.{ok}
use psmq.Message.{received, cmd_publish, cmd_ioctl, cmd_open}
use psmq.Time.{epoch}
use psmq.Broker.Loop.{accepts}
use psmq.Broker.State.{Client}
use psmq.Broker.Ioctl.{broker_ioctl}
use psmq.Broker.Reply.Buffer.{topic_msg}
use psmq.Broker.Reply.Sends.{send_of, replied}
use psmq.Broker.Reply.Replies.{ioctl_msg, fd_msg}
use psmq.Broker.Effects.{with_client}
use psmq.Api.State.{Psmq, Os, mqd_eq, sends}
use psmq.Api.Send.{publish_msg, publish_prio, ioctl_timeout}
use psmq.Api.Accepted.Generated.{generated-fault_iff}
use psmq.Api.Init.{generated_name, init_wq}
use psmq.Api.Accepted.Sent.{IsReady}
use psmq.Api.Accepted.Handshake.{opened, asked, waited, init_wq-connects}
use psmq.Api.Accepted.Received.{Reads, publish_prio-Reads}
use psmq.Api.Accepted.Connect.{timeout_bytes, timeout_received, ioctl_timeout-stored}
use psmq.Pub.{room, send_stdin_binary}
use psmq.Pub.Stream.{all_sent, send_stdin_binary-streams}
use psmq.Tests.{small, one_client, listener, topic_a}

-- An operating system where sends succeed.
abbrev os : Os
os = record {
  msg_max = 8;
  max_clients = 2;
  mq_open = λ _ _. ok 3;
  mq_send = λ _ _. ok tt;
  mq_receive = λ _ _. ok (fd_msg cmd_open 0 1, 0);
  clock = λ _. epoch;
}

abbrev client : Psmq
client = record { qsub = some 3; qpub = some 4; fd = 0 }

client-IsReady : IsReady client
unfolding mqd_eq
client-IsReady = record { qsub_open = refl; qpub_open = refl; differ = refl }

publish_prio-Reads_example :
    (let m = topic_msg cmd_publish 0 topic_a (take 1 (b'!' ∷ b'?' ∷ [])) in
      let c = sends (some 4) m 2 in
      (publish_prio os (some client) (some topic_a) (some (b'!' ∷ b'?' ∷ [])) 1 2 []
        ≡ some (ok tt, c ∷ []))
      × Reads small (received 8 m) topic_a (take 1 (b'!' ∷ b'?' ∷ [])))
publish_prio-Reads_example =
    publish_prio-Reads os small client topic_a [] refl client-IsReady (omega arith) refl
      (refl, (refl, tt)) (b'!' ∷ b'?' ∷ []) 1 2 (omega arith) (omega arith) (omega arith)
      (omega arith)

-- 300 milliseconds
ioctl_timeout-stored_example :
    (let call = sends (some 4) (ioctl_msg 0 (timeout_bytes 300)) 0 in
      let c' : Client = record listener { reply_timeout = 300 } in
      let back =
        send_of small (some 5) cmd_ioctl 0 0 300 one_client (ioctl_msg 0 (timeout_bytes 300)) in
      (ioctl_timeout os (some client) 300 [] ≡ some (ok tt, call ∷ []))
      × (accepts small (timeout_received small client 300) ≡ some true)
      × (broker_ioctl small (timeout_received small client 300) one_client
          ≡ some (true, replied (with_client one_client 0 c') 0 c' back true)))
ioctl_timeout-stored_example =
    ioctl_timeout-stored os small client 300 [] refl client-IsReady (omega arith) (omega arith)
      (omega arith) one_client listener refl

-- An operating system where an old publication comes before the answer.
abbrev late : Os
late = record os {
  mq_receive = λ calls _.
      if length calls == 2
      then ok (topic_msg cmd_publish 0 topic_a [], 0)
      else ok (fd_msg cmd_open 0 1, 0);
}

abbrev unconnected : Psmq
unconnected = record { qsub = some 4; qpub = some 0; fd = 0 }

unconnected-opened : IsReady (opened unconnected 3)
unfolding mqd_eq
unconnected-opened = record { qsub_open = refl; qpub_open = refl; differ = refl }

init_wq-connects_example :
    init_wq late 2 unconnected topic_a topic_a []
    ≡ some (
      some (record (opened unconnected 3) { fd = 1 }, ok tt),
      waited late
          (opened unconnected 3)
          ((topic_msg cmd_publish 0 topic_a [], 0) ∷ [])
          (asked unconnected 3 topic_a topic_a []),
    )
init_wq-connects_example =
    init_wq-connects late 2 unconnected 3 1 0 topic_a topic_a
      ((topic_msg cmd_publish 0 topic_a [], 0) ∷ []) [] unconnected-opened refl (refl, (refl, tt))
      (omega arith) refl (omega arith) (refl, refl, refl)

-- "one" and "two!" to "/a"
send_stdin_binary-streams_example :
    send_stdin_binary os client topic_a 0
      (map ok ((b'o' ∷ b'n' ∷ b'e' ∷ []) ∷ (b't' ∷ b'w' ∷ b'o' ∷ b'!' ∷ []) ∷ []) ++ ok [] ∷ [])
      []
    ≡ some (
      tt,
      all_sent os client topic_a 0
          ((b'o' ∷ b'n' ∷ b'e' ∷ []) ∷ (b't' ∷ b'w' ∷ b'o' ∷ b'!' ∷ []) ∷ [])
          [],
    )
unfolding room
send_stdin_binary-streams_example =
    send_stdin_binary-streams os client topic_a 0 client-IsReady refl (refl, (refl, tt))
      (omega arith) (omega arith) (λ _ _. refl)
      ((b'o' ∷ b'n' ∷ b'e' ∷ []) ∷ (b't' ∷ b'w' ∷ b'o' ∷ b'!' ∷ []) ∷ []) [] []
      ((omega arith, omega arith, omega arith), ((omega arith, omega arith, omega arith), tt))

generated-fault_iff_example :
    (publish_msg os (some client) cmd_open 0 (some (generated_name 7)) none 0 0 [] ≡ none)
    ↔ (8 < 10)
generated-fault_iff_example = generated-fault_iff os client 7 [] client-IsReady
