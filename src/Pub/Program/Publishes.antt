-- ===== src/Pub/Program/Publishes.antt =====
-- src/psmq-pub.c: what main does for `-m`.
use psmq.Prelude.{
  ℕ, ◌+◌, ◌^◌, ◌≤◌, ◌<◌, ◌≡◌, refl, ap, ◌∙◌, true, false, List, [], ◌∷◌, ◌++◌, some, ◌==◌, length,
  length-append, get_or, ltb, arith,
}
use psmq.CString.{Bytes, IsString}
use psmq.Errno.{ok}
use psmq.Message.{cmd_publish, cmd_close}
use psmq.Topic.{slash}
use psmq.Broker.Reply.Buffer.{topic_msg}
use psmq.Api.State.{Psmq, Os, Syscall, sends, closes, unlinks}
use psmq.Api.Init.{issue, default_qname, zeroed_psmq, init_named}
use psmq.Api.Accepted.Sent.{IsReady, publish_prio-sends}
use psmq.Api.Accepted.Disconnect.{cleanup-sends}
use psmq.Pub.{is_ok, publish_payload}
use psmq.Pub.Stream.{take-whole}
use psmq.Pub.Program.{
  Options, no_options, goes_on, pub_options, sources, pub_qname, or_else, Input, publish_source,
  connected, with_topic, after_options, psmq_pub_main,
}

-- The options ask for one message on a topic.
pub record IsMessage (o : Options) (topic message : Bytes) : Type 0 where
  pub has_topic : o.topic ≡ some topic
  pub has_message : o.message ≡ some message
  pub not_empty : o.send_empty ≡ false
  pub not_binary : o.send_binary ≡ false

module _ (os : Os) (n : ℕ) (input : Input) (o : Options) (topic message : Bytes)
    (m : IsMessage o topic message) (s : Psmq) (r : IsReady s)
    (slashed : (get_or topic 0 0 == slash) ≡ true) (h : IsString topic)
    (fits : length topic + 1 + (length message + 1) ≤ os.msg_max)
    (short : os.msg_max < 2 ^ 16) where
  abbrev publication : Syscall
  publication = sends s.qpub (topic_msg cmd_publish s.fd topic (message ++ 0 ∷ [])) o.prio

  publish_payload-sends :
      (calls : List Syscall)
      → publish_payload os s topic o.prio (some (message ++ 0 ∷ [])) (length message + 1) calls
        ≡ some (is_ok (os.mq_send calls publication), publication ∷ calls)
  unfolding publish_payload
  publish_payload-sends calls =
      let len : length (message ++ 0 ∷ []) ≡ length message + 1 = length-append message (0 ∷ []) in
      rw
        (
          publish_prio-sends os s topic calls r slashed h (message ++ 0 ∷ []) (length message + 1)
              o.prio fits (omega arith) (omega arith) (omega arith),
          ← len,
          take-whole (message ++ 0 ∷ []),
        )
        refl

  publish_source-sends :
      (calls : List Syscall)
      → publish_source os n input o s topic calls ≡ some (tt, publication ∷ calls)
  unfolding publish_source
  publish_source-sends calls =
      rw (m.not_empty, m.not_binary, m.has_message, publish_payload-sends calls) refl

  connected-publishes :
      (calls : List Syscall)
      → connected os n input o topic (some (s, ok tt)) calls
        ≡ some (
          some 0,
          unlinks (or_else pub_qname o.qname)
              ∷ closes s.qsub
              ∷ closes s.qpub
              ∷ sends s.qpub (topic_msg cmd_close s.fd [] []) 0
              ∷ publication
              ∷ calls,
        )
  unfolding connected issue
  connected-publishes calls =
      rw (publish_source-sends calls, cleanup-sends os s (publication ∷ calls) r (omega arith)) refl

  one_source : ltb 1 (sources o) ≡ false
  one_source = rw (m.has_message, m.not_binary, m.not_empty) refl

  -- Where the options give a topic and one message, none of -e and -B, and psmq_init_named has
  -- succeeded with open queues; where the topic begins with '/' and it, the message and their NULs
  -- fit into a message, of fewer than 2^16 bytes: psmq-pub sends that message, with its NUL and its
  -- priority, and then leaves the broker, closes its queues, unlinks its own and exits with 0; whether
  -- or not the message could be sent.
  pub psmq_pub_main-publishes :
      (atoi : Bytes → ℕ) (args : List (ℕ × Bytes)) (calls calls' : List Syscall)
      → pub_options atoi args no_options ≡ goes_on o
      → init_named os n
          (some (zeroed_psmq os n))
          (some (or_else default_qname o.broker_name))
          (some (or_else pub_qname o.qname))
          2
          calls
        ≡ some (some (s, ok tt), calls')
      → psmq_pub_main os n input atoi args calls
        ≡ some (
          some 0,
          unlinks (or_else pub_qname o.qname)
              ∷ closes s.qsub
              ∷ closes s.qpub
              ∷ sends s.qpub (topic_msg cmd_close s.fd [] []) 0
              ∷ publication
              ∷ calls',
        )
  unfolding psmq_pub_main after_options
  psmq_pub_main-publishes atoi args calls calls' read init = rw read (
      ap (λ t. with_topic os n input o t calls) m.has_topic
      ∙ (unfold with_topic in rw (one_source, init) (connected-publishes calls')))
