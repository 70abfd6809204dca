-- ===== src/Api/Accepted/Received.antt =====
-- lib/psmq.c against src/broker.c: what the client library sends, as the main loop receives it.
use psmq.Prelude.{
  ◌⊎◌, inl, inr, ℕ, ◌+◌, ◌-◌, ◌^◌, ◌≤◌, ◌<◌, ◌≡◌, refl, sym, ap, ◌∙◌, true, false, List, [], ◌∷◌,
  ◌++◌, some, ◌==◌, length, length-append, length-take, length-replicate, take, take-append, drop,
  drop-append, get_or, append_assoc, arith,
}
use psmq.CString.{Bytes, IsString, c_str, strlen}
use psmq.CString.Copy.{zeros}
use psmq.Message.{
  Msg, topic, payload, received, cmd_ioctl, cmd_open, cmd_publish, cmd_subscribe, cmd_unsubscribe,
}
use psmq.Platform.{Platform}
use psmq.Topic.{slash}
use psmq.Broker.Reply.Buffer.{topic_msg, filled, c_str-filled, length-ended}
use psmq.Broker.Loop.{accepts, topic_length}
use psmq.Api.State.{Psmq, Os, Syscall, sends}
use psmq.Api.Send.{publish_prio, subscribe, unsubscribe}
use psmq.Api.Accepted.Sent.{IsReady, publish_prio-sends, request_topic-sends}

pub received-filled :
    (n cmd fd : ℕ) (t bytes : Bytes)
    → (received n (topic_msg cmd fd t bytes)).msg_data
      ≡ filled t bytes (n - length ((t ++ 0 ∷ []) ++ bytes))
unfolding received
received-filled n cmd fd t bytes = append_assoc (t ++ 0 ∷ []) bytes _

payload-filled :
    (t bytes : Bytes) (n : ℕ) → take (length bytes) (drop (length t + 1) (filled t bytes n)) ≡ bytes
payload-filled t bytes n =
    rw (drop-append (length t + 1) (t ++ 0 ∷ []) (bytes ++ zeros n) (sym (length-ended t)))
      (take-append (length bytes) bytes (zeros n) refl)

pub length-received :
    (n cmd fd : ℕ) (t bytes : Bytes)
    → length t + 1 + length bytes ≤ n
    → length (received n (topic_msg cmd fd t bytes)).msg_data ≡ n
unfolding received
length-received n cmd fd t bytes fits =
    let m = (t ++ 0 ∷ []) ++ bytes in
    omega (
      arith,
      length-append m (zeros (n - length m)),
      length-replicate {A = ℕ} (n - length m) 0,
      length-append (t ++ 0 ∷ []) bytes,
      length-ended t,
    )

-- What the main loop reads out of a message with a topic.
pub record Reads (p : Platform) (msg : Msg) (t bytes : Bytes) : Type 0 where
  -- the checks let it through
  pub passes : accepts p msg ≡ some true
  pub topic_read : topic msg ≡ t
  pub payload_read : take msg.paylen (payload msg) ≡ bytes

module _ (p : Platform) (cmd fd : ℕ) (t bytes : Bytes) (c : (cmd == cmd_ioctl) ≡ false)
    (h : IsString t) (fits : length t + 1 + length bytes ≤ p.msg_max) where
  received-topic : topic (received p.msg_max (topic_msg cmd fd t bytes)) ≡ t
  received-topic = ap c_str (received-filled p.msg_max cmd fd t bytes) ∙ c_str-filled t bytes _ h

  received-payload :
      take (length bytes) (payload (received p.msg_max (topic_msg cmd fd t bytes))) ≡ bytes
  unfolding payload received strlen
  received-payload =
      let e = received-topic in
      let d = received-filled p.msg_max cmd fd t bytes in rw (c, e, d) (payload-filled t bytes _)

  received-accepted :
      (fd < p.max_clients) ⊎ (cmd ≡ cmd_open)
      → accepts p (received p.msg_max (topic_msg cmd fd t bytes)) ≡ some true
  unfolding accepts topic_length strlen received
  received-accepted slot =
      let e = ap length received-topic in
      let size = length-received p.msg_max cmd fd t bytes (omega (arith, length-ended t)) in
      elim slot [ inl lt ↦ ground (arith, e, size) | inr o ↦ ground (arith, e, size) ]

  pub received-Reads :
      (fd < p.max_clients) ⊎ (cmd ≡ cmd_open)
      → Reads p (received p.msg_max (topic_msg cmd fd t bytes)) t bytes
  unfolding received
  received-Reads slot = record {
    passes = received-accepted slot;
    topic_read = received-topic;
    payload_read = received-payload;
  }

module _ (os : Os) (p : Platform) (s : Psmq) (t : Bytes) (calls : List Syscall)
    (same : os.msg_max ≡ p.msg_max) (r : IsReady s) (slot : s.fd < p.max_clients)
    (slashed : (get_or t 0 0 == slash) ≡ true) (h : IsString t) where
  -- Where the client's queues are open, its slot is one of the broker's, both were built with the
  -- same PSMQ_MSG_MAX, the topic begins with '/' and fits a message together with the payload, and the
  -- payload is as long as it is said to be and shorter than 2^16 bytes:
  -- psmq_publish_prio sends one message, which the checks of the broker's main loop let through, and
  -- in which it finds the same topic and the same payload.
  pub publish_prio-Reads :
      (payload : Bytes) (paylen prio : ℕ)
      → length t + 1 + paylen ≤ os.msg_max
      → os.msg_max < 2 ^ 64
      → paylen ≤ length payload
      → paylen < 2 ^ 16
      → (let m = topic_msg cmd_publish s.fd t (take paylen payload) in
          let c = sends s.qpub m prio in
          (publish_prio os (some s) (some t) (some payload) paylen prio calls
            ≡ some (os.mq_send calls c, c ∷ calls))
          × Reads p (received p.msg_max m) t (take paylen payload))
  publish_prio-Reads payload paylen prio fits wide len short =
      let k : length (take paylen payload) ≡ paylen = omega (arith, length-take paylen payload) in
      (
        publish_prio-sends os s t calls r slashed h payload paylen prio fits wide len short,
        received-Reads p cmd_publish s.fd t (take paylen payload) refl h (omega arith) (inl slot),
      )

  -- Where the client's queues are open, its slot is one of the broker's, both were built with the
  -- same PSMQ_MSG_MAX, and the topic begins with '/' and fits a message: psmq_subscribe sends one message, which the checks of the broker's main
  -- loop let through, and in which it finds the same topic and no payload; and so does
  -- psmq_unsubscribe.
  pub request_topic-Reads :
      length t + 1 ≤ os.msg_max
      → (let sub = topic_msg cmd_subscribe s.fd t [] in
          let unsub = topic_msg cmd_unsubscribe s.fd t [] in
          let c = sends s.qpub sub 0 in
          let d = sends s.qpub unsub 0 in
          (subscribe os (some s) (some t) calls ≡ some (os.mq_send calls c, c ∷ calls))
          × Reads p (received p.msg_max sub) t []
          × (unsubscribe os (some s) (some t) calls ≡ some (os.mq_send calls d, d ∷ calls))
          × Reads p (received p.msg_max unsub) t [])
  unfolding subscribe unsubscribe
  request_topic-Reads fits = (
    request_topic-sends os s t calls r slashed h cmd_subscribe refl fits,
    received-Reads p cmd_subscribe s.fd t [] refl h (omega arith) (inl slot),
    request_topic-sends os s t calls r slashed h cmd_unsubscribe refl fits,
    received-Reads p cmd_unsubscribe s.fd t [] refl h (omega arith) (inl slot),
  )
