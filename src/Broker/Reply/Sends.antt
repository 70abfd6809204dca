-- ===== src/Broker/Reply/Sends.antt =====
-- What a reply with a topic puts on the client's queue, and what any reply leaves in the broker.
use psmq.Prelude.{
  ℕ, ◌+◌, ◌-◌, ◌%◌, ◌^◌, ◌≤◌, ◌<◌, ◌≡◌, refl, ap, ◌∙◌, Bool, false, [], ◌∷◌, Option, none, some,
  ◌==◌, if◌then◌else◌, lt→ltb, length, length-take, take, get_elem?, set, lt_of_get_elem?, arith,
}
use psmq.CString.{Bytes, IsString}
use psmq.CString.Copy.{zeros}
use psmq.Message.{Msg, cmd_ioctl}
use psmq.Time.{ms_to_tp}
use psmq.Platform.{Mqd, Call, Platform, sends}
use psmq.Broker.State.{Client, Broker, ask, load_client, store_client}
use psmq.Broker.Reply.{put_topic, put_payload, reply_mq, reply}
use psmq.Broker.Reply.Buffer.{
  topic_msg, filled, put_topic_lem, put_payload_lem, reply_mq-sends, put_topic-none,
  put_payload-none, zeros_pos, real_msg_size-filled, sent_bytes-filled,
}

module _ (p : Platform) (mq : Mqd) (cmd status prio timeout : ℕ) (b : Broker) where
  -- The send of a message, as the platform sees it.
  abbrev pub send_of : Msg → Call
  send_of msg = sends mq msg prio (ms_to_tp (p.clock b.calls) timeout)

  pub reply_mq-filled :
      (topic payload : Option Bytes) (paylen : ℕ) (put : Bytes × ℕ) (t bytes : Bytes) (n : ℕ)
      → put_topic topic (zeros p.msg_max) ≡ some put
      → put_payload payload paylen put ≡ some (filled t bytes n)
      → paylen % 2 ^ 16 ≡ length bytes
      → (cmd == cmd_ioctl) ≡ false
      → IsString t
      → length t + 1 + length bytes ≤ p.msg_max
      → reply_mq p mq cmd status topic payload paylen prio timeout b
        ≡ ask p.mq_timedsend (send_of (topic_msg cmd status t bytes)) b
  reply_mq-filled topic payload paylen put t bytes n e e' len c h fits =
      reply_mq-sends p mq cmd status prio timeout b topic payload paylen put (filled t bytes n) e e'
        (rw len (omega (arith, real_msg_size-filled cmd status t bytes n c h)))
      ∙ rw len
          (ap (λ m. ask p.mq_timedsend (send_of m) b) (sent_bytes-filled cmd status t bytes n c h))

  -- With a topic and a payload that fit.
  pub reply_mq-payload :
      (t payload : Bytes) (paylen : ℕ)
      → (cmd == cmd_ioctl) ≡ false
      → IsString t
      → length t + 1 + paylen ≤ p.msg_max
      → paylen ≤ length payload
      → paylen < 2 ^ 16
      → reply_mq p mq cmd status (some t) (some payload) paylen prio timeout b
        ≡ ask p.mq_timedsend (send_of (topic_msg cmd status t (take paylen payload))) b
  reply_mq-payload t payload paylen e h fits len short =
      let k : length (take paylen payload) ≡ paylen = omega (arith, length-take paylen payload) in
      reply_mq-filled (some t) (some payload) paylen _ t (take paylen payload) _
        (put_topic_lem t p.msg_max (omega arith))
        (put_payload_lem t payload paylen p.msg_max fits len) (omega arith) e h (omega arith)

  -- With a topic alone.
  pub reply_mq-topic :
      (t : Bytes)
      → (cmd == cmd_ioctl) ≡ false
      → IsString t
      → length t + 1 ≤ p.msg_max
      → reply_mq p mq cmd status (some t) none 0 prio timeout b
        ≡ ask p.mq_timedsend (send_of (topic_msg cmd status t [])) b
  reply_mq-topic t e h fits =
      reply_mq-filled (some t) none 0 _ t [] _ (put_topic_lem t p.msg_max fits)
        (put_payload-none 0 _ _) refl e h (omega arith)

  -- With neither: the topic is empty.
  pub reply_mq-bare :
      (cmd == cmd_ioctl) ≡ false
      → 1 ≤ p.msg_max
      → reply_mq p mq cmd status none none 0 prio timeout b
        ≡ ask p.mq_timedsend (send_of (topic_msg cmd status [] [])) b
  reply_mq-bare e fits =
      reply_mq-filled none none 0 (zeros p.msg_max, 0) [] [] (p.msg_max - 1) (put_topic-none _)
        (put_payload-none 0 _ _ ∙ ap some (zeros_pos p.msg_max fits)) refl e tt (omega arith)

-- The client behind a reply that was sent, or was not.
abbrev pub heard : Client → Bool → Client
heard c sent = record c { missed_pubs = if sent then 0 else (c.missed_pubs + 1) % 256 }

-- The broker behind a reply: the counter of the client, and the call.
abbrev pub replied : Broker → ℕ → Client → Call → Bool → Broker
replied b fd c call sent = record b {
  clients = set b.clients fd (heard c sent);
  calls = call ∷ b.calls;
}

module _ (fd : ℕ) (b : Broker) {c : Client} (there : get_elem? b.clients fd ≡ some c) where
  pub load_client-there : load_client fd b ≡ some (c, b)
  unfolding load_client
  load_client-there = rw (load_client, there)

  pub store_client-there :
      (c' : Client) → store_client fd c' b ≡ some (tt, record b { clients = set b.clients fd c' })
  unfolding store_client
  store_client-there c' =
      rw (store_client, lt→ltb fd (length b.clients) (lt_of_get_elem? b.clients fd there))

-- A reply to the client in a slot is one send, and the counter says whether it arrived.
pub reply-sends :
    (p : Platform) (fd : ℕ) (b : Broker) {c : Client} (there : get_elem? b.clients fd ≡ some c)
    (cmd status : ℕ) (topic payload : Option Bytes) (paylen prio : ℕ) (call : Call)
    → reply_mq p c.mq cmd status topic payload paylen prio c.reply_timeout b
      ≡ ask p.mq_timedsend call b
    → reply p fd cmd status topic payload paylen prio b
      ≡ some (p.mq_timedsend b.calls call, replied b fd c call (p.mq_timedsend b.calls call))
unfolding reply ask
reply-sends p fd b there cmd status topic payload paylen prio call e = rw (
  load_client-there fd b there,
  e,
  load_client-there fd (record b { calls = call ∷ b.calls }) there,
  store_client-there fd (record b { calls = call ∷ b.calls }) there,
)
