-- ===== src/Broker/Reply.antt =====
-- src/broker.c: sending to a client, and the free slots.
pub mod Buffer
pub mod Sends
pub mod Replies
use psmq.Prelude.{
  ℕ, ◌+◌, ◌%◌, ◌^◌, Bool, true, false, ◌∷◌, [], ◌++◌, List, Option, none, some, ltb, ◌==◌,
  if◌then◌else◌, length, replicate,
}
use psmq.CString.{Bytes, memcpy, read_bytes}
use psmq.Errno.{uchar_max}
use psmq.Message.{Msg, header_size, real_msg_size, sent_bytes}
use psmq.Time.{ms_to_tp}
use psmq.Platform.{Mqd, Platform, sends}
use psmq.Broker.State.{Client, M, pure, lift, ◌>>=◌, ◌>>◌, load_client, store_client, ask}

abbrev pub is_free : Client → Bool
is_free c = elim c.mq [ none ↦ true | some q ↦ false ]

-- psmqd_broker_get_free_client, from slot `fd` on
unfoldable pub free_client_from : ℕ → List Client → ℕ
free_client_from fd [] = uchar_max
free_client_from fd (c ∷ cs) = if is_free c then fd else free_client_from (fd + 1) cs

unfoldable pub get_free_client : M ℕ
get_free_client b = some (free_client_from 0 b.clients, b)

-- `strcpy(msg.data, topic)`, where there is a topic: the buffer, and `topiclen`.
unfoldable pub put_topic : Option Bytes → Bytes → Option (Bytes × ℕ)
put_topic none buf = some (buf, 0)
put_topic (some topic) buf = elim (memcpy 0 (topic ++ 0 ∷ []) buf) [
  | none ↦ none
  | some buf' ↦ some (buf', length topic + 1)
]

-- `if (payload && paylen) memcpy(msg.data + topiclen, payload, paylen)`
unfoldable pub put_payload : Option Bytes → ℕ → Bytes × ℕ → Option Bytes
put_payload none paylen (buf, topiclen) = some buf
put_payload (some payload) paylen (buf, topiclen) =
    if paylen == 0
    then some buf
    else elim (read_bytes paylen payload) [ none ↦ none | some bytes ↦ memcpy topiclen bytes buf ]

module _ (p : Platform) where
  -- psmqd_broker_reply_mq; true is 0. mq_timedsend() reads the first bytes of `msg`, as many as
  -- psmq_real_msg_size() says: more than there are is a fault.
  unfoldable pub reply_mq : Mqd → ℕ → ℕ → Option Bytes → Option Bytes → ℕ → ℕ → ℕ → M Bool
  reply_mq mq cmd status topic payload paylen prio timeout = do
    put ← lift (put_topic topic (replicate p.msg_max 0))
    buf ← lift (put_payload payload paylen put)
    let msg : Msg = record {
      ctrl_cmd = cmd;
      ctrl_data = status;
      paylen = paylen % 2 ^ 16;
      msg_data = buf;
    }
    let size : ℕ = real_msg_size msg
    if ltb (header_size + p.msg_max) size then (λ b. none) else do
      tp ← λ b. some (ms_to_tp (p.clock b.calls) timeout, b)
      ask p.mq_timedsend (sends mq (sent_bytes size msg) prio tp)

  -- psmqd_broker_reply: the counter is an unsigned char.
  unfoldable pub reply : ℕ → ℕ → ℕ → Option Bytes → Option Bytes → ℕ → ℕ → M Bool
  reply fd cmd status topic payload paylen prio = do
    c ← load_client fd
    sent ← reply_mq c.mq cmd status topic payload paylen prio c.reply_timeout
    c' ← load_client fd
    store_client fd (record c' { missed_pubs = if sent then 0 else (c'.missed_pubs + 1) % 256 })
    pure sent

  -- psmqd_broker_reply_ctrl
  unfoldable pub reply_ctrl : ℕ → ℕ → ℕ → Option Bytes → M Bool
  reply_ctrl fd cmd status extra = reply fd cmd status extra none 0 0
