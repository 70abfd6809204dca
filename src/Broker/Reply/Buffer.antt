-- ===== src/Broker/Reply/Buffer.antt =====
-- The buffer of a reply, and the bytes of it that go over the wire.
use psmq.Prelude.{
  ℕ, zero, suc, ◌+◌, ◌-◌, ◌%◌, ◌^◌, ◌≤◌, ◌≡◌, refl, sym, ap, false, [], ◌∷◌, ◌++◌, Option, none,
  some, ◌==◌, le→ltb, length, length-append, length-take, append_assoc, take, arith,
}
use psmq.CString.{Bytes, IsString, c_str, c_str-append, strlen}
use psmq.CString.Copy.{zeros, memcpy_behind, read_bytes_lem, take_filled}
use psmq.Message.{Msg, cmd_ioctl, header_size, real_msg_size, sent_bytes}
use psmq.Time.{ms_to_tp}
use psmq.Platform.{Mqd, Platform, sends}
use psmq.Broker.State.{Broker, ask}
use psmq.Broker.Reply.{put_topic, put_payload, reply_mq}

-- A message with a topic, as it goes over the wire.
abbrev pub topic_msg : ℕ → ℕ → Bytes → Bytes → Msg
topic_msg cmd status topic bytes = record {
  ctrl_cmd = cmd;
  ctrl_data = status;
  paylen = length bytes;
  msg_data = (topic ++ 0 ∷ []) ++ bytes;
}

-- The buffer of a reply with a topic and a payload.
abbrev pub filled : Bytes → Bytes → ℕ → Bytes
filled topic bytes rest = (topic ++ 0 ∷ []) ++ (bytes ++ zeros rest)

pub c_str-filled : (t bytes : Bytes) (n : ℕ) → IsString t → c_str (filled t bytes n) ≡ t
c_str-filled t bytes n h = rw append_assoc (c_str-append t (bytes ++ zeros n) h)

pub length-ended : (t : Bytes) → length (t ++ 0 ∷ []) ≡ length t + 1
length-ended t = length-append t (0 ∷ [])

pub put_topic_lem :
    (t : Bytes) (n : ℕ)
    → length t + 1 ≤ n
    → put_topic (some t) (zeros n)
      ≡ some ((t ++ 0 ∷ []) ++ zeros (n - (length t + 1)), length t + 1)
unfolding put_topic
put_topic_lem t n h =
    let e = length-ended t in
    rw (put_topic, memcpy_behind 0 [] (t ++ 0 ∷ []) n refl (omega arith), e)

pub suc_eq_zero : (k : ℕ) → (suc k == 0) ≡ false
suc_eq_zero k = ground arith

-- The payload goes behind the topic.
pub put_payload_lem :
    (t payload : Bytes) (paylen n : ℕ)
    → length t + 1 + paylen ≤ n
    → paylen ≤ length payload
    → put_payload (some payload) paylen ((t ++ 0 ∷ []) ++ zeros (n - (length t + 1)), length t + 1)
      ≡ some (filled t (take paylen payload) (n - (length t + 1) - paylen))
unfolding put_payload
put_payload_lem t payload zero n fits h =
    let e : n - (length t + 1) ≡ n - (length t + 1) - 0 = omega arith in
    ap (λ k. some ((t ++ 0 ∷ []) ++ zeros k)) e
put_payload_lem t payload (suc k) n fits h =
    let src = take (suc k) payload in
    let len : length src ≡ suc k = omega (arith, length-take (suc k) payload) in
    rw (
      suc_eq_zero k,
      read_bytes_lem (suc k) payload h,
      memcpy_behind (length t + 1) (t ++ 0 ∷ []) src (n - (length t + 1)) (sym (length-ended t))
          (omega arith),
      len,
    )

module _ (p : Platform) (mq : Mqd) (cmd status prio timeout : ℕ) (b : Broker) where
  -- A reply is one send, of the first bytes of the buffer that was filled.
  pub reply_mq-sends :
      (topic payload : Option Bytes) (paylen : ℕ) (put : Bytes × ℕ) (buf : Bytes)
      → put_topic topic (zeros p.msg_max) ≡ some put
      → put_payload payload paylen put ≡ some buf
      → (let msg : Msg = record {
        ctrl_cmd = cmd;
        ctrl_data = status;
        paylen = paylen % 2 ^ 16;
        msg_data = buf;
      } in
          real_msg_size msg ≤ header_size + p.msg_max
          → reply_mq p mq cmd status topic payload paylen prio timeout b
            ≡ ask p.mq_timedsend
                (sends mq
                  (sent_bytes (real_msg_size msg) msg)
                  prio
                  (ms_to_tp (p.clock b.calls) timeout))
                b)
  unfolding reply_mq
  reply_mq-sends topic payload paylen put buf e e' fits =
      rw (e, e', le→ltb (header_size + p.msg_max) (real_msg_size _) fits)

pub put_topic-none : (buf : Bytes) → put_topic none buf ≡ some (buf, 0)
unfolding put_topic
put_topic-none buf = refl

pub put_payload-none :
    (paylen topiclen : ℕ) (buf : Bytes) → put_payload none paylen (buf, topiclen) ≡ some buf
unfolding put_payload
put_payload-none paylen topiclen buf = refl

pub zeros_pos : (n : ℕ) → 1 ≤ n → zeros n ≡ 0 ∷ zeros (n - 1)
zeros_pos n h = let e : n ≡ suc (n - 1) = omega arith in ap zeros e

abbrev pub filled_msg : ℕ → ℕ → Bytes → Bytes → ℕ → Msg
filled_msg cmd status t bytes rest = record {
  ctrl_cmd = cmd;
  ctrl_data = status;
  paylen = length bytes;
  msg_data = filled t bytes rest;
}

pub real_msg_size-filled :
    (cmd status : ℕ) (t bytes : Bytes) (n : ℕ)
    → (cmd == cmd_ioctl) ≡ false
    → IsString t
    → real_msg_size (filled_msg cmd status t bytes n) ≡ header_size + (length t + 1) + length bytes
unfolding real_msg_size strlen
real_msg_size-filled cmd status t bytes n e h = rw (e, c_str-filled t bytes n h)

pub sent_bytes-filled :
    (cmd status : ℕ) (t bytes : Bytes) (n : ℕ)
    → (cmd == cmd_ioctl) ≡ false
    → IsString t
    → sent_bytes (real_msg_size (filled_msg cmd status t bytes n)) (filled_msg cmd status t bytes n)
      ≡ topic_msg cmd status t bytes
unfolding sent_bytes
sent_bytes-filled cmd status t bytes n e h =
    ap (λ d. record { ctrl_cmd = cmd; ctrl_data = status; paylen = length bytes; msg_data = d })
      (take_filled (t ++ 0 ∷ []) bytes _ n
        (omega (arith, real_msg_size-filled cmd status t bytes n e h, length-ended t)))
