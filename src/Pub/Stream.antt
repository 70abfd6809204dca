-- ===== src/Pub/Stream.antt =====
-- src/psmq-pub.c: the messages that a stream becomes.
use psmq.Prelude.{
  ℕ, ◌+◌, ◌-◌, ◌^◌, ◌≤◌, ◌<◌, ◌≡◌, ◌↔◌, refl, ap, true, false, List, [], ◌∷◌, ◌++◌, some, map,
  le→ltb, ◌==◌, length, take, get_or, All, arith,
}
use psmq.CString.{Bytes, IsString}
use psmq.Errno.{Result, ok}
use psmq.Message.{cmd_publish}
use psmq.Topic.{slash}
use psmq.Broker.Reply.Buffer.{topic_msg}
use psmq.Api.State.{Psmq, Os, Syscall, sends}
use psmq.Api.Accepted.Sent.{IsReady, publish_prio-sends}
use psmq.Pub.{room, publish_payload, publish_chunk, send_stdin_binary}

pub take-whole : (bytes : Bytes) → take (length bytes) bytes ≡ bytes
take-whole [] = refl
take-whole (x ∷ bytes) = ap (◌∷◌ x) (take-whole bytes)

-- Where the topic fits, that is what is left of a message behind the topic and its NUL.
room_lem :
    (os : Os) (topic : Bytes)
    → length topic + 1 ≤ os.msg_max
    → os.msg_max < 2 ^ 64
    → room os topic ≡ os.msg_max - (length topic + 1)
unfolding room
room_lem os topic fits wide = omega arith

-- For a topic and a PSMQ_MSG_MAX of fewer than 2^64 bytes, the number of bytes that read() is asked for
-- is no more than the array holds exactly where the topic and its NUL fit into a message.
room-iff-fits :
    (os : Os) (topic : Bytes)
    → length topic + 1 < 2 ^ 64
    → os.msg_max < 2 ^ 64
    → (room os topic ≤ os.msg_max) ↔ (length topic + 1 ≤ os.msg_max)
unfolding room
room-iff-fits os topic short wide = (λ h. omega arith, λ h. omega arith)

-- What read() may give of an input that has not ended.
abbrev pub IsChunk : Os → Bytes → Bytes → Type 0
IsChunk os topic bytes =
    (0 < length bytes) × (length bytes ≤ room os topic) × (length bytes < 2 ^ 16)

module _ (os : Os) (s : Psmq) (t : Bytes) (prio : ℕ) where
  abbrev pub chunk_send : Bytes → Syscall
  chunk_send bytes = sends s.qpub (topic_msg cmd_publish s.fd t bytes) prio

  -- The calls once each chunk was sent, in their order.
  abbrev pub all_sent : List Bytes → List Syscall → List Syscall
  all_sent [] calls = calls
  all_sent (bytes ∷ chunks) calls = all_sent chunks (chunk_send bytes ∷ calls)

module _ (os : Os) (s : Psmq) (t : Bytes) (prio : ℕ) (r : IsReady s)
    (slashed : (get_or t 0 0 == slash) ≡ true) (h : IsString t) (fits : length t + 1 ≤ os.msg_max)
    (wide : os.msg_max < 2 ^ 64)
    (sends_all : (calls : List Syscall) (c : Syscall) → os.mq_send calls c ≡ ok tt) where
  publish_chunk-sends :
      (bytes : Bytes) (calls : List Syscall)
      → IsChunk os t bytes
      → publish_chunk os s t prio bytes calls ≡ some (true, chunk_send os s t prio bytes ∷ calls)
  unfolding publish_chunk publish_payload
  publish_chunk-sends bytes calls k =
      let e = room_lem os t fits wide in
      rw (
        publish_prio-sends os s t calls r slashed h bytes (length bytes) prio (omega arith) wide
            (omega arith) k.2,
        sends_all calls _,
        take-whole bytes,
      )

  -- Where the client's queues are open, the topic begins with '/' and fits a message, and every send
  -- succeeds: an input that read() gives in chunks of at least one byte and no more than it is asked
  -- for, up to its end, is published chunk by chunk, each as one message, whole and in order.
  pub send_stdin_binary-streams :
      (chunks : List Bytes) (rest : List (Result Bytes)) (calls : List Syscall)
      → All (IsChunk os t) chunks
      → send_stdin_binary os s t prio (map ok chunks ++ ok [] ∷ rest) calls
        ≡ some (tt, all_sent os s t prio chunks calls)
  unfolding send_stdin_binary
  send_stdin_binary-streams [] rest calls hs = rw (le→ltb os.msg_max 0 (omega arith)) refl
  send_stdin_binary-streams (bytes ∷ chunks) rest calls hs =
      let e = room_lem os t fits wide in
      let some_bytes : (length bytes == 0) ≡ false = ground (arith, hs.0.0) in
      rw
        (
          le→ltb os.msg_max (length bytes) (omega (arith, hs.0.1)),
          some_bytes,
          publish_chunk-sends bytes calls hs.0,
        )
        (send_stdin_binary-streams chunks rest (chunk_send os s t prio bytes ∷ calls) hs.1)
