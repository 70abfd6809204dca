-- ===== src/Pub.antt =====
-- src/psmq-pub.c: publishing what is read from the standard input, line by line or in binary.
pub mod Stream
pub mod Lines
pub mod Program
use psmq.Prelude.{
  ℕ, ◌+◌, ◌-◌, ◌%◌, ◌^◌, Bool, true, false, List, [], ◌∷◌, Option, none, some, ltb, leb, ◌==◌, not,
  ◌++◌, set, get_elem?, if◌then◌else◌, length,
}
use psmq.CString.{Bytes, strlen, memcpy}
use psmq.Errno.{Result, ok, err}
use psmq.Api.State.{Psmq, Os, Run, give, checked, ◌>>=◌}
use psmq.Api.Send.{publish_prio}

-- `sizeof(data) - topiclen`, where topiclen counts the NUL of the topic: a size_t, which wraps.
unfoldable pub room : Os → Bytes → ℕ
room os topic = (2 ^ 64 + os.msg_max - (length topic + 1)) % 2 ^ 64

abbrev pub is_ok : Result (Unit {0}) → Bool
is_ok (ok u) = true
is_ok (err e) = false

module _ (os : Os) (s : Psmq) (topic : Bytes) (prio : ℕ) where
  -- publish: true is 0. What it prints is left out.
  unfoldable pub publish_payload : Option Bytes → ℕ → Run Bool
  publish_payload payload paylen = do
    sent ← publish_prio os (some s) (some topic) payload paylen prio
    give (is_ok sent)

  -- publish of the first bytes of a buffer, as many as were read
  unfoldable pub publish_chunk : Bytes → Run Bool
  unfolding publish_payload
  publish_chunk bytes = publish_payload (some bytes) (length bytes)

  -- send_stdin_binary, as a function of what read() gives: bytes, none of them at the end of the input,
  -- or an error. More bytes than the array has are a fault.
  unfoldable pub send_stdin_binary : List (Result Bytes) → Run (Unit {0})
  send_stdin_binary [] = give tt
  send_stdin_binary (err e ∷ reads) = give tt
  send_stdin_binary (ok bytes ∷ reads) =
      let rest = send_stdin_binary reads in
      if ltb os.msg_max (length bytes)
      then (λ calls. none)
      else if length bytes == 0
      then give tt
      else (do sent ← publish_chunk bytes; if sent then rest else give tt)

-- `n - k` of two unsigned ints
unfoldable pub minus : ℕ → ℕ → ℕ
minus n k = (n + 2 ^ 32 - k) % 2 ^ 32

-- `line[i] = c`; `none` is a write out of bounds.
unfoldable pub store_byte : ℕ → ℕ → Bytes → Option Bytes
store_byte i c line = if ltb i (length line) then some (set line i c) else none

-- `d != '\n'`; a byte that is `none` was read out of bounds.
abbrev pub is_cut : Option ℕ → Option Bool
is_cut none = none
is_cut (some d) = some (not (d == 10))

-- `c == '\0' && d != '\n'`
abbrev pub ends_cut : Option ℕ → Option ℕ → Option Bool
ends_cut none d = none
ends_cut (some c) d = if c == 0 then is_cut d else some false

-- `line[linemax - 1] == '\0' && line[linemax - 2] != '\n'`
unfoldable pub too_long : ℕ → Bytes → Option Bool
too_long linemax line =
    ends_cut (get_elem? line (minus linemax 1)) (get_elem? line (minus linemax 2))

module _ (os : Os) (s : Psmq) (topic : Bytes) (prio : ℕ) where
  -- What send_stdin does with the buffer that fgets() has filled: true where the next line is read.
  unfoldable pub send_line : ℕ → Bytes → Run (Bool × Bytes)
  send_line linemax line = do
    long ← checked (too_long linemax line)
    if long then give (false, line) else do
      let paylen : ℕ = strlen line % 2 ^ 32
      ended ← checked (store_byte (minus paylen 1) 0 line)
      sent ← publish_payload os s topic prio (some ended) paylen
      give (sent, ended)

  -- What fgets() leaves in the buffer, with the last byte that it may use marked: a line, ended with a
  -- NUL; or it gives NULL. Bytes that do not fit into the buffer are a fault.
  unfoldable pub read_line : ℕ → Bytes → Option Bytes → Run (Bool × Bytes)
  read_line linemax marked none = give (false, marked)
  read_line linemax marked (some bytes) = do
    filled ← checked (memcpy 0 (bytes ++ 0 ∷ []) marked)
    send_line linemax filled

  abbrev pub next_line : (Bytes → Run (Unit {0})) → Bool × Bytes → Run (Unit {0})
  next_line rest (true, line) = rest line
  next_line rest (false, line) = give tt

  -- The loop of send_stdin, over what fgets() gives; `line` is the buffer.
  unfoldable pub send_lines : ℕ → Bytes → List (Option Bytes) → Run (Unit {0})
  send_lines linemax line [] = give tt
  send_lines linemax line (got ∷ gots) = do
    marked ← checked (store_byte (minus linemax 1) 85 line)
    read_line linemax marked got >>= next_line (λ line'. send_lines linemax line' gots)

  -- send_stdin, with what is in `line` before the first line is read.
  unfoldable pub send_stdin : Bytes → List (Option Bytes) → Run (Unit {0})
  send_stdin line gots =
      let topiclen = length topic % 2 ^ 32 in
      if leb os.msg_max topiclen
      then give tt
      else send_lines ((os.msg_max - (topiclen + 1)) % 2 ^ 32) line gots
