-- ===== src/Pub/Lines.antt =====
-- src/psmq-pub.c: the messages that lines become.
pub mod Buffer
use psmq.Prelude.{
  ℕ, zero, suc, ◌+◌, ◌-◌, ◌^◌, ◌%◌, ◌≤◌, ◌<◌, ◌≡◌, refl, sym, ◌∙◌, true, false, List, [], ◌∷◌, ◌++◌,
  Option, none, some, map, Bool-cases, inl, inr, lt→ltb, le→ltb, leb, ◌==◌, length, length-append,
  length-set, length-drop, append_assoc, drop, set, get_elem?, get_elem?-append, get_elem?-set_self,
  set-append, take-append, get_or, All, arith,
}
use psmq.CString.{Bytes, IsString, c_str-append, strlen, memcpy}
use psmq.Errno.{ok}
use psmq.Topic.{slash}
use psmq.Api.State.{Psmq, Os, Syscall}
use psmq.Api.Accepted.Sent.{IsReady, publish_prio-sends}
use psmq.Pub.{
  publish_payload, minus, store_byte, too_long, send_line, read_line, send_lines, send_stdin,
}
use psmq.Pub.Stream.{all_sent, chunk_send}
use psmq.Pub.Lines.Buffer.{
  minus_lem, memcpy-start, IsLine, ended, filled, filled-fits, strlen-filled, filled-ended,
}

module _ (os : Os) (s : Psmq) (t : Bytes) (prio : ℕ) (r : IsReady s)
    (slashed : (get_or t 0 0 == slash) ≡ true) (h : IsString t) (fits : length t + 2 ≤ os.msg_max)
    (short : os.msg_max ≤ 2 ^ 16)
    (sends_all : (calls : List Syscall) (c : Syscall) → os.mq_send calls c ≡ ok tt) where
  -- The bytes that a line may take, with its end and a NUL.
  abbrev pub linemax : ℕ
  linemax = os.msg_max - (length t + 1)

  publish_line :
      (x rest : Bytes) (calls : List Syscall)
      → IsLine linemax x
      → publish_payload os s t prio (some (x ++ 0 ∷ 0 ∷ rest)) (length x + 1) calls
        ≡ some (true, chunk_send os s t prio (x ++ 0 ∷ []) ∷ calls)
  unfolding publish_payload
  publish_line x rest calls k =
      let e : x ++ 0 ∷ 0 ∷ rest ≡ (x ++ 0 ∷ []) ++ 0 ∷ rest =
        sym (append_assoc x (0 ∷ []) (0 ∷ rest)) in
      let len : length x + 1 ≡ length (x ++ 0 ∷ []) = omega (arith, length-append x (0 ∷ [])) in
      rw
        (
          e,
          publish_prio-sends os s t calls r slashed h ((x ++ 0 ∷ []) ++ 0 ∷ rest) (length x + 1)
              prio (omega arith) (omega arith)
              (omega (arith, length-append (x ++ 0 ∷ []) (0 ∷ rest))) (omega arith),
          sends_all calls _,
          take-append (length x + 1) (x ++ 0 ∷ []) (0 ∷ rest) len,
        )
        refl

  send_line-publishes :
      (x m : Bytes) (calls : List Syscall)
      → IsLine linemax x
      → length m ≡ os.msg_max
      → get_elem? m (linemax - 1) ≡ some 85
      → send_line os s t prio linemax (filled x m) calls
        ≡ some (
          (true, x ++ 0 ∷ 0 ∷ drop (length (ended x ++ 0 ∷ [])) m),
          chunk_send os s t prio (x ++ 0 ∷ []) ∷ calls,
        )
  unfolding send_line
  send_line-publishes x m calls k big marked =
      let rest = drop (length (ended x ++ 0 ∷ [])) m in
      let paylen : (length x + 1) % 2 ^ 32 ≡ length x + 1 = omega arith in
      let last : minus (length x + 1) 1 ≡ length x =
        minus_lem (length x + 1) 1 (omega arith) (omega arith) ∙ omega arith in
      rw
        (
          filled-fits linemax x m k (omega arith) (omega arith) marked,
          strlen-filled linemax x m k (omega arith) (omega arith) marked,
          paylen,
          last,
          filled-ended linemax x m k (omega arith) (omega arith) marked,
          publish_line x rest calls k,
        )
        refl

  mark-line :
      (line : Bytes)
      → length line ≡ os.msg_max
      → store_byte (minus linemax 1) 85 line ≡ some (set line (linemax - 1) 85)
  unfolding store_byte
  mark-line line big =
      rw
        (
          minus_lem linemax 1 (omega arith) (omega arith),
          lt→ltb (linemax - 1) (length line) (omega arith),
        )
        refl

  -- The buffer after a line was published.
  abbrev used : Bytes → Bytes → Bytes
  used x m = x ++ 0 ∷ 0 ∷ drop (length (ended x ++ 0 ∷ [])) m

  length-used :
      (x m : Bytes) → IsLine linemax x → length m ≡ os.msg_max → length (used x m) ≡ os.msg_max
  length-used x m k big = omega (
    arith,
    length-append x (0 ∷ 0 ∷ drop (length (ended x ++ 0 ∷ [])) m),
    length-drop (length (ended x ++ 0 ∷ [])) m,
    length-append (ended x) (0 ∷ []),
    length-append x (10 ∷ []),
  )

  read_line-publishes :
      (x line : Bytes) (calls : List Syscall)
      → IsLine linemax x
      → length line ≡ os.msg_max
      → read_line os s t prio linemax (set line (linemax - 1) 85) (some (ended x)) calls
        ≡ some (
          (true, used x (set line (linemax - 1) 85)),
          chunk_send os s t prio (x ++ 0 ∷ []) ∷ calls,
        )
  unfolding read_line
  read_line-publishes x line calls k big =
      let m = set line (linemax - 1) 85 in
      let len : length m ≡ os.msg_max = length-set line (linemax - 1) 85 ∙ big in
      rw
        (memcpy-start (ended x ++ 0 ∷ []) m
          (omega (arith, length-append (ended x) (0 ∷ []), length-append x (10 ∷ []))))
        (send_line-publishes x m calls k len
          (get_elem?-set_self line (linemax - 1) 85 (omega arith)))

  send_lines-publishes :
      (xs : List Bytes) (rest : List (Option Bytes)) (line : Bytes) (calls : List Syscall)
      → All (IsLine linemax) xs
      → length line ≡ os.msg_max
      → send_lines os s t prio linemax line (map (λ x. some (ended x)) xs ++ none ∷ rest) calls
        ≡ some (tt, all_sent os s t prio (map (λ x. x ++ 0 ∷ []) xs) calls)
  unfolding send_lines
  send_lines-publishes [] rest line calls hs big =
      rw (mark-line line big) (unfold read_line in refl)
  send_lines-publishes (x ∷ xs) rest line calls hs big =
      rw (mark-line line big, read_line-publishes x line calls hs.0 big)
        (send_lines-publishes xs rest (used x (set line (linemax - 1) 85))
          (chunk_send os s t prio (x ++ 0 ∷ []) ∷ calls) hs.1
          (length-used x _ hs.0 (length-set line (linemax - 1) 85 ∙ big)))

  -- Where the client's queues are open, PSMQ_MSG_MAX is 2^16 at most, the topic begins with '/' and
  -- leaves a byte of a message, and every send succeeds: an input of lines that are short enough, without
  -- a NUL, is published line by line, each as one message that ends with a NUL in place of the newline,
  -- in order, up to the end of the input.
  pub send_stdin-publishes :
      (xs : List Bytes) (rest : List (Option Bytes)) (line : Bytes) (calls : List Syscall)
      → All (IsLine linemax) xs
      → length line ≡ os.msg_max
      → send_stdin os s t prio line (map (λ x. some (ended x)) xs ++ none ∷ rest) calls
        ≡ some (tt, all_sent os s t prio (map (λ x. x ++ 0 ∷ []) xs) calls)
  unfolding send_stdin
  send_stdin-publishes xs rest line calls hs big =
      let topiclen : length t % 2 ^ 32 ≡ length t = omega arith in
      let small : leb os.msg_max (length t) ≡ false = ground arith in
      let room : linemax % 2 ^ 32 ≡ linemax = omega arith in
      rw (topiclen, small, room) (send_lines-publishes xs rest line calls hs big)

-- Where the topic and its NUL fill a whole message: before it reads anything, send_stdin writes past
-- the end of its buffer.
send_stdin-overflow :
    (os : Os) (s : Psmq) (t : Bytes) (prio : ℕ) (line : Bytes) (got : Option Bytes)
    (gots : List (Option Bytes)) (calls : List Syscall)
    → length t + 1 ≡ os.msg_max
    → length line ≡ os.msg_max
    → os.msg_max < 2 ^ 32
    → send_stdin os s t prio line (got ∷ gots) calls ≡ none
unfolding send_stdin send_lines store_byte minus
send_stdin-overflow os s t prio line got gots calls full big short =
    let topiclen : length t % 2 ^ 32 ≡ length t = omega arith in
    let small : leb os.msg_max (length t) ≡ false = ground arith in
    let room : (os.msg_max - (length t + 1)) % 2 ^ 32 ≡ 0 = omega arith in
    let far : (0 + 2 ^ 32 - 1) % 2 ^ 32 ≡ 2 ^ 32 - 1 = omega arith in
    rw (topiclen, small, room, far, le→ltb (2 ^ 32 - 1) (length line) (omega arith)) refl
