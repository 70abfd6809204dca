-- ===== src/Pub/Lines/Buffer.antt =====
-- src/psmq-pub.c: the buffer of send_stdin with a line in it.
use psmq.Prelude.{
  ℕ, zero, suc, ◌+◌, ◌-◌, ◌^◌, ◌≤◌, ◌<◌, ◌≡◌, refl, ◌∙◌, false, [], ◌∷◌, ◌++◌, some, Bool-cases,
  inl, inr, lt→ltb, le→ltb, ◌==◌, length, length-append, append_assoc, drop, get_elem?,
  get_elem?-append, set-append, arith,
}
use psmq.CString.{Bytes, IsString, c_str-append, strlen, memcpy}
use psmq.Pub.{minus, store_byte, too_long}

pub minus_lem : (n k : ℕ) → k ≤ n → n < 2 ^ 32 → minus n k ≡ n - k
unfolding minus
minus_lem n k le lt = omega arith

-- Behind what was copied over its beginning, a buffer is as it was.
get_elem?-behind :
    (a m : Bytes) (i : ℕ)
    → length a ≤ i
    → i < length m
    → get_elem? (a ++ drop (length a) m) i ≡ get_elem? m i
get_elem?-behind [] m i le lt = refl
get_elem?-behind (c ∷ a) [] i le lt = absurd (omega arith)
get_elem?-behind (c ∷ a) (y ∷ m) zero le lt = absurd (omega arith)
get_elem?-behind (c ∷ a) (y ∷ m) (suc i) le lt = get_elem?-behind a m i (omega arith) (omega arith)

pub memcpy-start :
    (src buf : Bytes)
    → length src ≤ length buf
    → memcpy 0 src buf ≡ some (src ++ drop (length src) buf)
unfolding memcpy
memcpy-start src buf le =
    let e : 0 + length src ≡ length src = omega arith in
    rw (e, le→ltb (length buf) (length src) le) refl

-- A line of the input, without its end.
abbrev pub IsLine : ℕ → Bytes → Type 0
IsLine linemax x = IsString x × (length x + 2 ≤ linemax)

abbrev pub ended : Bytes → Bytes
ended x = x ++ 10 ∷ []

IsString-ended : (x : Bytes) → IsString x → IsString (ended x)
IsString-ended [] h = (refl, tt)
IsString-ended (c ∷ x) h = (h.0, IsString-ended x h.1)

-- The buffer once fgets() has put a line into it.
abbrev pub filled : Bytes → Bytes → Bytes
filled x m = (ended x ++ 0 ∷ []) ++ drop (length (ended x ++ 0 ∷ [])) m

module _ (linemax : ℕ) (x m : Bytes) (k : IsLine linemax x) (wide : linemax < 2 ^ 32)
    (big : linemax ≤ length m) (marked : get_elem? m (linemax - 1) ≡ some 85) where
  length-line : length (ended x ++ 0 ∷ []) ≡ length x + 2
  length-line = omega (arith, length-append (ended x) (0 ∷ []), length-append x (10 ∷ []))

  filled-nul : get_elem? (filled x m) (length x + 1) ≡ some 0
  filled-nul =
      let rest = drop (length (ended x ++ 0 ∷ [])) m in
      let e : length x + 1 ≡ length (ended x) = omega (arith, length-append x (10 ∷ [])) in
      rw (append_assoc (ended x) (0 ∷ []) rest, e) (get_elem?-append (ended x) rest 0)

  filled-newline : get_elem? (filled x m) (length x) ≡ some 10
  filled-newline =
      let rest = drop (length (ended x ++ 0 ∷ [])) m in
      rw (append_assoc (ended x) (0 ∷ []) rest, append_assoc x (10 ∷ []) (0 ∷ rest))
        (get_elem?-append x (0 ∷ rest) 10)

  filled-mark : length x + 2 < linemax → get_elem? (filled x m) (linemax - 1) ≡ some 85
  filled-mark short =
      get_elem?-behind (ended x ++ 0 ∷ []) m (linemax - 1) (omega (arith, length-line))
        (omega arith)
      ∙ marked

  pub filled-fits : too_long linemax (filled x m) ≡ some false
  unfolding too_long
  filled-fits = elim (Bool-cases (linemax == length x + 2)) [
    | inl e ↦
        let last : minus linemax 1 ≡ length x + 1 =
          minus_lem linemax 1 (omega arith) wide ∙ ground arith in
        let last_but_one : minus linemax 2 ≡ length x =
          minus_lem linemax 2 (omega arith) wide ∙ ground arith in
        rw (last, filled-nul, last_but_one, filled-newline) refl
    | inr e ↦
        let last : minus linemax 1 ≡ linemax - 1 = minus_lem linemax 1 (omega arith) wide in
        rw (last, filled-mark (ground arith)) refl
  ]

  pub strlen-filled : strlen (filled x m) ≡ length x + 1
  unfolding strlen
  strlen-filled =
      let rest = drop (length (ended x ++ 0 ∷ [])) m in
      rw (append_assoc (ended x) (0 ∷ []) rest, c_str-append (ended x) rest (IsString-ended x k.0))
        (length-append x (10 ∷ []))

  pub filled-ended :
      store_byte (length x) 0 (filled x m) ≡ some (x ++ 0 ∷ 0 ∷ drop (length (ended x ++ 0 ∷ [])) m)
  unfolding store_byte
  filled-ended =
      let rest = drop (length (ended x ++ 0 ∷ [])) m in
      let e : filled x m ≡ x ++ 10 ∷ 0 ∷ rest =
        append_assoc (ended x) (0 ∷ []) rest ∙ append_assoc x (10 ∷ []) (0 ∷ rest) in
      rw
        (
          e,
          lt→ltb (length x) (length (x ++ 10 ∷ 0 ∷ rest))
              (omega (arith, length-append x (10 ∷ 0 ∷ rest))),
          set-append x (0 ∷ rest) 10 0,
        )
        refl
