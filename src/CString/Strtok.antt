-- ===== src/CString/Strtok.antt =====
-- strtok_r(): the tokens of a string, taken one at a time, are the non-empty parts between the
-- delimiters.
use psmq.Prelude.{
  ap, sym, ◌∙◌, ℕ, ◌≤◌, ◌<◌, ◌≡◌, refl, false, List, [], ◌∷◌, Option, none, some, ◌⊎◌, inl, inr,
  ◌==◌, if◌then◌else◌, length, Bool-cases, arith,
}
use psmq.CString.{Bytes}

-- The leading delimiters are passed over.
abbrev pub skip : ℕ → Bytes → Bytes
skip d [] = []
skip d (c ∷ s) = if c == d then skip d s else c ∷ s

-- The bytes up to the next delimiter, and what stands behind that delimiter.
abbrev pub take_token : ℕ → Bytes → Bytes × Bytes
take_token d [] = ([], [])
take_token d (c ∷ s) = let (t, r) = take_token d s in if c == d then ([], s) else (c ∷ t, r)

abbrev pub token_at : ℕ → Bytes → Option (Bytes × Bytes)
token_at d [] = none
token_at d (c ∷ s) = some (take_token d (c ∷ s))

-- One call: the token and the saved pointer, or `none` for NULL.
unfoldable pub strtok_r : ℕ → Bytes → Option (Bytes × Bytes)
strtok_r d s = token_at d (skip d s)

-- All parts between delimiters, empty ones included; then the non-empty ones.
abbrev pub push_byte : ℕ → List Bytes → List Bytes
push_byte c [] = (c ∷ []) ∷ []
push_byte c (t ∷ ts) = (c ∷ t) ∷ ts

abbrev pub split : ℕ → Bytes → List Bytes
split d [] = [] ∷ []
split d (c ∷ s) = if c == d then [] ∷ split d s else push_byte c (split d s)

abbrev pub non_empty : List Bytes → List Bytes
non_empty [] = []
non_empty ([] ∷ ts) = non_empty ts
non_empty ((c ∷ t) ∷ ts) = (c ∷ t) ∷ non_empty ts

unfoldable pub tokens : ℕ → Bytes → List Bytes
tokens d s = non_empty (split d s)

tokens-nil : (d : ℕ) → tokens d [] ≡ []
unfolding tokens
tokens-nil d = refl

tokens-skip : (d : ℕ) (s : Bytes) → tokens d (skip d s) ≡ tokens d s
unfolding tokens
tokens-skip d [] = refl
tokens-skip d (c ∷ s) = ground (arith, tokens-skip d s)

-- The token is the first part; where no delimiter follows, it is the last one too.
split-take_token :
    (d : ℕ) (s : Bytes)
    → (split d s ≡ (take_token d s).0 ∷ split d (take_token d s).1)
      ⊎ ((split d s ≡ (take_token d s).0 ∷ []) × ((take_token d s).1 ≡ []))
split-take_token d [] = inr (refl, refl)
split-take_token d (c ∷ s) = ground (arith, split-take_token d s)

length-take_token : (d : ℕ) (s : Bytes) → length (take_token d s).1 ≤ length s
length-take_token d [] = omega arith
length-take_token d (c ∷ s) = ground (arith, length-take_token d s)

length-skip : (d : ℕ) (s : Bytes) → length (skip d s) ≤ length s
length-skip d [] = omega arith
length-skip d (c ∷ s) = ground (arith, length-skip d s)

-- A token takes at least one byte.
length-take_token_cons :
    (d c : ℕ) (s : Bytes) → (c == d) ≡ false → length (take_token d (c ∷ s)).1 ≤ length s
length-take_token_cons d c s h = ground (arith, length-take_token d s)

-- Where `strtok_r` stops: at a byte that is no delimiter.
skip-head :
    (d : ℕ) (s : Bytes)
    → (skip d s ≡ []) ⊎ ((c : ℕ) × (r : Bytes) × (skip d s ≡ c ∷ r) × ((c == d) ≡ false))
skip-head d [] = inl refl
skip-head d (c ∷ s) = elim (Bool-cases (c == d)) [
  | inl e ↦ rw e (skip-head d s)
  | inr e ↦ rw e (inr (c, s, refl, e))
]

abbrev pub Takes : ℕ → Bytes → Option (Bytes × Bytes) → Type 0
Takes d s o =
    ((o ≡ none) × (tokens d s ≡ []))
    ⊎ ((t : Bytes) × (r : Bytes) × (o ≡ some (t, r))
        × (tokens d s ≡ t ∷ tokens d r)
        × (length r < length s))

token_at-Takes :
    (d c : ℕ) (s : Bytes)
    → (c == d) ≡ false
    → tokens d (c ∷ s) ≡ (take_token d (c ∷ s)).0 ∷ tokens d (take_token d (c ∷ s)).1
unfolding tokens
token_at-Takes d c s h = ground (arith, split-take_token d s)

-- A call of `strtok_r` splits the first token off, or there is none left.
pub strtok_r-Takes : (d : ℕ) (s : Bytes) → Takes d s (strtok_r d s)
unfolding strtok_r
strtok_r-Takes d s = elim (skip-head d s) [
  | inl e ↦ inl (rw e, sym (tokens-skip d s) ∙ ap (tokens d) e ∙ tokens-nil d)
  | inr (c, r, e, ne) ↦ inr (
    (take_token d (c ∷ r)).0,
    (take_token d (c ∷ r)).1,
    rw e,
    sym (tokens-skip d s) ∙ ap (tokens d) e ∙ token_at-Takes d c r ne,
    omega (arith, length-take_token_cons d c r ne, length-skip d s, ap length e),
  )
]
