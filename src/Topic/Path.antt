-- ===== src/Topic/Path.antt =====
-- Which topics can be subscribed to: those that are written from non-empty parts.
use psmq.Prelude.{
  ℕ, ==_iff, subst, ◌≤◌, ◌<◌, ◌≡◌, refl, sym, ap, ◌∙◌, ◌↔◌, ◌≢◌, Bool, true, false, not, ◌||◌, List,
  [], ◌∷◌, ◌++◌, ◌==◌, if◌then◌else◌, length, length-append, Bool-cases, inl, inr, arith,
}
use psmq.CString.{Bytes}
use psmq.CString.Strtok.{split, push_byte, non_empty, tokens}
use psmq.Topic.{slash, has_double_slash, last_byte, subscribe_refuses}

-- The topic with the given parts.
abbrev pub path : List Bytes → Bytes
path [] = []
path (t ∷ ts) = slash ∷ (t ++ path ts)

abbrev all_non_empty : List Bytes → Bool
all_non_empty [] = true
all_non_empty ([] ∷ ts) = false
all_non_empty ((c ∷ t) ∷ ts) = all_non_empty ts

path-push_byte :
    (c : ℕ) (l : List Bytes) (s : Bytes) → path l ≡ slash ∷ s → path (push_byte c l) ≡ slash ∷ c ∷ s
path-push_byte c [] s h = cc
path-push_byte c (t ∷ ts) s h = ground arith

path-split : (s : Bytes) → path (split slash s) ≡ slash ∷ s
path-split [] = refl
path-split (c ∷ s) = ground (arith, path-split s, path-push_byte c (split slash s) s (path-split s))

all_non_empty-push_byte :
    (c d : ℕ) (l : List Bytes)
    → all_non_empty (push_byte c (push_byte d l)) ≡ all_non_empty (push_byte d l)
all_non_empty-push_byte c d [] = refl
all_non_empty-push_byte c d (t ∷ ts) = refl

-- The two tests on the slashes fail together exactly when every part holds a byte.
slashes_lem :
    (c : ℕ) (s : Bytes)
    → ((last_byte (c ∷ s) == slash) || has_double_slash (c ∷ s))
      ≡ not (all_non_empty (if c == slash then split slash s else split slash (c ∷ s)))
unfolding has_double_slash
slashes_lem c [] = ground arith
slashes_lem c (d ∷ s) = ground (arith, slashes_lem d s, all_non_empty-push_byte c d (split slash s))

non_empty_idem : (l : List Bytes) → all_non_empty l ≡ true → non_empty l ≡ l
non_empty_idem [] h = refl
non_empty_idem ([] ∷ ts) h = cc
non_empty_idem ((c ∷ t) ∷ ts) h = ap (◌∷◌ (c ∷ t)) (non_empty_idem ts h)

length-path-non_empty : (l : List Bytes) → length (path (non_empty l)) ≤ length (path l)
length-path-non_empty [] = omega arith
length-path-non_empty ([] ∷ ts) = omega (arith, length-path-non_empty ts)
length-path-non_empty ((c ∷ t) ∷ ts) = omega (
  arith,
  length-path-non_empty ts,
  length-append t (path ts),
  length-append t (path (non_empty ts)),
)

path_shrinks :
    (l : List Bytes) → all_non_empty l ≡ false → length (path (non_empty l)) < length (path l)
path_shrinks [] h = cc
path_shrinks ([] ∷ ts) h = omega (arith, length-path-non_empty ts)
path_shrinks ((c ∷ t) ∷ ts) h =
    omega
      (arith, path_shrinks ts h, length-append t (path ts), length-append t (path (non_empty ts)))

path-tokens_iff :
    (s : Bytes)
    → (path (tokens slash (slash ∷ s)) ≡ slash ∷ s) ↔ (all_non_empty (split slash s) ≡ true)
unfolding tokens
path-tokens_iff s = (to, from)
  where
    to : path (non_empty (split slash s)) ≡ slash ∷ s → all_non_empty (split slash s) ≡ true
    to h = elim (Bool-cases (all_non_empty (split slash s))) [
      | inl e ↦ e
      | inr e ↦
          absurd
            (omega (arith, path_shrinks (split slash s) e, ap length h, ap length (path-split s)))
    ]

    from : all_non_empty (split slash s) ≡ true → path (non_empty (split slash s)) ≡ slash ∷ s
    from h = ap path (non_empty_idem (split slash s) h) ∙ path-split s

-- A topic that begins with another byte is no path.
path-ne : (c : ℕ) (s : Bytes) (l : List Bytes) → (c == slash) ≡ false → path l ≢ c ∷ s
path-ne c s [] h e = cc
path-ne c s (t ∷ ts) h e = ground arith

refuses-slash :
    (s : Bytes) (paylen : ℕ)
    → (subscribe_refuses (slash ∷ s) paylen ≡ false)
      ↔ ((paylen ≡ 0) × (all_non_empty (split slash s) ≡ true))
unfolding subscribe_refuses
refuses-slash [] paylen = (λ h. ground arith, λ h. ground arith)
refuses-slash (d ∷ s) paylen =
    (λ h. ground (arith, slashes_lem slash (d ∷ s)), λ h. ground (arith, slashes_lem slash (d ∷ s)))

refuses-path :
    (s : Bytes) (paylen : ℕ)
    → (subscribe_refuses (slash ∷ s) paylen ≡ false)
      ↔ ((paylen ≡ 0) × (slash ∷ s ≢ []) × (path (tokens slash (slash ∷ s)) ≡ slash ∷ s))
refuses-path s paylen = (
  λ h. let k = (refuses-slash s paylen).0 h in (k.0, λ e. cc, (path-tokens_iff s).1 k.1),
  λ h. (refuses-slash s paylen).1 (h.0, (path-tokens_iff s).0 h.2),
)

-- A subscription is accepted exactly when it carries no payload and its topic is written from
-- non-empty parts, a '/' before each: `/a/b`, but not ``, `/`, `a`, `/a/` or `/a//b`.
pub subscribe_refuses-iff-path :
    (stopic : Bytes) (paylen : ℕ)
    → (subscribe_refuses stopic paylen ≡ false)
      ↔ ((paylen ≡ 0) × (stopic ≢ []) × (path (tokens slash stopic) ≡ stopic))
unfolding subscribe_refuses
subscribe_refuses-iff-path [] paylen = (λ h. ground arith, λ h. absurd (h.1 refl))
subscribe_refuses-iff-path (c ∷ s) paylen = elim (Bool-cases (c == slash)) [
  | inl e ↦
      subst
        (λ b.
          (subscribe_refuses (b ∷ s) paylen ≡ false)
          ↔ ((paylen ≡ 0) × (b ∷ s ≢ []) × (path (tokens slash (b ∷ s)) ≡ b ∷ s)))
        (sym ((==_iff c slash).0 e)) (refuses-path s paylen)
  | inr e ↦ (λ h. ground arith, λ h. absurd (path-ne c s (tokens slash (c ∷ s)) e h.2))
]
