-- ===== src/Zephyr/Copies.antt =====
-- The copies of the arguments in zephyr/psmq_shell.c, and how they come to the memory.
use mathlib.Core.Path.{fun_ext}
use psmq.Prelude.{
  ℕ, ◌+◌, ◌≤◌, ◌<◌, ◌≡◌, refl, ap, ◌∙◌, Bool, true, false, ◌||◌, List, [], ◌∷◌, Option, none, some,
  ◌==◌, ltb, if◌then◌else◌, length, Bool-cases, inl, inr, arith,
}
use psmq.CString.{Bytes}
use psmq.Zephyr.{copy_from}
use psmq.Zephyr.Memory.{
  Ptr, null, pointers, chars, Memory, put, cell, write_pointer, Malloc, IsMalloc, alloc, strdup,
}

-- A copy of each argument: its address, NULL where there was no memory for it, and the argument.
abbrev pub Copies : Type 0
Copies = List (Ptr × Bytes)

abbrev pub originals : Copies → List Bytes
originals [] = []
originals ((p, t) ∷ cs) = t ∷ originals cs

-- What is read of them.
abbrev pub found : Copies → List (Option Bytes)
found [] = []
found ((p, t) ∷ cs) = (if p == null then none else some t) ∷ found cs

abbrev pub has : Ptr → Copies → Bool
has a [] = false
has a ((p, t) ∷ cs) = if p == null then has a cs else (a == p) || has a cs

-- The copies are in memory, at different addresses.
abbrev pub Live : Memory → Copies → Type 0
Live h [] = Unit
Live h ((p, t) ∷ cs) =
    ((p == null) ≡ false → (h p ≡ some (chars t)) × (has p cs ≡ false)) × Live h cs

-- The array holds their addresses from that index on.
abbrev pub Points : (ℕ → Option Ptr) → ℕ → Copies → Type 0
Points at i [] = Unit
Points at i ((p, t) ∷ cs) = (at i ≡ some p) × Points at (i + 1) cs

-- What the loop does to the memory from the index i on.
pub record Copied (h g : Memory) (b : Ptr) (n : ℕ) (at : ℕ → Option Ptr) (i : ℕ) (ts : List Bytes)
    : Type 0 where
  pub copies : Copies
  pub entries : ℕ → Option Ptr
  pub these : originals copies ≡ ts
  pub array : g b ≡ some (pointers n entries)
  pub listed : Points entries i copies
  pub before : (j : ℕ) → j < i → entries j ≡ at j
  pub live : Live g copies
  pub beside : (a : Ptr) → (a == b) ≡ false → has a copies ≡ false → g a ≡ h a
  pub fresh : (a : Ptr) → has a copies ≡ true → h a ≡ none

abbrev updated : (ℕ → Option Ptr) → ℕ → Ptr → ℕ → Option Ptr
updated at i p j = if j == i then some p else at j

write_pointer-array :
    (h : Memory) (b : Ptr) (n : ℕ) (at : ℕ → Option Ptr) (i : ℕ) (p : Ptr)
    → (b == null) ≡ false
    → h b ≡ some (pointers n at)
    → i < n
    → write_pointer b i p h ≡ some (tt, put h b (some (pointers n (updated at i p))))
unfolding write_pointer cell
write_pointer-array h b n at i p full e lt =
    let within : ltb i n ≡ true = ground arith in rw (full, e, within) refl

-- The memory behind strdup().
abbrev pub given : Ptr → Bytes → Memory → Memory
given p t h a = if p == null then h a else put h p (some (chars t)) a

pub strdup-given :
    (malloc : Malloc) (t : Bytes) (h : Memory)
    → strdup malloc t h ≡ some (malloc (length t + 1) h, given (malloc (length t + 1) h) t h)
unfolding strdup alloc put
strdup-given malloc t h = elim (Bool-cases (malloc (length t + 1) h == null)) [
  | inl e ↦ let is_null : malloc (length t + 1) h ≡ null = ground arith in rw is_null refl
  | inr e ↦
      let p = malloc (length t + 1) h in
      let same : put h p (some (chars t)) ≡ given p t h = fun_ext λ a. ground arith in
      rw e (ap (λ (m : Memory). some (p, m)) same)
]

module _ (h : Memory) (b : Ptr) (n : ℕ) (at : ℕ → Option Ptr) (i : ℕ) (p : Ptr) (t : Bytes)
    (full : (b == null) ≡ false) (e : h b ≡ some (pointers n at))
    (free_there : (p == null) ≡ false → h p ≡ none) where
  abbrev one_more : Memory
  one_more = put (given p t h) b (some (pointers n (updated at i p)))

  given-array : given p t h b ≡ some (pointers n at)
  unfolding put
  given-array = elim (Bool-cases (p == null)) [
    | inl k ↦ rw (k, e) refl
    | inr k ↦ let gone = free_there k in ground arith
  ]

  is_there : (p == null) ≡ false → ((p == b) ≡ false) × (one_more p ≡ some (chars t))
  unfolding put
  is_there k =
      let gone = free_there k in
      let apart : (p == b) ≡ false = ground arith in (apart, rw (apart, k) (ground arith))

  one_more-Copied :
      {g : Memory} {ts : List Bytes}
      → Copied one_more g b n (updated at i p) (i + 1) ts
      → Copied h g b n at i (t ∷ ts)
  unfolding put
  one_more-Copied c = record {
    copies = (p, t) ∷ c.copies;
    entries = c.entries;
    these = ap (λ us. t ∷ us) c.these;
    array = c.array;
    listed = ((c.before i (omega arith) ∙ ground arith), c.listed);
    before = λ j lt. c.before j (omega arith) ∙ ground arith;
    live = (
      λ k.
          let (apart, there) = is_there k in
          let out : has p c.copies ≡ false = elim (Bool-cases (has p c.copies)) [
            | inl i ↦ let was = c.fresh p i in absurd (cc (was, there))
            | inr o ↦ o
          ] in
          (c.beside p apart out ∙ there, out),
      c.live,
    );
    beside = λ a apart out. let same = c.beside a apart in ground arith;
    fresh = λ a i. let was = c.fresh a in ground arith;
  }

pub copy_from-Copied :
    (malloc : Malloc)
    → IsMalloc malloc
    → (ts : List Bytes) (h : Memory) (b : Ptr) (n : ℕ) (at : ℕ → Option Ptr) (i : ℕ)
    → (b == null) ≡ false
    → h b ≡ some (pointers n at)
    → i + length ts ≤ n
    → (g : Memory) × (copy_from malloc b i ts h ≡ some (tt, g)) × Copied h g b n at i ts
unfolding copy_from put
copy_from-Copied malloc fresh [] h b n at i full e le = (
  h,
  refl,
  record {
    copies = [];
    entries = at;
    these = refl;
    array = e;
    listed = tt;
    before = λ j lt. refl;
    live = tt;
    beside = λ a apart out. refl;
    fresh = λ a i. absurd (cc i);
  },
)
copy_from-Copied malloc fresh (t ∷ ts) h b n at i full e le =
    let p = malloc (length t + 1) h in
    let array = given-array h b n at i p t full e (fresh (length t + 1) h) in
    let (g, runs, c) =
      copy_from-Copied malloc fresh ts (one_more h b n at i p t full e (fresh (length t + 1) h)) b n
        (updated at i p) (i + 1) full (ground arith) (omega arith) in
    (
      g,
      rw
          (
            strdup-given malloc t h,
            write_pointer-array (given p t h) b n at i p full array (omega arith),
          )
          runs,
      one_more-Copied h b n at i p t full e (fresh (length t + 1) h) c,
    )
