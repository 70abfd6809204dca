-- ===== src/Zephyr/Arguments.antt =====
-- What main reads of the copies of its arguments in zephyr/psmq_shell.c, and how they are freed.
use psmq.Prelude.{
  ℕ, ◌+◌, ◌≤◌, ◌<◌, ◌≡◌, refl, ◌∙◌, true, false, [], ◌∷◌, Option, none, some, ◌==◌, ltb,
  if◌then◌else◌, length, Bool-cases, inl, inr, arith,
}
use psmq.Zephyr.{arguments, free_from}
use psmq.Zephyr.Memory.{Ptr, null, pointers, Memory, put, cell, read_pointer, read_string, free}
use psmq.Zephyr.Copies.{Copies, found, has, Live, Points}

read_pointer-array :
    (h : Memory) (b : Ptr) (n : ℕ) (at : ℕ → Option Ptr) (i : ℕ) (p : Ptr)
    → (b == null) ≡ false
    → h b ≡ some (pointers n at)
    → i < n
    → at i ≡ some p
    → read_pointer b i h ≡ some (p, h)
unfolding read_pointer cell
read_pointer-array h b n at i p full e lt k =
    let within : ltb i n ≡ true = ground arith in rw (full, e, within, k) refl

module _ (h : Memory) (b : Ptr) (n : ℕ) (at : ℕ → Option Ptr) (full : (b == null) ≡ false) where
  -- What main finds.
  pub arguments-found :
      (cs : Copies) (i : ℕ)
      → h b ≡ some (pointers n at)
      → i + length cs ≤ n
      → Points at i cs
      → Live h cs
      → arguments b i (length cs) h ≡ some (found cs, h)
  unfolding arguments read_string cell
  arguments-found [] i e le at_i live = refl
  arguments-found ((p, t) ∷ cs) i e le (here, more) (there, live) =
      let rest = arguments-found cs (i + 1) e (omega arith) more live in
      elim (Bool-cases (p == null)) [
        | inl k ↦ rw (read_pointer-array h b n at i p full e (omega arith) here, k, rest) refl
        | inr k ↦
            rw (read_pointer-array h b n at i p full e (omega arith) here, k, (there k).0, rest)
              refl
      ]

Live-put :
    (h : Memory) (p : Ptr) (cs : Copies) → Live h cs → has p cs ≡ false → Live (put h p none) cs
unfolding put
Live-put h p [] live out = tt
Live-put h p ((q, t) ∷ cs) (there, live) out =
    ((λ k. let (now, once) = there k in (ground arith, once)), Live-put h p cs live (ground arith))

-- They are all freed, and nothing else is.
pub free_from-Gone :
    (b : Ptr) (n : ℕ) (at : ℕ → Option Ptr)
    → (b == null) ≡ false
    → (cs : Copies) (h : Memory) (i : ℕ) → h b ≡ some (pointers n at)
    → i + length cs ≤ n
    → Points at i cs
    → Live h cs
    → has b cs ≡ false
    → (f : Memory) × (free_from b i (length cs) h ≡ some (tt, f))
      × ((a : Ptr) → f a ≡ (if has a cs then none else h a))
unfolding free_from free cell put
free_from-Gone b n at full [] h i e le at_i live out = (h, refl, λ a. refl)
free_from-Gone b n at full ((p, t) ∷ cs) h i e le (here, more) (there, live) out =
    elim (Bool-cases (p == null)) [
      | inl k ↦
          let (f, runs, is) =
            free_from-Gone b n at full cs h (i + 1) e (omega arith) more live (ground arith) in
          (
            f,
            rw (read_pointer-array h b n at i p full e (omega arith) here, k) runs,
            λ a. is a ∙ ground arith,
          )
      | inr k ↦
          let (now, once) = there k in
          let (f, runs, is) =
            free_from-Gone b n at full cs (put h p none) (i + 1) (ground arith) (omega arith) more
              (Live-put h p cs live once) (ground arith) in
          (
            f,
            rw (read_pointer-array h b n at i p full e (omega arith) here, k, now) runs,
            λ a. is a ∙ ground arith,
          )
    ]
