-- ===== src/Zephyr/Runs.antt =====
-- The command `sub` of zephyr/psmq_shell.c, from its start to the end of its thread.
use mathlib.Core.Path.{fun_ext}
use psmq.Prelude.{
  ℕ, suc, ◌*◌, ◌≡◌, ◌≢◌, refl, sym, ap, ◌∙◌, subst, Bool, true, false, not, List, [], ◌∷◌, Option,
  none, some, ◌==◌, if◌then◌else◌, length, Bool-cases, inl, inr, arith,
}
use psmq.CString.{Bytes}
use psmq.Zephyr.{
  int_size, pointer_size, start_psmq_sub, arguments, free_from, psmq_sub_main_thread, run_sub,
}
use psmq.Zephyr.Memory.{
  Ptr, null, Block, int, pointers, Memory, put, cell, read_int, write_int, free, Malloc, IsMalloc,
  alloc,
}
use psmq.Zephyr.Copies.{Copies, originals, found, has, Copied, strdup-given, copy_from-Copied}
use psmq.Zephyr.Arguments.{arguments-found, free_from-Gone}

-- Each argument, or NULL in its place.
abbrev Same : List Bytes → List (Option Bytes) → Type 0
Same [] [] = Unit
Same [] (a ∷ args) = ⊥
Same (t ∷ ts) [] = ⊥
Same (t ∷ ts) (none ∷ args) = Same ts args
Same (t ∷ ts) (some u ∷ args) = (u ≡ t) × Same ts args

found-Same : (cs : Copies) → Same (originals cs) (found cs)
found-Same [] = tt
found-Same ((p, t) ∷ cs) = elim (Bool-cases (p == null)) [
  | inl e ↦ rw e (found-Same cs)
  | inr e ↦ rw e (refl, found-Same cs)
]

length-originals : (cs : Copies) → length (originals cs) ≡ length cs
length-originals [] = refl
length-originals (c ∷ cs) = ap suc (length-originals cs)

-- Does malloc() give memory for the number of arguments and for the array?
abbrev pub has_room : Malloc → List Bytes → Memory → Bool
has_room malloc argv h =
    let p = malloc int_size h in
    if p == null
    then false
    else not
        (malloc (length argv * pointer_size) (put h p (some (int (some (length argv))))) == null)

-- With room, the run ends without a fault: main has got each argument, or NULL in the place of one, and
-- the memory is as it was before. Without, it faults.
abbrev pub Ends :
    {A : Type 0}
    → (List (Option Bytes) → A)
    → List Bytes
    → Memory
    → Bool
    → Option (A × Memory)
    → Type 0
Ends main argv h got none = got ≡ false
Ends main argv h got (some (r, g)) =
    (got ≡ true) × (g ≡ h) × ((args : List (Option Bytes)) × Same argv args × (r ≡ main args))

put_self : (h : Memory) (p : Ptr) (b : Option Block) → put h p b p ≡ b
unfolding put
put_self h p b = ground arith

write_int-int :
    (h : Memory) (p : Ptr) (m : Option ℕ) (n : ℕ)
    → (p == null) ≡ false
    → write_int p n (put h p (some (int m))) ≡ some (tt, put h p (some (int (some n))))
unfolding write_int cell put
write_int-int h p m n full =
    let self : (p == p) ≡ true = ground arith in
    let same : put (put h p (some (int m))) p (some (int (some n)))
        ≡ put h p (some (int (some n))) =
      fun_ext λ a. ground arith in
    rw (full, self) (ap (λ (g : Memory). some (tt, g)) same)

free-block :
    (h : Memory) (p : Ptr) (b : Block)
    → (p == null) ≡ false
    → h p ≡ some b
    → free p h ≡ some (tt, put h p none)
unfolding free cell
free-block h p b full e = rw (full, e) refl

read_int-int :
    (h : Memory) (p : Ptr) (n : ℕ)
    → (p == null) ≡ false
    → h p ≡ some (int (some n))
    → read_int p h ≡ some (n, h)
unfolding read_int cell
read_int-int h p n full e = rw (full, e) refl

-- The memory with the number of the arguments and with the array.
abbrev with_blocks : Memory → Ptr → Ptr → ℕ → Memory
with_blocks h p q n = put (put h p (some (int (some n)))) q (some (pointers n (λ _. none)))

module _ {A : Type 0} (main : List (Option Bytes) → A) (h : Memory) (p q : Ptr) (argv : List Bytes)
    (full_p : (p == null) ≡ false) (full_q : (q == null) ≡ false) (free_p : h p ≡ none)
    (free_q : put h p (some (int (some (length argv)))) q ≡ none) where
  apart : (p == q) ≡ false
  unfolding put
  apart = ground arith

  module _ {g : Memory}
      (c : Copied (with_blocks h p q (length argv)) g q (length argv) (λ _. none) 0 argv) where
    out_q : has q c.copies ≡ false
    unfolding put
    out_q = elim (Bool-cases (has q c.copies)) [
      | inl i ↦ let was = c.fresh q i in ground arith
      | inr o ↦ o
    ]

    out_p : has p c.copies ≡ false
    unfolding put
    out_p = elim (Bool-cases (has p c.copies)) [
      | inl i ↦ let was = c.fresh p i in ground (arith, apart)
      | inr o ↦ o
    ]

    count : g p ≡ some (int (some (length argv)))
    unfolding put
    count = c.beside p apart out_p ∙ ground (arith, apart)

    back :
        (f : Memory)
        → ((a : Ptr) → f a ≡ (if has a c.copies then none else g a))
        → put (put f q none) p none ≡ h
    unfolding put
    back f gone =
        fun_ext λ a. let was = c.fresh a in let same = c.beside a in let is = gone a in ground arith

    number_left :
        (f : Memory)
        → ((a : Ptr) → f a ≡ (if has a c.copies then none else g a))
        → put f q none p ≡ some (int (some (length argv)))
    unfolding put
    number_left f gone = rw apart (gone p ∙ rw out_p count)

    thread-Ends : Ends main argv h true (psmq_sub_main_thread main p q g)
    unfolding psmq_sub_main_thread
    thread-Ends =
        let many : length c.copies ≡ length argv =
          sym (length-originals c.copies) ∙ ap (length {A = Bytes}) c.these in
        let read : arguments q 0 (length argv) g ≡ some (found c.copies, g) =
          subst (λ k. arguments q 0 k g ≡ some (found c.copies, g)) many
            (arguments-found g q (length argv) c.entries full_q c.copies 0 c.array
              (omega (arith, many)) c.listed c.live) in
        let (f, runs, gone) =
          free_from-Gone q (length argv) c.entries full_q c.copies g 0 c.array (omega (arith, many))
            c.listed c.live out_q in
        let freed : free_from q 0 (length argv) g ≡ some (tt, f) =
          subst (λ k. free_from q 0 k g ≡ some (tt, f)) many runs in
        let array : f q ≡ some (pointers (length argv) c.entries) = gone q ∙ rw out_q c.array in
        let number : put f q none p ≡ some (int (some (length argv))) = number_left f gone in
        rw
          (
            read_int-int g p (length argv) full_p count,
            read,
            read_int-int g p (length argv) full_p count,
            freed,
            free-block f q _ full_q array,
            free-block (put f q none) p _ full_p number,
          )
          (
            refl,
            back f gone,
            (
              found c.copies,
              subst (λ ts. Same ts (found c.copies)) c.these (found-Same c.copies),
              refl,
            ),
          )

-- Where malloc() gives memory that is not in use and the shell passes at least one argument: the command
-- faults exactly where malloc() gives no memory for the number of the arguments or for the array. Else
-- psmq_sub_main gets each argument, or NULL in its place, and at the end of the thread all memory is as
-- it was before.
pub run_sub-Ends :
    {A : Type 0} (main : List (Option Bytes) → A) (malloc : Malloc)
    → IsMalloc malloc
    → (argv : List Bytes) → argv ≢ []
    → (h : Memory) → Ends main argv h (has_room malloc argv h) (run_sub main malloc argv h)
unfolding run_sub start_psmq_sub alloc
run_sub-Ends main malloc fresh [] some_args h = absurd (some_args refl)
run_sub-Ends main malloc fresh (t ∷ ts) some_args h =
    elim (Bool-cases (malloc int_size h == null)) [
      | inl e ↦ rw e refl
      | inr e ↦
          let n = length (t ∷ ts) in
          let p = malloc int_size h in
          let h1 = put h p (some (int (some n))) in
          let q = malloc (n * pointer_size) h1 in
          elim (Bool-cases (q == null)) [
            | inl e' ↦ rw (e, write_int-int h p none n e, e') (rw (strdup-given malloc t h1) refl)
            | inr e' ↦
                let (g, runs, c) =
                  copy_from-Copied malloc fresh (t ∷ ts) (with_blocks h p q n) q n (λ _. none) 0 e'
                    (put_self h1 q _) (omega arith) in
                rw (e, write_int-int h p none n e, e', runs)
                  (thread-Ends main h p q (t ∷ ts) e e' (fresh int_size h e)
                    (fresh (n * pointer_size) h1 e') c)
          ]
    ]
