-- ===== src/Tests/Groups.antt =====
-- A malloc() that has eleven blocks, and the tests of the list of topics with it.
use psmq.Prelude.{
  ℕ, zero, suc, ◌≤◌, ◌<◌, ◌≡◌, refl, ◌∙◌, Bool, true, false, [], ◌∷◌, Option, none, some, ◌==◌,
  if◌then◌else◌, length, Bool-cases, inl, inr, arith,
}
use psmq.TopicList.Heap.{Ptr, null, Heap, Malloc, IsMalloc}
use psmq.CString.{str_eq}
use psmq.TopicList.{tl_delete, unlink_node}
use psmq.TopicList.Nodes.Chain.{Nodes, has, beside, SameBeside}
use psmq.TopicList.Suite.Makes.{HasMemory}
use psmq.TopicList.Suite.Cases.{t1, t2}
use psmq.TopicList.Suite.{lists, deletes, test, destroys}
use psmq.TopicList.Suite.Passes.{test-destroys-passes}

abbrev empty_heap : Heap
empty_heap a = none

abbrev is_unused {ℓ} : {A : Type ℓ} → Option A → Bool
is_unused none = true
is_unused (some c) = false

-- The last of that many addresses that is not in use, or NULL.
abbrev pub last_free {ℓ} : {A : Type ℓ} → ℕ → (Ptr → Option A) → Ptr
last_free zero h = null
last_free (suc k) h = if is_unused (h (suc k)) then suc k else last_free k h

abbrev some_blocks : ℕ → Malloc
some_blocks k size h = (last_free k h, record { topic = []; next = 0 })

is_unused-none {ℓ} : {A : Type ℓ} (c : Option A) → is_unused c ≡ true → c ≡ none
is_unused-none none e = refl
is_unused-none (some c) e = absurd (cc e)

pub last_free-none {ℓ} :
    {A : Type ℓ} (k : ℕ) (h : Ptr → Option A)
    → (last_free k h == null) ≡ false
    → h (last_free k h) ≡ none
last_free-none zero h e = absurd (cc e)
last_free-none (suc k) h e = elim (Bool-cases (is_unused (h (suc k)))) [
  | inl f ↦ rw f (is_unused-none (h (suc k)) f)
  | inr f ↦ rw f (last_free-none k h (rw f at e))
]

some_blocks-IsMalloc : (k : ℕ) → IsMalloc (some_blocks k)
some_blocks-IsMalloc k size h e = last_free-none k h e

-- The nodes that are not at that address.
abbrev without : Ptr → Nodes → Nodes
without a [] = []
without a ((p, t) ∷ xs) = if a == p then without a xs else (p, t) ∷ without a xs

has-without : (a b : Ptr) (xs : Nodes) → (b == a) ≡ false → has b (without a xs) ≡ has b xs
has-without a b [] ne = refl
has-without a b ((p, t) ∷ xs) ne = ground (arith, has-without a b xs ne)

length-without : (a : Ptr) (xs : Nodes) → length (without a xs) ≤ length xs
length-without a [] = omega arith
length-without a ((p, t) ∷ xs) = ground (arith, length-without a xs)

length-without_of : (a : Ptr) (xs : Nodes) → has a xs ≡ true → length (without a xs) < length xs
length-without_of a [] e = absurd (cc e)
length-without_of a ((p, t) ∷ xs) e = ground (arith, length-without a xs, length-without_of a xs)

-- Where nodes are at each of the first addresses, there are as many of them.
all_used : (k : ℕ) (xs : Nodes) → ((a : Ptr) → 0 < a → a ≤ k → has a xs ≡ true) → k ≤ length xs
all_used zero xs all = omega arith
all_used (suc k) xs all =
    let rest : k ≤ length (without (suc k) xs) =
      all_used k (without (suc k) xs)
        λ a lo hi. has-without (suc k) a xs (ground arith) ∙ all a lo (omega arith) in
    omega (arith, rest, length-without_of (suc k) xs (all (suc k) (omega arith) (omega arith)))

last_free-full :
    (k : ℕ) (h : Heap)
    → (last_free k h == null) ≡ true
    → (a : Ptr) → 0 < a
    → a ≤ k
    → is_unused (h a) ≡ false
last_free-full zero h e a lo hi = absurd (omega arith)
last_free-full (suc k) h e a lo hi = elim (Bool-cases (is_unused (h (suc k)))) [
  | inl f ↦ let none_left = rw f at e in ground arith
  | inr f ↦ let before = last_free-full k h (rw f at e) a lo in ground (arith, before)
]

used-has :
    (h : Heap) (xs : Nodes) (a : Ptr)
    → SameBeside [] empty_heap xs h
    → is_unused (h a) ≡ false
    → has a xs ≡ true
unfolding beside
used-has h xs a same used = elim (Bool-cases (has a xs)) [
  | inl e ↦ e
  | inr e ↦ let gone = rw e at (same a) in absurd (cc (used, gone))
]

some_blocks-HasMemory : (k : ℕ) → HasMemory k (some_blocks k) empty_heap
some_blocks-HasMemory k size h xs lt same = elim (Bool-cases (last_free k h == null)) [
  | inr e ↦ e
  | inl e ↦
      let many = all_used k xs λ a lo hi. used-has h xs a same (last_free-full k h e a lo hi) in
      absurd (omega arith)
]

test-destroys-passes_example :
    test 3
      (some_blocks 2)
      (t1 ∷ t2 ∷ [])
      (deletes t1 ∷ lists (t2 ∷ []) ∷ [])
      (destroys 3)
      empty_heap
    ≡ some (true, empty_heap)
unfolding tl_delete unlink_node str_eq
test-destroys-passes_example =
    test-destroys-passes empty_heap 3 (some_blocks 2) (some_blocks-IsMalloc 2) 2
      (some_blocks-HasMemory 2) (t1 ∷ t2 ∷ []) (deletes t1 ∷ lists (t2 ∷ []) ∷ []) (omega arith)
      refl (omega arith) refl
