-- ===== src/TopicList/Suite/Makes.antt =====
-- create_list of src/tst/topic-list.c, where there is memory.
use psmq.Prelude.{
  ℕ, ◌+◌, ◌≤◌, ◌<◌, ◌≡◌, refl, ap, subst, true, false, List, [], ◌∷◌, Option, none, some, ◌==◌,
  length, arith,
}
use psmq.CString.{Bytes}
use psmq.Errno.{Result, ok, err}
use psmq.TopicList.{tl_add}
use psmq.TopicList.Heap.{Ptr, null, Heap, Cmd, pure, resumed, Malloc, IsMalloc}
use psmq.TopicList.Nodes.{add, destroy}
use psmq.TopicList.Nodes.Chain.{Nodes, topics, SameBeside}
use psmq.TopicList.Nodes.Add.{has_memory, add-Implements}
use psmq.TopicList.Nodes.Changes.{length-topics}
use psmq.TopicList.Suite.{create_from}
use psmq.TopicList.Suite.Lists.{Holds, Follows, Implements-Follows}

-- A topic behind the first one, as psmqd_tl_add puts it.
abbrev added : List Bytes → Bytes → List Bytes
added [] t = t ∷ []
added (u ∷ us) t = u ∷ t ∷ us

-- The list of a test, from the topics that it is made of.
abbrev pub made : List Bytes → List Bytes → List Bytes
made ts [] = ts
made ts (t ∷ more) = made (added ts t) more

tl_add-added : (ts : List Bytes) (t : Bytes) → tl_add true ts t ≡ ok (added ts t)
unfolding tl_add
tl_add-added [] t = refl
tl_add-added (u ∷ us) t = refl

-- malloc() does not fail as long as fewer than `m` nodes came to the memory.
abbrev pub HasMemory : ℕ → Malloc → Heap → Type 0
HasMemory m malloc base =
    (size : ℕ) (h : Heap) (xs : Nodes)
    → length xs < m
    → SameBeside [] base xs h
    → ((malloc size h).0 == null) ≡ false

length-added : (ts : List Bytes) (t : Bytes) → length (added ts t) ≡ length ts + 1
length-added [] t = refl
length-added (u ∷ us) t = omega arith

-- The list that was made.
abbrev pub Makes : Heap → List Bytes → Option (Ptr × Heap) → Type 0
Makes base ts none = ⊥
Makes base ts (some (q, g)) = Holds base ts q g

module _ (base : Heap) (n : ℕ) (malloc : Malloc) (fresh : IsMalloc malloc) (m : ℕ)
    (enough : HasMemory m malloc base) where
  pub add-Follows :
      (h : Heap) (p : Ptr) (ts : List Bytes) (t : Bytes)
      → Holds base ts p h
      → length ts < m
      → Follows base (ok (added ts t)) p ts (add malloc (some p) (some t) h)
  add-Follows h p ts t (xs, e, c, same) lt =
      let few : length xs < m = omega (arith, ap (length {A = Bytes}) e, length-topics xs) in
      let full : has_memory malloc t h ≡ true = rw (enough _ h xs few same) refl in
      let r : tl_add (has_memory malloc t h) (topics xs) t ≡ ok (added (topics xs) t) =
        rw full (tl_add-added (topics xs) t) in
      subst (λ us. Follows base (ok (added us t)) p us (add malloc (some p) (some t) h)) e
        (subst (λ s. Follows base s p (topics xs) (add malloc (some p) (some t) h)) r
          (Implements-Follows base _ h p xs _ c same (add-Implements malloc fresh c t)))

  Makes-bind :
      (p : Ptr) (ts us more : List Bytes) (o : Option (Result Ptr × Heap))
      → Follows base (ok us) p ts o
      → ((g : Heap) (q : Ptr)
          → Holds base us q g
          → Makes base (made us more) (create_from n malloc q more g))
      → Makes base (made us more) (
          resumed
            (λ r. elim r as (λ (_ : Result Ptr). Cmd Ptr) [
              | ok q ↦ create_from n malloc q more
              | err e ↦ (λ g. resumed (λ _. pure null) (destroy n p g))
            ])
            o)
  Makes-bind p ts us more none f k = f
  Makes-bind p ts us more (some (ok q, g)) (_, _, holds) k = k g q holds
  Makes-bind p ts us more (some (err e, g)) (f, _, holds) k = absurd (cc f)

  pub create_from-Makes :
      (more : List Bytes) (h : Heap) (p : Ptr) (ts : List Bytes)
      → Holds base ts p h
      → length ts + length more ≤ m
      → Makes base (made ts more) (create_from n malloc p more h)
  unfolding create_from
  create_from-Makes [] h p ts holds le = holds
  create_from-Makes (t ∷ more) h p ts holds le =
      Makes-bind p ts (added ts t) more _ (add-Follows h p ts t holds (omega arith)) λ g q holds'.
        create_from-Makes more g q (added ts t) holds' (omega (arith, length-added ts t))
