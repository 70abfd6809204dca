-- ===== src/TopicList/Suite/Lists.antt =====
-- The lines of the tests of src/tst/topic-list.c on the list of topics, and that the nodes follow it.
use psmq.Prelude.{
  ℕ, zero, suc, ◌<◌, ◌≡◌, refl, sym, ◌∙◌, subst, Bool, true, false, not, ◌&&◌, List, [], ◌∷◌,
  Option, none, some, ◌==◌, if◌then◌else◌, length, Bool-cases, inl, inr, arith,
}
use psmq.CString.{Bytes, str_eq}
use psmq.Errno.{Result, ok, err}
use psmq.TopicList.{tl_delete}
use psmq.TopicList.Heap.{Ptr, null, Heap, Malloc, load-At, At-not_null}
use psmq.TopicList.Nodes.Chain.{Nodes, topics, Chain, end, link, SameBeside, Implements}
use psmq.TopicList.Nodes.Changes.{length-topics}
use psmq.TopicList.Suite.{
  fok, ferr, head_behind, count_nodes, look_for, Line, deletes, delete_fails, lists, is_null,
  check_topics, check_list,
}

abbrev mem : Bytes → List Bytes → Bool
mem t [] = false
mem t (u ∷ us) = if str_eq u t then true else mem t us

abbrev all_mem : List Bytes → List Bytes → Bool
all_mem ts [] = true
all_mem ts (u ∷ us) = if not (mem u ts) then false else all_mem ts us

-- Do the lists have as many topics, and is every topic of the second in the first?
abbrev same_list : List Bytes → List Bytes → Bool
same_list ts us = if length us == length ts then all_mem ts us else false

abbrev pub is_nil : List Bytes → Bool
is_nil [] = true
is_nil (t ∷ ts) = false

-- The list behind a call.
abbrev pub list_behind : List Bytes → Result (List Bytes) → List Bytes
list_behind ts (ok us) = us
list_behind ts (err e) = ts

-- What a line says of the list, and the list behind it.
abbrev pub line_of : List Bytes → Line → Bool × List Bytes
line_of ts (deletes t) = (fok (tl_delete ts t), list_behind ts (tl_delete ts t))
line_of ts (delete_fails t e) = (ferr (tl_delete ts t) e, list_behind ts (tl_delete ts t))
line_of ts (lists us) = (same_list ts us, ts)
line_of ts is_null = (is_nil ts, ts)

abbrev pub lines_of : List Bytes → List Line → Bool × List Bytes
lines_of ts [] = (true, ts)
lines_of ts (l ∷ ls) =
    ((line_of ts l).0 && (lines_of (line_of ts l).1 ls).0, (lines_of (line_of ts l).1 ls).1)

-- The pointer leads to nodes of these topics, and all other memory is as it was at the start.
abbrev pub Holds : Heap → List Bytes → Ptr → Heap → Type 0
Holds base ts q g = (xs : Nodes) × (topics xs ≡ ts) × Chain g q xs × SameBeside [] base xs g

-- A call with such a result, and the nodes of the list behind it.
abbrev pub Follows :
    Heap → Result (List Bytes) → Ptr → List Bytes → Option (Result Ptr × Heap) → Type 0
Follows base r p ts none = ⊥
Follows base r p ts (some (s, g)) =
    (fok s ≡ fok r)
    × ((e : ℕ) → ferr s e ≡ ferr r e)
    × Holds base (list_behind ts r) (head_behind p s) g

pub Implements-Follows :
    (base : Heap) (r : Result (List Bytes)) (h : Heap) (p : Ptr) (xs : Nodes)
    (o : Option (Result Ptr × Heap))
    → Chain h p xs
    → SameBeside [] base xs h
    → Implements r xs h o
    → Follows base r p (topics xs) o
Implements-Follows base r h p xs none c same i = i
Implements-Follows base r h p xs (some (err e, g)) c same (failed, is) = rw failed (
  refl,
  (λ _. refl),
  (
    xs,
    refl,
    subst (λ f. Chain f p xs) (sym is) c,
    subst (λ f. SameBeside [] base xs f) (sym is) same,
  ),
)
Implements-Follows base r h p xs (some (ok q, g)) c same (ys, done, c', same') =
    rw done (refl, (λ _. refl), (ys, refl, c', (λ a. same' a ∙ same a)))

module _ {h : Heap} where
  count_nodes-Chain :
      (n : ℕ) {p : Ptr} {xs : Nodes}
      → Chain h p xs
      → length xs < n
      → count_nodes n p h ≡ some (length xs, h)
  unfolding count_nodes
  count_nodes-Chain zero c lt = absurd (omega arith)
  count_nodes-Chain (suc n) end lt = refl
  count_nodes-Chain (suc n) (link e out c) lt =
      rw (At-not_null e, load-At e, count_nodes-Chain n c (omega arith)) refl

  look_for-Chain :
      (n : ℕ) {p : Ptr} {xs : Nodes} (t : Bytes)
      → Chain h p xs
      → length xs < n
      → (q : Ptr) × (look_for n p t h ≡ some (q, h)) × ((q == null) ≡ not (mem t (topics xs)))
  unfolding look_for
  look_for-Chain zero t c lt = absurd (omega arith)
  look_for-Chain (suc n) t end lt = (null, refl, refl)
  look_for-Chain (suc n) t (link {p} {q} {t = u} e out c) lt =
      let (r, found, is) = look_for-Chain n t c (omega arith) in
      elim (Bool-cases (str_eq u t)) [
        | inl k ↦ rw (At-not_null e, load-At e, k) (p, refl, At-not_null e)
        | inr k ↦ rw (At-not_null e, load-At e, k) (r, found, is)
      ]

  module _ (n : ℕ) (malloc : Malloc) {p : Ptr} {xs : Nodes} (c : Chain h p xs)
      (lt : length xs < n) where
    check_topics-Chain :
        (us : List Bytes) → check_topics n malloc p us h ≡ some (all_mem (topics xs) us, h)
    unfolding check_topics
    check_topics-Chain [] = refl
    check_topics-Chain (u ∷ us) =
        let (q, found, is) = look_for-Chain n u c lt in
        elim (Bool-cases (mem u (topics xs))) [
          | inl e ↦ rw (found, is, e) (check_topics-Chain us)
          | inr e ↦ rw (found, is, e) refl
        ]

    pub check_list-Chain :
        (us : List Bytes) → check_list n malloc p us h ≡ some (same_list (topics xs) us, h)
    unfolding check_list
    check_list-Chain us =
        rw (count_nodes-Chain n c lt, ← (length-topics xs))
          (elim (Bool-cases (length us == length (topics xs))) [
            | inl e ↦ rw e (check_topics-Chain us)
            | inr e ↦ rw e refl
          ])
