-- ===== src/TopicList/Suite/Tracks.antt =====
-- The lines of a test on the nodes do what they do on the list of topics.
use psmq.Prelude.{
  ℕ, ◌≤◌, ◌<◌, ◌≡◌, refl, ap, subst, Bool, ◌&&◌, List, [], ◌∷◌, Option, none, some, ◌==◌, length,
  Option-cases, inl, inr, arith,
}
use psmq.CString.{Bytes}
use psmq.Errno.{Result}
use psmq.TopicList.{tl_delete, unlink_node}
use psmq.TopicList.Heap.{Ptr, null, Heap, pure, resumed, Malloc, At-not_null}
use psmq.TopicList.Nodes.Chain.{Nodes, topics, Chain, end, link, SameBeside}
use psmq.TopicList.Nodes.Delete.{delete-Implements}
use psmq.TopicList.Nodes.Changes.{unlink_node-Within, length-topics}
use psmq.TopicList.Suite.{
  fok, ferr, head_behind, Line, deletes, delete_fails, lists, is_null, run_line, run_lines,
}
use psmq.TopicList.Suite.Lists.{
  is_nil, list_behind, line_of, lines_of, Holds, Follows, Implements-Follows, check_list-Chain,
}

-- The command says this, and leaves nodes of this list and all other memory as at the start.
abbrev pub Tracks : Heap → Bool × List Bytes → Option ((Bool × Ptr) × Heap) → Type 0
Tracks base (b, ts) none = ⊥
Tracks base (b, ts) (some ((a, q), g)) = (a ≡ b) × Holds base ts q g

length-behind : (ts : List Bytes) (t : Bytes) → length (list_behind ts (tl_delete ts t)) ≤ length ts
unfolding tl_delete
length-behind ts t = elim (Option-cases (unlink_node ts t)) [
  | inl e ↦ rw e (omega arith)
  | inr (us, e) ↦ rw e (rw e at (unlink_node-Within ts t))
]

pub length-line_of : (ts : List Bytes) (l : Line) → length (line_of ts l).1 ≤ length ts
length-line_of ts (deletes t) = length-behind ts t
length-line_of ts (delete_fails t e) = length-behind ts t
length-line_of ts (lists us) = omega arith
length-line_of ts is_null = omega arith

pub is_null-Chain :
    {h : Heap} {p : Ptr} {xs : Nodes} → Chain h p xs → (p == null) ≡ is_nil (topics xs)
is_null-Chain end = refl
is_null-Chain (link e out c) = At-not_null e

module _ (base : Heap) (n : ℕ) (malloc : Malloc) where
  Follows-Tracks :
      (r : Result (List Bytes)) (p : Ptr) (ts : List Bytes) (o : Option (Result Ptr × Heap))
      → Follows base r p ts o
      → Tracks base (fok r, list_behind ts r) (resumed (λ s. pure (fok s, head_behind p s)) o)
  Follows-Tracks r p ts none f = f
  Follows-Tracks r p ts (some (s, g)) (f, _, holds) = (f, holds)

  Follows-fails :
      (e : ℕ) (r : Result (List Bytes)) (p : Ptr) (ts : List Bytes) (o : Option (Result Ptr × Heap))
      → Follows base r p ts o
      → Tracks base (ferr r e, list_behind ts r) (resumed (λ s. pure (ferr s e, head_behind p s)) o)
  Follows-fails e r p ts none f = f
  Follows-fails e r p ts (some (s, g)) (_, f, holds) = (f e, holds)

  run_line-Tracks :
      {h : Heap} {p : Ptr} {xs : Nodes}
      → Chain h p xs
      → SameBeside [] base xs h
      → length xs < n
      → (l : Line) → Tracks base (line_of (topics xs) l) (run_line n malloc p l h)
  unfolding run_line
  run_line-Tracks {h} {p} {xs} c same lt (deletes t) =
      Follows-Tracks (tl_delete (topics xs) t) p (topics xs) _ (
        Implements-Follows base (tl_delete (topics xs) t) h p xs _ c same
          (delete-Implements n c lt t))
  run_line-Tracks {h} {p} {xs} c same lt (delete_fails t e) =
      Follows-fails e (tl_delete (topics xs) t) p (topics xs) _ (
        Implements-Follows base (tl_delete (topics xs) t) h p xs _ c same
          (delete-Implements n c lt t))
  run_line-Tracks {h} {p} {xs} c same lt (lists us) =
      rw (check_list-Chain n malloc c lt us) (refl, (xs, refl, c, same))
  run_line-Tracks {h} {p} {xs} c same lt is_null = (is_null-Chain c, (xs, refl, c, same))

  run_line-Holds :
      (h : Heap) (p : Ptr) (ts : List Bytes) (l : Line)
      → Holds base ts p h
      → length ts < n
      → Tracks base (line_of ts l) (run_line n malloc p l h)
  run_line-Holds h p ts l (xs, e, c, same) lt =
      subst (λ us. Tracks base (line_of us l) (run_line n malloc p l h)) e
        (run_line-Tracks c same (omega (arith, ap (length {A = Bytes}) e, length-topics xs)) l)

  Tracks-and :
      (a b : Bool) (rest : Bool × List Bytes) (o : Option ((Bool × Ptr) × Heap))
      → a ≡ b
      → Tracks base rest o
      → Tracks base (b && rest.0, rest.1) (resumed (λ s. pure (a && s.0, s.1)) o)
  Tracks-and a b rest none e t = t
  Tracks-and a b rest (some ((c, q), g)) e (f, holds) = rw (e, f) (refl, holds)

  Tracks-bind :
      (b : Bool) (ts : List Bytes) (rest : Bool × List Bytes) (ls : List Line)
      (o : Option ((Bool × Ptr) × Heap))
      → Tracks base (b, ts) o
      → ((h : Heap) (q : Ptr) → Holds base ts q h → Tracks base rest (run_lines n malloc q ls h))
      → Tracks base
          (b && rest.0, rest.1)
          (resumed (λ r g. resumed (λ s. pure (r.0 && s.0, s.1)) (run_lines n malloc r.1 ls g)) o)
  Tracks-bind b ts rest ls none t k = t
  Tracks-bind b ts rest ls (some ((a, q), g)) (e, holds) k =
      Tracks-and a b rest (run_lines n malloc q ls g) e (k g q holds)

  pub run_lines-Tracks :
      (ls : List Line) (h : Heap) (p : Ptr) (ts : List Bytes)
      → Holds base ts p h
      → length ts < n
      → Tracks base (lines_of ts ls) (run_lines n malloc p ls h)
  unfolding run_lines
  run_lines-Tracks [] h p ts holds lt = (refl, holds)
  run_lines-Tracks (l ∷ ls) h p ts holds lt =
      Tracks-bind (line_of ts l).0 (line_of ts l).1 (lines_of (line_of ts l).1 ls) ls
        (run_line n malloc p l h) (run_line-Holds h p ts l holds lt)
        λ g q holds'.
          run_lines-Tracks ls g q (line_of ts l).1 holds' (omega (arith, length-line_of ts l))
