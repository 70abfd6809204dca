-- ===== src/Broker/Memory/Owned.antt =====
-- The lists of several clients share a memory: which nodes each has, and that a change of one list leaves
-- the others.
use mathlib.Core.Path.{fun_ext}
use psmq.Prelude.{
  subst, ℕ, zero, suc, ◌≤◌, ◌≡◌, refl, sym, ap, true, false, List, [], ◌∷◌, none, some, ◌==◌,
  length, get_elem?, set, Bool-cases, inl, inr, arith,
}
use psmq.CString.{Bytes}
use psmq.TopicList.Heap.{Ptr, Node, Heap, cell}
use psmq.TopicList.Nodes.Chain.{
  Nodes, topics, has, Chain, end, link, beside, SameBeside, Chain-frame,
}

-- Each pointer leads to at most `k` nodes, with such topics, no two to the same node; all other memory is
-- as at the start.
abbrev pub Owned : ℕ → Heap → Heap → List Ptr → List (List Bytes) → Type 0
Owned k base h [] [] = (a : Ptr) → h a ≡ base a
Owned k base h [] (ts ∷ tss) = ⊥
Owned k base h (p ∷ ps) [] = ⊥
Owned k base h (p ∷ ps) (ts ∷ tss) =
    (xs : Nodes) × (topics xs ≡ ts)
    × Chain h p xs
    × (length xs ≤ k)
    × Owned k base (beside xs h) ps tss

-- A node of a list is in use.
Chain-in_use :
    {h : Heap} {p : Ptr} {xs : Nodes} (a : Ptr)
    → Chain h p xs
    → has a xs ≡ true
    → (m : Node) × (h a ≡ some m)
unfolding cell
Chain-in_use a end i = absurd (cc i)
Chain-in_use a (link {p} {q} {t} e out c) i = elim (Bool-cases (a == p)) [
  | inl k ↦ let x = e.holds in (record { topic = t; next = q }, ground arith)
  | inr k ↦ Chain-in_use a c (ground arith)
]

-- The nodes of a list in what another leaves of the memory are no nodes of that one.
disjoint :
    (h : Heap) (zs : Nodes) {p : Ptr} {xs : Nodes} (a : Ptr)
    → Chain (beside zs h) p xs
    → has a xs ≡ true
    → has a zs ≡ false
unfolding beside
disjoint h zs a c i = elim (Bool-cases (has a zs)) [
  | inl k ↦ let (m, e) = Chain-in_use a c i in absurd (cc (rw k at e))
  | inr k ↦ k
]

Chain-whole :
    (h : Heap) (zs : Nodes) {p : Ptr} {xs : Nodes} → Chain (beside zs h) p xs → Chain h p xs
unfolding beside
Chain-whole h zs c = Chain-frame c λ a i. rw (disjoint h zs a c i) refl

module _ {h : Heap} {r : Ptr} {zs : Nodes} (g : Heap) (xs ys : Nodes) (other : Chain h r zs)
    (apart : (a : Ptr) → has a xs ≡ true → has a zs ≡ false) (same : SameBeside xs h ys g) where
  -- The nodes that came are none of another list.
  new_apart : (a : Ptr) → has a ys ≡ true → has a zs ≡ false
  unfolding beside
  new_apart a i = elim (Bool-cases (has a zs)) [
    | inl k ↦ let (m, e) = Chain-in_use a other k in let was = same a in ground (arith, apart a)
    | inr k ↦ k
  ]

  other_same : (a : Ptr) → has a zs ≡ true → g a ≡ h a
  unfolding beside
  other_same a k = let was = same a in ground (arith, apart a, new_apart a)

  other-Chain : Chain g r zs
  other-Chain = Chain-frame other other_same

  rest_same : SameBeside xs (beside zs h) ys (beside zs g)
  unfolding beside
  rest_same a = let was = same a in ground arith

  rest-Chain : {q : Ptr} → Chain g q ys → Chain (beside zs g) q ys
  unfolding beside
  rest-Chain c = Chain-frame c λ a i. rw (new_apart a i) refl

-- The nodes of the list in one slot, and what a change of them leaves.
pub record Slot (k j : ℕ) (base h : Heap) (ps : List Ptr) (tss : List (List Bytes)) (i : ℕ)
    (p : Ptr) : Type 0 where
  pub nodes : Nodes
  pub there : get_elem? tss i ≡ some (topics nodes)
  pub chain : Chain h p nodes
  pub few : length nodes ≤ k
  pub changed :
      (g : Heap) (q : Ptr) (ys : Nodes)
      → Chain g q ys
      → length ys ≤ j
      → SameBeside nodes h ys g
      → Owned j base g (set ps i q) (set tss i (topics ys))

pub Owned-mono :
    (k j : ℕ) (base : Heap) (ps : List Ptr) (tss : List (List Bytes)) (h : Heap)
    → k ≤ j
    → Owned k base h ps tss
    → Owned j base h ps tss
Owned-mono k j base [] [] h le o = o
Owned-mono k j base [] (ts ∷ tss) h le o = absurd o
Owned-mono k j base (p ∷ ps) [] h le o = absurd o
Owned-mono k j base (p ∷ ps) (ts ∷ tss) h le (xs, e, c, few, o) =
    (xs, e, c, omega (arith, few), Owned-mono k j base ps tss (beside xs h) le o)

Owned-same :
    (k j : ℕ) (base : Heap) (ps : List Ptr) (tss : List (List Bytes)) (h g : Heap)
    → k ≤ j
    → ((a : Ptr) → g a ≡ h a)
    → Owned k base h ps tss
    → Owned j base g ps tss
Owned-same k j base ps tss h g le same o =
    subst (λ f. Owned j base f ps tss) (fun_ext λ a. sym (same a))
      (Owned-mono k j base ps tss h le o)

-- There are as many lists as slots.
pub Owned-none :
    (k : ℕ) (base : Heap) (ps : List Ptr) (tss : List (List Bytes)) (h : Heap) (i : ℕ)
    → Owned k base h ps tss
    → get_elem? ps i ≡ none
    → get_elem? tss i ≡ none
Owned-none k base [] [] h i o e = refl
Owned-none k base [] (ts ∷ tss) h i o e = absurd o
Owned-none k base (p ∷ ps) [] h i o e = absurd o
Owned-none k base (p ∷ ps) (ts ∷ tss) h zero o e = absurd (cc e)
Owned-none k base (p ∷ ps) (ts ∷ tss) h (suc i) (xs, _, c, few, o) e =
    Owned-none k base ps tss (beside xs h) i o e

pub slot-Owned :
    (k j : ℕ) (base : Heap) (ps : List Ptr) (tss : List (List Bytes)) (h : Heap) (i : ℕ) (p : Ptr)
    → k ≤ j
    → Owned k base h ps tss
    → get_elem? ps i ≡ some p
    → Slot k j base h ps tss i p
slot-Owned k j base [] tss h i p le o e = absurd (cc e)
slot-Owned k j base (r ∷ ps) [] h i p le o e = absurd o
slot-Owned k j base (r ∷ ps) (ts ∷ tss) h zero p le (xs, these, c, few, o) e =
    let is : r ≡ p = cc e in
    record {
      nodes = xs;
      there = ap some (sym these);
      chain = subst (λ s. Chain h s xs) is c;
      few = few;
      changed = λ g q ys c' few' same.
          (ys, refl, c', few', Owned-same k j base ps tss (beside xs h) (beside ys g) le same o);
    }
slot-Owned k j base (r ∷ ps) (ts ∷ tss) h (suc i) p le (zs, these, c, few, o) e =
    let s = slot-Owned k j base ps tss (beside zs h) i p le o e in
    let apart : (a : Ptr) → has a s.nodes ≡ true → has a zs ≡ false =
      λ a. disjoint h zs a s.chain in
    record {
      nodes = s.nodes;
      there = s.there;
      chain = Chain-whole h zs s.chain;
      few = s.few;
      changed = λ g q ys c' few' same. (
        zs,
        these,
        other-Chain g s.nodes ys c apart same,
        omega (arith, few),
        s.changed (beside zs g) q ys (rest-Chain g s.nodes ys c apart same c') few'
            (rest_same g s.nodes ys c apart same),
      );
    }
