-- ===== src/TopicList/Nodes/Chain.antt =====
-- Which list of nodes a pointer leads to, and the memory beside these nodes.
use psmq.Prelude.{
  ◌≡◌, refl, Bool, true, false, ◌||◌, List, [], ◌∷◌, Option, none, some, ◌==◌, if◌then◌else◌, arith,
}
use psmq.CString.{Bytes}
use psmq.Errno.{Result, ok, err}
use psmq.TopicList.Heap.{Ptr, null, Node, Heap, put, cell, At}

-- The nodes of a list: the address and the topic of each, in order.
abbrev pub Nodes : Type 0
Nodes = List (Ptr × Bytes)

abbrev pub topics : Nodes → List Bytes
topics [] = []
topics ((p, t) ∷ xs) = t ∷ topics xs

abbrev pub has : Ptr → Nodes → Bool
has a [] = false
has a ((p, t) ∷ xs) = (a == p) || has a xs

-- The pointer leads through these nodes, all at different addresses, to NULL.
pub data Chain (h : Heap) : Ptr → Nodes → Type 0 where
  end : Chain h null []
  link :
      {p q : Ptr} {t : Bytes} {xs : Nodes}
      → At h p (record { topic = t; next = q })
      → has p xs ≡ false
      → Chain h q xs
      → Chain h p ((p, t) ∷ xs)

-- The heap without the nodes of a list.
unfoldable pub beside : Nodes → Heap → Heap
beside xs h a = if has a xs then none else h a

-- Between the two states, the list's nodes were exchanged for others, and no other memory changed:
-- the nodes that are gone are free, and the nodes that came were free.
abbrev pub SameBeside : Nodes → Heap → Nodes → Heap → Type 0
SameBeside xs h ys g = (a : Ptr) → beside ys g a ≡ beside xs h a

-- A chain stays one through any change that spares its nodes.
pub Chain-frame :
    {h g : Heap} {p : Ptr} {xs : Nodes}
    → Chain h p xs
    → ((a : Ptr) → has a xs ≡ true → g a ≡ h a)
    → Chain g p xs
unfolding cell
Chain-frame end same = end
Chain-frame (link {p} e out c) same =
    link (record { holds = let x = e.holds in ground (arith, same p) }) out
      (Chain-frame c λ a i. same a (ground arith))

pub Chain-put :
    {h : Heap} {p : Ptr} {xs : Nodes} (a : Ptr) (n : Option Node)
    → Chain h p xs
    → has a xs ≡ false
    → Chain (put h a n) p xs
unfolding put
Chain-put a n c out = Chain-frame c (ground arith)

-- A block that is not in use is not of the list.
pub Chain-unused :
    {h : Heap} {p : Ptr} {xs : Nodes} (a : Ptr) → Chain h p xs → h a ≡ none → has a xs ≡ false
unfolding cell
Chain-unused a end e = refl
Chain-unused a (link e' out c) e = let x = e'.holds in ground (arith, Chain-unused a c e)

-- The run ends without a fault and does to the nodes what is done to the list of their topics: it
-- fails with the same errno and changes nothing, or gives the pointer to the nodes of the new list.
abbrev pub Implements : Result (List Bytes) → Nodes → Heap → Option (Result Ptr × Heap) → Type 0
Implements r xs h none = ⊥
Implements r xs h (some (err e, g)) = (r ≡ err e) × (g ≡ h)
Implements r xs h (some (ok q, g)) =
    (ys : Nodes) × (r ≡ ok (topics ys)) × Chain g q ys × SameBeside xs h ys g
