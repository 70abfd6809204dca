-- ===== src/TopicList/Heap.antt =====
-- The memory that src/topic-list.c works on: blocks that each hold one struct psmqd_tl, with the
-- characters of its topic behind it, as psmqd_tl_new_node lays them out.
use mathlib.Core.Path.{fun_ext}
use psmq.Prelude.{ℕ, ◌≡◌, refl, arith, false, Option, none, some, ◌==◌, if◌then◌else◌}
use psmq.CString.{Bytes}

abbrev pub Ptr : Type 0
Ptr = ℕ

abbrev pub null : Ptr
null = 0

-- struct psmqd_tl; the field `topic` is the string that its pointer leads to.
pub record Node : Type 0 where
  pub topic : Bytes
  pub next : Ptr

abbrev pub Heap : Type 0
Heap = Ptr → Option Node

unfoldable pub put : Heap → Ptr → Option Node → Heap
put h p c a = if a == p then c else h a

-- A command on the heap; `none` is a fault, or a loop that was given too few rounds.
abbrev pub Cmd {ℓ} : Type ℓ → Type ℓ
Cmd A = Heap → Option (A × Heap)

abbrev pub pure {ℓ} : {A : Type ℓ} → A → Cmd A
pure a h = some (a, h)

abbrev pub resumed {ℓ κ} :
    {A : Type ℓ} {B : Type κ} → (A → Cmd B) → Option (A × Heap) → Option (B × Heap)
resumed next none = none
resumed next (some (a, h)) = next a h

infixl 5 ◌>>=◌ ◌>>◌
abbrev pub ◌>>=◌ {ℓ κ} : {A : Type ℓ} {B : Type κ} → Cmd A → (A → Cmd B) → Cmd B
◌>>=◌ first next h = resumed next (first h)

abbrev pub ◌>>◌ {ℓ κ} : {A : Type ℓ} {B : Type κ} → Cmd A → Cmd B → Cmd B
◌>>◌ first second h = resumed (λ _. second) (first h)

-- What a pointer leads to: nothing at NULL and at a block that was freed.
unfoldable pub cell : Heap → Ptr → Option Node
cell h p = if p == null then none else h p

abbrev at_cell {ℓ} : {A : Type ℓ} → Option Node → (Node → Option A) → Option A
at_cell none k = none
at_cell (some n) k = k n

unfoldable pub load : Ptr → Cmd Node
unfolding cell
load p h = at_cell (cell h p) λ n. some (n, h)

unfoldable pub set_topic : Ptr → Bytes → Cmd (Unit {0})
unfolding cell put
set_topic p t h = at_cell (cell h p) λ n. some (tt, put h p (some (record n { topic = t })))

unfoldable pub set_next : Ptr → Ptr → Cmd (Unit {0})
unfolding cell put
set_next p q h = at_cell (cell h p) λ n. some (tt, put h p (some (record n { next = q })))

unfoldable pub free : Ptr → Cmd (Unit {0})
unfolding cell put
free p h = at_cell (cell h p) λ n. some (tt, put h p none)

-- malloc() of a number of bytes: an address, or NULL, and what the memory there happens to hold.
abbrev pub Malloc : Type 0
Malloc = ℕ → Heap → Ptr × Node

-- malloc() gives memory that is not in use.
abbrev pub IsMalloc : Malloc → Type 0
IsMalloc malloc = (n : ℕ) (h : Heap) → ((malloc n h).0 == null) ≡ false → h (malloc n h).0 ≡ none

unfoldable pub alloc : Malloc → ℕ → Cmd Ptr
unfolding put
alloc malloc n h =
    let p = (malloc n h).0 in
    if p == null then some (null, h) else some (p, put h p (some (malloc n h).1))

-- The pointer leads to that node.
pub record At (h : Heap) (p : Ptr) (n : Node) : Type 0 where
  pub holds : cell h p ≡ some n

module _ {h : Heap} {p : Ptr} {n : Node} (e : At h p n) where
  pub load-At : load p h ≡ some (n, h)
  unfolding load
  load-At = rw e.holds refl

  pub set_next-At : (q : Ptr) → set_next p q h ≡ some (tt, put h p (some (record n { next = q })))
  unfolding set_next
  set_next-At q = rw e.holds refl

  pub set_topic-At :
      (t : Bytes) → set_topic p t h ≡ some (tt, put h p (some (record n { topic = t })))
  unfolding set_topic
  set_topic-At t = rw e.holds refl

  pub free-At : free p h ≡ some (tt, put h p none)
  unfolding free
  free-At = rw e.holds refl

  pub At-not_null : (p == null) ≡ false
  unfolding cell
  At-not_null = let x = e.holds in ground arith

  pub At-put_ne : (q : Ptr) (c : Option Node) → (p == q) ≡ false → At (put h q c) p n
  unfolding cell put
  At-put_ne q c apart = record { holds = rw apart e.holds }

pub At-put : (h : Heap) (p : Ptr) (n : Node) → (p == null) ≡ false → At (put h p (some n)) p n
unfolding cell put
At-put h p n e = record { holds = ground arith }

pub put-put : (h : Heap) (p : Ptr) (m n : Option Node) → put (put h p m) p n ≡ put h p n
unfolding put
put-put h p m n = fun_ext λ a. ground arith
