-- ===== src/TopicList/Bag.antt =====
-- A list of topics seen as a bag: its order, and the nodes that hold it, are forgotten.
use mathlib.Core.Quot
use mathlib.Core.Quot.{Quot, Quot-set}
use native.Mathlib.Nat.{ℕ_set}
use psmq.Prelude.{ℕ, ◌+◌, ◌≡◌, refl, sym, Bool, List, [], ◌∷◌, if◌then◌else◌, arith}
use psmq.CString.{Bytes, str_eq}
use psmq.Errno.{ok}
use psmq.TopicList.{tl_add, tl_delete}
use psmq.TopicList.Counts.{count, tl_add-Adds, tl_delete-Deletes}

-- Every topic is as often in the one as in the other.
abbrev pub SameTopics : List Bytes → List Bytes → Type 0
SameTopics xs ys = (u : Bytes) → count u xs ≡ count u ys

abbrev pub Bag : Type 0
Bag = Quot SameTopics

abbrev pub of_list : List Bytes → Bag
of_list = Quot.mk

-- How often a topic is in the bag.
pub occurrences : Bytes → Bag → ℕ
occurrences u = Quot.lift ℕ_set (count u) (λ xs ys h. h u)

SameTopics-cons : (t : Bytes) (xs ys : List Bytes) → SameTopics xs ys → SameTopics (t ∷ xs) (t ∷ ys)
unfolding count
SameTopics-cons t xs ys h u = omega (arith, h u)

pub put : Bytes → Bag → Bag
put t =
    Quot.lift Quot-set (λ xs. of_list (t ∷ xs)) (λ xs ys h. Quot.sound (SameTopics-cons t xs ys h))

pub occurrences-put :
    (t u : Bytes) (x : Bag)
    → occurrences u (put t x) ≡ (if str_eq t u then 1 else 0) + occurrences u x
unfolding occurrences put count
occurrences-put t u = Quot.ind (λ x. ℕ_set _ _) (λ xs. refl)

pub occurrences-of_list : (u : Bytes) (xs : List Bytes) → occurrences u (of_list xs) ≡ count u xs
unfolding occurrences
occurrences-of_list u xs = refl

pub occurrences-empty : (u : Bytes) → occurrences u (of_list []) ≡ 0
unfolding occurrences count
occurrences-empty u = refl

-- psmqd_tl_add puts the topic into the bag.
pub tl_add-put :
    (memory : Bool) (head new : List Bytes) (t : Bytes)
    → tl_add memory head t ≡ ok new
    → of_list new ≡ put t (of_list head)
unfolding put count
tl_add-put memory head new t e = let h = (rw e at (tl_add-Adds memory head t)).0 in Quot.sound h

-- psmqd_tl_delete takes it out.
pub tl_delete-put :
    (head new : List Bytes) (t : Bytes)
    → tl_delete head t ≡ ok new
    → of_list head ≡ put t (of_list new)
unfolding put count
tl_delete-put head new t e =
    let h = rw e at (tl_delete-Deletes head t) in Quot.sound (λ u. sym (h.1 u))
