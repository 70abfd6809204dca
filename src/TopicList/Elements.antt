-- ===== src/TopicList/Elements.antt =====
-- What holds of every topic in the list, and of the one that is added, holds of the new list.
use psmq.Prelude.{
  Bool, true, false, List, [], ◌∷◌, Option, none, some, All, inl, inr, Bool-cases, Option-cases,
}
use psmq.CString.{Bytes, str_eq}
use psmq.Errno.{Result, ok, err}
use psmq.TopicList.{keep, tl_add, unlink_node, tl_delete}

abbrev pub AllOk : (Bytes → Type 0) → Result (List Bytes) → Type 0
AllOk P (ok ts) = All P ts
AllOk P (err e) = Unit

abbrev AllSome : (Bytes → Type 0) → Option (List Bytes) → Type 0
AllSome P (some ts) = All P ts
AllSome P none = Unit

module _ (P : Bytes → Type 0) where
  pub tl_add-All :
      (memory : Bool) (head : List Bytes) (topic : Bytes)
      → All P head
      → P topic
      → AllOk P (tl_add memory head topic)
  unfolding tl_add
  tl_add-All false head topic h ht = tt
  tl_add-All true [] topic h ht = (ht, tt)
  tl_add-All true (first ∷ others) topic h ht = (h.0, (ht, h.1))

  keep-All : (t : Bytes) (o : Option (List Bytes)) → P t → AllSome P o → AllSome P (keep t o)
  keep-All t none ht h = tt
  keep-All t (some ts) ht h = (ht, h)

  unlink_node-All :
      (head : List Bytes) (topic : Bytes) → All P head → AllSome P (unlink_node head topic)
  unfolding unlink_node
  unlink_node-All [] topic h = tt
  unlink_node-All (t ∷ ts) topic h = elim (Bool-cases (str_eq t topic)) [
    | inl e ↦ rw e h.1
    | inr e ↦ rw e (keep-All t (unlink_node ts topic) h.0 (unlink_node-All ts topic h.1))
  ]

  pub tl_delete-All :
      (head : List Bytes) (topic : Bytes) → All P head → AllOk P (tl_delete head topic)
  unfolding tl_delete
  tl_delete-All head topic h = elim (Option-cases (unlink_node head topic)) [
    | inl e ↦ rw e tt
    | inr (ts, e) ↦ rw e (rw e at (unlink_node-All head topic h))
  ]
