-- ===== src/TopicList/Counts.antt =====
-- The list of topics is used as a bag: how often each topic stands in it.
use psmq.Prelude.{
  ℕ, ◌+◌, ◌<◌, ◌≡◌, refl, ◌↔◌, Bool, true, false, List, [], ◌∷◌, Option, none, some, inl, inr,
  if◌then◌else◌, Option-cases, Bool-cases, arith,
}
use psmq.CString.{Bytes, str_eq, str_eq_iff}
use psmq.Errno.{Result, ok, err, enoent, enomem}
use psmq.TopicList.{keep, tl_add, unlink_node, tl_delete}

-- How often a topic is in the list.
unfoldable pub count : Bytes → List Bytes → ℕ
count u [] = 0
count u (t ∷ ts) = (if str_eq t u then 1 else 0) + count u ts

-- What each topic's count is after `topic` is added.
abbrev pub Adds : Bytes → List Bytes → Result (List Bytes) → Type 0
Adds topic head (ok new) =
    (u : Bytes) → count u new ≡ (if str_eq topic u then 1 else 0) + count u head
Adds topic head (err e) = e ≡ enomem

-- A subscription adds its topic once and changes the count of no other; it fails only with ENOMEM,
-- and only where there was no memory for the node.
pub tl_add-Adds :
    (memory : Bool) (head : List Bytes) (topic : Bytes)
    → Adds topic head (tl_add memory head topic)
      × ((tl_add memory head topic ≡ err enomem) ↔ (memory ≡ false))
unfolding tl_add count
tl_add-Adds false head topic = (refl, (λ h. refl, λ h. refl))
tl_add-Adds true [] topic = (λ u. refl, (λ h. cc, λ h. cc))
tl_add-Adds true (first ∷ others) topic = (λ u. omega arith, (λ h. cc, λ h. cc))

abbrev pub Deletes : Bytes → List Bytes → Result (List Bytes) → Type 0
Deletes topic head (ok new) =
    (0 < count topic head)
    × ((u : Bytes) → (if str_eq topic u then 1 else 0) + count u new ≡ count u head)
Deletes topic head (err e) = (e ≡ enoent) × (count topic head ≡ 0)

abbrev Unlinks : Bytes → List Bytes → Option (List Bytes) → Type 0
Unlinks topic head (some new) =
    (u : Bytes) → (if str_eq topic u then 1 else 0) + count u new ≡ count u head
Unlinks topic head none = count topic head ≡ 0

keep-Unlinks :
    (t topic : Bytes) (ts : List Bytes) (o : Option (List Bytes))
    → str_eq t topic ≡ false
    → Unlinks topic ts o
    → Unlinks topic (t ∷ ts) (keep t o)
unfolding count
keep-Unlinks t topic ts none e h = rw e (omega arith)
keep-Unlinks t topic ts (some us) e h = λ u. omega (arith, h u)

unlink_node-Unlinks :
    (head : List Bytes) (topic : Bytes) → Unlinks topic head (unlink_node head topic)
unfolding unlink_node count
unlink_node-Unlinks [] topic = refl
unlink_node-Unlinks (t ∷ ts) topic = elim (Bool-cases (str_eq t topic)) [
  | inl e ↦ rw e (λ u. ground (arith, str_eq_iff t topic, str_eq_iff topic u, str_eq_iff t u))
  | inr e ↦ rw e (keep-Unlinks t topic ts (unlink_node ts topic) e (unlink_node-Unlinks ts topic))
]

-- An unsubscription takes its topic out once and changes the count of no other; it fails with ENOENT
-- exactly when the topic is not in the list.
pub tl_delete-Deletes :
    (head : List Bytes) (topic : Bytes) → Deletes topic head (tl_delete head topic)
unfolding tl_delete
tl_delete-Deletes head topic = elim (Option-cases (unlink_node head topic)) [
  | inl e ↦ rw e (refl, rw e at (unlink_node-Unlinks head topic))
  | inr (us, e) ↦
      let h = rw e at (unlink_node-Unlinks head topic) in
      rw e (ground (arith, h topic, str_eq_iff topic topic), h)
]
