-- ===== src/TopicList/Nodes/Delete.antt =====
-- psmqd_tl_delete on the nodes does what it does on the list of topics.
use psmq.Prelude.{
  ℕ, zero, suc, ◌<◌, ◌≡◌, refl, true, false, ◌==◌, Option, none, some, [], ◌∷◌, inl, inr,
  Bool-cases, length, arith, if◌then◌else◌,
}
use psmq.CString.{Bytes, str_eq}
use psmq.Errno.{Result, ok, err, enoent}
use psmq.TopicList.{unlink_node, tl_delete}
use psmq.TopicList.Heap.{
  Ptr, null, Node, Heap, put, cell, At, load-At, set_next-At, free-At, At-put_ne, At-not_null,
}
use psmq.TopicList.Nodes.{find_from, remove_node, delete}
use psmq.TopicList.Nodes.Chain.{
  Nodes, has, topics, Chain, end, link, beside, SameBeside, Chain-frame, Chain-put, Implements,
}

-- The first node of a topic, and the node before it.
unfoldable locate : Ptr → Nodes → Bytes → Ptr × Ptr
locate prev [] topic = (null, prev)
locate prev ((p, t) ∷ xs) topic = if str_eq t topic then (p, prev) else locate p xs topic

find_from-locate :
    (n : ℕ) {h : Heap} (prev : Ptr) {p : Ptr} {xs : Nodes} (topic : Bytes)
    → Chain h p xs
    → length xs < n
    → find_from n prev p topic h ≡ some (locate prev xs topic, h)
unfolding find_from locate
find_from-locate zero prev topic c enough = absurd (omega arith)
find_from-locate (suc n) prev topic end enough = refl
find_from-locate (suc n) prev topic (link {p} {q} {t} at out c) enough =
    rw (At-not_null at, load-At at)
      (elim (Bool-cases (str_eq t topic)) [
        | inl hit ↦ rw hit refl
        | inr miss ↦ rw miss (find_from-locate n p topic c (omega arith))
      ])

-- What a removal among the nodes `xs` behind the node `prev` does.
abbrev Behind : Ptr → Ptr → Bytes → Nodes → Bytes → Heap → Option (Result Ptr × Heap) → Type 0
Behind head prev t xs topic h none = ⊥
Behind head prev t xs topic h (some (err e, g)) =
    (e ≡ enoent) × (unlink_node (topics xs) topic ≡ none) × (g ≡ h)
Behind head prev t xs topic h (some (ok r, g)) =
    (r ≡ head)
    × ((ys : Nodes) × (unlink_node (topics xs) topic ≡ some (topics ys))
        × Chain g prev ((prev, t) ∷ ys)
        × SameBeside ((prev, t) ∷ xs) h ((prev, t) ∷ ys) g)

module _ (h : Heap) (head prev p : Ptr) (t u topic : Bytes) (xs : Nodes)
    (at : At h prev (record { topic = t; next = p })) (out : has prev ((p, u) ∷ xs) ≡ false) where
  Behind-link :
      (o : Option (Result Ptr × Heap))
      → str_eq u topic ≡ false
      → Behind head p u xs topic h o
      → Behind head prev t ((p, u) ∷ xs) topic h o
  unfolding unlink_node beside cell
  Behind-link none miss b = b
  Behind-link (some (err e, g)) miss (errno, none_there, same) =
      (errno, rw (miss, none_there) refl, same)
  Behind-link (some (ok r, g)) miss (is_head, (ys, e, c, same)) =
      let x = at.holds in
      (
        is_head,
        (
          (p, u) ∷ ys,
          rw (miss, e) refl,
          link (record { holds = ground (arith, same prev) }) (ground (arith, same prev)) c,
          λ a. ground (arith, same a),
        ),
      )

  abbrev unlinked : Ptr → Heap
  unlinked q = put (put h prev (some (record { topic = t; next = q }))) p none

  unlinked-Chain :
      (q : Ptr) → has p xs ≡ false → Chain h q xs → Chain (unlinked q) prev ((prev, t) ∷ xs)
  unfolding put cell
  unlinked-Chain q out' c =
      link (record { holds = let x = at.holds in ground arith }) (ground arith)
        (Chain-frame c λ a i. ground arith)

  unlinked-SameBeside :
      (q : Ptr)
      → has p xs ≡ false
      → SameBeside ((prev, t) ∷ (p, u) ∷ xs) h ((prev, t) ∷ xs) (unlinked q)
  unfolding put beside
  unlinked-SameBeside q out' = λ a. ground arith

  unlink-Behind :
      (q : Ptr)
      → At h p (record { topic = u; next = q })
      → has p xs ≡ false
      → (p == head) ≡ false
      → Chain h q xs
      → str_eq u topic ≡ true
      → Behind head prev t ((p, u) ∷ xs) topic h (remove_node head p prev h)
  unfolding remove_node unlink_node
  unlink-Behind q at' out' apart c hit =
      let n : Node = record { topic = t; next = q } in
      let at'' = At-put_ne at' prev (some n) (ground arith) in
      rw (At-not_null at', load-At at', apart, set_next-At at q, free-At at'')
        (refl, (xs, rw hit refl, unlinked-Chain q out' c, unlinked-SameBeside q out'))

remove_node-Behind :
    {h : Heap} (head : Ptr) {prev p : Ptr} {t : Bytes} (topic : Bytes) {xs : Nodes}
    → At h prev (record { topic = t; next = p })
    → has prev xs ≡ false
    → has head xs ≡ false
    → Chain h p xs
    → Behind head prev t xs topic h
        (remove_node head (locate prev xs topic).0 (locate prev xs topic).1 h)
unfolding locate remove_node unlink_node
remove_node-Behind head topic at out apart end = (refl, refl, refl)
remove_node-Behind {h} head {prev} {p} {t} topic at out apart (link {q} {t = u} {xs} at' out' c) =
    elim (Bool-cases (str_eq u topic)) [
      | inl hit ↦
          rw hit (unlink-Behind h head prev p t u topic xs at out q at' out' (ground arith) c hit)
      | inr miss ↦ rw miss (
          Behind-link h head prev p t u topic xs at out _ miss
            (remove_node-Behind head topic at' out' (ground arith) c))
    ]

Behind-Implements :
    (h : Heap) (p : Ptr) (t topic : Bytes) (xs : Nodes) (o : Option (Result Ptr × Heap))
    → str_eq t topic ≡ false
    → Behind p p t xs topic h o
    → Implements (tl_delete (t ∷ topics xs) topic) ((p, t) ∷ xs) h o
unfolding tl_delete unlink_node
Behind-Implements h p t topic xs none miss b = b
Behind-Implements h p t topic xs (some (err e, g)) miss (errno, none_there, same) =
    (rw (miss, none_there, errno) refl, same)
Behind-Implements h p t topic xs (some (ok r, g)) miss (is_head, (ys, e, c, same)) =
    ((p, t) ∷ ys, rw (miss, e) refl, rw is_head c, same)

head-Implements :
    {h : Heap} {p q : Ptr} {t : Bytes} (topic : Bytes) {xs : Nodes}
    → At h p (record { topic = t; next = q })
    → has p xs ≡ false
    → Chain h q xs
    → str_eq t topic ≡ true
    → Implements (tl_delete (t ∷ topics xs) topic) ((p, t) ∷ xs) h (remove_node p p null h)
unfolding tl_delete unlink_node remove_node
head-Implements {h} {p} {q} {t} topic {xs} at out c hit =
    let same : (p == p) ≡ true = ground arith in
    rw (At-not_null at, load-At at, same, free-At at)
      (xs, rw hit refl, Chain-put p none c out, unfold put beside in λ a. ground arith)

remove_found-Implements :
    {h : Heap} {p q : Ptr} {t : Bytes} (topic : Bytes) {xs : Nodes}
    → At h p (record { topic = t; next = q })
    → has p xs ≡ false
    → Chain h q xs
    → Implements
        (tl_delete (t ∷ topics xs) topic)
        ((p, t) ∷ xs)
        h
        (remove_node p (locate null ((p, t) ∷ xs) topic).0 (locate null ((p, t) ∷ xs) topic).1 h)
unfolding locate
remove_found-Implements {h} {p} {q} {t} topic {xs} at out c = elim (Bool-cases (str_eq t topic)) [
  | inl hit ↦ rw hit (head-Implements topic at out c hit)
  | inr miss ↦
      rw miss (Behind-Implements h p t topic xs _ miss (remove_node-Behind p topic at out out c))
]

-- On a list of fewer nodes than there are rounds, psmqd_tl_delete on the nodes ends without a fault
-- and does to them what tl_delete does to the list of their topics: it frees the node that it takes
-- out, or fails with ENOENT, and changes no other memory.
pub delete-Implements :
    (n : ℕ) {h : Heap} {p : Ptr} {xs : Nodes}
    → Chain h p xs
    → length xs < n
    → (topic : Bytes)
    → Implements (tl_delete (topics xs) topic) xs h (delete n (some p) (some topic) h)
unfolding delete
delete-Implements n end enough topic = unfold tl_delete unlink_node in (refl, refl)
delete-Implements n (link at out c) enough topic =
    rw (At-not_null at, find_from-locate n null topic (link at out c) enough)
      (remove_found-Implements topic at out c)
