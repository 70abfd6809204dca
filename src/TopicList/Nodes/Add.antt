-- ===== src/TopicList/Nodes/Add.antt =====
-- psmqd_tl_add on the nodes does what it does on the list of topics.
use psmq.Prelude.{
  ◌+◌, ◌≡◌, refl, ap, ◌∙◌, Bool, true, false, not, ◌==◌, leb, Option, none, some, [], ◌∷◌, inl, inr,
  Bool-cases, arith,
}
use psmq.CString.{Bytes, strlen}
use psmq.TopicList.{node_size, tl_add}
use psmq.TopicList.Heap.{
  Ptr, null, Node, Heap, put, cell, Malloc, IsMalloc, alloc, load-At, set_next-At, set_topic-At,
  At-put, At-put_ne, At-not_null, put-put,
}
use psmq.TopicList.Nodes.{copy_topic, new_node, link_node, add}
use psmq.TopicList.Nodes.Chain.{
  Nodes, has, topics, Chain, end, link, beside, Chain-frame, SameBeside, Chain-unused, Implements,
}

-- The address that malloc() gives for the node of a topic, and whether it gives one.
abbrev pub block : Malloc → Bytes → Heap → Ptr
block malloc topic h = (malloc (node_size + strlen topic + 1) h).0

abbrev pub has_memory : Malloc → Bytes → Heap → Bool
has_memory malloc topic h = not (block malloc topic h == null)

module _ (malloc : Malloc) (topic : Bytes) (h : Heap) where
  new_node-null : (block malloc topic h == null) ≡ true → new_node malloc topic h ≡ some (null, h)
  unfolding new_node alloc
  new_node-null e = rw e refl

  new_node-some :
      (block malloc topic h == null) ≡ false
      → new_node malloc topic h
        ≡ some (
          block malloc topic h,
          put h (block malloc topic h) (some (record { topic = topic; next = null })),
        )
  unfolding new_node alloc copy_topic
  new_node-some e =
      let room : leb (node_size + strlen topic + 1) (node_size + strlen topic + 1) ≡ true =
        ground arith in
      let b = block malloc topic h in
      let n = (malloc (node_size + strlen topic + 1) h).1 in
      let m : Node = record n { topic = topic } in
      let h' = put h b (some n) in
      rw (e, e, room, set_topic-At (At-put h b n e) topic, set_next-At (At-put h' b m e) null)
        (ap (λ g. some (b, g)) (put-put h' b (some m) _ ∙ put-put h b (some n) _))

-- The heap of psmqd_tl_add on a list that is not empty: the new node is filled, points to the second
-- node, and the first node points to it.
abbrev linked : Heap → Ptr → Ptr → Bytes → Bytes → Ptr → Option Node → Heap
linked h p b t topic q n =
    put (put (put h b n) b (some (record { topic = topic; next = q }))) p
      (some (record { topic = t; next = b }))

module _ (h : Heap) (p b : Ptr) (t topic : Bytes) (q : Ptr) (n : Option Node) (xs : Nodes) where
  linked-Chain :
      (p == null) ≡ false
      → (b == null) ≡ false
      → has p xs ≡ false
      → has b ((p, t) ∷ xs) ≡ false
      → Chain h q xs
      → Chain (linked h p b t topic q n) p ((p, t) ∷ (b, topic) ∷ xs)
  unfolding put cell
  linked-Chain e e' out apart c =
      link (record { holds = ground arith }) (ground arith)
        (link (record { holds = ground arith }) (ground arith) (Chain-frame c λ a i. ground arith))

  linked-SameBeside :
      h b ≡ none
      → has b ((p, t) ∷ xs) ≡ false
      → SameBeside ((p, t) ∷ xs) h ((p, t) ∷ (b, topic) ∷ xs) (linked h p b t topic q n)
  unfolding put beside
  linked-SameBeside unused apart = λ a. ground arith

link_node-Implements :
    {h : Heap} {p : Ptr} {xs : Nodes} (b : Ptr) (topic : Bytes)
    → Chain h p xs
    → (b == null) ≡ false
    → h b ≡ none
    → Implements
        (tl_add true (topics xs) topic)
        xs
        h
        (link_node p b (put h b (some (record { topic = topic; next = null }))))
unfolding link_node tl_add beside
link_node-Implements {h} b topic end e unused = (
  (b, topic) ∷ [],
  refl,
  link (At-put h b _ e) refl end,
  let u = unused in unfold put in ground arith,
)
link_node-Implements {h} b topic (link {p} {q} {t} {xs} at out c) e unused =
    let apart = Chain-unused b (link at out c) unused in
    let n : Node = record { topic = topic; next = null } in
    let h' = put h b (some n) in
    let at' = At-put_ne at b (some n) (ground arith) in
    let at'' = At-put_ne at' b (some (record n { next = q })) (ground arith) in
    rw (At-not_null at, load-At at', set_next-At (At-put h b n e) q, set_next-At at'' b)
      (
        (p, t) ∷ (b, topic) ∷ xs,
        refl,
        linked-Chain h p b t topic q (some n) xs (At-not_null at) e out apart c,
        linked-SameBeside h p b t topic q (some n) xs unused apart,
      )

-- Where malloc() gives memory that is not in use, psmqd_tl_add on the nodes of a list ends without a
-- fault and does to them what tl_add does to the list of their topics; no other memory changes.
pub add-Implements :
    (malloc : Malloc) {h : Heap} {p : Ptr} {xs : Nodes}
    → IsMalloc malloc
    → Chain h p xs
    → (topic : Bytes)
    → Implements
        (tl_add (has_memory malloc topic h) (topics xs) topic)
        xs
        h
        (add malloc (some p) (some topic) h)
unfolding add tl_add
add-Implements malloc {h} fresh c topic = elim (Bool-cases (block malloc topic h == null)) [
  | inl e ↦ rw (new_node-null malloc topic h e, e) (refl, refl)
  | inr e ↦
      rw (new_node-some malloc topic h e, e)
        (link_node-Implements (block malloc topic h) topic c e (fresh _ h e))
]
