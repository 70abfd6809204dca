-- ===== src/Broker/Memory/Follows.antt =====
-- The memory of the broker's clients, request by request, against the lists of their topics.
use psmq.Prelude.{
  Bool, true, ℕ, zero, suc, ◌+◌, ◌≤◌, ◌<◌, ◌≡◌, refl, sym, List, [], ◌∷◌, Option, none, some, subst,
  length, get_elem?, set, Option-cases, inl, inr, arith, replicate,
}
use psmq.CString.{Bytes}
use psmq.Errno.{Result, ok, err}
use psmq.TopicList.Heap.{Ptr, null, Heap, resumed, Malloc, IsMalloc}
use psmq.TopicList.Nodes.{destroy}
use psmq.TopicList.Nodes.Chain.{topics, end, beside, Implements}
use psmq.TopicList.Nodes.Add.{has_memory}
use psmq.TopicList.Nodes.Destroy.{Destroys, destroy_result, destroy-Destroys}
use psmq.TopicList.Nodes.Changes.{
  Change, change, list_change, topic_of, change-Implements, Within, Within-mono, list_change-Within,
  length-topics, head_after,
}
use psmq.Broker.Memory.{Request, changes, closes, slot_of, request_on, request, requests}
use psmq.Broker.Memory.Lists.{list_after, list_on, request_lists, Steps, done, next}
use psmq.Broker.Memory.Owned.{Owned, Slot, slot-Owned, Owned-mono, Owned-none}

-- A run leaves these lists, which share the memory.
abbrev pub Leaves : ℕ → Heap → List (List Bytes) → Option (List Ptr × Heap) → Type 0
Leaves k base tss none = ⊥
Leaves k base tss (some (ps, g)) = Owned k base g ps tss

module _ (malloc : Malloc) (fresh : IsMalloc malloc) (n : ℕ) (base : Heap) (ps : List Ptr)
    (tss : List (List Bytes)) (k : ℕ) (enough : k < n) {h : Heap} {i : ℕ} {p : Ptr}
    (s : Slot k (suc k) base h ps tss i p) where
  Implements-Leaves :
      (r : Result (List Bytes)) (o : Option (Result Ptr × Heap))
      → Within (suc k) r
      → Implements r s.nodes h o
      → Leaves
          (suc k)
          base
          (set tss i (list_after (topics s.nodes) r))
          (resumed (λ q g. some (set ps i q, g)) (resumed (λ a g. some (head_after p a, g)) o))
  Implements-Leaves r none within f = f
  Implements-Leaves r (some (err e, g)) within (failed, is) = rw failed (
      subst (λ f. Owned (suc k) base f (set ps i p) (set tss i (topics s.nodes))) (sym is)
        (s.changed h p s.nodes s.chain (omega (arith, s.few)) λ a. refl))
  Implements-Leaves r (some (ok q, g)) within (ys, is, c, same) =
      let few : length (topics ys) ≤ suc k = subst (Within (suc k)) is within in
      rw is (s.changed g q ys c (omega (arith, length-topics ys)) same)

  change-Leaves :
      (c : Change)
      → (memory : Bool) × Leaves
          (suc k)
          base
          (set tss i (list_after (topics s.nodes) (list_change memory (topics s.nodes) c)))
          (resumed
            (λ q g. some (set ps i q, g))
            (resumed (λ a g. some (head_after p a, g)) (change n malloc p c h)))
  change-Leaves c =
      let memory = has_memory malloc (topic_of c) h in
      (
        memory,
        Implements-Leaves (list_change memory (topics s.nodes) c) (change n malloc p c h)
            (Within-mono (length (topics s.nodes) + 1) (suc k) _
              (list_change-Within memory (topics s.nodes) c)
              (omega (arith, length-topics s.nodes, s.few)))
            (change-Implements n malloc fresh s.chain (omega (arith, s.few)) c),
      )

  Destroys-Leaves :
      (r : Result (Unit {0})) (o : Option (Result (Unit {0}) × Heap))
      → Destroys s.nodes h r o
      → Leaves
          (suc k)
          base
          (set tss i [])
          (resumed (λ q g. some (set ps i q, g)) (resumed (λ _ g. some (null, g)) o))
  Destroys-Leaves r none d = d
  Destroys-Leaves r (some (a, g)) (_, same) = s.changed g null [] end (omega arith) same

-- A run leaves what some steps make of the lists.
abbrev pub Follows : ℕ → Heap → List (List Bytes) → List Request → Option (List Ptr × Heap) → Type 0
Follows k base tss rs none = ⊥
Follows k base tss rs (some (ps, g)) =
    (uss : List (List Bytes)) × Steps tss rs uss × Owned k base g ps uss

Follows-next :
    (k : ℕ) (base : Heap) (tss : List (List Bytes)) (r : Request) (rs : List Request)
    (memory : Bool) (o : Option (List Ptr × Heap))
    → Follows k base (request_lists memory tss r) rs o
    → Follows k base tss (r ∷ rs) o
Follows-next k base tss r rs memory none f = f
Follows-next k base tss r rs memory (some (ps, g)) (uss, steps, owned) =
    (uss, next memory steps, owned)

module _ (malloc : Malloc) (fresh : IsMalloc malloc) (n : ℕ) (base : Heap) where
  request_on-Leaves :
      (k : ℕ) (ps : List Ptr) (tss : List (List Bytes)) (h : Heap) (p : Ptr) (r : Request)
      → k < n
      → (s : Slot k (suc k) base h ps tss (slot_of r) p)
      → (memory : Bool) × Leaves
          (suc k)
          base
          (set tss (slot_of r) (list_on memory (topics s.nodes) r))
          (resumed (λ q g. some (set ps (slot_of r) q, g)) (request_on n malloc p r h))
  unfolding request_on
  request_on-Leaves k ps tss h p (changes fd c) lt s =
      change-Leaves malloc fresh n base ps tss k lt s c
  request_on-Leaves k ps tss h p (closes fd) lt s = (
    true,
    Destroys-Leaves malloc fresh n base ps tss k lt s (destroy_result s.nodes) (destroy n p h)
        (destroy-Destroys n s.chain (omega (arith, s.few))),
  )

  pub request-Leaves :
      (k : ℕ) (ps : List Ptr) (tss : List (List Bytes)) (h : Heap) (r : Request)
      → k < n
      → Owned k base h ps tss
      → (memory : Bool) × Leaves (suc k) base (request_lists memory tss r) (request n malloc ps r h)
  unfolding request
  request-Leaves k ps tss h r lt o = elim (Option-cases (get_elem? ps (slot_of r))) [
    | inl e ↦ (
      true,
      rw (e, Owned-none k base ps tss h (slot_of r) o e)
          (Owned-mono k (suc k) base ps tss h (omega arith) o),
    )
    | inr (p, e) ↦
        let s = slot-Owned k (suc k) base ps tss h (slot_of r) p (omega arith) o e in
        let (memory, l) = request_on-Leaves k ps tss h p r lt s in (memory, rw (e, s.there) l)
  ]

  Leaves-bind :
      (r : Request) (rs : List Request) (k j : ℕ) (tss : List (List Bytes)) (memory : Bool)
      (o : Option (List Ptr × Heap))
      → Leaves k base (request_lists memory tss r) o
      → ((ps : List Ptr) (h : Heap)
          → Owned k base h ps (request_lists memory tss r)
          → Follows j base (request_lists memory tss r) rs (requests n malloc ps rs h))
      → Follows j base tss (r ∷ rs) (resumed (λ ps. requests n malloc ps rs) o)
  Leaves-bind r rs k j tss memory none l more = l
  Leaves-bind r rs k j tss memory (some (ps, h)) l more =
      Follows-next j base tss r rs memory (requests n malloc ps rs h) (more ps h l)

  requests-Follows :
      (rs : List Request) (k : ℕ) (ps : List Ptr) (tss : List (List Bytes)) (h : Heap)
      → length rs + k < n
      → Owned k base h ps tss
      → Follows (length rs + k) base tss rs (requests n malloc ps rs h)
  unfolding requests
  requests-Follows [] k ps tss h lt o = (tss, done, Owned-mono k _ base ps tss h (omega arith) o)
  requests-Follows (r ∷ rs) k ps tss h lt o =
      let e : length rs + suc k ≡ suc (length rs) + k = omega arith in
      let (memory, l) = request-Leaves k ps tss h r (omega arith) o in
      Leaves-bind r rs (suc k) (suc (length rs) + k) tss memory (request n malloc ps r h) l
        λ qs g o'.
          subst (λ m. Follows m base (request_lists memory tss r) rs (requests n malloc qs rs g)) e
            (requests-Follows rs (suc k) qs (request_lists memory tss r) g (omega arith) o')

none-Owned : (m : ℕ) (h : Heap) → Owned 0 h h (replicate m null) (replicate m [])
unfolding beside
none-Owned zero h = λ a. refl
none-Owned (suc m) h = ([], refl, end, omega arith, none-Owned m h)

-- Where malloc() gives memory that is not in use, and with more rounds than there are requests: any
-- requests of any clients to subscribe, unsubscribe and close, on slots without topics, end without a
-- fault, and each slot's pointer leads to nodes with the topics that these requests make of lists of
-- topics, where some of the allocations may fail; no two slots have a node in common, and no other memory
-- changed.
pub requests-Implements :
    (malloc : Malloc)
    → IsMalloc malloc
    → (n m : ℕ) (rs : List Request) → length rs < n
    → (h : Heap)
    → Follows (length rs) h (replicate m []) rs (requests n malloc (replicate m null) rs h)
requests-Implements malloc fresh n m rs lt h =
    let e : length rs + 0 ≡ length rs = omega arith in
    subst (λ k. Follows k h (replicate m []) rs (requests n malloc (replicate m null) rs h)) e
      (requests-Follows malloc fresh n h rs 0 (replicate m null) (replicate m []) h (omega arith)
        (none-Owned m h))
