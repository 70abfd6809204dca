-- ===== src/Broker/Memory/Runs.antt =====
-- The memory of the broker's clients, from the first request to psmqd_broker_cleanup.
use psmq.Prelude.{
  ℕ, suc, ◌+◌, ◌≤◌, ◌<◌, ◌≡◌, refl, Bool, List, [], ◌∷◌, ◌++◌, Option, none, some, subst, length,
  length-append, length-set, length-replicate, Option-cases, inl, inr, get_elem?, sym, ◌∙◌,
  append_assoc, get_elem?-append, set-append, arith, replicate,
}
use psmq.CString.{Bytes}
use psmq.Platform.{Mqd}
use psmq.TopicList.Heap.{Ptr, null, Heap, resumed, Malloc, IsMalloc}
use psmq.Broker.Memory.{Request, closes, slot_of, request, cleanup_topics, lifetime}
use psmq.Broker.Memory.Lists.{Steps, done, next, list_on, request_lists}
use psmq.Broker.Memory.Owned.{Owned, Owned-mono}
use psmq.Broker.Memory.Follows.{Leaves, Follows, request-Leaves, requests-Implements}

-- What is left of the lists when those on slots with a queue are gone.
abbrev pub unclosed : List Mqd → List (List Bytes) → List (List Bytes)
unclosed [] tss = tss
unclosed (mq ∷ mqs) [] = []
unclosed (none ∷ mqs) (ts ∷ tss) = ts ∷ unclosed mqs tss
unclosed (some q ∷ mqs) (ts ∷ tss) = [] ∷ unclosed mqs tss

-- The run ends without a fault; with the lists that the requests made, those on slots without a queue
-- are still in memory, and nothing else of what was taken since the start.
abbrev pub Remains :
    ℕ → Heap → List Mqd → List (List Bytes) → List Request → Option (List Ptr × Heap) → Type 0
Remains k base mqs tss rs none = ⊥
Remains k base mqs tss rs (some (ps, g)) =
    (uss : List (List Bytes)) × Steps tss rs uss × Owned k base g ps (unclosed mqs uss)

closed-lists :
    (memory : Bool) (past : List (List Bytes)) (ts : List Bytes) (tss : List (List Bytes))
    → request_lists memory (past ++ ts ∷ tss) (closes (length past)) ≡ past ++ [] ∷ tss
closed-lists memory past ts tss =
    let there = get_elem?-append past tss ts in rw there (set-append past tss ts [])

length-request :
    (memory : Bool) (tss : List (List Bytes)) (r : Request)
    → length (request_lists memory tss r) ≡ length tss
length-request memory tss r = elim (Option-cases (get_elem? tss (slot_of r))) [
  | inl e ↦ rw e refl
  | inr (ts, e) ↦ rw e (length-set tss (slot_of r) (list_on memory ts r))
]

Steps-length :
    {tss uss : List (List Bytes)} {rs : List Request} → Steps tss rs uss → length uss ≡ length tss
Steps-length done = refl
Steps-length (next {tss} {uss} {r} memory s) = Steps-length s ∙ length-request memory tss r

module _ (n : ℕ) (malloc : Malloc) (fresh : IsMalloc malloc) (base : Heap) where
  Leaves-bind :
      (k j : ℕ) (tss uss : List (List Bytes)) (more : List Ptr → Heap → Option (List Ptr × Heap))
      (o : Option (List Ptr × Heap))
      → Leaves k base tss o
      → ((ps : List Ptr) (h : Heap) → Owned k base h ps tss → Leaves j base uss (more ps h))
      → Leaves j base uss (resumed more o)
  Leaves-bind k j tss uss more none l each = l
  Leaves-bind k j tss uss more (some (ps, h)) l each = each ps h l

  Leaves-mono :
      (k j : ℕ) (tss : List (List Bytes)) (o : Option (List Ptr × Heap))
      → k ≤ j
      → Leaves k base tss o
      → Leaves j base tss o
  Leaves-mono k j tss none le l = l
  Leaves-mono k j tss (some (ps, h)) le l = Owned-mono k j base ps tss h le l

  -- The slots before `fd` have been passed.
  cleanup_topics-Leaves :
      (mqs : List Mqd) (past tss : List (List Bytes)) (k : ℕ) (ps : List Ptr) (h : Heap)
      → length mqs + k < n
      → Owned k base h ps (past ++ tss)
      → length mqs ≡ length tss
      → Leaves
          (length mqs + k)
          base
          (past ++ unclosed mqs tss)
          (cleanup_topics n malloc (length past) mqs ps h)
  unfolding cleanup_topics
  cleanup_topics-Leaves [] past tss k ps h lt o e =
      Owned-mono k _ base ps (past ++ tss) h (omega arith) o
  cleanup_topics-Leaves (mq ∷ mqs) past [] k ps h lt o e = absurd (omega (arith, e))
  cleanup_topics-Leaves (none ∷ mqs) past (ts ∷ tss) k ps h lt o e =
      let one : length (past ++ ts ∷ []) ≡ suc (length past) =
        omega (arith, length-append past (ts ∷ [])) in
      let o' = subst (Owned k base h ps) (sym (append_assoc past (ts ∷ []) tss)) o in
      let rest =
        cleanup_topics-Leaves mqs (past ++ ts ∷ []) tss k ps h (omega arith) o' (omega arith) in
      Leaves-mono (length mqs + k) _ _ _ (omega arith)
        (rw (one, append_assoc past (ts ∷ []) (unclosed mqs tss)) at rest)
  cleanup_topics-Leaves (some q ∷ mqs) past (ts ∷ tss) k ps h lt o e =
      let one : length (past ++ [] ∷ []) ≡ suc (length past) =
        omega (arith, length-append past ([] ∷ [])) in
      let (memory, closed) =
        request-Leaves malloc fresh n base k ps (past ++ ts ∷ tss) h (closes (length past))
          (omega arith) o in
      let sum : length mqs + suc k ≡ suc (length mqs) + k = omega arith in
      let after = request n malloc ps (closes (length past)) h in
      Leaves-bind (suc k) (suc (length mqs) + k) (past ++ [] ∷ tss) (past ++ [] ∷ unclosed mqs tss)
        (cleanup_topics n malloc (suc (length past)) mqs) after
        (subst (λ lists. Leaves (suc k) base lists after) (closed-lists memory past ts tss) closed)
        λ qs g o'.
          let o'' = subst (Owned (suc k) base g qs) (sym (append_assoc past ([] ∷ []) tss)) o' in
          let rest =
            cleanup_topics-Leaves mqs (past ++ [] ∷ []) tss (suc k) qs g (omega arith) o''
              (omega arith) in
          rw (one, append_assoc past ([] ∷ []) (unclosed mqs tss), sum) at rest

  Leaves-Remains :
      (k : ℕ) (mqs : List Mqd) {tss uss : List (List Bytes)} {rs : List Request}
      → Steps tss rs uss
      → (o : Option (List Ptr × Heap)) → Leaves k base (unclosed mqs uss) o
      → Remains k base mqs tss rs o
  Leaves-Remains k mqs steps none l = l
  Leaves-Remains k mqs {uss} steps (some (ps, g)) l = (uss, steps, l)

  Follows-Remains :
      (k : ℕ) (mqs : List Mqd) (tss : List (List Bytes)) (rs : List Request)
      (o : Option (List Ptr × Heap))
      → length mqs + k < n
      → length mqs ≡ length tss
      → Follows k base tss rs o
      → Remains (length mqs + k) base mqs tss rs (resumed (cleanup_topics n malloc 0 mqs) o)
  Follows-Remains k mqs tss rs none lt e f = f
  Follows-Remains k mqs tss rs (some (ps, h)) lt e (uss, steps, o) =
      Leaves-Remains _ mqs steps (cleanup_topics n malloc 0 mqs ps h)
        (cleanup_topics-Leaves mqs [] uss k ps h lt o (e ∙ sym (Steps-length steps)))

-- Where malloc() gives memory that is not in use, and with more rounds than there are requests and
-- slots: any requests of any clients to subscribe, unsubscribe and close, on slots without topics, and then
-- the cleanup, end without a fault, allocations that fail included; the lists on the slots that have a
-- queue at the cleanup are gone then, those that the requests left on free slots are still in memory, and
-- all other memory is as it was before the first request.
pub lifetime-Remains :
    (malloc : Malloc)
    → IsMalloc malloc
    → (n : ℕ) (mqs : List Mqd) (rs : List Request) → length mqs + length rs < n
    → (h : Heap)
    → Remains
        (length mqs + length rs)
        h
        mqs
        (replicate (length mqs) [])
        rs
        (lifetime n malloc mqs (replicate (length mqs) null) rs h)
unfolding lifetime
lifetime-Remains malloc fresh n mqs rs lt h =
    Follows-Remains n malloc fresh h (length rs) mqs (replicate (length mqs) []) rs _ lt
      (sym (length-replicate (length mqs) []))
      (requests-Implements malloc fresh n (length mqs) rs (omega arith) h)
