-- ===== src/TopicList/Nodes/Destroy.antt =====
-- psmqd_tl_destroy gives back every node of the list, and nothing else.
use psmq.Prelude.{ℕ, zero, false, suc, ◌<◌, ◌≡◌, refl, none, some, [], ◌∷◌, Option, length, arith}
use psmq.CString.{Bytes}
use psmq.Errno.{Result, ok, err, einval}
use psmq.TopicList.Heap.{Ptr, Heap, put, load-At, free-At, At-not_null}
use psmq.TopicList.Nodes.{destroy_from, destroy}
use psmq.TopicList.Nodes.Chain.{Nodes, has, Chain, end, link, beside, SameBeside, Chain-put}

-- The run ends with that result, and the list's nodes are free.
abbrev pub Destroys : Nodes → Heap → Result (Unit {0}) → Option (Result (Unit {0}) × Heap) → Type 0
Destroys xs h r none = ⊥
Destroys xs h r (some (s, g)) = (s ≡ r) × SameBeside xs h [] g

Destroys-link :
    (xs : Nodes) (t : Bytes) (h : Heap) (p : Ptr) (r : Result (Unit {0}))
    (o : Option (Result (Unit {0}) × Heap))
    → has p xs ≡ false
    → Destroys xs (put h p none) r o
    → Destroys ((p, t) ∷ xs) h r o
unfolding beside put
Destroys-link xs t h p r none out d = d
Destroys-link xs t h p r (some (s, g)) out d = (d.0, λ a. ground (arith, d.1 a))

destroy_from-Destroys :
    (n : ℕ) {h : Heap} {p : Ptr} {xs : Nodes}
    → Chain h p xs
    → length xs < n
    → Destroys xs h (ok tt) (destroy_from n p h)
unfolding destroy_from
destroy_from-Destroys zero c enough = absurd (omega arith)
destroy_from-Destroys (suc n) end enough = (refl, λ a. refl)
destroy_from-Destroys (suc n) {h} (link {p} {q} {t} {xs} e out c) enough =
    rw (At-not_null e, load-At e, free-At e)
      (Destroys-link xs t h p (ok tt) _ out
        (destroy_from-Destroys n (Chain-put p none c out) (omega arith)))

abbrev pub destroy_result : Nodes → Result (Unit {0})
destroy_result [] = err einval
destroy_result (x ∷ xs) = ok tt

-- On a list of fewer nodes than there are rounds, psmqd_tl_destroy ends without a fault, frees every
-- node of the list once and changes no other memory; it fails with EINVAL exactly on the empty list.
pub destroy-Destroys :
    (n : ℕ) {h : Heap} {p : Ptr} {xs : Nodes}
    → Chain h p xs
    → length xs < n
    → Destroys xs h (destroy_result xs) (destroy n p h)
unfolding destroy
destroy-Destroys n end enough = (refl, λ a. refl)
destroy-Destroys n (link e out c) enough =
    rw (At-not_null e) (destroy_from-Destroys n (link e out c) enough)
