-- ===== src/Suite/Seats.antt =====
-- src/tst/psmqd.c, psmqd_wildard_test: the clients of the test, and what waits for them.
use mathlib.Core.Option.{some-injective}
use psmq.Prelude.{
  ℕ, ◌+◌, ◌≡◌, refl, false, List, [], ◌∷◌, ◌++◌, none, some, if◌then◌else◌, Bool-cases, inl, inr,
  ◌==◌, length, get_elem?, set, zero, suc, subst, ◌<◌, All, arith,
}
use psmq.CString.{Bytes}
use psmq.Message.{Msg}
use psmq.Platform.{Platform}
use psmq.Topic.{topic_matches}
use psmq.Broker.State.{Client}
use psmq.Broker.Reply.{is_free}
use psmq.Broker.Publish.Delivery.{is_match, wants, delivered}
use psmq.Suite.{Peer}
use psmq.Suite.Waiting.{publication, got}

-- The clients whose subscription matches, by their numbers; the first one has number `i`.
abbrev pub matching : ℕ → ℕ → List Bytes → Bytes → List ℕ
matching n i [] t = []
matching n i (s ∷ subs) t =
    let rest = matching n (i + 1) subs t in
    if is_match (topic_matches n t s) then i ∷ rest else rest

abbrev pub IsVacant : Client → Type 0
IsVacant c = (c.mq ≡ none) × (c.topics ≡ [])

-- Each client has one subscription, and its slot behind that of the client before it; no other slot
-- is taken.
abbrev pub Subscribed : List Peer → List Bytes → List Client → Type 0
Subscribed [] [] cs = All IsVacant cs
Subscribed [] (s ∷ subs) cs = ⊥
Subscribed (x ∷ xs) [] cs = ⊥
Subscribed (x ∷ xs) (s ∷ subs) [] = ⊥
Subscribed (x ∷ xs) (s ∷ subs) (c ∷ cs) =
    (c.mq ≡ some x.mq) × (c.topics ≡ s ∷ []) × Subscribed xs subs cs

-- What the clients are sent of a publication on a queue.
abbrev pub due : ℕ → Bytes → ℕ → List Peer → List Bytes → List Msg
due n t q [] subs = []
due n t q (x ∷ xs) [] = []
due n t q (x ∷ xs) (s ∷ subs) =
    (if is_match (topic_matches n t s) then (if x.mq == q then publication t ∷ [] else []) else [])
    ++ due n t q xs subs

got-free : (n : ℕ) (t : Bytes) (q : ℕ) (cs : List Client) → All IsVacant cs → got n t q cs ≡ []
got-free n t q [] h = refl
got-free n t q (c ∷ cs) h = rw (h.0.0) (got-free n t q cs h.1)

pub got-Subscribed :
    (n : ℕ) (t : Bytes) (q : ℕ) (xs : List Peer) (subs : List Bytes) (cs : List Client)
    → Subscribed xs subs cs
    → got n t q cs ≡ due n t q xs subs
got-Subscribed n t q [] [] cs h = got-free n t q cs h
got-Subscribed n t q (x ∷ xs) (s ∷ subs) (c ∷ cs) h =
    let rest = got-Subscribed n t q xs subs cs h.2 in
    elim (Bool-cases (is_match (topic_matches n t s))) [
      | inl e ↦ rw (h.0, h.1, e, rest) refl
      | inr e ↦ rw (h.0, h.1, e, rest) refl
    ]
got-Subscribed n t q [] (s ∷ subs) cs h = absurd h
got-Subscribed n t q (x ∷ xs) [] cs h = absurd h
got-Subscribed n t q (x ∷ xs) (s ∷ subs) [] h = absurd h

delivered-free :
    (p : Platform) (t rest : Bytes) (cs : List Client)
    → All IsVacant cs
    → All IsVacant (delivered p t rest 0 0 cs)
delivered-free p t rest [] h = tt
delivered-free p t rest (c ∷ cs) h = elim (Bool-cases (wants p.msg_max t c)) [
  | inl e ↦ rw e (h.0, delivered-free p t rest cs h.1)
  | inr e ↦ rw e (h.0, delivered-free p t rest cs h.1)
]

pub delivered-Subscribed :
    (p : Platform) (t rest : Bytes) (xs : List Peer) (subs : List Bytes) (cs : List Client)
    → Subscribed xs subs cs
    → Subscribed xs subs (delivered p t rest 0 0 cs)
delivered-Subscribed p t rest [] [] cs h = delivered-free p t rest cs h
delivered-Subscribed p t rest (x ∷ xs) (s ∷ subs) (c ∷ cs) h =
    let next = delivered-Subscribed p t rest xs subs cs h.2 in
    elim (Bool-cases (wants p.msg_max t c)) [
      | inl e ↦ rw e (h.0, h.1, next)
      | inr e ↦ rw e (h.0, h.1, next)
    ]
delivered-Subscribed p t rest [] (s ∷ subs) cs h = absurd h
delivered-Subscribed p t rest (x ∷ xs) [] cs h = absurd h
delivered-Subscribed p t rest (x ∷ xs) (s ∷ subs) [] h = absurd h

-- The slots before this one are taken.
abbrev pub IsFullBelow : ℕ → List Client → Type 0
IsFullBelow i cs = (j : ℕ) (d : Client) → j < i → get_elem? cs j ≡ some d → is_free d ≡ false

pub IsFullBelow-cons :
    (i : ℕ) (c : Client) (cs : List Client)
    → is_free c ≡ false
    → IsFullBelow i cs
    → IsFullBelow (suc i) (c ∷ cs)
IsFullBelow-cons i c cs full before zero d l e =
    let same : c ≡ d = some-injective _ _ e in subst (λ k. is_free k ≡ false) same full
IsFullBelow-cons i c cs full before (suc j) d l e = before j d (omega arith) e

-- The first slot that is not taken.
pub first-IsVacant :
    (xs : List Peer) (subs : List Bytes) (cs : List Client)
    → Subscribed xs subs cs
    → length xs < length cs
    → (c : Client) × (get_elem? cs (length xs) ≡ some c) × IsVacant c × IsFullBelow (length xs) cs
first-IsVacant [] [] [] h lt = absurd (omega arith)
first-IsVacant [] [] (c ∷ cs) h lt = (c, refl, h.0, λ j d l e. absurd (omega arith))
first-IsVacant (x ∷ xs) (s ∷ subs) (c ∷ cs) h lt =
    let (free, there, vacant, before) = first-IsVacant xs subs cs h.2 (omega arith) in
    (free, there, vacant, IsFullBelow-cons (length xs) c cs (rw (h.0) refl) before)
first-IsVacant [] (s ∷ subs) cs h lt = absurd h
first-IsVacant (x ∷ xs) [] cs h lt = absurd h
first-IsVacant (x ∷ xs) (s ∷ subs) [] h lt = absurd h

-- The slot is taken.
pub set-Subscribed :
    (xs : List Peer) (subs : List Bytes) (cs : List Client) (x : Peer) (s : Bytes) (c : Client)
    → Subscribed xs subs cs
    → length xs < length cs
    → c.mq ≡ some x.mq
    → c.topics ≡ s ∷ []
    → Subscribed (xs ++ x ∷ []) (subs ++ s ∷ []) (set cs (length xs) c)
set-Subscribed [] [] [] x s c h lt e f = absurd (omega arith)
set-Subscribed [] [] (d ∷ cs) x s c h lt e f = (e, f, h.1)
set-Subscribed (y ∷ xs) (u ∷ subs) (d ∷ cs) x s c h lt e f =
    (h.0, h.1, set-Subscribed xs subs cs x s c h.2 (omega arith) e f)
set-Subscribed [] (u ∷ subs) cs x s c h lt e f = absurd h
set-Subscribed (y ∷ xs) [] cs x s c h lt e f = absurd h
set-Subscribed (y ∷ xs) (u ∷ subs) [] x s c h lt e f = absurd h
