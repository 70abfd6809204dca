-- ===== src/Broker/Session/Init.antt =====
-- src/broker.c: what psmqd_broker_init leaves behind.
use psmq.Prelude.{
  ◌⊎◌, subst, sym, ℕ, zero, suc, ◌+◌, ◌≤◌, ◌≡◌, ◌≢◌, refl, ap, ◌∙◌, ◌↔◌, Bool, true, false, List,
  [], ◌∷◌, Option, none, some, if◌then◌else◌, Option-cases, inl, inr, map, replicate, length,
  length-replicate, All, arith,
}
use psmq.Platform.{Mqd, Call, Platform, creates, unlinks}
use psmq.Broker.State.{Client, Broker, and_then, pure, ask, issue}
use psmq.Broker.Session.{
  Cfg, zeroed, invalidate, invalidate_clients, store_qctrl, remove_stale, open_control, broker_init,
}
use psmq.Broker.Valid.{IsClient, IsValid}

-- The slot of a client that never connected.
abbrev pub empty_slot : Client
empty_slot = record { mq = none; topics = []; missed_pubs = 0; reply_timeout = 0 }

map-replicate : (n : ℕ) (c : Client) → map invalidate (replicate n c) ≡ replicate n (invalidate c)
map-replicate zero c = refl
map-replicate (suc n) c = ap (◌∷◌ (invalidate c)) (map-replicate n c)

All-replicate : (P : Client → Type 0) (n : ℕ) (c : Client) → P c → All P (replicate n c)
All-replicate P zero c h = tt
All-replicate P (suc n) c h = (h, All-replicate P n c h)

-- How the tries to open the control queue end: with the queue after a try that succeeded, or with
-- none after as many as there are. The slots are not touched.
abbrev Opens : ℕ → Broker → Option (Bool × Broker) → Type 0
Opens tries b none = ⊥
Opens tries b (some (true, b')) =
    (b'.clients ≡ b.clients) × (b'.qctrl ≢ none) × (length b'.calls ≤ tries + length b.calls)
Opens tries b (some (false, b')) =
    (b'.clients ≡ b.clients)
    × ((b'.qctrl ≡ none) ⊎ (tries ≡ 0))
    × (length b'.calls ≡ tries + length b.calls)

-- One failed try in front of others.
Opens-suc :
    (tries : ℕ) (b : Broker) (call : Call) (o : Option (Bool × Broker))
    → Opens tries (record b { qctrl = none; calls = call ∷ b.calls }) o
    → (tries ≡ 0 → o ≡ some (false, record b { qctrl = none; calls = call ∷ b.calls }))
    → Opens (suc tries) b o
Opens-suc tries b call none h k = h
Opens-suc tries b call (some (true, b')) h k = (h.0, h.1, omega (arith, h.2))
Opens-suc tries b call (some (false, b')) h k = (h.0, inl (closed h.1), omega (arith, h.2))
  where
    qctrl_of : Option (Bool × Broker) → Mqd
    qctrl_of none = none
    qctrl_of (some (r, s)) = s.qctrl

    closed : (b'.qctrl ≡ none) ⊎ (tries ≡ 0) → b'.qctrl ≡ none
    closed (inl e) = e
    closed (inr e) = ap (λ o. qctrl_of o) (k e)

open_control-zero :
    (p : Platform) (cfg : Cfg) (tries : ℕ) (b : Broker)
    → tries ≡ 0
    → open_control p cfg tries b ≡ some (false, b)
unfolding open_control
open_control-zero p cfg zero b e = refl
open_control-zero p cfg (suc tries) b e = absurd (omega arith)

open_control-Opens :
    (p : Platform) (cfg : Cfg) (tries : ℕ) (b : Broker) → Opens tries b (open_control p cfg tries b)
unfolding open_control ask store_qctrl
open_control-Opens p cfg zero b = (refl, inr refl, omega arith)
open_control-Opens p cfg (suc tries) b =
    let call = creates cfg.broker_name true cfg.broker_maxmsg in
    let b1 : Broker = record b { qctrl = none; calls = call ∷ b.calls } in
    elim (Option-cases (p.mq_open b.calls call)) [
      | inl e ↦ rw e (
          Opens-suc tries b call (open_control p cfg tries b1) (open_control-Opens p cfg tries b1)
            (open_control-zero p cfg tries b1))
      | inr (q, e) ↦ rw e (refl, (λ n. absurd (cc)), omega arith)
    ]

-- How psmqd_broker_init ends: with a valid broker all of whose slots are free, without topics; and
-- either with the control queue, or with the result -1 and no queue.
abbrev pub Starts : Platform → Option (Bool × Broker) → Type 0
Starts p none = ⊥
Starts p (some (r, b)) =
    IsValid p b
    × All (λ c. c ≡ empty_slot) b.clients
    × ((r ≡ true) ↔ (b.qctrl ≢ none))
    × (length b.calls ≤ 11)

empty-IsClient : (p : Platform) (c : Client) → c ≡ empty_slot → IsClient p c
empty-IsClient p c e =
    subst (IsClient p) (sym e)
      (record { topics_fit = tt; missed_byte = omega arith; timeout_short = omega arith })

All-weaken :
    (P Q : Client → Type 0) (cs : List Client) → ((c : Client) → P c → Q c) → All P cs → All Q cs
All-weaken P Q [] f h = tt
All-weaken P Q (c ∷ cs) f h = (f c h.0, All-weaken P Q cs f h.1)

All-empty :
    (p : Platform) (cs : List Client)
    → cs ≡ replicate p.max_clients empty_slot
    → All (λ c. c ≡ empty_slot) cs
All-empty p cs e =
    subst (All (λ c. c ≡ empty_slot)) (sym e)
      (All-replicate (λ c. c ≡ empty_slot) p.max_clients empty_slot refl)

empty-IsValid :
    (p : Platform) (b : Broker) → b.clients ≡ replicate p.max_clients empty_slot → IsValid p b
empty-IsValid p b e = record {
  slots = ap length e ∙ length-replicate p.max_clients empty_slot;
  each =
      All-weaken (λ c. c ≡ empty_slot) (IsClient p) b.clients (empty-IsClient p)
        (All-empty p b.clients e);
}

-- The tries, from a broker whose slots are all empty.
Opens-Starts :
    (p : Platform) (b : Broker) (o : Option (Bool × Broker))
    → b.clients ≡ replicate p.max_clients empty_slot
    → length b.calls ≤ 1
    → Opens 10 b o
    → Starts p o
Opens-Starts p b none e k h = h
Opens-Starts p b (some (true, b')) e k h =
    let e' = h.0 ∙ e in
    (empty-IsValid p b' e', All-empty p b'.clients e', (λ _. h.1, λ _. refl), omega (arith, h.2))
Opens-Starts p b (some (false, b')) e k h =
    let e' = h.0 ∙ e in
    (
      empty-IsValid p b' e',
      All-empty p b'.clients e',
      (λ r. absurd (cc), λ n. absurd (n (no_queue h.1))),
      omega (arith, h.2),
    )
  where
    no_queue : (b'.qctrl ≡ none) ⊎ (◌≡◌ {A = ℕ} 10 0) → b'.qctrl ≡ none
    no_queue (inl q) = q
    no_queue (inr z) = absurd (omega arith)

abbrev invalidated : Platform → Broker
invalidated p = record (zeroed p) { clients = map invalidate (zeroed p).clients }

-- However the opens of the control queue go, psmqd_broker_init ends after one unlink and ten opens at
-- most, with a valid broker whose slots are all free and empty; it returns 0 exactly when it holds the
-- control queue.
pub broker_init-Starts : (p : Platform) (cfg : Cfg) → Starts p (broker_init p cfg (zeroed p))
unfolding broker_init invalidate_clients remove_stale issue
broker_init-Starts p cfg =
    elim cfg.remove_queue
      as (λ (r : Bool). Starts p (
        and_then ((if r then issue (unlinks cfg.broker_name) else pure tt) (invalidated p))
          (λ _. open_control p cfg 10))) [
            | true ↦
                tries_start (record (invalidated p) { calls = unlinks cfg.broker_name ∷ [] }) refl
                  (omega arith)
            | false ↦ tries_start (invalidated p) refl (omega arith)
          ]
  where
    tries_start :
        (b : Broker)
        → b.clients ≡ (invalidated p).clients
        → length b.calls ≤ 1
        → Starts p (open_control p cfg 10 b)
    tries_start b e few =
        Opens-Starts p b (open_control p cfg 10 b) (e ∙ map-replicate p.max_clients _) few
          (open_control-Opens p cfg 10 b)
