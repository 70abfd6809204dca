-- ===== src/Suite/Wildcard.antt =====
-- src/tst/psmqd.c: psmqd_wildard_test, over its table.
use psmq.Prelude.{
  ℕ, ◌^◌, ◌<◌, ◌≡◌, refl, ◌∙◌, true, false, List, [], ◌∷◌, some, Option-cases, inl, inr, length,
  All,
}
use psmq.CString.{Bytes}
use psmq.Errno.{ok}
use psmq.Platform.{Call, Platform}
use psmq.Broker.State.{Client}
use psmq.Broker.Reply.{is_free}
use psmq.Topic.{subscribe_refuses}
use psmq.Broker.Publish.Delivery.{wants, delivered}
use psmq.Broker.Valid.{IsBuild, IsValid}
use psmq.Api.State.{Os, Syscall, receives_until}
use psmq.Time.{ms_to_tp}
use psmq.Api.Receive.{timedreceive_ms, timedreceive_prio, receive_into}
use psmq.Api.Accepted.Sent.{IsReady}
use psmq.Suite.{World, Peer, Row, publish_each, nothing_left}
use psmq.Suite.Waiting.{got, IsName, asks-Published}
use psmq.Suite.Seats.{matching, Subscribed, due, got-Subscribed, delivered-Subscribed}
use psmq.Suite.Rounds.{receive_each-Empties}

-- The publisher, which has no subscription, in the first slot, and then the clients.
abbrev pub Seated : List Peer → List Bytes → List Client → Type 0
Seated peers subs [] = ⊥
Seated peers subs (c ∷ cs) = (is_free c ≡ false) × (c.topics ≡ []) × Subscribed peers subs cs

wants-none : (n : ℕ) (t : Bytes) (c : Client) → c.topics ≡ [] → wants n t c ≡ false
wants-none n t c e = elim (Option-cases c.mq) [ inl k ↦ rw k refl | inr (q, k) ↦ rw (k, e) refl ]

got-Seated :
    (n : ℕ) (t : Bytes) (q : ℕ) (peers : List Peer) (subs : List Bytes) (cs : List Client)
    → Seated peers subs cs
    → got n t q cs ≡ due n t q peers subs
got-Seated n t q peers subs [] h = absurd h
got-Seated n t q peers subs (c ∷ cs) h =
    rw (wants-none n t c h.1) (got-Subscribed n t q peers subs cs h.2)

delivered-Seated :
    (p : Platform) (t rest : Bytes) (peers : List Peer) (subs : List Bytes) (cs : List Client)
    → Seated peers subs cs
    → Seated peers subs (delivered p t rest 0 0 cs)
delivered-Seated p t rest peers subs [] h = h
delivered-Seated p t rest peers subs (c ∷ cs) h =
    rw (wants-none p.msg_max t c h.1) (h.0, h.1, delivered-Subscribed p t rest peers subs cs h.2)

-- The broker is valid, the clients have their slots, and no queue has a message.
pub record IsIdle (p : Platform) (peers : List Peer) (subs : List Bytes) (w : World) : Type 0 where
  pub valid : IsValid p w.broker
  pub seated : Seated peers subs w.broker.clients
  pub empty : (q : ℕ) → w.waiting q ≡ []

-- A row names the clients whose subscription its topic matches.
abbrev pub IsRight : Platform → List Bytes → Row → Type 0
IsRight p subs row = IsName p row.topic × (row.matches ≡ matching p.msg_max 0 subs row.topic)

-- A topic that may be subscribed to.
abbrev pub IsSubscription : Platform → Bytes → Type 0
IsSubscription p s = IsName p s × (subscribe_refuses s 0 ≡ false)

pub record IsTable (p : Platform) (subs : List Bytes) (rows : List Row) : Type 0 where
  -- one slot is the publisher's
  pub few : length subs < p.max_clients
  pub subscriptions : All (IsSubscription p) subs
  pub rights : All (IsRight p subs) rows

module _ (os : Os) (p : Platform) where
  pub nothing_left-empty :
      (x : Peer) (w : World)
      → IsReady x.psmq
      → w.waiting x.mq ≡ []
      → (calls : List Syscall) × (nothing_left os p x w ≡ some (true, record w { calls = calls }))
  unfolding nothing_left timedreceive_ms timedreceive_prio receive_into
  nothing_left-empty x w r e = (
    receives_until x.psmq.qsub (ms_to_tp (os.clock w.calls) 0) ∷ w.calls,
    rw (e, r.qpub_open, r.differ) refl,
  )

module _ (os : Os) (p : Platform) (build : IsBuild p) (same : os.msg_max ≡ p.msg_max)
    (wide : os.msg_max < 2 ^ 64)
    (broker_sends : (calls : List Call) (call : Call) → p.mq_timedsend calls call ≡ true)
    (client_sends : (calls : List Syscall) (call : Syscall) → os.mq_send calls call ≡ ok tt)
    (publisher : Peer) (ready : IsReady publisher.psmq) (slot : publisher.psmq.fd < p.max_clients)
    (peers : List Peer) (all_ready : All (λ x. IsReady x.psmq) peers) (subs : List Bytes)
    (sizes : length peers ≡ length subs) where
  pub publish_each-IsIdle :
      (rows : List Row) (w : World)
      → IsIdle p peers subs w
      → All (IsRight p subs) rows
      → (w' : World) × (publish_each os p publisher peers rows w ≡ some (true, w'))
        × IsIdle p peers subs w'
  unfolding publish_each
  publish_each-IsIdle [] w idle rights = (w, refl, idle)
  publish_each-IsIdle (row ∷ rows) w idle rights =
      let t = row.topic in
      let (name, listed) = rights.0 in
      let (w1, sent, done) =
        asks-Published os p build broker_sends t name publisher.psmq ready slot w same wide
          client_sends idle.valid in
      let waits : (q : ℕ) → w1.waiting q ≡ due p.msg_max t q peers subs = λ q.
        done.waiting q
        ∙ rw (idle.empty q) (got-Seated p.msg_max t q peers subs w.broker.clients idle.seated) in
      let (w2, run, empty, kept) =
        receive_each-Empties os p t name.string [] peers subs w1 all_ready sizes waits in
      let idle2 : IsIdle p peers subs w2 = record {
        valid = rw kept done.valid;
        seated =
            rw (kept, done.clients)
              (delivered-Seated p t done.rest peers subs w.broker.clients idle.seated);
        empty = empty;
      } in
      let (w3, rest, idle3) = publish_each-IsIdle rows w2 idle2 rights.1 in
      (w3, rw (sent, listed, run, rest) refl, idle3)
