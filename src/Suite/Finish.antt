-- ===== src/Suite/Finish.antt =====
-- src/tst/psmqd.c, psmqd_wildard_test: the loop that finds the queues empty and cleans up.
use psmq.Prelude.{
  ℕ, suc, ◌<◌, ◌≡◌, ◌≢◌, refl, ◌∙◌, true, false, List, [], ◌∷◌, some, none, inl, inr, Option-cases,
  get_elem?, get_elem?-set_ne, set, All, arith,
}
use psmq.CString.{Bytes}
use psmq.Errno.{ok}
use psmq.Message.{cmd_close}
use psmq.Platform.{Call, Platform}
use psmq.Broker.State.{Client}
use psmq.Broker.Reply.{is_free}
use psmq.Broker.Reply.Buffer.{topic_msg}
use psmq.Broker.Valid.{IsBuild, IsValid}
use psmq.Broker.Effects.Requests.{told_closed}
use psmq.Api.State.{Os, Syscall}
use psmq.Api.Accepted.Sent.{IsReady}
use psmq.Suite.{World, Peer}
use psmq.Suite.Connects.{leaves, finish_each}
use psmq.Suite.Connected.{emptied}
use psmq.Suite.Wildcard.{Seated, IsIdle, nothing_left-empty}
use psmq.Suite.Leaves.{AreSeated, AreSeated-set, AreNumbered, Subscribed-AreSeated, leaves-Joined}

taken_free : (c : Client) → c.mq ≡ none → is_free c ≢ false
taken_free c e full = let free : is_free c ≡ true = rw e refl in cc

-- The publisher's slot is taken, and the clients have the ones behind it.
Seated-taken :
    (xs : List Peer) (subs : List Bytes) (cs : List Client)
    → Seated xs subs cs
    → All (λ x. IsReady x.psmq) xs
    → AreNumbered 1 xs
    → (c : Client) × (q : ℕ) × (get_elem? cs 0 ≡ some c) × (c.mq ≡ some q) × AreSeated 1 xs cs
Seated-taken xs subs [] h ready numbers = absurd h
Seated-taken xs subs (c ∷ cs) h ready numbers = elim (Option-cases c.mq) [
  | inl e ↦ absurd (taken_free c e h.0)
  | inr (q, e) ↦ (c, q, refl, e, Subscribed-AreSeated (c ∷ []) xs subs cs h.2 ready numbers)
]

module _ (os : Os) (p : Platform) (rounds : ℕ) (broker_name : Bytes) (build : IsBuild p)
    (same : os.msg_max ≡ p.msg_max)
    (broker_sends : (calls : List Call) (call : Call) → p.mq_timedsend calls call ≡ true)
    (client_sends : (calls : List Syscall) (call : Syscall) → os.mq_send calls call ≡ ok tt) where
  -- The loop succeeds, and the slots before these clients are left alone.
  pub finish_each-succeeds :
      (i : ℕ) (xs : List Peer) (w : World)
      → IsValid p w.broker
      → ((q : ℕ) → w.waiting q ≡ [])
      → AreSeated i xs w.broker.clients
      → (w' : World) × (finish_each os p rounds broker_name xs w ≡ some (true, w'))
        × IsValid p w'.broker
        × ((q : ℕ) → w'.waiting q ≡ [])
        × ((j : ℕ) → j < i → get_elem? w'.broker.clients j ≡ get_elem? w.broker.clients j)
  unfolding finish_each
  finish_each-succeeds i [] w v empty h = (w, refl, v, empty, λ j lt. refl)
  finish_each-succeeds i (x ∷ xs) w v empty h =
      let (c, there, its) = h.2 in
      let there' : get_elem? w.broker.clients x.psmq.fd ≡ some c = rw (h.1) there in
      let (calls, idle) = nothing_left-empty os p x w h.0 (empty x.mq) in
      let w0 = record w { calls = calls } in
      let (w1, w2, joined, gone, kept, waits) =
        leaves-Joined os p rounds broker_name build same broker_sends client_sends w0 x c x.mq h.0 v
          empty there' its in
      let cleared : (q : ℕ) → w2.waiting q ≡ [] = λ q.
        waits q
        ∙ emptied q x.mq (topic_msg cmd_close 0 [] []) (w1.waiting q) [] (joined.waiting q)
            (λ _. refl) in
      let clients : w2.broker.clients ≡ set w.broker.clients i (told_closed c true) =
        rw (kept, joined.clients, h.1) refl in
      let seated2 : AreSeated (suc i) xs w2.broker.clients =
        rw clients
          (AreSeated-set (suc i) i xs w.broker.clients (told_closed c true) (omega arith) h.3) in
      let (w', rest, valid, none_waits, same_before) =
        finish_each-succeeds (suc i) xs w2 (rw kept (joined.valid)) cleared seated2 in
      (
        w',
        rw (idle, gone, rest) refl,
        valid,
        none_waits,
        λ j lt.
            let ne : i ≢ j = λ e. absurd (omega arith) in
            same_before j (omega arith) ∙ rw clients (get_elem?-set_ne w.broker.clients _ ne),
      )

  -- All clients are cleaned up, and the publisher last.
  pub finish-succeeds :
      (publisher : Peer) (peers : List Peer) (subs : List Bytes) (w : World)
      → IsReady publisher.psmq
      → publisher.psmq.fd ≡ 0
      → All (λ x. IsReady x.psmq) peers
      → AreNumbered 1 peers
      → IsIdle p peers subs w
      → (w1 : World) × (w2 : World) × (finish_each os p rounds broker_name peers w
          ≡ some (true, w1))
        × (leaves os p rounds broker_name publisher w1 ≡ some (true, w2))
  finish-succeeds publisher peers subs w ready first all_ready numbers idle =
      let (c, q, there, its, seated) =
        Seated-taken peers subs w.broker.clients idle.seated all_ready numbers in
      let (w1, finished, valid, empty, kept) =
        finish_each-succeeds 1 peers w idle.valid idle.empty seated in
      let there1 : get_elem? w1.broker.clients publisher.psmq.fd ≡ some c =
        rw first (kept 0 (omega arith) ∙ there) in
      let (_, w2, _, gone, _, _) =
        leaves-Joined os p rounds broker_name build same broker_sends client_sends w1 publisher c q
          ready valid empty there1 its in
      (w1, w2, finished, gone)
