-- ===== src/Suite/Leaves.antt =====
-- src/tst/psmqd.c, psmqd_wildard_test: the cleanup of a client.
use psmq.Prelude.{
  ℕ, suc, ◌-◌, ◌<◌, ◌≡◌, ◌≢◌, refl, ◌∙◌, true, List, [], ◌∷◌, ◌++◌, some, none, if◌then◌else◌, ◌==◌,
  length, append-nil, append_assoc, length-append, get_elem?, get_elem?-append, get_elem?-set_ne,
  lt_of_get_elem?, set, All, arith,
}
use psmq.CString.{Bytes}
use psmq.Errno.{ok}
use psmq.Message.{Msg, received, cmd_close}
use psmq.Platform.{Call, Platform, Mqd}
use psmq.Platform
use psmq.Broker.State.{Client, Broker}
use psmq.Broker.Reply.Buffer.{topic_msg}
use psmq.Broker.Loop.{handle, accepts, dispatch}
use psmq.Broker.Safety.Handle.{accepts-IsTerminated}
use psmq.Broker.Valid.{IsBuild, IsValid}
use psmq.Broker.Effects.{answer}
use psmq.Broker.Effects.Requests.{told_closed}
use psmq.Api.State.{Psmq, Os, Syscall, sends}
use psmq.Api.State
use psmq.Api.Init.{cleanup}
use psmq.Api.Accepted.Sent.{IsReady}
use psmq.Api.Accepted.Disconnect.{goodbye, cleanup-frees}
use psmq.Sub.Delivered.{received-IsMessage}
use psmq.Suite.{World, Peer, sent_to, arrives}
use psmq.Suite.Connects.{leaves}
use psmq.Suite.Joins.{Joined, no_ioctl, puts-sends, arrives-Joined}
use psmq.Suite.Seats.{Subscribed}

-- The clients in the slots from `i` on.
abbrev pub AreSeated : ℕ → List Peer → List Client → Type 0
AreSeated i [] cs = Unit
AreSeated i (x ∷ xs) cs =
    IsReady x.psmq
    × (x.psmq.fd ≡ i)
    × ((c : Client) × (get_elem? cs i ≡ some c) × (c.mq ≡ some x.mq))
    × AreSeated (suc i) xs cs

pub AreSeated-set :
    (i j : ℕ) (xs : List Peer) (cs : List Client) (c : Client)
    → j < i
    → AreSeated i xs cs
    → AreSeated i xs (set cs j c)
AreSeated-set i j [] cs c lt h = tt
AreSeated-set i j (x ∷ xs) cs c lt h =
    let (d, there, its) = h.2 in
    let ne : j ≢ i = λ e. absurd (omega arith) in
    (
      h.0,
      h.1,
      (d, get_elem?-set_ne cs c ne ∙ there, its),
      AreSeated-set (suc i) j xs cs c (omega arith) h.3,
    )

-- They have these slots, one after another.
abbrev pub AreNumbered : ℕ → List Peer → Type 0
AreNumbered i [] = Unit
AreNumbered i (x ∷ xs) = (x.psmq.fd ≡ i) × AreNumbered (suc i) xs

pub Subscribed-AreSeated :
    (done : List Client) (xs : List Peer) (subs : List Bytes) (cs : List Client)
    → Subscribed xs subs cs
    → All (λ x. IsReady x.psmq) xs
    → AreNumbered (length done) xs
    → AreSeated (length done) xs (done ++ cs)
Subscribed-AreSeated done [] subs cs h ready numbers = tt
Subscribed-AreSeated done (x ∷ xs) (s ∷ subs) (c ∷ cs) h ready numbers =
    let n : length (done ++ c ∷ []) ≡ suc (length done) =
      omega (arith, length-append done (c ∷ [])) in
    let rest = Subscribed-AreSeated (done ++ c ∷ []) xs subs cs h.2 ready.1 (rw n (numbers.1)) in
    (
      ready.0,
      numbers.0,
      (c, get_elem?-append done cs c, h.0),
      rw (n, append_assoc done (c ∷ []) cs) at rest,
    )
Subscribed-AreSeated done (x ∷ xs) [] cs h ready numbers = absurd h
Subscribed-AreSeated done (x ∷ xs) (s ∷ subs) [] h ready numbers = absurd h

module _ (os : Os) (p : Platform) (rounds : ℕ) (broker_name : Bytes) (build : IsBuild p)
    (same : os.msg_max ≡ p.msg_max)
    (broker_sends : (calls : List Call) (call : Call) → p.mq_timedsend calls call ≡ true)
    (client_sends : (calls : List Syscall) (call : Syscall) → os.mq_send calls call ≡ ok tt) where
  module _ (w : World) (x : Peer) (c : Client) (mq : ℕ) (r : IsReady x.psmq)
      (v : IsValid p w.broker) (empty : (q : ℕ) → w.waiting q ≡ [])
      (there : get_elem? w.broker.clients x.psmq.fd ≡ some c) (its : c.mq ≡ some mq) where
    abbrev closed_broker : Broker
    closed_broker =
        let call = answer p x.psmq.fd w.broker c cmd_close 0 [] in
        record w.broker {
          clients =
              set w.broker.clients x.psmq.fd (told_closed c (p.mq_timedsend w.broker.calls call));
          calls = Platform.closes c.mq ∷ call ∷ w.broker.calls;
        }

    slot : x.psmq.fd < p.max_clients
    slot = omega (arith, v.slots, lt_of_get_elem? w.broker.clients x.psmq.fd there)

    frees :
        (cleanup os (some x.psmq) w.calls
          ≡ some (
            (some (record x.psmq { qsub = none; qpub = none }), ok tt),
            State.closes x.psmq.qsub
                ∷ State.closes x.psmq.qpub
                ∷ sends x.psmq.qpub (topic_msg cmd_close x.psmq.fd [] []) 0
                ∷ w.calls,
          ))
        × (accepts p (goodbye p x.psmq) ≡ some true)
        × (dispatch p (goodbye p x.psmq) 0 w.broker ≡ some (true, closed_broker))
    frees =
        cleanup-frees os p x.psmq w.calls 0 w.broker c same r slot
          (omega (arith, build.msg_max_least)) there

    handle-close :
        handle p (received p.msg_max (topic_msg cmd_close x.psmq.fd [] [])) 0 w.broker
        ≡ some (tt, closed_broker)
    unfolding handle
    handle-close = rw (frees.1, frees.2) refl

    abbrev reply : Msg
    reply = topic_msg cmd_close 0 [] []

    close-Joined :
        (w1 : World) × (arrives os p (topic_msg cmd_close x.psmq.fd [] []) 0 w ≡ some (tt, w1))
        × Joined p w w1 x.psmq.fd (told_closed c true) mq reply
    close-Joined =
        let call = answer p x.psmq.fd w.broker c cmd_close 0 [] in
        arrives-Joined os p build broker_sends w closed_broker (topic_msg cmd_close x.psmq.fd [] [])
          reply x.psmq.fd mq (told_closed c true) v
          (received-IsMessage p cmd_close x.psmq.fd [] [] (omega arith)
            (omega (arith, slot, build.clients_most)) (omega (arith, build.msg_max_least))
            (omega arith) tt tt)
          (
            accepts-IsTerminated p (goodbye p x.psmq) frees.1,
            no_ioctl os p build broker_sends cmd_close x.psmq.fd [] refl,
          )
          empty handle-close (rw (broker_sends w.broker.calls call) refl)
          (λ q.
            rw (its, puts-sends os p build broker_sends w.broker.calls q mq reply 0 _)
              (append-nil (sent_to p q w.broker.calls ++ (if mq == q then reply ∷ [] else []))))

    -- psmq_cleanup.
    pub leaves-Joined :
        (w1 : World) × (w2 : World) × Joined p w w1 x.psmq.fd (told_closed c true) mq reply
        × (leaves os p rounds broker_name x w ≡ some (true, w2))
        × (w2.broker ≡ w1.broker)
        × ((q : ℕ) → w2.waiting q ≡ (if q == x.mq then [] else w1.waiting q))
    unfolding leaves
    leaves-Joined =
        let (w1, arrived, joined) = close-Joined in
        let calls =
          State.closes x.psmq.qsub
          ∷ State.closes x.psmq.qpub
          ∷ sends x.psmq.qpub (topic_msg cmd_close x.psmq.fd [] []) 0
          ∷ w.calls in
        let three : length calls - length w.calls ≡ 3 = omega arith in
        (
          w1,
          record w1 { calls = calls; waiting = λ q. if q == x.mq then [] else w1.waiting q },
          joined,
          rw frees.0 (rw (three, arrived) refl),
          refl,
          λ q. refl,
        )
