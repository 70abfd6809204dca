-- ===== src/Suite/Connected.antt =====
-- src/tst/psmqd.c: a client of a test connects, and then subscribes.
use psmq.Prelude.{
  ℕ, ◌-◌, ◌<◌, ◌≡◌, refl, true, false, List, [], ◌∷◌, some, if◌then◌else◌, Bool-cases, inl, inr,
  ◌==◌, ==_iff, length, drop, get_or, get_elem?, set, ltb, arith,
}
use psmq.CString.{Bytes}
use psmq.Errno.{ok}
use psmq.Message.{Msg, cmd_open}
use psmq.Platform.{Call, Platform, opens}
use psmq.Topic.{slash}
use psmq.Broker.State.{Client}
use psmq.Broker.Reply.{is_free}
use psmq.Broker.Reply.Buffer.{topic_msg}
use psmq.Broker.Reply.Replies.{fd_msg}
use psmq.Broker.Valid.{IsBuild, IsValid}
use psmq.Api.State.{Psmq, Os, Syscall, mqd_eq, creates_read, opens_write, unlinks}
use psmq.Api.Init.{zeroed_psmq, issue, init_with_name, init_queue, name_refused, init_named}
use psmq.Api.Accepted.Sent.{IsReady}
use psmq.Api.Accepted.Handshake.{opened, asked, waits, init_wq-connects}
use psmq.Suite.{World, Peer, arrives}
use psmq.Suite.Connects.{answering, connects}
use psmq.Suite.Waiting.{IsName}
use psmq.Suite.Joins.{open-Joined}

-- mq_open() gives a client its own queue and the broker's, under two descriptors.
abbrev pub OpensBoth : Os → Bytes → Type 0
OpensBoth os broker_name =
    (qname : Bytes) (calls : List Syscall)
    → (q : ℕ) × (q' : ℕ) × (os.mq_open (unlinks qname ∷ calls) (creates_read qname false 4) ≡ ok q)
      × (os.mq_open (creates_read qname false 4 ∷ unlinks qname ∷ calls) (opens_write broker_name)
          ≡ ok q')
      × ((q == q') ≡ false)

-- A client that is connected, in its slot, where no queue has a message.
pub record IsConnected (p : Platform) (w w' : World) (i : ℕ) (x : Peer) (c : Client) : Type 0 where
  pub ready : IsReady x.psmq
  pub slot : x.psmq.fd ≡ i
  pub valid : IsValid p w'.broker
  pub clients : w'.broker.clients ≡ set w.broker.clients i c
  pub empty : (q : ℕ) → w'.waiting q ≡ []

-- A queue with a message for one client alone, once that is taken off.
pub emptied :
    (q mq : ℕ) (msg : Msg) (ms left : List Msg)
    → ms ≡ (if mq == q then msg ∷ [] else [])
    → ((mq == q) ≡ true → left ≡ [])
    → (if q == mq then left else ms) ≡ []
emptied q mq msg ms left e none_left = elim (Bool-cases (mq == q)) [
  | inl k ↦ let k' : (q == mq) ≡ true = ground arith in rw k' (none_left k)
  | inr k ↦ let k' : (q == mq) ≡ false = ground arith in rw (k', e, k) refl
]

module _ (os : Os) (p : Platform) (rounds : ℕ) (broker_name : Bytes) (build : IsBuild p)
    (same : os.msg_max ≡ p.msg_max) (enough : 0 < rounds)
    (broker_slash : (get_or broker_name 0 0 == slash) ≡ true)
    (broker_sends : (calls : List Call) (call : Call) → p.mq_timedsend calls call ≡ true)
    (client_sends : (calls : List Syscall) (call : Syscall) → os.mq_send calls call ≡ ok tt)
    (opens_both : OpensBoth os broker_name) where
  module _ (w : World) (qname : Bytes) (name : IsName p qname) (mq i : ℕ) (w1 : World)
      (arrived : arrives os p (topic_msg cmd_open 0 qname []) 0 w ≡ some (tt, w1))
      (first : w1.waiting mq ≡ fd_msg cmd_open 0 i ∷ []) where
    abbrev own : ℕ
    own = (opens_both qname w.calls).0

    abbrev theirs : ℕ
    theirs = (opens_both qname w.calls).1

    abbrev os' : Os
    os' = answering os p rounds broker_name mq w

    abbrev unconnected : Psmq
    unconnected = record { qsub = some own; qpub = some 0; fd = 0 }

    abbrev calls : List Syscall
    calls = creates_read qname false 4 ∷ unlinks qname ∷ w.calls

    abbrev calls_asked : List Syscall
    calls_asked = asked unconnected theirs broker_name qname calls

    opened-IsReady : IsReady (opened unconnected theirs)
    unfolding mqd_eq
    opened-IsReady = record {
      qsub_open = refl;
      qpub_open = refl;
      differ = (opens_both qname w.calls).4;
    }

    answered :
        os'.mq_receive calls_asked (waits os' (opened unconnected theirs) calls_asked)
        ≡ ok (fd_msg cmd_open 0 i, 0)
    answered =
        let four : length calls_asked - length w.calls ≡ 4 = omega arith in
        rw (four, arrived, first) refl

    init_named-connects :
        init_named os' rounds
          (some (zeroed_psmq os' rounds))
          (some broker_name)
          (some qname)
          4
          w.calls
        ≡ some (
          some (record (opened unconnected theirs) { fd = i }, ok tt),
          waits os' (opened unconnected theirs) calls_asked ∷ calls_asked,
        )
    unfolding init_named name_refused init_queue init_with_name issue
    init_named-connects =
        let fits = name.fits in
        let short : ltb (length qname) os.msg_max ≡ true = ground arith in
        let created = (opens_both qname w.calls).2 in
        let linked = (opens_both qname w.calls).3 in
        rw (broker_slash, name.slashed, short, created)
          (init_wq-connects os' rounds unconnected theirs i 0 broker_name qname [] calls
            opened-IsReady linked name.string (omega (arith, name.fits, same)) (client_sends _ _)
            enough answered)

    ready_peer : IsReady (record (opened unconnected theirs) { fd = i })
    ready_peer =
        let r = opened-IsReady in
        record { qsub_open = r.qsub_open; qpub_open = r.qpub_open; differ = r.differ }

    abbrev calls_after : List Syscall
    calls_after = waits os' (opened unconnected theirs) calls_asked ∷ calls_asked

    abbrev world_after : World
    world_after = record w1 {
      calls = calls_after;
      waiting = λ q. if q == mq then drop 1 (w1.waiting q) else w1.waiting q;
    }

    abbrev peer : Peer
    peer = record { psmq = record (opened unconnected theirs) { fd = i }; mq = mq }

    connects-peer :
        p.mq_open w.broker.calls (opens qname) ≡ some mq
        → connects os p rounds broker_name qname w ≡ some ((true, peer), world_after)
    unfolding connects
    connects-peer e =
        let five : length calls_after - length w.calls ≡ 5 = omega arith in
        rw e (rw (init_named-connects, five, arrived) refl)

  -- psmq_init_named, where a slot is free.
  pub connects-IsConnected :
      (w : World) (qname : Bytes) (mq i : ℕ) (c : Client)
      → IsValid p w.broker
      → ((q : ℕ) → w.waiting q ≡ [])
      → IsName p qname
      → p.mq_open w.broker.calls (opens qname) ≡ some mq
      → get_elem? w.broker.clients i ≡ some c
      → is_free c ≡ true
      → ((j : ℕ) (d : Client) → j < i → get_elem? w.broker.clients j ≡ some d → is_free d ≡ false)
      → (x : Peer) × (w' : World) × (connects os p rounds broker_name qname w
          ≡ some ((true, x), w'))
        × IsConnected p w w' i x (record c { mq = some x.mq })
  connects-IsConnected w qname mq i c v empty name opened_mq there free before =
      let (w1, arrived, joined) =
        open-Joined os p build broker_sends qname name.string name.bytes name.fits w i mq c v
          opened_mq there free before empty in
      let self : (mq == mq) ≡ true = (==_iff mq mq).1 refl in
      let first : w1.waiting mq ≡ fd_msg cmd_open 0 i ∷ [] = rw self at (joined.waiting mq) in
      (
        peer w qname name mq i w1 arrived first,
        world_after w qname name mq i w1 arrived first,
        connects-peer w qname name mq i w1 arrived first opened_mq,
        record {
          ready = ready_peer w qname name mq i w1 arrived first;
          slot = refl;
          valid = joined.valid;
          clients = joined.clients;
          empty = λ q.
              emptied q mq (fd_msg cmd_open 0 i) (w1.waiting q) (drop 1 (w1.waiting q))
                (joined.waiting q) (λ k. rw (joined.waiting q, k) refl);
        },
      )
