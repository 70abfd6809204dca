-- ===== src/Suite/Passes.antt =====
-- src/tst/psmqd.c, psmqd_wildard_test: from a broker without clients to the end of the table.
use psmq.Prelude.{
  ℕ, ◌+◌, ◌^◌, ◌<◌, ◌≡◌, refl, ap, true, false, List, [], ◌∷◌, ◌++◌, none, some, ◌==◌, map, length,
  length-append, append_assoc, append-nil, set, get_elem?, get_or, All, suc, arith,
}
use psmq.CString.{Bytes}
use psmq.Errno.{ok}
use psmq.Platform.{Call, Platform, opens}
use psmq.Topic.{slash}
use psmq.Broker.State.{Client}
use psmq.Broker.Reply.{is_free}
use psmq.Broker.Valid.{IsBuild, IsValid}
use psmq.Api.State.{Os, Syscall}
use psmq.Api.Accepted.Sent.{IsReady}
use psmq.Suite.{World, Peer, Row}
use psmq.Suite.Connects.{connects, subscribe_each, wildcard_test}
use psmq.Suite.Waiting.{IsName}
use psmq.Suite.Connected.{OpensBoth, connects-IsConnected}
use psmq.Suite.Enrols.{enrolled, round-IsConnected}
use psmq.Suite.Seats.{IsVacant, IsFullBelow, IsFullBelow-cons, first-IsVacant, set-Subscribed}
use psmq.Suite.Leaves.{AreNumbered}
use psmq.Suite.Finish.{finish-succeeds}
use psmq.Suite.Wildcard.{Seated, IsIdle, IsSubscription, IsTable, publish_each-IsIdle}

-- The first free slot is the one behind the clients.
Seated-IsVacant :
    (xs : List Peer) (subs : List Bytes) (cs : List Client)
    → Seated xs subs cs
    → suc (length xs) < length cs
    → (c : Client) × (get_elem? cs (suc (length xs)) ≡ some c)
      × IsVacant c
      × IsFullBelow (suc (length xs)) cs
Seated-IsVacant xs subs [] h lt = absurd h
Seated-IsVacant xs subs (c0 ∷ cs) h lt =
    let (c, there, vacant, before) = first-IsVacant xs subs cs h.2 (omega arith) in
    (c, there, vacant, IsFullBelow-cons (length xs) c0 cs h.0 before)

set-Seated :
    (xs : List Peer) (subs : List Bytes) (cs : List Client) (x : Peer) (s : Bytes) (c : Client)
    → Seated xs subs cs
    → suc (length xs) < length cs
    → c.mq ≡ some x.mq
    → c.topics ≡ s ∷ []
    → Seated (xs ++ x ∷ []) (subs ++ s ∷ []) (set cs (suc (length xs)) c)
set-Seated xs subs [] x s c h lt e f = absurd h
set-Seated xs subs (c0 ∷ cs) x s c h lt e f =
    (h.0, h.1, set-Subscribed xs subs cs x s c h.2 (omega arith) e f)

is_free-none : (c : Client) → c.mq ≡ none → is_free c ≡ true
is_free-none c e = rw e refl

Seated-first :
    (cs : List Client) (c : Client)
    → All IsVacant cs
    → 0 < length cs
    → is_free c ≡ false
    → c.topics ≡ []
    → Seated [] [] (set cs 0 c)
Seated-first [] c h lt full none_yet = absurd (omega arith)
Seated-first (d ∷ cs) c h lt full none_yet = (full, none_yet, h.1)

-- A client of the test: its queue's name, and its topic.
abbrev pub IsUser : Platform → Bytes × Bytes → Type 0
IsUser p k = IsName p k.0 × IsSubscription p k.1

abbrev pub topics_of : List (Bytes × Bytes) → List Bytes
topics_of users = map (λ k. k.1) users

users_ok :
    (p : Platform) (users : List (Bytes × Bytes))
    → All (λ k. IsName p k.0) users
    → All (IsSubscription p) (topics_of users)
    → All (IsUser p) users
users_ok p [] names subs = tt
users_ok p (k ∷ users) names subs = ((names.0, subs.0), users_ok p users names.1 subs.1)

length-topics_of : (users : List (Bytes × Bytes)) → length (topics_of users) ≡ length users
length-topics_of [] = refl
length-topics_of (k ∷ users) = ap suc (length-topics_of users)

module _ (os : Os) (p : Platform) (rounds : ℕ) (broker_name : Bytes) (build : IsBuild p)
    (same : os.msg_max ≡ p.msg_max) (wide : os.msg_max < 2 ^ 64) (enough : 0 < rounds)
    (broker_slash : (get_or broker_name 0 0 == slash) ≡ true)
    (broker_sends : (calls : List Call) (call : Call) → p.mq_timedsend calls call ≡ true)
    (memory : (calls : List Call) (call : Call) → p.malloc calls call ≡ true)
    (broker_opens : (calls : List Call) (call : Call) → (q : ℕ) × (p.mq_open calls call ≡ some q))
    (client_sends : (calls : List Syscall) (call : Syscall) → os.mq_send calls call ≡ ok tt)
    (opens_both : OpensBoth os broker_name) where
  -- The loop ends with these clients, after those that are there.
  abbrev Enrols : List Peer → List Bytes → List (Bytes × Bytes) → World → Type 0
  Enrols xs subs users w =
      (ys : List Peer) × (w' : World) × (subscribe_each os p rounds broker_name users w
        ≡ some ((true, ys), w'))
      × IsIdle p (xs ++ ys) (subs ++ topics_of users) w'
      × All (λ y. IsReady y.psmq) ys
      × (length ys ≡ length users)
      × AreNumbered (suc (length xs)) ys

  Enrols-cons :
      (xs : List Peer) (subs : List Bytes) (k : Bytes × Bytes) (users : List (Bytes × Bytes))
      (w : World)
      → IsIdle p xs subs w
      → suc (length xs) < p.max_clients
      → IsUser p k
      → ((x : Peer) (w1 : World)
          → IsIdle p (xs ++ x ∷ []) (subs ++ k.1 ∷ []) w1
          → Enrols (xs ++ x ∷ []) (subs ++ k.1 ∷ []) users w1)
      → Enrols xs subs (k ∷ users) w
  unfolding subscribe_each
  Enrols-cons xs subs k users w idle few user next =
      let lt : suc (length xs) < length w.broker.clients = omega (arith, idle.valid.slots) in
      let (c, there, vacant, before) = Seated-IsVacant xs subs w.broker.clients idle.seated lt in
      let (x, w1, w2, w3, joined, asked, told, seat) =
        round-IsConnected os p build same broker_sends memory client_sends k.1 user.1.0 user.1.1
          rounds broker_name enough broker_slash broker_opens opens_both w k.0 (suc (length xs)) c
          idle.valid idle.empty user.0 there (is_free-none c vacant.0) vacant.1 before in
      let idle3 : IsIdle p (xs ++ x ∷ []) (subs ++ k.1 ∷ []) w3 = record {
        valid = seat.valid;
        seated = rw seat.clients (
            set-Seated xs subs w.broker.clients x k.1 (enrolled c x.mq k.1) idle.seated lt refl
              refl);
        empty = seat.empty;
      } in
      let (ys, w', run, idle', ready, sizes, numbers) = next x w3 idle3 in
      let n : length (xs ++ x ∷ []) ≡ suc (length xs) = omega (arith, length-append xs (x ∷ [])) in
      (
        x ∷ ys,
        w',
        rw (joined, asked, told, run) refl,
        rw (append_assoc xs (x ∷ []) ys, append_assoc subs (k.1 ∷ []) (topics_of users)) at idle',
        (seat.ready, ready),
        ap suc sizes,
        (seat.slot, rw n at numbers),
      )

  subscribe_each-Enrols :
      (xs : List Peer) (subs : List Bytes) (users : List (Bytes × Bytes)) (w : World)
      → IsIdle p xs subs w
      → length xs + length users < p.max_clients
      → All (IsUser p) users
      → Enrols xs subs users w
  unfolding subscribe_each
  subscribe_each-Enrols xs subs [] w idle few oks =
      ([], w, refl, rw (append-nil xs, append-nil subs) idle, tt, refl, tt)
  subscribe_each-Enrols xs subs (k ∷ users) w idle few oks =
      Enrols-cons xs subs k users w idle (omega arith) oks.0 (λ x w1 idle1.
        subscribe_each-Enrols (xs ++ x ∷ []) (subs ++ k.1 ∷ []) users w1 idle1
          (omega (arith, length-append xs (x ∷ []))) oks.1)

  -- The publisher connects first.
  publisher-IsIdle :
      (w : World) (qname : Bytes)
      → IsValid p w.broker
      → All IsVacant w.broker.clients
      → ((q : ℕ) → w.waiting q ≡ [])
      → IsName p qname
      → (x : Peer) × (w' : World) × (connects os p rounds broker_name qname w
          ≡ some ((true, x), w'))
        × IsIdle p [] [] w'
        × IsReady x.psmq
        × (x.psmq.fd ≡ 0)
  publisher-IsIdle w qname v vacant empty name =
      let some_slot : 0 < length w.broker.clients = omega (arith, v.slots, build.clients_least) in
      let (c, there, free, before) = first-IsVacant [] [] w.broker.clients vacant some_slot in
      let (mq, opened) = broker_opens w.broker.calls (opens qname) in
      let (x, w', joined, seat) =
        connects-IsConnected os p rounds broker_name build same enough broker_slash broker_sends
          client_sends opens_both w qname mq 0 c v empty name opened there (is_free-none c free.0)
          before in
      (
        x,
        w',
        joined,
        record {
          valid = seat.valid;
          seated = rw seat.clients (
              Seated-first w.broker.clients (record c { mq = some x.mq }) vacant some_slot refl
                free.1);
          empty = seat.empty;
        },
        seat.ready,
        seat.slot,
      )

  -- Where the broker and the clients are built with the same PSMQ_MSG_MAX below 2^64 and allowed
  -- limits; mq_open(), mq_send(), mq_timedsend() and malloc() succeed; a client gets two descriptors that
  -- differ, and waits for one message at least; the names of the queues begin with '/' and fit a
  -- message, and the broker's begins with '/'; the broker is valid and has no client, and no message waits;
  -- and the table is right: psmqd_wildard_test runs to its end, and each of its checks succeeds. So the
  -- publisher and the clients connect, each client subscribes and is told so, each message is received
  -- by the clients in its row, as it was published, no client has a message left, and all are
  -- cleaned up.
  pub wildcard_test-passes :
      (w : World) (pub_qname : Bytes) (users : List (Bytes × Bytes)) (rows : List Row)
      → IsValid p w.broker
      → All IsVacant w.broker.clients
      → ((q : ℕ) → w.waiting q ≡ [])
      → IsName p pub_qname
      → All (λ k. IsName p k.0) users
      → IsTable p (topics_of users) rows
      → (w' : World) × (wildcard_test os p rounds broker_name pub_qname users rows w
          ≡ some (true, w'))
  unfolding wildcard_test
  wildcard_test-passes w pub_qname users rows v vacant empty name names table =
      let (publisher, w1, joined, idle1, ready, first) =
        publisher-IsIdle w pub_qname v vacant empty name in
      let (peers, w2, subscribed, idle2, all_ready, sizes, numbers) =
        subscribe_each-Enrols [] [] users w1 idle1
          (omega (arith, table.few, length-topics_of users))
          (users_ok p users names table.subscriptions) in
      let (w3, published, idle3) =
        publish_each-IsIdle os p build same wide broker_sends client_sends publisher ready
          (omega (arith, first, build.clients_least)) peers all_ready (topics_of users)
          (omega (arith, sizes, length-topics_of users)) rows w2 idle2 table.rights in
      let (w4, w5, finished, gone) =
        finish-succeeds os p rounds broker_name build same broker_sends client_sends publisher peers
          (topics_of users) w3 ready first all_ready numbers idle3 in
      (w5, rw (joined, subscribed, published, finished, gone) refl)
