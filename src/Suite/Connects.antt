-- ===== src/Suite/Connects.antt =====
-- src/tst/psmqd.c, psmqd_wildard_test: its clients connect and subscribe, and then the table.
use psmq.Prelude.{
  ℕ, ◌-◌, Bool, true, false, ◌&&◌, List, [], ◌∷◌, Option, none, some, ◌==◌, if◌then◌else◌, length,
  take, drop,
}
use psmq.CString.{Bytes}
use psmq.Errno.{Result, ok, err, etimedout}
use psmq.Message.{Msg, cmd_subscribe}
use psmq.Platform.{Mqd, Platform, opens}
use psmq.Api.State.{Psmq, Os, Syscall}
use psmq.Api.Send.{subscribe}
use psmq.Api.Init.{Outcome, zeroed_psmq, init_named, cleanup}
use psmq.Suite.{
  World, Peer, Act, pure, ◌>>=◌, ◌>>◌, Row, arrives, front, asks, receive_expect, publish_each,
  nothing_left,
}

abbrev queue_number : Mqd → ℕ
queue_number none = 0
queue_number (some q) = q

-- `rounds` bounds the messages that a client receives while it waits for the answer to its open request.
module _ (os : Os) (p : Platform) (rounds : ℕ) (broker_name : Bytes) where
  abbrev pub taken_off : ℕ → Act (Unit {0})
  taken_off mq w =
      some (tt, record w { waiting = λ q. if q == mq then drop 1 (w.waiting q) else w.waiting q })

  -- What a call of the client, whose queue this is, does to the world.
  abbrev pub acts : ℕ → Syscall → Act (Unit {0})
  acts mq (Syscall.sends q msg prio) = arrives os p msg prio
  acts mq (Syscall.receives q) = taken_off mq
  acts mq (Syscall.receives_until q tp) = taken_off mq
  acts mq (Syscall.opens_write name) = pure tt
  acts mq (Syscall.creates_read name exclusive maxmsg) = pure tt
  acts mq (Syscall.closes q) = pure tt
  acts mq (Syscall.unlinks name) = pure tt

  -- The client's calls, the last one first.
  abbrev pub replay : ℕ → List Syscall → Act (Unit {0})
  replay mq [] = pure tt
  replay mq (c ∷ calls) = replay mq calls >> acts mq c

  abbrev pub since : World → List Syscall → List Syscall
  since w calls = take (length calls - length w.calls) calls

  abbrev pub front_of : ℕ → Option (Unit {0} × World) → Result (Msg × ℕ)
  front_of mq none = err etimedout
  front_of mq (some (_, w)) = front (w.waiting mq)

  -- A receive gives what the broker has put on the queue by then.
  abbrev pub answering : ℕ → World → Os
  answering mq w = record os { mq_receive = λ calls _. front_of mq (replay mq (since w calls) w) }

  abbrev pub with_calls : List Syscall → World → World
  with_calls calls w = record w { calls = calls }

  abbrev pub connected :
      ℕ → World → Option (Outcome × List Syscall) → Option ((Bool × Peer) × World)
  connected mq w none = none
  connected mq w (some (none, calls)) = none
  connected mq w (some (some (psmq, ok _), calls)) =
      (replay mq (since w calls)
          >>= (λ _ w'. pure (true, record { psmq = psmq; mq = mq }) (with_calls calls w')))
        w
  connected mq w (some (some (psmq, err e), calls)) =
      (replay mq (since w calls)
          >>= (λ _ w'. pure (false, record { psmq = psmq; mq = mq }) (with_calls calls w')))
        w

  -- mt_fok(psmq_init_named(...)): whether it succeeded, and the client
  unfoldable pub connects : Bytes → Act (Bool × Peer)
  connects qname w =
      let mq = queue_number (p.mq_open w.broker.calls (opens qname)) in
      let os' = answering mq w in
      connected mq w (
        init_named os' rounds (some (zeroed_psmq os' rounds)) (some broker_name) (some qname) 4
          w.calls)

  -- psmqd_wildard_test: the loop that connects the clients, of which each has a name and a topic
  unfoldable pub subscribe_each : List (Bytes × Bytes) → Act (Bool × List Peer)
  unfolding connects asks receive_expect
  subscribe_each [] = pure (true, [])
  subscribe_each (x ∷ xs) = do
    c ← connects x.0
    asked ← asks os p (subscribe os (some c.1.psmq) (some x.1))
    same ← receive_expect os p c.1 cmd_subscribe 0 0 (some x.1) none
    rest ← subscribe_each xs
    pure (c.0 && asked && same && rest.0, c.1 ∷ rest.1)

  -- The client's queue is unlinked, with what waits in it.
  abbrev pub without_queue : ℕ → World → World
  without_queue mq w = record w { waiting = λ q. if q == mq then [] else w.waiting q }

  abbrev pub left :
      ℕ → World → Option ((Option Psmq × Result (Unit {0})) × List Syscall) → Option (Bool × World)
  left mq w none = none
  left mq w (some ((s, ok _), calls)) =
      (replay mq (since w calls) >>= (λ _ w'. pure true (with_calls calls (without_queue mq w')))) w
  left mq w (some ((s, err e), calls)) =
      (replay mq (since w calls) >>= (λ _ w'. pure false (with_calls calls (without_queue mq w'))))
        w

  -- mt_fok(psmq_cleanup(...)); mq_unlink(...);
  unfoldable pub leaves : Peer → Act Bool
  leaves x w = left x.mq w (cleanup os (some x.psmq) w.calls)

  -- psmqd_wildard_test: the loop that finds every queue empty, and cleans up
  unfoldable pub finish_each : List Peer → Act Bool
  unfolding nothing_left leaves
  finish_each [] = pure true
  finish_each (x ∷ xs) = do
    none_left ← nothing_left os p x
    gone ← leaves x
    rest ← finish_each xs
    pure (none_left && gone && rest)

  -- psmqd_wildard_test
  unfoldable pub wildcard_test : Bytes → List (Bytes × Bytes) → List Row → Act Bool
  unfolding subscribe_each publish_each finish_each
  wildcard_test pub_qname clients rows = do
    publisher ← connects pub_qname
    peers ← subscribe_each clients
    same ← publish_each os p publisher.1 peers.1 rows
    finished ← finish_each peers.1
    gone ← leaves publisher.1
    pure (publisher.0 && peers.0 && same && finished && gone)
