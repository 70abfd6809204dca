-- ===== src/Suite.antt =====
-- src/tst/psmqd.c and psmqd-startup.c: tests of a broker and its clients. A call of a client that puts a
-- message on the control queue lets the broker handle it, and what the broker sends waits in the queue
-- of the client that it is sent to, in the order of the sends; all of it has the same priority.
pub mod Connects
pub mod Connected
pub mod Enrols
pub mod Finish
pub mod Joins
pub mod Leaves
pub mod Passes
pub mod Rounds
pub mod Seats
pub mod Waiting
pub mod Wildcard
pub mod Tables
use psmq.Prelude.{
  ℕ, ◌+◌, Bool, true, false, not, ◌&&◌, ◌||◌, List, [], ◌∷◌, ◌++◌, Option, none, some, ◌==◌,
  if◌then◌else◌, length, take, drop, get_or, get_elem?,
}
use psmq.CString.{Bytes, str_eq, strlen, c_str}
use psmq.Errno.{Result, ok, err, etimedout}
use psmq.Message.{Msg, received, cmd_publish, cmd_subscribe, cmd_unsubscribe}
use psmq.Platform.{Mqd, Call, Platform}
use psmq.Broker.State.{Broker}
use psmq.Broker.Loop.{handle}
use psmq.Api.State.{Psmq, Os, Syscall, Run}
use psmq.Api.Send.{publish}
use psmq.Api.Receive.{receive_prio, timedreceive_ms}
use psmq.Api.Init.{zeroed_msg}

-- The broker, the calls that the test's process made, and what waits in the queues, by the descriptors
-- of the broker.
pub record World : Type 0 where
  pub broker : Broker
  pub calls : List Syscall
  pub waiting : ℕ → List Msg

-- A client, and the descriptor under which the broker has its queue.
pub record Peer : Type 0 where
  pub psmq : Psmq
  pub mq : ℕ

abbrev is_queue : Mqd → ℕ → Bool
is_queue none q = false
is_queue (some r) q = r == q

-- What a call of the broker puts on a queue.
abbrev pub puts : Platform → ℕ → List Call → Call → List Msg
puts p q calls (Call.sends mq msg prio tp) =
    if is_queue mq q && p.mq_timedsend calls (Call.sends mq msg prio tp) then msg ∷ [] else []
puts p q calls (Call.opens name) = []
puts p q calls (Call.creates name exclusive maxmsg) = []
puts p q calls (Call.closes mq) = []
puts p q calls (Call.unlinks name) = []
puts p q calls (Call.discards mq) = []
puts p q calls (Call.allocates size) = []

-- What the broker's calls, the last one first, put on a queue, the oldest message first.
abbrev pub sent_to : Platform → ℕ → List Call → List Msg
sent_to p q [] = []
sent_to p q (c ∷ calls) = sent_to p q calls ++ puts p q calls c

-- A command; `none` is a fault, or a wait that does not end.
abbrev pub Act {ℓ} : Type ℓ → Type ℓ
Act A = World → Option (A × World)

abbrev pub pure {ℓ} : {A : Type ℓ} → A → Act A
pure a w = some (a, w)

abbrev pub resumed {ℓ κ} :
    {A : Type ℓ} {B : Type κ} → (A → Act B) → Option (A × World) → Option (B × World)
resumed next none = none
resumed next (some (a, w)) = next a w

infixl 5 ◌>>=◌ ◌>>◌
abbrev pub ◌>>=◌ {ℓ κ} : {A : Type ℓ} {B : Type κ} → Act A → (A → Act B) → Act B
◌>>=◌ first next w = resumed next (first w)

abbrev pub ◌>>◌ {ℓ κ} : {A : Type ℓ} {B : Type κ} → Act A → Act B → Act B
◌>>◌ first second w = resumed (λ _. second) (first w)

-- strchr("spu", cmd), which finds the NUL too
abbrev pub has_topic : ℕ → Bool
has_topic cmd =
    (cmd == cmd_subscribe) || (cmd == cmd_publish) || (cmd == cmd_unsubscribe) || (cmd == 0)

abbrev same_topic : Option Bytes → Msg → Bool
same_topic none msg = true
same_topic (some t) msg = str_eq (c_str msg.msg_data) t

abbrev same_payload : Option Bytes → ℕ → ℕ → Msg → Bool
same_payload none topiclen paylen msg = true
same_payload (some bytes) topiclen paylen msg =
    if (msg.paylen == 0) || (paylen == 0)
    then true
    else str_eq (take msg.paylen (drop topiclen msg.msg_data)) (take msg.paylen bytes)

-- The comparisons of psmqt_receive_expect; true is 0.
unfoldable pub as_expected : ℕ → ℕ → ℕ → Option Bytes → Option Bytes → Msg → Bool
unfolding strlen str_eq
as_expected cmd status paylen topic payload msg =
    let topiclen = if has_topic cmd then strlen msg.msg_data + 1 else 0 in
    (msg.ctrl_cmd == cmd)
    && (msg.ctrl_data == status)
    && (msg.paylen == paylen)
    && same_topic topic msg
    && (if (paylen == 0) && (topiclen == 0) then get_or msg.msg_data 0 0 == 0 else true)
    && same_payload payload topiclen paylen msg

-- A row of a test's table: a published topic, and which clients receive it.
pub record Row : Type 0 where
  pub topic : Bytes
  pub matches : List ℕ

-- What a receive gives of the messages in a queue.
abbrev pub front : List Msg → Result (Msg × ℕ)
front [] = err etimedout
front (msg ∷ msgs) = ok (msg, 0)

module _ (os : Os) (p : Platform) where
  abbrev handled : World → Option (Unit {0} × Broker) → Option (Unit {0} × World)
  handled w none = none
  handled w (some (_, b)) = some (
    tt,
    record w {
      broker = b;
      waiting =
          λ q. w.waiting q ++ drop (length (sent_to p q w.broker.calls)) (sent_to p q b.calls);
    },
  )

  -- A message comes to the broker.
  unfoldable pub arrives : Msg → ℕ → Act (Unit {0})
  arrives msg prio w = handled w (handle p (received p.msg_max msg) prio w.broker)

  abbrev posted : List Syscall → Act (Unit {0})
  posted (Syscall.sends mq msg prio ∷ calls) = arrives msg prio
  posted _ = pure tt

  abbrev asked : World → Option (Result (Unit {0}) × List Syscall) → Option (Bool × World)
  asked w none = none
  asked w (some (err e, calls)) = some (false, record w { calls = calls })
  asked w (some (ok _, calls)) =
      resumed (λ _. pure true) (posted calls (record w { calls = calls }))

  -- mt_fok of a call that sends a request
  unfoldable pub asks : Run (Result (Unit {0})) → Act Bool
  unfolding arrives
  asks run w = asked w (run w.calls)

  -- The operating system, where the next receive gives this.
  abbrev pub receiving : Result (Msg × ℕ) → Os
  receiving r = record os { mq_receive = λ _ _. r }

  abbrev compared :
      (ℕ → List Msg)
      → (Msg → Bool)
      → World
      → Option (Result (Msg × ℕ) × List Syscall)
      → Option (Bool × World)
  compared left test w none = none
  compared left test w (some (err e, calls)) = some (false, record w { calls = calls })
  compared left test w (some (ok (msg, prio), calls)) =
      some (test msg, record w { calls = calls; waiting = left })

  abbrev received_first : Peer → (Msg → Bool) → List Msg → Act Bool
  received_first c test [] w = none
  received_first c test (msg ∷ msgs) w =
      compared (λ q. if q == c.mq then msgs else w.waiting q) test w
        (receive_prio (receiving (ok (msg, 0))) (some c.psmq) (some (zeroed_msg os)) w.calls)

  -- mt_fok(psmqt_receive_expect(...)), which waits where no message is there
  unfoldable pub receive_expect :
      Peer → (cmd status paylen : ℕ) → Option Bytes → Option Bytes → Act Bool
  unfolding as_expected receive_prio
  receive_expect c cmd status paylen topic payload w =
      received_first c (as_expected cmd status paylen topic payload) (w.waiting c.mq) w

  abbrev timed_out : World → Option (Result (Msg × ℕ) × List Syscall) → Option (Bool × World)
  timed_out w none = none
  timed_out w (some (err e, calls)) = some (e == etimedout, record w { calls = calls })
  timed_out w (some (ok got, calls)) = some (false, record w { calls = calls })

  -- mt_ferr(psmq_timedreceive_ms(&psmq, &msg, 0), ETIMEDOUT)
  unfoldable pub nothing_left : Peer → Act Bool
  unfolding timedreceive_ms
  nothing_left c w = timed_out w (
      timedreceive_ms (receiving (front (w.waiting c.mq))) (some c.psmq) (some (zeroed_msg os)) 0
        w.calls)

  abbrev at_peer : Option Peer → (Peer → Act Bool) → Act Bool
  at_peer none act w = none
  at_peer (some c) act w = act c w

  -- psmqd_wildard_test: the receives of one published message
  unfoldable pub receive_each : List Peer → Bytes → List ℕ → Act Bool
  unfolding receive_expect
  receive_each peers topic [] = pure true
  receive_each peers topic (match ∷ matches) = do
    same ← at_peer (get_elem? peers match) (λ c. receive_expect c cmd_publish 0 0 (some topic) none)
    rest ← receive_each peers topic matches
    pure (same && rest)

  -- psmqd_wildard_test: the loop over the table
  unfoldable pub publish_each : Peer → List Peer → List Row → Act Bool
  unfolding asks receive_each
  publish_each publisher peers [] = pure true
  publish_each publisher peers (row ∷ rows) = do
    sent ← asks (publish os (some publisher.psmq) (some row.topic) none 0)
    same ← receive_each peers row.topic row.matches
    rest ← publish_each publisher peers rows
    pure (sent && same && rest)
