-- ===== src/Api/Init.antt =====
-- lib/psmq.c: psmq_init_wq, psmq_init_named, psmq_init and psmq_cleanup. The result comes with the
-- `struct psmq` as it is then.
use psmq.Prelude.{
  ℕ, zero, suc, ◌+◌, ◌/◌, ◌%◌, Bool, true, false, [], ◌∷◌, Option, none, some, ltb, ◌==◌, not,
  if◌then◌else◌, ◌&&◌, length, get_or, replicate,
}
use psmq.CString.{Bytes}
use psmq.Errno.{Result, ok, err, einval, ebadf, ebadmsg, enospc, eexist, enametoolong}
use psmq.Message.{Msg, cmd_open, cmd_close}
use psmq.Platform.{Mqd}
use psmq.Topic.{slash}
use psmq.Api.State.{
  Psmq, Os, Syscall, Run, give, call, ◌>>=◌, ◌>>◌, mqd_eq, opens_write, creates_read, closes,
  unlinks,
}
use psmq.Api.Send.{publish_msg}
use psmq.Api.Receive.{timedreceive_ms}

-- A call that a client makes, whose answer is not used.
unfoldable pub issue : Syscall → Run (Unit {0})
issue c calls = some (tt, c ∷ calls)

abbrev pub queue_of : Result ℕ → Mqd
queue_of (ok q) = some q
queue_of (err e) = none

-- How the wait for the broker's answer ends: an answer, with `ack` and `fd`; or a failure, with errno.
pub data Ack : Type 0 where
  granted : (ack fd : ℕ) → Ack
  refused : ℕ → Ack

-- What a message that was received means. One that is not the answer to an open request is left over
-- from an older session: the next one is waited for.
unfoldable pub read_answer : Msg → Option Ack
read_answer msg =
    if not (msg.ctrl_cmd == cmd_open)
    then none
    else if (msg.paylen == 0) && (msg.ctrl_data == enospc)
    then some (refused enospc)
    else if not (msg.paylen == 1)
    then some (refused ebadmsg)
    else some (granted msg.ctrl_data (get_or msg.msg_data 0 0))

abbrev pub zeroed_msg : Os → Msg
zeroed_msg os = record {
  ctrl_cmd = 0;
  ctrl_data = 0;
  paylen = 0;
  msg_data = replicate os.msg_max 0;
}

-- PSMQD_DEFAULT_QNAME, "/psmqd"
abbrev pub default_qname : Bytes
default_qname = b'/' ∷ b'p' ∷ b's' ∷ b'm' ∷ b'q' ∷ b'd' ∷ []

-- sprintf(mqn, "/psmqc%03d", i) of a number below 1000
abbrev pub generated_name : ℕ → Bytes
generated_name i =
    b'/'
    ∷ b'p'
    ∷ b's'
    ∷ b'm'
    ∷ b'q'
    ∷ b'c'
    ∷ (48 + i / 100)
    ∷ (48 + i / 10 % 10)
    ∷ (48 + i % 10)
    ∷ []

-- What an initialization gives: the struct, and 0 or -1 with errno; `none` is a wait for the broker
-- that is not over after the messages that it may receive.
abbrev pub Outcome : Type 0
Outcome = Option (Psmq × Result (Unit {0}))

-- The loop that waits for the answer, 30 seconds for each message, of which it may receive `n`.
unfoldable pub await_answer : Os → ℕ → Psmq → Run (Option Ack)
await_answer os zero s = give none
await_answer os (suc n) s = do
  got ← timedreceive_ms os (some s) (some (zeroed_msg os)) 30000
  elim got [
    | err e ↦ give (some (refused e))
    | ok m ↦ elim (read_answer m.0) [ none ↦ await_answer os n s | some ack ↦ give (some ack) ]
  ]

-- What stands behind the label `error`.
unfoldable pub abandon : Bytes → Psmq → ℕ → Run Outcome
abandon mqname s e = do
  issue (closes s.qpub)
  issue (closes s.qsub)
  issue (unlinks mqname)
  give (some (record s { qsub = none; qpub = none }, err e))

-- What follows the wait.
unfoldable pub conclude : Bytes → Psmq → Option Ack → Run Outcome
conclude mqname s none = give none
conclude mqname s (some (refused e)) = abandon mqname s e
conclude mqname s (some (granted ack fd)) =
    let s' : Psmq = record s { fd = fd } in
    if ack == 0 then give (some (s', ok tt)) else abandon mqname s' ack

module _ (os : Os) (n : ℕ) where
  -- psmq_init_wq once both queues are open
  unfoldable pub register : Bytes → Psmq → Run Outcome
  register mqname s = do
    sent ← publish_msg os (some s) cmd_open 0 (some mqname) none 0 0
    elim sent [
      | err e ↦ abandon mqname s e
      | ok u ↦ (do ack ← await_answer os n s; conclude mqname s ack)
    ]

  -- psmq_init_wq
  unfoldable pub init_wq : Psmq → Bytes → Bytes → Run Outcome
  init_wq s brokername mqname = do
    opened ← call os.mq_open (opens_write brokername)
    elim opened [
      | err e ↦ (do
        issue (closes s.qsub)
        give (some (record s { qsub = none; qpub = none }, err e)))
      | ok q ↦ register mqname (record s { qpub = some q })
    ]

  abbrev pub zeroed_psmq : Psmq
  zeroed_psmq = record { qsub = some 0; qpub = some 0; fd = 0 }

  -- The queue of that name, in place of one that is left over.
  unfoldable pub init_with_name : Bytes → Bytes → ℕ → Run Outcome
  init_with_name brokername mqname maxmsg = do
    issue (unlinks mqname)
    opened ← call os.mq_open (creates_read mqname false maxmsg)
    elim opened [
      | err e ↦ give (some (record zeroed_psmq { qsub = none }, err e))
      | ok q ↦ init_wq (record zeroed_psmq { qsub = some q }) brokername mqname
    ]

  -- The first generated name, from number `i` on, that no queue has, with the numbers that are left.
  unfoldable pub init_generated : ℕ → ℕ → Bytes → ℕ → Run Outcome
  init_generated zero i brokername maxmsg =
      give (some (record zeroed_psmq { qsub = none }, err enospc))
  init_generated (suc left) i brokername maxmsg =
      let next = init_generated left (i + 1) brokername maxmsg in
      do
        opened ← call os.mq_open (creates_read (generated_name i) true maxmsg)
        elim opened [
          | err e ↦
              if e == eexist then next else give (some (record zeroed_psmq { qsub = none }, err e))
          | ok q ↦ init_wq (record zeroed_psmq { qsub = some q }) brokername (generated_name i)
        ]

  unfoldable pub init_queue : Bytes → Option Bytes → ℕ → Run Outcome
  init_queue brokername none maxmsg = init_generated os.max_clients 0 brokername maxmsg
  init_queue brokername (some mqname) maxmsg = init_with_name brokername mqname maxmsg

  -- The tests of the arguments, in their order; true is passed.
  unfoldable pub name_refused : Option Bytes → Option Bytes → Option ℕ
  name_refused brokername mqname =
      if not (starts_with_slash brokername)
      then some einval
      else if not (starts_with_slash mqname)
      then some einval
      else if short mqname
      then none
      else some enametoolong
    where
      starts_with_slash : Option Bytes → Bool
      starts_with_slash none = true
      starts_with_slash (some name) = get_or name 0 0 == slash

      short : Option Bytes → Bool
      short none = true
      short (some name) = ltb (length name) os.msg_max

  abbrev pub or_default : Option Bytes → Bytes
  or_default none = default_qname
  or_default (some name) = name

  -- psmq_init_named; the struct stays as it was where an argument is refused; where the pointer is
  -- NULL there is none, and the one in the result means nothing. `maxmsg` is an int that is not
  -- negative.
  unfoldable pub init_named : Option Psmq → Option Bytes → Option Bytes → ℕ → Run Outcome
  init_named none brokername mqname maxmsg = give (some (zeroed_psmq, err einval))
  init_named (some s) brokername mqname maxmsg =
      if maxmsg == 0 then give (some (s, err einval)) else elim (name_refused brokername mqname) [
        | some e ↦ give (some (s, err e))
        | none ↦ init_queue (or_default brokername) mqname maxmsg
      ]

  -- psmq_init
  unfoldable pub init : Option Psmq → ℕ → Run Outcome
  init psmq maxmsg = init_named psmq none none maxmsg

-- psmq_cleanup
unfoldable pub cleanup : Os → Option Psmq → Run (Option Psmq × Result (Unit {0}))
cleanup os none = give (none, err einval)
cleanup os (some s) = if mqd_eq s.qsub s.qpub then give (some s, err ebadf) else (do
  publish_msg os (some s) cmd_close s.fd none none 0 0
  issue (closes s.qpub)
  issue (closes s.qsub)
  give (some (record s { qsub = none; qpub = none }), ok tt))
