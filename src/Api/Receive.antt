-- ===== src/Api/Receive.antt =====
-- lib/psmq.c: what a client receives. A result `ok (msg, prio)` is 0, with the buffer of the caller
-- as it is then; `err e` is -1 with errno e, and leaves the buffer alone.
use psmq.Prelude.{ℕ, Option, some, ◌++◌, not, length, drop}
use psmq.Errno.{Result, ok, err, ebadf}
use psmq.Message.{Msg}
use psmq.Time.{Timespec, ms_to_tp}
use psmq.Api.State.{
  Psmq, Os, Syscall, Run, give, call, ◌>>=◌, mqd_eq, is_open, receives, receives_until,
}
use psmq.Api.Send.{valid, not_null}

-- The caller's buffer once the bytes of a message are copied over its first bytes.
unfoldable pub overwrite : Msg → Msg → Msg
overwrite old new = record new {
  msg_data = new.msg_data ++ drop (length new.msg_data) old.msg_data;
}

abbrev pub fill : Msg → Result (Msg × ℕ) → Result (Msg × ℕ)
fill old (ok (new, prio)) = ok (overwrite old new, prio)
fill old (err e) = err e

abbrev pub ready : Psmq → Run (Result (Msg × ℕ)) → Run (Result (Msg × ℕ))
ready s continue = valid ebadf (is_open s.qpub) (valid ebadf (not (mqd_eq s.qsub s.qpub)) continue)

module _ (os : Os) where
  -- mq_receive() or mq_timedreceive() into the caller's buffer
  unfoldable pub receive_into : Msg → Syscall → Run (Result (Msg × ℕ))
  receive_into old c = do got ← call os.mq_receive c; give (fill old got)

  -- psmq_receive_prio; psmq_receive is the same with the priority thrown away.
  unfoldable pub receive_prio : Option Psmq → Option Msg → Run (Result (Msg × ℕ))
  receive_prio psmq msg =
      not_null psmq (λ s. not_null msg (λ old. ready s (receive_into old (receives s.qsub))))

  -- psmq_timedreceive_prio; psmq_timedreceive is the same with the priority thrown away.
  unfoldable pub timedreceive_prio :
      Option Psmq → Option Msg → Option Timespec → Run (Result (Msg × ℕ))
  timedreceive_prio psmq msg tp = not_null psmq (λ s.
      not_null msg (λ old. not_null tp (λ t. ready s (receive_into old (receives_until s.qsub t)))))

  -- psmq_timedreceive_prio_ms; psmq_timedreceive_ms is the same with the priority thrown away.
  unfoldable pub timedreceive_ms : Option Psmq → Option Msg → ℕ → Run (Result (Msg × ℕ))
  timedreceive_ms psmq msg ms = do
    tp ← λ calls. some (ms_to_tp (os.clock calls) ms, calls)
    timedreceive_prio psmq msg (some tp)
