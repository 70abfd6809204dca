-- ===== src/Broker/Loop.antt =====
-- src/broker.c: psmqd_broker_start, the main loop, as a function of what its waits give.
use psmq.Prelude.{
  ℕ, ◌+◌, Bool, false, not, ◌&&◌, List, [], ◌∷◌, Option, none, some, ltb, leb, ◌==◌, if◌then◌else◌,
  length,
}
use psmq.CString.{Bytes, strlen}
use psmq.Message.{Msg, cmd_open, cmd_close, cmd_subscribe, cmd_unsubscribe, cmd_publish, cmd_ioctl}
use psmq.Platform.{Platform}
use psmq.Broker.State.{M, pure, lift, ◌>>=◌, ◌>>◌}
use psmq.Broker.Requests.{broker_open, broker_subscribe, broker_unsubscribe, broker_close}
use psmq.Broker.Publish.{broker_publish}
use psmq.Broker.Ioctl.{broker_ioctl}

-- One round of the loop: the shutdown flag is set; mq_timedreceive() fails with EINTR or ETIMEDOUT;
-- it fails otherwise; or it gives a message and its priority.
pub data Event : Type 0 where
  shutdown interrupted broken : Event
  message : Msg → (prio : ℕ) → Event

-- `strlen(msg.data)`; without a NUL in the array it reads past the end.
unfoldable pub topic_length : Bytes → Option ℕ
topic_length buf = if strlen buf == length buf then none else some (strlen buf)

-- The three checks of a message whose topic has this length.
abbrev passes_checks : Platform → Msg → ℕ → Bool
passes_checks p msg topiclen =
    if leb p.msg_max topiclen
    then false
    else if ltb p.msg_max (topiclen + 1 + msg.paylen)
    then false
    else not (not (msg.ctrl_cmd == cmd_open) && leb p.max_clients msg.ctrl_data)

abbrev checks : Platform → Msg → Option ℕ → Option Bool
checks p msg none = none
checks p msg (some topiclen) = some (passes_checks p msg topiclen)

-- Does a message that was received pass the checks? `none` is a read past the end of `msg.data`.
unfoldable pub accepts : Platform → Msg → Option Bool
unfolding topic_length
accepts p msg = checks p msg (topic_length msg.msg_data)

-- How psmqd_broker_start ended: it returned 0 or -1, or it waits for the next event.
pub data Exit : Type 0 where
  stopped failed waiting : Exit

module _ (p : Platform) where
  -- The switch on the command; what the handlers return is not used.
  unfoldable pub dispatch : Msg → ℕ → M Bool
  dispatch msg prio =
      if msg.ctrl_cmd == cmd_open
      then broker_open p msg
      else if msg.ctrl_cmd == cmd_close
      then broker_close p msg.ctrl_data
      else if msg.ctrl_cmd == cmd_subscribe
      then broker_subscribe p msg
      else if msg.ctrl_cmd == cmd_unsubscribe
      then broker_unsubscribe p msg
      else if msg.ctrl_cmd == cmd_publish
      then broker_publish p msg prio
      else if msg.ctrl_cmd == cmd_ioctl
      then broker_ioctl p msg
      else pure false

  unfoldable pub handle : Msg → ℕ → M (Unit {0})
  handle msg prio = do
    accepted ← lift (accepts p msg)
    if accepted then (do dispatch msg prio; pure tt) else pure tt

  unfoldable pub broker_start : List Event → M Exit
  broker_start [] = pure waiting
  broker_start (shutdown ∷ events) = pure stopped
  broker_start (interrupted ∷ events) = broker_start events
  broker_start (broken ∷ events) = pure failed
  broker_start (message msg prio ∷ events) = do handle msg prio; broker_start events
