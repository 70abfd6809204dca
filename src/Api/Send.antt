-- ===== src/Api/Send.antt =====
-- lib/psmq.c: what a client sends to the broker. A result `ok tt` is 0; `err e` is -1 with errno e.
use psmq.Prelude.{
  ℕ, ◌+◌, ◌-◌, ◌%◌, ◌^◌, Bool, not, ◌∷◌, ◌++◌, Option, none, some, ltb, leb, ◌==◌, if◌then◌else◌,
  length, get_or, replicate,
}
use psmq.CString.{Bytes, memcpy, read_bytes}
use psmq.CString.Copy.{zeros}
use psmq.Errno.{Result, err, einval, ebadf, ebadmsg, enobufs}
use psmq.Message.{
  Msg, cmd_publish, cmd_subscribe, cmd_unsubscribe, cmd_ioctl, ioctl_reply_timeout, header_size,
  real_msg_size, sent_bytes,
}
use psmq.Platform.{Mqd}
use psmq.Topic.{slash}
use psmq.Broker.Reply.{put_topic}
use psmq.Broker.Requests.{ushort_bytes}
use psmq.Api.State.{Psmq, Os, Run, give, checked, call, ◌>>=◌, mqd_eq, is_open, sends}

-- VALID(e, test), and what comes behind it
abbrev pub valid : {A : Type 0} → ℕ → Bool → Run (Result A) → Run (Result A)
valid e test continue = if test then continue else give (err e)

-- VALID(EINVAL, p) of a pointer
abbrev pub not_null : {A B : Type 0} → Option A → (A → Run (Result B)) → Run (Result B)
not_null none continue = give (err einval)
not_null (some a) continue = continue a

-- VALID(EBADF, mq != (mqd_t)-1); VALID(EBADF, psmq->qsub != psmq->qpub)
abbrev pub initialized : Mqd → Psmq → Run (Result (Unit {0})) → Run (Result (Unit {0}))
initialized mq psmq continue =
    valid ebadf (is_open mq) (valid ebadf (not (mqd_eq psmq.qsub psmq.qpub)) continue)

-- `memcpy(pub.data + ..., payload, paylen); pub.paylen = paylen`, where there is a payload: the
-- buffer, and `pub.paylen`.
unfoldable pub fill_payload : Option Bytes → ℕ → Bytes × ℕ → Option (Bytes × ℕ)
fill_payload none paylen (buf, topiclen) = some (buf, 0)
fill_payload (some payload) paylen (buf, topiclen) = elim (read_bytes paylen payload) [
  | none ↦ none
  | some bytes ↦ elim (memcpy topiclen bytes buf) [
    | none ↦ none
    | some buf' ↦ some (buf', paylen % 2 ^ 16)
  ]
]

module _ (os : Os) where
  -- psmq_publish_msg
  unfoldable pub send_msg :
      Mqd → ℕ → ℕ → Option Bytes → Option Bytes → ℕ → ℕ → Run (Result (Unit {0}))
  send_msg qpub cmd fd topic payload paylen prio = do
    put ← checked (put_topic topic (replicate os.msg_max 0))
    filled ← checked (fill_payload payload paylen put)
    let msg : Msg = record {
      ctrl_cmd = cmd;
      ctrl_data = fd;
      paylen = filled.1;
      msg_data = filled.0;
    }
    let size : ℕ = real_msg_size msg
    if ltb (header_size + os.msg_max) size
        then (λ calls. none)
        else call os.mq_send (sends qpub (sent_bytes size msg) prio)

  unfoldable pub publish_msg :
      Option Psmq → ℕ → ℕ → Option Bytes → Option Bytes → ℕ → ℕ → Run (Result (Unit {0}))
  publish_msg psmq cmd fd topic payload paylen prio =
      not_null psmq (λ s. initialized s.qpub s (send_msg s.qpub cmd fd topic payload paylen prio))

  -- psmq_publish_prio; a size_t is taken to have 64 bits.
  unfoldable pub publish_prio :
      Option Psmq → Option Bytes → Option Bytes → ℕ → ℕ → Run (Result (Unit {0}))
  publish_prio psmq topic payload paylen prio = not_null psmq (λ s. not_null topic (λ t.
      valid enobufs (leb ((length t + 1 + paylen) % 2 ^ 64) os.msg_max) (
        valid ebadmsg (get_or t 0 0 == slash)
          (publish_msg psmq cmd_publish s.fd topic payload paylen prio))))

  -- psmq_publish
  unfoldable pub publish : Option Psmq → Option Bytes → Option Bytes → ℕ → Run (Result (Unit {0}))
  publish psmq topic payload paylen = publish_prio psmq topic payload paylen 0

  -- What psmq_subscribe and psmq_unsubscribe have in common, with the command.
  unfoldable pub request_topic : ℕ → Option Psmq → Option Bytes → Run (Result (Unit {0}))
  request_topic cmd psmq topic = not_null psmq (λ s. not_null topic (λ t.
      valid einval (not (get_or t 0 0 == 0)) (
        valid ebadmsg (get_or t 0 0 == slash) (
          initialized s.qsub s (
            valid enobufs (leb (length t + 1) os.msg_max)
              (publish_msg psmq cmd s.fd topic none 0 0))))))

  -- psmq_subscribe
  unfoldable pub subscribe : Option Psmq → Option Bytes → Run (Result (Unit {0}))
  subscribe psmq topic = request_topic cmd_subscribe psmq topic

  -- psmq_unsubscribe
  unfoldable pub unsubscribe : Option Psmq → Option Bytes → Run (Result (Unit {0}))
  unsubscribe psmq topic = request_topic cmd_unsubscribe psmq topic

  -- psmq_ioctl, given an int that is not negative.
  unfoldable pub ioctl : Option Psmq → ℕ → ℕ → Run (Result (Unit {0}))
  ioctl psmq req val_int = not_null psmq (λ s. initialized s.qsub s (
      if req == ioctl_reply_timeout
      then valid einval (leb val_int (2 ^ 16 - 1)) (
          publish_msg psmq cmd_ioctl s.fd none
            (some ((req % 256) ∷ (ushort_bytes val_int ++ zeros 29))) 3 0)
      else give (err einval)))

  -- psmq_ioctl_reply_timeout
  unfoldable pub ioctl_timeout : Option Psmq → ℕ → Run (Result (Unit {0}))
  ioctl_timeout psmq val = ioctl psmq ioctl_reply_timeout val
