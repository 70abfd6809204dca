-- ===== src/Broker/Ioctl.antt =====
-- src/broker.c: psmqd_broker_ioctl.
use psmq.Prelude.{
  ℕ, ◌+◌, ◌-◌, Bool, true, false, not, ◌∷◌, Option, none, some, ltb, ◌==◌, if◌then◌else◌, get_or,
  drop,
}
use psmq.CString.{Bytes, memcpy, read_bytes}
use psmq.CString.Copy.{zeros}
use psmq.Errno.{einval}
use psmq.Message.{Msg, cmd_ioctl, ioctl_reply_timeout}
use psmq.Platform.{Platform}
use psmq.Broker.State.{M, pure, lift, ◌>>=◌, ◌>>◌, load_client, store_client}
use psmq.Broker.Reply.{reply}
use psmq.Broker.Requests.{ushort_bytes, bytes_ushort}

-- The array `buf` of psmqd_broker_reply_ioctl, with the request and the data copied in. The bytes
-- that nothing was copied to are zeros here, and are never sent.
unfoldable pub ioctl_buffer : ℕ → Option Bytes → ℕ → Option Bytes
ioctl_buffer req none datalen = some (req ∷ zeros 15)
ioctl_buffer req (some payload) datalen = elim (read_bytes datalen payload) [
  | none ↦ none
  | some bytes ↦ memcpy 1 bytes (req ∷ zeros 15)
]

module _ (p : Platform) where
  -- psmqd_broker_reply_ioctl
  unfoldable pub reply_ioctl : ℕ → ℕ → ℕ → Option Bytes → ℕ → M (Unit {0})
  reply_ioctl fd err req payload datalen = do
    buf ← lift (ioctl_buffer req payload datalen)
    reply p fd cmd_ioctl err none (some buf) (1 + datalen) 0
    pure tt

  unfoldable pub refuse_ioctl : ℕ → ℕ → Option Bytes → ℕ → M Bool
  refuse_ioctl fd req payload datalen = do reply_ioctl fd einval req payload datalen; pure false

  -- The new timeout is stored, and sent back.
  unfoldable pub store_timeout : ℕ → ℕ → Bytes → ℕ → M Bool
  store_timeout fd req bytes dlen = do
    c ← load_client fd
    store_client fd (record c { reply_timeout = bytes_ushort bytes })
    reply_ioctl fd 0 req (some (ushort_bytes (bytes_ushort bytes))) dlen
    pure true

  -- `case PSMQ_IOCTL_REPLY_TIMEOUT`
  unfoldable pub set_reply_timeout : ℕ → ℕ → Bytes → ℕ → M Bool
  set_reply_timeout fd req payload dlen =
      if not (dlen == 2)
      then refuse_ioctl fd req (some payload) dlen
      else (do bytes ← lift (read_bytes dlen payload); store_timeout fd req bytes dlen)

  -- psmqd_broker_ioctl
  unfoldable pub broker_ioctl : Msg → M Bool
  broker_ioctl msg =
      let fd = msg.ctrl_data in
      let req = get_or msg.msg_data 0 0 in
      if ltb msg.paylen 1
      then refuse_ioctl fd 0 none 0
      else if req == ioctl_reply_timeout
      then set_reply_timeout fd req (drop 1 msg.msg_data) (msg.paylen - 1)
      else refuse_ioctl fd req none 0
