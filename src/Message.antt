-- ===== src/Message.antt =====
-- inc/psmq.h.in: the message that the broker and the clients send each other, and
-- psmq-common.h: how much of it goes over the wire.
use psmq.Prelude.{ℕ, ◌+◌, ◌-◌, ◌++◌, ◌==◌, if◌then◌else◌, length, take, drop, replicate}
use psmq.CString.{Bytes, c_str, strlen}

-- PSMQ_CTRL_CMD_OPEN and the other commands
abbrev pub cmd_open : ℕ
cmd_open = b'o'

abbrev pub cmd_close : ℕ
cmd_close = b'c'

abbrev pub cmd_subscribe : ℕ
cmd_subscribe = b's'

abbrev pub cmd_unsubscribe : ℕ
cmd_unsubscribe = b'u'

abbrev pub cmd_publish : ℕ
cmd_publish = b'p'

abbrev pub cmd_ioctl : ℕ
cmd_ioctl = b'i'

-- PSMQ_IOCTL_REPLY_TIMEOUT
abbrev pub ioctl_reply_timeout : ℕ
ioctl_reply_timeout = 1

-- `struct psmq_msg`: `ctrl.cmd`, `ctrl.data`, `paylen` and the array `data`.
pub record Msg : Type 0 where
  pub ctrl_cmd : ℕ
  pub ctrl_data : ℕ
  pub paylen : ℕ
  pub msg_data : Bytes

-- sizeof(paylen) + sizeof(ctrl), the bytes in front of `data`
abbrev pub header_size : ℕ
header_size = 4

-- PSMQ_TOPIC: the string at `data`.
abbrev pub topic : Msg → Bytes
topic m = c_str m.msg_data

-- PSMQ_PAYLOAD: behind the topic, or in an ioctl the data themselves.
unfoldable pub payload : Msg → Bytes
unfolding strlen
payload m = if m.ctrl_cmd == cmd_ioctl then m.msg_data else drop (strlen m.msg_data + 1) m.msg_data

-- The macro psmq_real_msg_size.
unfoldable pub real_msg_size : Msg → ℕ
unfolding strlen
real_msg_size m =
    header_size + (if m.ctrl_cmd == cmd_ioctl then 0 else strlen m.msg_data + 1) + m.paylen

-- What a queue carries of the first `size` bytes of a message.
unfoldable pub sent_bytes : ℕ → Msg → Msg
sent_bytes size m = record m { msg_data = take (size - header_size) m.msg_data }

-- What is in a zeroed message of `msg_max` data bytes, once the bytes of a queue are copied in.
unfoldable pub received : ℕ → Msg → Msg
received msg_max m = record m { msg_data = m.msg_data ++ replicate (msg_max - length m.msg_data) 0 }
