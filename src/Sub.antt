-- ===== src/Sub.antt =====
-- src/psmq-sub.c: what a subscriber makes of a message that it receives.
pub mod Text
pub mod Program
pub mod Watch
pub mod Again
pub mod Subscribes
pub mod Delivered
use psmq.Prelude.{
  ℕ, zero, suc, ◌-◌, Bool, true, false, not, ◌&&◌, ◌||◌, List, [], ◌∷◌, Option, none, some, ◌==◌,
  if◌then◌else◌, drop, take,
}
use psmq.CString.{Bytes, c_str, read_bytes}
use psmq.Errno.{Result, ok, err}
use psmq.Message.{Msg, cmd_close, cmd_ioctl, cmd_publish}
use psmq.Broker.Requests.{bytes_ushort}

-- What is shown of a message.
pub data Shown : Type 0 where
  -- the reply timeout that the broker confirmed
  timeout : ℕ → Shown
  -- priority, length, topic and payload, as bytes or as a string
  binary : (prio paylen : ℕ) → Bytes → Bytes → Shown
  text : (prio len : ℕ) → Bytes → Bytes → Shown

module _ (isprint isspace : ℕ → Bool) where
  -- The loop over all bytes but the last, of which `n` are left, and the test of the last. `none` is a
  -- read past the end.
  unfoldable pub scan : ℕ → Bytes → Option Bool
  scan n [] = none
  scan zero (c ∷ s) = some (not (c == 0))
  scan (suc n) (c ∷ s) = if not (isprint c) && not (isspace c) then some true else scan n s

  unfoldable pub is_payload_binary : Bytes → ℕ → Option Bool
  is_payload_binary payload paylen =
      if (paylen == 0) || (paylen == 1) then some true else scan (paylen - 1) payload

  -- `case PSMQ_CTRL_CMD_PUBLISH`, with whether the payload is binary
  unfoldable pub show_publish : Bytes → Bytes → ℕ → ℕ → Bool → Option Shown
  show_publish topic payload paylen prio true = elim (read_bytes paylen payload) [
    | none ↦ none
    | some bytes ↦ some (binary prio paylen topic bytes)
  ]
  show_publish topic payload paylen prio false = some (text prio (paylen - 1) topic (c_str payload))

  -- `case PSMQ_CTRL_CMD_IOCTL`
  unfoldable pub show_timeout : Bytes → Option Shown
  show_timeout payload = elim (read_bytes 2 (drop 1 payload)) [
    | none ↦ none
    | some bytes ↦ some (timeout (bytes_ushort bytes))
  ]

  abbrev pub shows : Option Shown → Option (Result Shown)
  shows none = none
  shows (some s) = some (ok s)

  abbrev pub shows_publish : Bytes → Bytes → ℕ → ℕ → Option Bool → Option (Result Shown)
  shows_publish topic payload paylen prio none = none
  shows_publish topic payload paylen prio (some b) =
      shows (show_publish topic payload paylen prio b)

  -- on_receive: `ok` is 0; `err e` is -1, with errno e where the broker closed the connection.
  unfoldable pub on_receive : Msg → Bytes → Bytes → ℕ → ℕ → Option (Result Shown)
  on_receive msg topic payload paylen prio =
      if msg.ctrl_cmd == cmd_close
      then some (err msg.ctrl_data)
      else if msg.ctrl_cmd == cmd_ioctl
      then shows (show_timeout payload)
      else if msg.ctrl_cmd == cmd_publish
      then shows_publish topic payload paylen prio (is_payload_binary payload paylen)
      else some (err 0)
