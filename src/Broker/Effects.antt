-- ===== src/Broker/Effects.antt =====
-- What the requests of src/broker.c do to a broker that is valid, as functions of its state.
pub mod Publish
pub mod Requests
pub mod Open
pub mod Ioctl
pub mod Stuck
use psmq.Prelude.{ℕ, ◌∷◌, [], Bool, set}
use psmq.CString.{Bytes}
use psmq.Platform.{Call, Platform}
use psmq.Broker.State.{Client, Broker}
use psmq.Broker.Reply.Buffer.{topic_msg}
use psmq.Broker.Reply.Sends.{send_of, replied}

module _ (p : Platform) (fd : ℕ) (b : Broker) (c : Client) (cmd status : ℕ) (t : Bytes) where
  -- The send of an answer that carries a topic and nothing else.
  abbrev pub answer : Call
  answer = send_of p c.mq cmd status 0 c.reply_timeout b (topic_msg cmd status t [])

  -- The broker once the client in slot `fd` was answered.
  abbrev pub answered : Broker
  answered = replied b fd c answer (p.mq_timedsend b.calls answer)

-- The client in a slot, and the calls, replaced.
abbrev pub with_client : Broker → ℕ → Client → Broker
with_client b fd c = record b { clients = set b.clients fd c }

abbrev pub after_call : Call → Broker → Broker
after_call call b = record b { calls = call ∷ b.calls }
