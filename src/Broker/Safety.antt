-- ===== src/Broker/Safety.antt =====
-- No request makes the broker read or write out of bounds, but one: see Broker/Safety/Ioctl.
pub mod Requests
pub mod Open
pub mod Ioctl
pub mod Publish
pub mod Handle
use psmq.Prelude.{
  ℕ, ◌+◌, ◌≤◌, ◌<◌, ◌≡◌, refl, Bool, true, false, List, [], ◌∷◌, Option, none, some, get_elem?,
  ◌==◌, take, length, arith,
}
use psmq.CString.{Bytes, IsString}
use psmq.Message.{Msg, cmd_ioctl}
use psmq.Platform.{Mqd, Call, Platform, sends}
use psmq.Broker.State.{Client, Broker, M, ask}
use psmq.Broker.Reply.{reply_mq, reply, reply_ctrl}
use psmq.Broker.Reply.Buffer.{topic_msg}
use psmq.Broker.Reply.Sends.{send_of, reply_mq-payload, reply_mq-topic, reply_mq-bare, reply-sends}
use psmq.Broker.Valid.{IsBuild, IsTopic, IsClient, IsValid, Keeps, client_there, replied-IsValid}

module _ (p : Platform) (build : IsBuild p) (fd : ℕ) (b : Broker) (v : IsValid p b)
    (lt : fd < p.max_clients) where
  -- A reply that is one send keeps the broker valid.
  pub reply-Keeps :
      (cmd status : ℕ) (topic payload : Option Bytes) (paylen prio : ℕ) (call : Client → Call)
      → ((c : Client)
          → reply_mq p c.mq cmd status topic payload paylen prio c.reply_timeout b
            ≡ ask p.mq_timedsend (call c) b)
      → Keeps p (reply p fd cmd status topic payload paylen prio b)
  reply-Keeps cmd status topic payload paylen prio call e =
      let (c, there, h) = client_there p fd b v lt in
      rw (reply-sends p fd b there cmd status topic payload paylen prio (call c) (e c))
        (replied-IsValid p fd b c (call c) _ v lt h)

  pub reply_topic-Keeps :
      (cmd status : ℕ) (t : Bytes)
      → (cmd == cmd_ioctl) ≡ false
      → IsTopic p t
      → Keeps p (reply_ctrl p fd cmd status (some t) b)
  unfolding reply_ctrl
  reply_topic-Keeps cmd status t k h =
      reply-Keeps cmd status (some t) none 0 0
        (λ c. send_of p c.mq cmd status 0 c.reply_timeout b (topic_msg cmd status t []))
        (λ c. reply_mq-topic p c.mq cmd status 0 c.reply_timeout b t k h.0 (omega arith))

  pub reply_bare-Keeps :
      (cmd status : ℕ) → (cmd == cmd_ioctl) ≡ false → Keeps p (reply_ctrl p fd cmd status none b)
  unfolding reply_ctrl
  reply_bare-Keeps cmd status k =
      reply-Keeps cmd status none none 0 0
        (λ c. send_of p c.mq cmd status 0 c.reply_timeout b (topic_msg cmd status [] []))
        (λ c. reply_mq-bare p c.mq cmd status 0 c.reply_timeout b k (omega arith))
