-- ===== src/Broker/Publish.antt =====
-- src/broker.c: psmqd_broker_publish.
pub mod Delivery
use psmq.Prelude.{
  ℕ, zero, suc, ◌+◌, Bool, true, List, [], ◌∷◌, none, some, leb, if◌then◌else◌, drop,
}
use psmq.CString.{Bytes, strlen}
use psmq.Message.{Msg, cmd_publish}
use psmq.Message
use psmq.Platform.{Mqd, Platform, discards}
use psmq.Topic.{topic_matches}
use psmq.Broker.State.{M, pure, lift, ◌>>=◌, ◌>>◌, load_client, issue}
use psmq.Broker.Reply.{reply}
use psmq.Broker.Requests.{max_missed_pubs, broker_close}

module _ (p : Platform) where
  -- The oldest message is taken off the client's queue to make room, and the client is closed.
  unfoldable pub drop_client : ℕ → Mqd → M (Unit {0})
  drop_client fd mq = do issue (discards mq); broker_close p fd; pure tt

  -- What follows a send that failed: the client is closed after too many of them, and the inner
  -- loop left; otherwise the loop goes on.
  unfoldable pub after_failure : ℕ → M (Unit {0}) → M (Unit {0})
  after_failure fd continue = do
    c ← load_client fd
    if leb max_missed_pubs c.missed_pubs then drop_client fd c.mq else continue

  -- The body of the inner loop where the topic matches.
  unfoldable pub send_to : ℕ → Bytes → Bytes → ℕ → ℕ → M (Unit {0}) → M (Unit {0})
  send_to fd topic payload paylen prio continue = do
    sent ← reply p fd cmd_publish 0 (some topic) (some payload) paylen prio
    if sent then pure tt else after_failure fd continue

  -- The inner loop, over the topics of the client in slot `fd`. It is left behind the first topic
  -- that the message could be sent for.
  unfoldable pub publish_topics : ℕ → Bytes → Bytes → ℕ → ℕ → List Bytes → M (Unit {0})
  publish_topics fd topic payload paylen prio [] = pure tt
  publish_topics fd topic payload paylen prio (node ∷ nodes) =
      let continue = publish_topics fd topic payload paylen prio nodes in
      do
        matches ← lift (topic_matches p.msg_max topic node)
        if matches then send_to fd topic payload paylen prio continue else continue

  -- One round of the outer loop.
  unfoldable pub publish_client : ℕ → Bytes → Bytes → ℕ → ℕ → M (Unit {0})
  publish_client fd topic payload paylen prio = do
    c ← load_client fd
    elim c.mq [ none ↦ pure tt | some q ↦ publish_topics fd topic payload paylen prio c.topics ]

  -- The outer loop, over `n` slots from slot `fd` on.
  unfoldable pub publish_clients : ℕ → ℕ → Bytes → Bytes → ℕ → ℕ → M (Unit {0})
  publish_clients zero fd topic payload paylen prio = pure tt
  publish_clients (suc n) fd topic payload paylen prio = do
    publish_client fd topic payload paylen prio
    publish_clients n (fd + 1) topic payload paylen prio

  -- psmqd_broker_publish
  unfoldable pub broker_publish : Msg → ℕ → M Bool
  broker_publish msg prio = do
    let payload = drop (strlen msg.msg_data + 1) msg.msg_data
    publish_clients p.max_clients 0 (Message.topic msg) payload msg.paylen prio
    pure true
