-- ===== src/Broker/Safety/Publish.antt =====
-- The request to publish.
use psmq.Prelude.{
  ℕ, zero, suc, ◌+◌, ◌^◌, ◌≤◌, ◌<◌, ◌≡◌, refl, Bool, true, false, List, [], ◌∷◌, some, leb,
  if◌then◌else◌, Bool-cases, Option-cases, inl, inr, length, All, take, drop, length-drop, arith,
}
use psmq.CString.{Bytes, strlen, c_str-IsString}
use psmq.Message.{Msg, cmd_publish}
use psmq.Message
use psmq.Platform.{Mqd, Platform, discards}
use psmq.Topic.Matching.{topic_matches_total}
use psmq.Broker.State.{Broker, M, issue}
use psmq.Broker.Reply.{reply}
use psmq.Broker.Reply.Buffer.{topic_msg}
use psmq.Broker.Reply.Sends.{send_of, reply_mq-payload}
use psmq.Broker.Requests.{max_missed_pubs, broker_close}
use psmq.Broker.Publish.{
  drop_client, after_failure, send_to, publish_topics, publish_client, publish_clients,
  broker_publish,
}
use psmq.Broker.Valid.{IsBuild, IsTopic, IsValid, Keeps, Keeps-bind, load_client-Keeps}
use psmq.Broker.Safety.{reply-Keeps}
use psmq.Broker.Safety.Requests.{issue-Keeps, broker_close-Keeps}

module _ (p : Platform) (build : IsBuild p) (fd : ℕ) (lt : fd < p.max_clients) where
  drop_client-Keeps : (mq : Mqd) (b : Broker) → IsValid p b → Keeps p (drop_client p fd mq b)
  unfolding drop_client
  drop_client-Keeps mq b v =
      Keeps-bind p (issue (discards mq) b) _ (issue-Keeps p (discards mq) b v) λ _ b1 v1.
        Keeps-bind p (broker_close p fd b1) _ (broker_close-Keeps p build fd lt b1 v1)
          (λ _ b2 v2. v2)

  after_failure-Keeps :
      (continue : M (Unit {0})) (b : Broker)
      → ((b' : Broker) → IsValid p b' → Keeps p (continue b'))
      → IsValid p b
      → Keeps p (after_failure p fd continue b)
  unfolding after_failure
  after_failure-Keeps continue b k v = load_client-Keeps p fd b v lt _ λ c there h.
      elim (Bool-cases (leb max_missed_pubs c.missed_pubs)) [
        | inl e ↦ rw e (drop_client-Keeps c.mq b v)
        | inr e ↦ rw e (k b v)
      ]

  module _ (topic payload : Bytes) (paylen prio : ℕ) (h : IsTopic p topic)
      (fits : length topic + 1 + paylen ≤ p.msg_max) (len : paylen ≤ length payload)
      (short : paylen < 2 ^ 16) where
    send_to-Keeps :
        (continue : M (Unit {0})) (b : Broker)
        → ((b' : Broker) → IsValid p b' → Keeps p (continue b'))
        → IsValid p b
        → Keeps p (send_to p fd topic payload paylen prio continue b)
    unfolding send_to
    send_to-Keeps continue b k v =
        Keeps-bind p (reply p fd cmd_publish 0 (some topic) (some payload) paylen prio b) _
          (reply-Keeps p build fd b v lt cmd_publish 0 (some topic) (some payload) paylen prio
            (λ c.
              send_of p c.mq cmd_publish 0 prio c.reply_timeout b
                (topic_msg cmd_publish 0 topic (take paylen payload)))
            (λ c.
              reply_mq-payload p c.mq cmd_publish 0 prio c.reply_timeout b topic payload paylen refl
                h.0 fits len short))
          after
      where
        after :
            (sent : Bool) (b1 : Broker)
            → IsValid p b1
            → Keeps p ((if sent then (λ s. some (tt, s)) else after_failure p fd continue) b1)
        after true b1 v1 = v1
        after false b1 v1 = after_failure-Keeps continue b1 k v1

    -- Whether the topic matched or not.
    chosen-Keeps :
        (m : Bool) (continue : M (Unit {0})) (b : Broker)
        → ((b' : Broker) → IsValid p b' → Keeps p (continue b'))
        → IsValid p b
        → Keeps p ((if m then send_to p fd topic payload paylen prio continue else continue) b)
    chosen-Keeps true continue b k v = send_to-Keeps continue b k v
    chosen-Keeps false continue b k v = k b v

    publish_topics-Keeps :
        (nodes : List Bytes) (b : Broker)
        → All (IsTopic p) nodes
        → IsValid p b
        → Keeps p (publish_topics p fd topic payload paylen prio nodes b)
    unfolding publish_topics
    publish_topics-Keeps [] b hs v = v
    publish_topics-Keeps (node ∷ nodes) b hs v =
        let (m, e) = topic_matches_total p.msg_max topic node h.1 hs.0.1 in
        rw e (chosen-Keeps m _ b (λ b' v'. publish_topics-Keeps nodes b' hs.1 v') v)

    publish_client-Keeps :
        (b : Broker) → IsValid p b → Keeps p (publish_client p fd topic payload paylen prio b)
    unfolding publish_client
    publish_client-Keeps b v = load_client-Keeps p fd b v lt _ λ c there hc.
        elim (Option-cases c.mq) [
          | inl e ↦ rw e v
          | inr (q, e) ↦ rw e (publish_topics-Keeps c.topics b hc.topics_fit v)
        ]

module _ (p : Platform) (build : IsBuild p) (topic payload : Bytes) (paylen prio : ℕ)
    (h : IsTopic p topic) (fits : length topic + 1 + paylen ≤ p.msg_max)
    (len : paylen ≤ length payload) (short : paylen < 2 ^ 16) where
  publish_clients-Keeps :
      (n fd : ℕ) (b : Broker)
      → fd + n ≤ p.max_clients
      → IsValid p b
      → Keeps p (publish_clients p n fd topic payload paylen prio b)
  unfolding publish_clients
  publish_clients-Keeps zero fd b lt v = v
  publish_clients-Keeps (suc n) fd b lt v =
      Keeps-bind p (publish_client p fd topic payload paylen prio b) _
        (publish_client-Keeps p build fd (omega arith) topic payload paylen prio h fits len short b
          v)
        (λ _ b1 v1. publish_clients-Keeps n (fd + 1) b1 (omega arith) v1)

pub broker_publish-Keeps :
    (p : Platform) (build : IsBuild p) (b : Broker) (v : IsValid p b) (msg : Msg) (prio : ℕ)
    → length msg.msg_data ≡ p.msg_max
    → strlen msg.msg_data + 1 + msg.paylen ≤ p.msg_max
    → msg.paylen < 2 ^ 16
    → Keeps p (broker_publish p msg prio b)
unfolding broker_publish strlen
broker_publish-Keeps p build b v msg prio size fits short =
    let t = Message.topic msg in
    Keeps-bind p
      (publish_clients p p.max_clients 0 t (drop (length t + 1) msg.msg_data) msg.paylen prio b) _
      (publish_clients-Keeps p build t (drop (length t + 1) msg.msg_data) msg.paylen prio
        (c_str-IsString msg.msg_data, omega arith) fits
        (omega (arith, length-drop (length t + 1) msg.msg_data)) short p.max_clients 0 b
        (omega arith) v)
      (λ _ b1 v1. v1)
