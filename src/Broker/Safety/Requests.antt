-- ===== src/Broker/Safety/Requests.antt =====
-- The requests to subscribe, to unsubscribe, to open and to close.
use psmq.Prelude.{
  ℕ, ◌<◌, ◌≡◌, refl, false, List, [], none, some, ◌==◌, Bool-cases, inl, inr, All, arith,
}
use psmq.CString.{Bytes}
use psmq.Errno.{Result, ok, err, errno_byte, ebadmsg}
use psmq.Message.{Msg, topic, cmd_ioctl, cmd_subscribe, cmd_unsubscribe, cmd_close}
use psmq.Platform.{Call, Platform, closes}
use psmq.Topic.{subscribe_refuses}
use psmq.TopicList.{tl_add, tl_delete}
use psmq.TopicList.Elements.{AllOk, tl_add-All, tl_delete-All}
use psmq.Broker.State.{Broker, ask, issue, store_client}
use psmq.Broker.Reply.{reply_ctrl}
use psmq.Broker.Requests.{
  refuse, put_topics, answer_change, add_topic, broker_subscribe, broker_unsubscribe, broker_close,
}
use psmq.Broker.Valid.{
  IsBuild, IsTopic, IsValid, Keeps, Keeps-bind, load_client-Keeps, store_client-Keeps,
}
use psmq.Broker.Safety.{reply_topic-Keeps, reply_bare-Keeps}

pub issue-Keeps : (p : Platform) (call : Call) (b : Broker) → IsValid p b → Keeps p (issue call b)
unfolding issue
issue-Keeps p call b v = record { slots = v.slots; each = v.each }

module _ (p : Platform) (build : IsBuild p) (fd : ℕ) (lt : fd < p.max_clients) where
  refuse-Keeps :
      (b : Broker) (cmd status : ℕ) (t : Bytes)
      → (cmd == cmd_ioctl) ≡ false
      → IsTopic p t
      → IsValid p b
      → Keeps p (refuse p fd cmd status t b)
  unfolding refuse
  refuse-Keeps b cmd status t k h v =
      Keeps-bind p (reply_ctrl p fd cmd status (some t) b) _
        (reply_topic-Keeps p build fd b v lt cmd status t k h) (λ a b' v'. v')

  put_topics-Keeps :
      (b : Broker) (cmd : ℕ) (t : Bytes) (new : List Bytes)
      → (cmd == cmd_ioctl) ≡ false
      → IsTopic p t
      → All (IsTopic p) new
      → IsValid p b
      → Keeps p (put_topics p fd cmd t new b)
  unfolding put_topics
  put_topics-Keeps b cmd t new k h hs v = load_client-Keeps p fd b v lt _ λ c there hc.
      Keeps-bind p (store_client fd (record c { topics = new }) b) _
        (store_client-Keeps p fd b v lt (record c { topics = new })
          (record {
            topics_fit = hs;
            missed_byte = hc.missed_byte;
            timeout_short = hc.timeout_short;
          }))
        λ a b' v'.
          Keeps-bind p (reply_ctrl p fd cmd 0 (some t) b') _
            (reply_topic-Keeps p build fd b' v' lt cmd 0 t k h) (λ a' b'' v''. v'')

  answer_change-Keeps :
      (b : Broker) (cmd : ℕ) (t : Bytes) (o : Result (List Bytes))
      → (cmd == cmd_ioctl) ≡ false
      → IsTopic p t
      → AllOk (IsTopic p) o
      → IsValid p b
      → Keeps p (answer_change p fd cmd t o b)
  unfolding answer_change
  answer_change-Keeps b cmd t (ok new) k h hs v = put_topics-Keeps b cmd t new k h hs v
  answer_change-Keeps b cmd t (err e) k h hs v = refuse-Keeps b cmd (errno_byte e) t k h v

  add_topic-Keeps :
      (b : Broker) (t : Bytes) → IsTopic p t → IsValid p b → Keeps p (add_topic p fd t b)
  unfolding add_topic ask
  add_topic-Keeps b t h v = load_client-Keeps p fd b v lt _ λ c there hc.
      answer_change-Keeps _ cmd_subscribe t (tl_add _ c.topics t) refl h
        (tl_add-All (IsTopic p) _ c.topics t hc.topics_fit h)
        (record { slots = v.slots; each = v.each })

  pub broker_close-Keeps : (b : Broker) → IsValid p b → Keeps p (broker_close p fd b)
  unfolding broker_close
  broker_close-Keeps b v = load_client-Keeps p fd b v lt _ λ c there hc.
      Keeps-bind p (store_client fd (record c { missed_pubs = 0 }) b) _
        (store_client-Keeps p fd b v lt (record c { missed_pubs = 0 })
          (record {
            topics_fit = hc.topics_fit;
            missed_byte = omega arith;
            timeout_short = hc.timeout_short;
          }))
        λ _ b1 v1.
          Keeps-bind p (reply_ctrl p fd cmd_close 0 none b1) _
            (reply_bare-Keeps p build fd b1 v1 lt cmd_close 0 refl)
            λ _ b2 v2. load_client-Keeps p fd b2 v2 lt _ λ c2 there2 h2.
              Keeps-bind p (issue (closes c2.mq) b2) _ (issue-Keeps p (closes c2.mq) b2 v2)
                λ _ b3 v3.
                  Keeps-bind p (store_client fd (record c2 { mq = none; topics = [] }) b3) _
                    (store_client-Keeps p fd b3 v3 lt (record c2 { mq = none; topics = [] })
                      (record {
                        topics_fit = tt;
                        missed_byte = h2.missed_byte;
                        timeout_short = h2.timeout_short;
                      }))
                    (λ _ b4 v4. v4)

module _ (p : Platform) (build : IsBuild p) (b : Broker) (v : IsValid p b) (msg : Msg)
    (lt : msg.ctrl_data < p.max_clients) (h : IsTopic p (topic msg)) where
  pub broker_subscribe-Keeps : Keeps p (broker_subscribe p msg b)
  unfolding broker_subscribe
  broker_subscribe-Keeps = elim (Bool-cases (subscribe_refuses (topic msg) msg.paylen)) [
    | inl e ↦
        rw e (refuse-Keeps p build msg.ctrl_data lt b cmd_subscribe ebadmsg (topic msg) refl h v)
    | inr e ↦ rw e (add_topic-Keeps p build msg.ctrl_data lt b (topic msg) h v)
  ]

  pub broker_unsubscribe-Keeps : Keeps p (broker_unsubscribe p msg b)
  unfolding broker_unsubscribe
  broker_unsubscribe-Keeps = load_client-Keeps p msg.ctrl_data b v lt _ λ c there hc.
      answer_change-Keeps p build msg.ctrl_data lt b cmd_unsubscribe (topic msg)
        (tl_delete c.topics (topic msg)) refl h
        (tl_delete-All (IsTopic p) c.topics (topic msg) hc.topics_fit) v
