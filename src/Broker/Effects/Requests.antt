-- ===== src/Broker/Effects/Requests.antt =====
-- src/broker.c: what psmqd_broker_subscribe, psmqd_broker_unsubscribe and psmqd_broker_close do.
use psmq.Prelude.{
  ℕ, ◌+◌, ◌≤◌, ◌≡◌, refl, Bool, true, false, List, [], ◌∷◌, none, some, if◌then◌else◌, Bool-cases,
  inl, inr, get_elem?, get_elem?-set_self, set, set-set, lt_of_get_elem?, ◌==◌, arith,
}
use psmq.CString.{Bytes, strlen}
use psmq.Errno.{Result, ok, err, errno_byte, ebadmsg}
use psmq.Message.{Msg, topic, cmd_ioctl, cmd_subscribe, cmd_unsubscribe, cmd_close}
use psmq.Platform.{Platform, allocates, closes}
use psmq.Topic.{subscribe_refuses}
use psmq.TopicList.{node_size, tl_add, tl_delete}
use psmq.Broker.State.{Client, Broker, ask, issue}
use psmq.Broker.Reply.{reply_ctrl}
use psmq.Broker.Reply.Sends.{
  reply-sends, reply_mq-topic, reply_mq-bare, replied, heard, load_client-there, store_client-there,
}
use psmq.Broker.Requests.{
  refuse, put_topics, answer_change, add_topic, broker_subscribe, broker_unsubscribe, broker_close,
}
use psmq.Broker.Valid.{IsTopic}
use psmq.Broker.Effects.{answer, answered, with_client, after_call}

-- What a change of the client's topics, or the failure to change them, leads to: the client gets
-- the new topics if there are any, and is told so.
abbrev pub changed :
    Platform → ℕ → Broker → Client → ℕ → Bytes → Result (List Bytes) → Bool × Broker
changed p fd b c cmd t (ok new) =
    let c' : Client = record c { topics = new } in
    (true, answered p fd (with_client b fd c') c' cmd 0 t)
changed p fd b c cmd t (err e) = (false, answered p fd b c cmd (errno_byte e) t)

pub there_set :
    (b : Broker) (fd : ℕ) {c : Client} (c' : Client)
    → get_elem? b.clients fd ≡ some c
    → get_elem? (set b.clients fd c') fd ≡ some c'
there_set b fd c' e = get_elem?-set_self b.clients fd c' (lt_of_get_elem? b.clients fd e)

module _ (p : Platform) (fd : ℕ) (b : Broker) {c : Client} (there : get_elem? b.clients fd ≡ some c)
    (cmd : ℕ) (no_ioctl : (cmd == cmd_ioctl) ≡ false) (t : Bytes) (h : IsTopic p t) where
  reply_ctrl-answers :
      (status : ℕ)
      → reply_ctrl p fd cmd status (some t) b
        ≡ some
            (p.mq_timedsend b.calls (answer p fd b c cmd status t), answered p fd b c cmd status t)
  unfolding reply_ctrl
  reply_ctrl-answers status =
      reply-sends p fd b there cmd status (some t) none 0 0 _
        (reply_mq-topic p c.mq cmd status 0 c.reply_timeout b t no_ioctl h.0 (omega arith))

  refuse-answers :
      (status : ℕ) → refuse p fd cmd status t b ≡ some (false, answered p fd b c cmd status t)
  unfolding refuse
  refuse-answers status = rw (reply_ctrl-answers status)

module _ (p : Platform) (fd : ℕ) (b : Broker) {c : Client} (there : get_elem? b.clients fd ≡ some c)
    (cmd : ℕ) (no_ioctl : (cmd == cmd_ioctl) ≡ false) (t : Bytes) (h : IsTopic p t) where
  put_topics-answers :
      (new : List Bytes) → put_topics p fd cmd t new b ≡ some (changed p fd b c cmd t (ok new))
  unfolding put_topics
  put_topics-answers new =
      let c' : Client = record c { topics = new } in
      rw (
        load_client-there fd b there,
        store_client-there fd b there c',
        reply_ctrl-answers p fd (with_client b fd c') (there_set b fd c' there) cmd no_ioctl t h 0,
      )

  answer_change-answers :
      (o : Result (List Bytes)) → answer_change p fd cmd t o b ≡ some (changed p fd b c cmd t o)
  unfolding answer_change
  answer_change-answers (ok new) = put_topics-answers new
  answer_change-answers (err e) = refuse-answers p fd b there cmd no_ioctl t h (errno_byte e)

-- What a subscription leads to: EBADMSG where the topic is refused, else the topic is added to the
-- client's, for which memory is allocated first.
abbrev pub subscribed : Platform → ℕ → Broker → Client → Bytes → ℕ → Bool × Broker
subscribed p fd b c t paylen =
    let node = allocates (node_size + strlen t + 1) in
    if subscribe_refuses t paylen
    then (false, answered p fd b c cmd_subscribe ebadmsg t)
    else changed p fd (after_call node b) c cmd_subscribe t
        (tl_add (p.malloc b.calls node) c.topics t)

module _ (p : Platform) (b : Broker) (msg : Msg) {c : Client}
    (there : get_elem? b.clients msg.ctrl_data ≡ some c) (h : IsTopic p (topic msg)) where
  -- A request to subscribe, from a client in a slot and with a topic that fits a message, runs
  -- without a fault; it is refused with EBADMSG where the topic cannot be subscribed to, and with
  -- ENOMEM where there is no memory, the topics then being as before; otherwise the topic is added.
  -- The client is told which, and no other slot changes.
  pub broker_subscribe-subscribed :
      broker_subscribe p msg b ≡ some (subscribed p msg.ctrl_data b c (topic msg) msg.paylen)
  unfolding broker_subscribe add_topic ask
  broker_subscribe-subscribed = elim (Bool-cases (subscribe_refuses (topic msg) msg.paylen)) [
    | inl e ↦ rw e (refuse-answers p msg.ctrl_data b there cmd_subscribe refl (topic msg) h ebadmsg)
    | inr e ↦
        rw (e, load_client-there msg.ctrl_data b there)
          (answer_change-answers p msg.ctrl_data
            (after_call (allocates (node_size + strlen (topic msg) + 1)) b) there cmd_subscribe refl
            (topic msg) h _)
  ]

  -- A request to unsubscribe, from a client in a slot and with a topic that fits a message, runs
  -- without a fault; the first such topic is taken out of the client's, or, where there is none, it
  -- is refused with ENOENT. The client is told which, and no other slot changes.
  pub broker_unsubscribe-changed :
      broker_unsubscribe p msg b
      ≡ some
          (changed p msg.ctrl_data b c cmd_unsubscribe (topic msg) (tl_delete c.topics (topic msg)))
  unfolding broker_unsubscribe
  broker_unsubscribe-changed =
      rw (load_client-there msg.ctrl_data b there)
        (answer_change-answers p msg.ctrl_data b there cmd_unsubscribe refl (topic msg) h _)

-- The client told that its connection is closed, which counts one missed message at most.
abbrev pub told_closed : Client → Bool → Client
told_closed c sent = record c { mq = none; topics = []; missed_pubs = if sent then 0 else 1 }

-- For any slot, and where a message holds a byte at least: closing a connection frees its slot and its
-- topics, and closes its queue after one reply to it,
-- whether or not that reply could be sent; no other slot changes, and the timeout stays in the slot.
pub broker_close-frees :
    (p : Platform) (fd : ℕ) (b : Broker) (c : Client)
    → get_elem? b.clients fd ≡ some c
    → 1 ≤ p.msg_max
    → (let call = answer p fd b c cmd_close 0 [] in
        broker_close p fd b
        ≡ some (
          true,
          record b {
            clients = set b.clients fd (told_closed c (p.mq_timedsend b.calls call));
            calls = closes c.mq ∷ call ∷ b.calls;
          },
        ))
unfolding broker_close issue reply_ctrl
broker_close-frees p fd b c there fits =
    let c0 : Client = record c { missed_pubs = 0 } in
    let b0 = with_client b fd c0 in
    let there0 = there_set b fd c0 there in
    let call = answer p fd b c cmd_close 0 [] in
    let c1 = heard c0 (p.mq_timedsend b.calls call) in
    let b1 = replied b0 fd c0 call (p.mq_timedsend b.calls call) in
    let there1 = there_set b0 fd c1 there0 in
    rw (
      load_client-there fd b there,
      store_client-there fd b there c0,
      reply-sends p fd b0 there0 cmd_close 0 none none 0 0 call
          (reply_mq-bare p c.mq cmd_close 0 0 c.reply_timeout b0 refl fits),
      load_client-there fd b1 there1,
      store_client-there fd (after_call (closes c.mq) b1) there1
          (record c1 { mq = none; topics = [] }),
      set-set (set b.clients fd c0) fd c1 (record c1 { mq = none; topics = [] }),
      set-set b.clients fd c0 (record c1 { mq = none; topics = [] }),
    )
