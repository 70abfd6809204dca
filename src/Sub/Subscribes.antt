-- ===== src/Sub/Subscribes.antt =====
-- src/psmq-sub.c against src/broker.c: a subscription of psmq-sub, from the option to the answer.
use psmq.Prelude.{
  ℕ, ◌+◌, ◌≤◌, ◌<◌, ◌≡◌, refl, sym, ap, ◌∙◌, subst, Bool, true, false, List, [], ◌∷◌, some, ◌==◌,
  if◌then◌else◌, Bool-cases, inl, inr, length, get_elem?, get_or, arith,
}
use psmq.CString.{Bytes, IsString, strlen}
use psmq.Errno.{Result, ok, err, errno_byte, ebadmsg}
use psmq.Message.{Msg, topic, received, cmd_subscribe}
use psmq.Platform.{Platform, allocates}
use psmq.Topic.{slash, subscribe_refuses}
use psmq.TopicList.{node_size, tl_add}
use psmq.Broker.State.{Client, Broker}
use psmq.Broker.Reply.Buffer.{topic_msg}
use psmq.Broker.Valid.{IsTopic}
use psmq.Broker.Requests.{broker_subscribe}
use psmq.Broker.Effects.{answered, with_client, after_call}
use psmq.Broker.Effects.Requests.{changed, subscribed, broker_subscribe-subscribed}
use psmq.Api.State.{Os, Syscall, give, sends, receives}
use psmq.Api.Receive.{receive_into, receive_prio, overwrite}
use psmq.Api.Accepted.Sent.{IsReady}
use psmq.Api.Accepted.Received.{request_topic-Reads}
use psmq.Sub.Program.{Subscriber, goes_on, give_up, read_reply, subscribe_topic}

-- The status in the answer to a subscription, with the broker and the client as they are when it is
-- sent.
pub record Told : Type 0 where
  pub status : ℕ
  pub broker : Broker
  pub client : Client

abbrev pub told_added : Broker → ℕ → Client → Result (List Bytes) → Told
told_added b fd c (ok new) = record {
  status = 0;
  broker = with_client b fd (record c { topics = new });
  client = record c { topics = new };
}
told_added b fd c (err e) = record { status = e; broker = b; client = c }

abbrev pub told : Platform → Broker → ℕ → Client → Bytes → Told
told p b fd c t =
    let node = allocates (node_size + strlen t + 1) in
    if subscribe_refuses t 0
    then record { status = ebadmsg; broker = b; client = c }
    else told_added (after_call node b) fd c (tl_add (p.malloc b.calls node) c.topics t)

abbrev pub tells : Platform → ℕ → Bytes → Told → Bool × Broker
tells p fd t x = (x.status == 0, answered p fd x.broker x.client cmd_subscribe x.status t)

added-tells :
    (p : Platform) (b : Broker) (fd : ℕ) (c : Client) (t : Bytes) (memory : Bool) (ts : List Bytes)
    → changed p fd b c cmd_subscribe t (tl_add memory ts t)
      ≡ tells p fd t (told_added b fd c (tl_add memory ts t))
unfolding tl_add errno_byte
added-tells p b fd c t false ts = refl
added-tells p b fd c t true [] = refl
added-tells p b fd c t true (x ∷ ts) = refl

added-ebadmsg :
    (b : Broker) (fd : ℕ) (c : Client) (t : Bytes) (memory : Bool) (ts : List Bytes)
    → ((told_added b fd c (tl_add memory ts t)).status == ebadmsg) ≡ false
unfolding tl_add
added-ebadmsg b fd c t false ts = refl
added-ebadmsg b fd c t true [] = refl
added-ebadmsg b fd c t true (x ∷ ts) = refl

module _ (p : Platform) (b : Broker) (fd : ℕ) (c : Client) (t : Bytes) where
  subscribed-tells : subscribed p fd b c t 0 ≡ tells p fd t (told p b fd c t)
  subscribed-tells = elim (Bool-cases (subscribe_refuses t 0)) [
    | inl e ↦ rw e refl
    | inr e ↦ rw e (added-tells p _ fd c t _ c.topics)
  ]

  -- The answer is EBADMSG exactly where the topic is refused.
  told-ebadmsg : ((told p b fd c t).status == ebadmsg) ≡ subscribe_refuses t 0
  told-ebadmsg = elim (Bool-cases (subscribe_refuses t 0)) [
    | inl e ↦ rw e refl
    | inr e ↦ rw e (added-ebadmsg _ fd c t _ c.topics)
  ]

-- The broker's side: it takes the request that arrived, and answers it.
answers :
    (p : Platform) (b : Broker) {c : Client} (fd : ℕ) (t : Bytes)
    → get_elem? b.clients fd ≡ some c
    → IsTopic p t
    → (let m = received p.msg_max (topic_msg cmd_subscribe fd t []) in
        topic m ≡ t → broker_subscribe p m b ≡ some (tells p fd t (told p b fd c t)))
unfolding received
answers p b {c} fd t there h e =
    broker_subscribe-subscribed p b _ there (subst (IsTopic p) (sym e) h)
    ∙ rw e (ap some (subscribed-tells p b fd c t))

module _ (os : Os) (n : ℕ) (buffer : Msg) (isprint isspace : ℕ → Bool) (opens_log : Bytes → Bool)
    (p : Platform) (b : Broker) (c : Client) (s : Subscriber) (t : Bytes) where
  -- Where the program is connected to a slot that the broker knows, both were built with the same
  -- PSMQ_MSG_MAX, the topic begins with '/' and fits a message, the request is sent, and the next
  -- message to the program is the answer that the broker sends to it: the broker takes the request,
  -- and the program goes on exactly where the topic may be subscribed to, whether or not there was
  -- memory for it; else it gives up.
  pub subscribe_topic-told :
      (prio : ℕ) (calls : List Syscall)
      → os.msg_max ≡ p.msg_max
      → IsReady s.psmq
      → s.psmq.fd < p.max_clients
      → get_elem? b.clients s.psmq.fd ≡ some c
      → (get_or t 0 0 == slash) ≡ true
      → IsString t
      → length t + 1 ≤ os.msg_max
      → (let fd = s.psmq.fd in
          let request = topic_msg cmd_subscribe fd t [] in
          let asked = sends s.psmq.qpub request 0 ∷ calls in
          let reply = told p b fd c t in
          os.mq_send calls (sends s.psmq.qpub request 0) ≡ ok tt
          → os.mq_receive asked (receives s.psmq.qsub)
            ≡ ok (topic_msg cmd_subscribe reply.status t [], prio)
          → (broker_subscribe p (received p.msg_max request) b ≡ some (tells p fd t reply))
            × (subscribe_topic os n buffer isprint isspace opens_log s t calls
                ≡ (if subscribe_refuses t 0
                      then give_up os n buffer isprint isspace opens_log s
                      else give (goes_on s))
                    (receives s.psmq.qsub ∷ asked)))
  unfolding subscribe_topic receive_prio receive_into overwrite read_reply
  subscribe_topic-told prio calls same r slot there slashed h fits sent got =
      let reads = request_topic-Reads os p s.psmq t calls same r slot slashed h fits in
      (
        answers p b s.psmq.fd t there (h, omega (arith, same)) reads.1.topic_read,
        rw (reads.0, sent, r.qpub_open, r.differ, got, told-ebadmsg p b s.psmq.fd c t) refl,
      )
