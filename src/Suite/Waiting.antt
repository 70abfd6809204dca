-- ===== src/Suite/Waiting.antt =====
-- src/tst/psmqd.c: a message published without a payload, and the queues in which it waits then.
use psmq.Prelude.{
  ℕ, ◌+◌, ◌%◌, ◌^◌, ◌≤◌, ◌<◌, ◌≡◌, refl, ap, sym, true, List, [], ◌∷◌, ◌++◌, none, some,
  if◌then◌else◌, Bool-cases, inl, inr, ◌==◌, length, drop, drop-append, append_assoc, append-nil,
  get_or, leb, All, arith,
}
use psmq.CString.{Bytes, IsString, strlen}
use psmq.Errno.{ok}
use psmq.Message.{Msg, received, cmd_publish}
use psmq.Platform.{Call, Platform}
use psmq.Topic.{slash}
use psmq.Broker.State.{Client, Broker}
use psmq.Broker.Reply.Buffer.{topic_msg}
use psmq.Broker.Publish.Delivery.{wants, delivery, deliveries, delivered, state}
use psmq.Broker.Loop.{handle, dispatch}
use psmq.Broker.Valid.{IsBuild, IsValid}
use psmq.Broker.Safety.Handle.{IsMessage, accepts-IsTerminated, handle-Keeps}
use psmq.Broker.Safety.Ioctl.{Overflows}
use psmq.Broker.Effects.Publish.{broker_publish-delivers}
use psmq.Api.State.{Psmq, Os, Syscall, sends}
use psmq.Api.Send.{publish, publish_prio}
use psmq.Api.Accepted.Sent.{IsReady, publish_msg-ready, send_msg-topic}
use psmq.Api.Accepted.Received.{Reads, received-Reads}
use psmq.Sub.Delivered.{received-IsMessage}
use psmq.Suite.{World, is_queue, puts, sent_to, arrives, asks}

-- What the broker sends of it.
abbrev pub publication : Bytes → Msg
publication t = topic_msg cmd_publish 0 t []

-- What these clients are sent of it on a queue.
abbrev pub got : ℕ → Bytes → ℕ → List Client → List Msg
got n t q [] = []
got n t q (c ∷ cs) =
    (if wants n t c then (if is_queue c.mq q then publication t ∷ [] else []) else [])
    ++ got n t q cs

module _ (p : Platform) (t payload : Bytes) (prio q : ℕ)
    (sends_all : (calls : List Call) (call : Call) → p.mq_timedsend calls call ≡ true) where
  puts-delivery :
      (calls : List Call) (c : Client)
      → puts p q calls (delivery p t payload 0 prio calls c)
        ≡ (if is_queue c.mq q then publication t ∷ [] else [])
  puts-delivery calls c = elim (Bool-cases (is_queue c.mq q)) [
    | inl e ↦ rw (e, sends_all calls (delivery p t payload 0 prio calls c)) refl
    | inr e ↦ rw e refl
  ]

  sent_to-deliveries :
      (cs : List Client) (calls : List Call)
      → sent_to p q (deliveries p t payload 0 prio cs calls)
        ≡ sent_to p q calls ++ got p.msg_max t q cs
  sent_to-deliveries [] calls = sym (append-nil (sent_to p q calls))
  sent_to-deliveries (c ∷ cs) calls = elim (Bool-cases (wants p.msg_max t c)) [
    | inl e ↦
        rw
          (
            e,
            sent_to-deliveries cs (delivery p t payload 0 prio calls c ∷ calls),
            puts-delivery calls c,
          )
          (append_assoc (sent_to p q calls) _ (got p.msg_max t q cs))
    | inr e ↦ rw e (sent_to-deliveries cs calls)
  ]

-- A topic that a client publishes under.
pub record IsName (p : Platform) (t : Bytes) : Type 0 where
  pub slashed : (get_or t 0 0 == slash) ≡ true
  pub string : IsString t
  pub bytes : All (λ x. x < 256) t
  pub fits : length t + 1 ≤ p.msg_max

-- What the publication leaves, where `b` was there before.
pub record Published (p : Platform) (t : Bytes) (w w' : World) : Type 0 where
  pub valid : IsValid p w'.broker
  pub rest : Bytes
  pub clients : w'.broker.clients ≡ delivered p t rest 0 0 w.broker.clients
  pub waiting : (q : ℕ) → w'.waiting q ≡ w.waiting q ++ got p.msg_max t q w.broker.clients

module _ (os : Os) (p : Platform) (build : IsBuild p)
    (sends_all : (calls : List Call) (call : Call) → p.mq_timedsend calls call ≡ true) (t : Bytes)
    (name : IsName p t) (s : Psmq) (r : IsReady s) (slot : s.fd < p.max_clients) where
  abbrev arrived : Msg
  arrived = received p.msg_max (topic_msg cmd_publish s.fd t [])

  arrived-IsMessage : IsMessage p arrived
  arrived-IsMessage =
      received-IsMessage p cmd_publish s.fd t [] (omega arith) (omega (arith, build.clients_most))
        (omega (arith, name.fits)) (omega arith) name.bytes tt

  arrived-Reads : Reads p arrived t []
  arrived-Reads =
      received-Reads p cmd_publish s.fd t [] refl name.string (omega (arith, name.fits)) (inl slot)

  -- The broker once the publication is handled.
  abbrev after : Broker → Broker
  after b =
      let payload = drop (strlen arrived.msg_data + 1) arrived.msg_data in
      state (delivered p t payload 0 0 b.clients) b.qctrl
        (deliveries p t payload 0 0 b.clients b.calls)

  handle-after : (b : Broker) → IsValid p b → handle p arrived 0 b ≡ some (tt, after b)
  unfolding handle dispatch received
  handle-after b v =
      let a = arrived-Reads.passes in
      let run = broker_publish-delivers p b arrived 0 v arrived-IsMessage a sends_all in
      rw (a, run, arrived-Reads.topic_read) refl

  after-IsValid : (b : Broker) → IsValid p b → IsValid p (after b)
  unfolding received
  after-IsValid b v =
      let no_ioctl : ¬ Overflows arrived = λ o. absurd (omega (arith, o.0)) in
      let kept =
        handle-Keeps p build b arrived 0 v arrived-IsMessage
          (accepts-IsTerminated p arrived arrived-Reads.passes, no_ioctl) in
      rw (handle-after b v) at kept

  abbrev next : World → World
  next w = record w {
    broker = after w.broker;
    waiting = λ q.
        w.waiting q
        ++ drop (length (sent_to p q w.broker.calls)) (sent_to p q (after w.broker).calls);
  }

  next-Published : (w : World) → IsValid p w.broker → Published p t w (next w)
  next-Published w v = record {
    valid = after-IsValid w.broker v;
    rest = drop (strlen arrived.msg_data + 1) arrived.msg_data;
    clients = refl;
    waiting = λ q.
        let before = sent_to p q w.broker.calls in
        rw (sent_to-deliveries p t _ 0 q sends_all w.broker.clients w.broker.calls)
          (ap (◌++◌ (w.waiting q)) (drop-append (length before) before _ refl));
  }

  arrives-next :
      (w : World)
      → IsValid p w.broker
      → arrives os p (topic_msg cmd_publish s.fd t []) 0 w ≡ some (tt, next w)
  unfolding arrives
  arrives-next w v = rw (handle-after w.broker v) refl

  -- psmq_publish without a payload sends one message.
  publish-sends :
      (calls : List Syscall)
      → os.msg_max ≡ p.msg_max
      → os.msg_max < 2 ^ 64
      → (let c = sends s.qpub (topic_msg cmd_publish s.fd t []) 0 in
          publish os (some s) (some t) none 0 calls ≡ some (os.mq_send calls c, c ∷ calls))
  unfolding publish publish_prio
  publish-sends calls same wide =
      let fits = name.fits in
      let small : leb ((length t + 1 + 0) % 2 ^ 64) os.msg_max ≡ true = ground arith in
      rw (small, name.slashed, publish_msg-ready os s cmd_publish s.fd (some t) none 0 0 r)
        (send_msg-topic os s.qpub cmd_publish s.fd 0 calls t refl name.string
          (omega (arith, name.fits, same)))

  -- A client publishes it, where the broker is valid and every send succeeds.
  pub asks-Published :
      (w : World)
      → os.msg_max ≡ p.msg_max
      → os.msg_max < 2 ^ 64
      → ((calls : List Syscall) (call : Syscall) → os.mq_send calls call ≡ ok tt)
      → IsValid p w.broker
      → (w' : World) × (asks os p (publish os (some s) (some t) none 0) w ≡ some (true, w'))
        × Published p t w w'
  unfolding asks
  asks-Published w same wide sent v =
      let c = sends s.qpub (topic_msg cmd_publish s.fd t []) 0 in
      let w1 = record w { calls = c ∷ w.calls } in
      let done = next-Published w1 v in
      (
        next w1,
        rw (publish-sends w.calls same wide, sent w.calls c, arrives-next w1 v) refl,
        record {
          valid = done.valid;
          rest = done.rest;
          clients = done.clients;
          waiting = done.waiting;
        },
      )
