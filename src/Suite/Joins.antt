-- ===== src/Suite/Joins.antt =====
-- src/tst/psmqd.c: what a request to open and a request to subscribe leave in the queues.
use psmq.Prelude.{
  ℕ, ◌+◌, ◌≤◌, ◌<◌, ◌≡◌, refl, true, false, List, [], ◌∷◌, ◌++◌, some, if◌then◌else◌, Bool-cases,
  inl, inr, ◌==◌, ==_iff, length, drop, drop-append, append-nil, get_elem?, lt_of_get_elem?, set,
  set-set, All, arith,
}
use psmq.CString.{Bytes, IsString, strlen}
use psmq.Message.{Msg, topic, received, cmd_ioctl, cmd_open, cmd_subscribe}
use psmq.Platform.{Call, Platform, opens, allocates}
use psmq.Time.{Timespec}
use psmq.Topic.{subscribe_refuses}
use psmq.TopicList.{node_size, tl_add}
use psmq.Broker.State.{Client, Broker}
use psmq.Broker.Reply.{is_free}
use psmq.Broker.Reply.Buffer.{topic_msg}
use psmq.Broker.Reply.Sends.{heard}
use psmq.Broker.Reply.Replies.{fd_msg}
use psmq.Broker.Loop.{handle, dispatch}
use psmq.Broker.Valid.{IsBuild, IsTopic, IsValid}
use psmq.Broker.Safety.Handle.{IsMessage, IsSafe, accepts-IsTerminated, handle-Keeps}
use psmq.Broker.Safety.Ioctl.{Overflows}
use psmq.Broker.Effects.{answer, answered, after_call, with_client}
use psmq.Broker.Effects.Open.{welcome, broker_open-let_in}
use psmq.Broker.Effects.Requests.{broker_subscribe-subscribed}
use psmq.Api.State.{Os}
use psmq.Api.Accepted.Received.{received-Reads}
use psmq.Sub.Delivered.{received-IsMessage}
use psmq.Suite.{World, puts, sent_to, arrives}

-- The client in slot `i` is replaced, and this message waits in its queue alone.
pub record Joined (p : Platform) (w w' : World) (i : ℕ) (c : Client) (mq : ℕ) (msg : Msg)
    : Type 0 where
  pub valid : IsValid p w'.broker
  pub clients : w'.broker.clients ≡ set w.broker.clients i c
  pub waiting : (q : ℕ) → w'.waiting q ≡ (if mq == q then msg ∷ [] else [])

module _ (os : Os) (p : Platform) (build : IsBuild p)
    (sends_all : (calls : List Call) (call : Call) → p.mq_timedsend calls call ≡ true) where
  -- A message that is handled, and after which the queue of a client has one more.
  pub arrives-Joined :
      (w : World) (b : Broker) (sent msg : Msg) (i mq : ℕ) (c : Client)
      → IsValid p w.broker
      → IsMessage p (received p.msg_max sent)
      → IsSafe (received p.msg_max sent)
      → ((q : ℕ) → w.waiting q ≡ [])
      → handle p (received p.msg_max sent) 0 w.broker ≡ some (tt, b)
      → b.clients ≡ set w.broker.clients i c
      → ((q : ℕ)
          → sent_to p q b.calls ≡ sent_to p q w.broker.calls ++ (if mq == q then msg ∷ [] else []))
      → (w' : World) × (arrives os p sent 0 w ≡ some (tt, w')) × Joined p w w' i c mq msg
  unfolding arrives
  arrives-Joined w b sent msg i mq c v m safe empty run same news = (
    record w {
      broker = b;
      waiting =
          λ q. w.waiting q ++ drop (length (sent_to p q w.broker.calls)) (sent_to p q b.calls);
    },
    rw run refl,
    record {
      valid = rw run at (handle-Keeps p build w.broker (received p.msg_max sent) 0 v m safe);
      clients = same;
      waiting = λ q.
          let before = sent_to p q w.broker.calls in
          rw (empty q, news q) (drop-append (length before) before _ refl);
    },
  )

  pub no_ioctl :
      (cmd fd : ℕ) (t : Bytes)
      → (cmd == cmd_ioctl) ≡ false
      → ¬ Overflows (received p.msg_max (topic_msg cmd fd t []))
  unfolding received
  no_ioctl cmd fd t e o = absurd (cc (e, (==_iff cmd cmd_ioctl).1 o.0))

  pub puts-sends :
      (calls : List Call) (q mq : ℕ) (msg : Msg) (prio : ℕ) (tp : Timespec)
      → puts p q calls (Call.sends (some mq) msg prio tp) ≡ (if mq == q then msg ∷ [] else [])
  puts-sends calls q mq msg prio tp = elim (Bool-cases (mq == q)) [
    | inl e ↦ rw (e, sends_all calls (Call.sends (some mq) msg prio tp)) refl
    | inr e ↦ rw e refl
  ]

  module _ (name : Bytes) (h : IsString name) (bytes : All (λ x. x < 256) name)
      (fits : length name + 1 ≤ p.msg_max) where
    module _ (w : World) (i mq : ℕ) (c : Client) (v : IsValid p w.broker)
        (opened : p.mq_open w.broker.calls (opens name) ≡ some mq)
        (there : get_elem? w.broker.clients i ≡ some c) (free : is_free c ≡ true)
        (before : (j : ℕ) (d : Client)
          → j < i
          → get_elem? w.broker.clients j ≡ some d
          → is_free d ≡ false) where
      abbrev let_in_broker : Broker
      let_in_broker =
          let b = after_call (opens name) w.broker in
          after_call (welcome p mq i b) (with_client b i (record c { mq = some mq }))

      handle-open :
          handle p (received p.msg_max (topic_msg cmd_open 0 name [])) 0 w.broker
          ≡ some (tt, let_in_broker)
      unfolding handle dispatch received
      handle-open =
          let r = received-Reads p cmd_open 0 name [] refl h (omega arith) (inr refl) in
          let msg = received p.msg_max (topic_msg cmd_open 0 name []) in
          let e : p.mq_open w.broker.calls (opens (topic msg)) ≡ some mq = rw r.topic_read opened in
          rw
            (
              r.passes,
              broker_open-let_in p w.broker msg mq i c build v e there free before,
              r.topic_read,
              sends_all (opens name ∷ w.broker.calls)
                  (welcome p mq i (after_call (opens name) w.broker)),
            )
            refl

      -- A request to open, where a slot is free.
      pub open-Joined :
          ((q : ℕ) → w.waiting q ≡ [])
          → (w' : World) × (arrives os p (topic_msg cmd_open 0 name []) 0 w ≡ some (tt, w'))
            × Joined p w w' i (record c { mq = some mq }) mq (fd_msg cmd_open 0 i)
      open-Joined empty =
          arrives-Joined w let_in_broker (topic_msg cmd_open 0 name []) (fd_msg cmd_open 0 i) i mq
            (record c { mq = some mq }) v
            (received-IsMessage p cmd_open 0 name [] (omega arith) (omega arith) (omega arith)
              (omega arith) bytes tt)
            (
              accepts-IsTerminated p _
                  (received-Reads p cmd_open 0 name [] refl h (omega arith) (inr refl)).passes,
              no_ioctl cmd_open 0 name refl,
            )
            empty handle-open refl
            (λ q.
              rw
                (
                  append-nil (sent_to p q w.broker.calls),
                  puts-sends (opens name ∷ w.broker.calls) q mq (fd_msg cmd_open 0 i) 0 _,
                )
                refl)

    module _ (w : World) (i mq : ℕ) (c : Client) (v : IsValid p w.broker)
        (memory : (calls : List Call) (call : Call) → p.malloc calls call ≡ true)
        (takes : subscribe_refuses name 0 ≡ false) (there : get_elem? w.broker.clients i ≡ some c)
        (its : c.mq ≡ some mq) (none_yet : c.topics ≡ []) where
      -- The client with its one subscription, once it is told.
      abbrev pub subscriber : Client
      subscriber = heard (record c { topics = name ∷ [] }) true

      abbrev node : Call
      node = allocates (node_size + strlen name + 1)

      abbrev told_broker : Broker
      told_broker =
          let c' : Client = record c { topics = name ∷ [] } in
          answered p i (with_client (after_call node w.broker) i c') c' cmd_subscribe 0 name

      handle-subscribe :
          handle p (received p.msg_max (topic_msg cmd_subscribe i name [])) 0 w.broker
          ≡ some (tt, told_broker)
      unfolding handle dispatch received tl_add
      handle-subscribe =
          let lt : i < p.max_clients =
            omega (arith, v.slots, lt_of_get_elem? w.broker.clients i there) in
          let r = received-Reads p cmd_subscribe i name [] refl h (omega arith) (inl lt) in
          let msg = received p.msg_max (topic_msg cmd_subscribe i name []) in
          let e : IsTopic p (topic msg) = rw r.topic_read (h, omega arith) in
          let run = broker_subscribe-subscribed p w.broker msg there e in
          rw (r.passes, run, r.topic_read, takes, memory w.broker.calls node, none_yet) refl

      -- A request to subscribe, of a client without a subscription.
      pub subscribe-Joined :
          ((q : ℕ) → w.waiting q ≡ [])
          → (w' : World) × (arrives os p (topic_msg cmd_subscribe i name []) 0 w ≡ some (tt, w'))
            × Joined p w w' i subscriber mq (topic_msg cmd_subscribe 0 name [])
      subscribe-Joined empty =
          let c' : Client = record c { topics = name ∷ [] } in
          let b = with_client (after_call node w.broker) i c' in
          let lt : i < 256 =
            omega (arith, v.slots, build.clients_most, lt_of_get_elem? w.broker.clients i there) in
          let lt' : i < p.max_clients =
            omega (arith, v.slots, lt_of_get_elem? w.broker.clients i there) in
          arrives-Joined w told_broker (topic_msg cmd_subscribe i name [])
            (topic_msg cmd_subscribe 0 name []) i mq subscriber v
            (received-IsMessage p cmd_subscribe i name [] (omega arith) lt (omega arith)
              (omega arith) bytes tt)
            (
              accepts-IsTerminated p _
                  (received-Reads p cmd_subscribe i name [] refl h (omega arith) (inl lt')).passes,
              no_ioctl cmd_subscribe i name refl,
            )
            empty handle-subscribe
            (rw
              (
                sends_all b.calls (answer p i b c' cmd_subscribe 0 name),
                set-set w.broker.clients i c' subscriber,
              )
              refl)
            (λ q.
              rw
                (
                  its,
                  append-nil (sent_to p q w.broker.calls),
                  puts-sends (node ∷ w.broker.calls) q mq (topic_msg cmd_subscribe 0 name []) 0 _,
                )
                refl)
