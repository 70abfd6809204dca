-- ===== src/Broker/Spec/Dispatch.antt =====
-- The main loop of src/broker.c as a run of the abstract broker.
use psmq.Prelude.{
  ℕ, ◌+◌, ◌<◌, ◌≡◌, refl, Bool, true, false, Option, none, some, ◌==◌, ==_iff, Bool-cases, inl, inr,
  drop,
}
use psmq.CString.{strlen}
use psmq.Message.{
  Msg, topic, cmd_open, cmd_close, cmd_subscribe, cmd_unsubscribe, cmd_publish, cmd_ioctl,
}
use psmq.Platform.{Platform}
use psmq.Broker.State.{Broker}
use psmq.Broker.Publish.{broker_publish}
use psmq.Broker.Ioctl.{broker_ioctl}
use psmq.Broker.Loop.{accepts, dispatch}
use psmq.Broker.Valid.{IsBuild, IsTopic, IsValid, Keeps, client_there}
use psmq.Broker.Safety.Ioctl.{Overflows}
use psmq.Broker.Safety.Handle.{IsMessage, accepts_sound, topic-IsTopic, dispatch-Keeps}
use psmq.Broker.Spec.{view, Step, publishes, configures}
use psmq.Broker.Spec.Views.{Ends, Ends-bind, Ends-mono, SameView}
use psmq.Broker.Spec.Ioctl.{broker_ioctl-Ends}
use psmq.Broker.Spec.Requests.{
  Steps, broker_subscribe-Steps, broker_unsubscribe-Steps, broker_close-Steps,
}
use psmq.Broker.Spec.Open.{broker_open-Steps}
use psmq.Broker.Spec.Drops.{Drops-IsServed}
use psmq.Broker.Spec.Publish.{Thins, publish_clients-Ends}

module _ (p : Platform) (build : IsBuild p) (b : Broker) (v : IsValid p b) (msg : Msg) where
  broker_publish-Steps :
      (prio : ℕ)
      → IsTopic p (topic msg)
      → msg.ctrl_cmd ≡ cmd_publish
      → Ends (Steps msg b) (broker_publish p msg prio b)
  unfolding broker_publish
  broker_publish-Steps prio h cmd =
      let payload = drop (strlen msg.msg_data + 1) msg.msg_data in
      Ends-bind (Thins p (topic msg) b) (Steps msg b) _ _
        (publish_clients-Ends p build (topic msg) payload msg.paylen prio p.max_clients 0 b)
        λ u b1 thins.
          publishes cmd (Drops-IsServed p (topic msg) b.clients (view b1) h.1 v.each thins)

  ioctl-Step :
      (b1 : Broker) (r : Bool) → msg.ctrl_cmd ≡ cmd_ioctl → view b1 ≡ view b → Steps msg b r b1
  ioctl-Step b1 true cmd same = configures cmd same
  ioctl-Step b1 false cmd same = same

  broker_ioctl-Steps : msg.ctrl_cmd ≡ cmd_ioctl → Ends (Steps msg b) (broker_ioctl p msg b)
  broker_ioctl-Steps cmd =
      Ends-mono (SameView b) (Steps msg b) _ (broker_ioctl-Ends p msg b)
        λ r b1 same. ioctl-Step b1 r cmd same

  dispatch-Steps :
      (prio : ℕ)
      → IsTopic p (topic msg)
      → ((msg.ctrl_cmd == cmd_open) ≡ false → msg.ctrl_data < p.max_clients)
      → Ends (Steps msg b) (dispatch p msg prio b)
  unfolding dispatch
  dispatch-Steps prio h fd = elim (Bool-cases (msg.ctrl_cmd == cmd_open)) [
    | inl e ↦ rw e (broker_open-Steps p b msg build v ((==_iff _ cmd_open).0 e))
    | inr e0 ↦
        let (c, there, _) = client_there p msg.ctrl_data b v (fd e0) in
        elim (Bool-cases (msg.ctrl_cmd == cmd_close)) [
          | inl e ↦ rw (e0, e) (broker_close-Steps p b msg c build there ((==_iff _ cmd_close).0 e))
          | inr e1 ↦ elim (Bool-cases (msg.ctrl_cmd == cmd_subscribe)) [
            | inl e ↦
                rw (e0, e1, e)
                  (broker_subscribe-Steps p b msg there h ((==_iff _ cmd_subscribe).0 e))
            | inr e2 ↦ elim (Bool-cases (msg.ctrl_cmd == cmd_unsubscribe)) [
              | inl e ↦
                  rw (e0, e1, e2, e)
                    (broker_unsubscribe-Steps p b msg there h ((==_iff _ cmd_unsubscribe).0 e))
              | inr e3 ↦ elim (Bool-cases (msg.ctrl_cmd == cmd_publish)) [
                | inl e ↦
                    rw (e0, e1, e2, e3, e)
                      (broker_publish-Steps prio h ((==_iff _ cmd_publish).0 e))
                | inr e4 ↦ elim (Bool-cases (msg.ctrl_cmd == cmd_ioctl)) [
                  | inl e ↦
                      rw (e0, e1, e2, e3, e4, e) (broker_ioctl-Steps ((==_iff _ cmd_ioctl).0 e))
                  | inr e ↦ rw (e0, e1, e2, e3, e4, e) refl
                ]
              ]
            ]
          ]
        ]
  ]

-- The command ends without a fault, its result and the slots behind it are a step of the abstract
-- broker, and the broker is valid.
abbrev pub Implements : Platform → Msg → Broker → Option (Bool × Broker) → Type 0
Implements p msg b none = ⊥
Implements p msg b (some (r, b')) = IsValid p b' × Step msg r (view b) (view b')

Implements-of :
    (p : Platform) (msg : Msg) (b : Broker) (o : Option (Bool × Broker))
    → Keeps p o
    → Ends (Steps msg b) o
    → Implements p msg b o
Implements-of p msg b none k s = k
Implements-of p msg b (some (r, b')) k s = (k, s)

-- On a valid broker of an allowed build, a received message that passes the checks, and is not an
-- ioctl whose reply overflows its buffer, is dispatched without a fault; the broker stays valid; where
-- the handler fails no slot changes its state or its bag of topics, and where it succeeds the slots
-- change as the command asks: a request to open takes the first free slot; a request to close leaves a
-- vacant slot; a subscription that is not refused puts its topic into the bag, and an unsubscription
-- takes a topic out that is in it; a message that is published disconnects no client but some that
-- have a subscription it matches; an ioctl changes neither.
pub dispatch-Implements :
    (p : Platform) (b : Broker) (msg : Msg) (prio : ℕ)
    → IsBuild p
    → IsValid p b
    → IsMessage p msg
    → accepts p msg ≡ some true
    → ¬ Overflows msg
    → Implements p msg b (dispatch p msg prio b)
dispatch-Implements p b msg prio build v m a small =
    let (fits, fd) = accepts_sound p msg a in
    Implements-of p msg b _ (dispatch-Keeps p build b v msg m fits fd prio small)
      (dispatch-Steps p build b v msg prio (topic-IsTopic p build b v msg m fits fd) fd)
