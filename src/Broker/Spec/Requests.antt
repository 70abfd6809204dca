-- ===== src/Broker/Spec/Requests.antt =====
-- The requests of one client as steps of the abstract broker.
use psmq.Prelude.{
  ℕ, ◌≡◌, refl, sym, subst, ap, Bool, true, List, some, map, get_elem?, set, set-set, Bool-cases,
  inl, inr, arith,
}
use psmq.CString.{Bytes}
use psmq.Errno.{Result, ok, err}
use psmq.Message.{Msg, topic, cmd_close, cmd_subscribe, cmd_unsubscribe}
use psmq.Platform.{Call, Platform}
use psmq.Topic.{subscribe_refuses}
use psmq.TopicList.Bag.{of_list, tl_add-put, tl_delete-put}
use psmq.Broker.State.{Client, Broker}
use psmq.Broker.Reply.Sends.{heard}
use psmq.Broker.Requests.{broker_close, broker_subscribe, broker_unsubscribe}
use psmq.Broker.Valid.{IsBuild, IsTopic}
use psmq.Broker.Effects.Requests.{
  changed, broker_subscribe-subscribed, broker_unsubscribe-changed, broker_close-frees,
}
use psmq.Broker.Spec.{slot_of, view, vacant, Step, Effect, closes, subscribes, unsubscribes}
use psmq.Broker.Spec.Views.{Ends, slots_set, slots_there, slots_same}

-- The command's result, and the slots behind it, are a step.
abbrev pub Steps : Msg → Broker → Bool → Broker → Type 0
Steps msg b r b' = Step msg r (view b) (view b')

-- What an answer leaves in the slots.
slots-heard :
    (cs : List Client) (fd : ℕ) (c : Client) (sent : Bool)
    → get_elem? cs fd ≡ some c
    → map slot_of (set cs fd (heard c sent)) ≡ map slot_of cs
slots-heard cs fd c sent there = slots_same cs fd c _ there refl

slots-put :
    (cs : List Client) (fd : ℕ) (c' : Client) (sent : Bool)
    → map slot_of (set (set cs fd c') fd (heard c' sent)) ≡ set (map slot_of cs) fd (slot_of c')
slots-put cs fd c' sent = rw (set-set cs fd c' (heard c' sent)) (slots_set cs fd (heard c' sent))

module _ (p : Platform) (b : Broker) (msg : Msg) {c : Client}
    (there : get_elem? b.clients msg.ctrl_data ≡ some c) where
  -- What a change of the client's topics comes to.
  changed-Steps :
      (calls : List Call) (cmd : ℕ) (o : Result (List Bytes))
      → ((new : List Bytes)
          → o ≡ ok new
          → Effect msg (view b) (set (view b) msg.ctrl_data (slot_of (record c { topics = new }))))
      → Ends
          (Steps msg b)
          (some (changed p msg.ctrl_data (record b { calls = calls }) c cmd (topic msg) o))
  changed-Steps calls cmd (ok new) k =
      subst (Effect msg (view b))
        (sym (slots-put b.clients msg.ctrl_data (record c { topics = new }) _)) (k new refl)
  changed-Steps calls cmd (err e) k = slots-heard b.clients msg.ctrl_data c _ there

  pub broker_subscribe-Steps :
      IsTopic p (topic msg)
      → msg.ctrl_cmd ≡ cmd_subscribe
      → Ends (Steps msg b) (broker_subscribe p msg b)
  broker_subscribe-Steps h cmd =
      rw (broker_subscribe-subscribed p b msg there h)
        (elim (Bool-cases (subscribe_refuses (topic msg) msg.paylen)) [
          | inl e ↦ rw e (slots-heard b.clients msg.ctrl_data c _ there)
          | inr e ↦ rw e (
              changed-Steps _ cmd_subscribe _ λ new added.
                subscribes (slot_of c) cmd (slots_there b.clients msg.ctrl_data there) e (
                  ap (λ ts. set (view b) msg.ctrl_data (record (slot_of c) { topics = ts }))
                    (tl_add-put _ c.topics new (topic msg) added)))
        ])

  pub broker_unsubscribe-Steps :
      IsTopic p (topic msg)
      → msg.ctrl_cmd ≡ cmd_unsubscribe
      → Ends (Steps msg b) (broker_unsubscribe p msg b)
  broker_unsubscribe-Steps h cmd = rw (broker_unsubscribe-changed p b msg there h) (
      changed-Steps b.calls cmd_unsubscribe _ λ new taken.
        unsubscribes (slot_of c) (of_list new) cmd (slots_there b.clients msg.ctrl_data there)
          (tl_delete-put c.topics new (topic msg) taken) refl)

-- Closing a connection leaves its slot vacant.
abbrev pub Vacates : Broker → ℕ → Bool → Broker → Type 0
Vacates b fd r b' = (r ≡ true) × (view b' ≡ set (view b) fd vacant)

pub broker_close-Vacates :
    (p : Platform) (fd : ℕ) (b : Broker) (c : Client)
    → IsBuild p
    → get_elem? b.clients fd ≡ some c
    → Ends (Vacates b fd) (broker_close p fd b)
broker_close-Vacates p fd b c build there =
    rw (broker_close-frees p fd b c there (omega arith)) (refl, slots_set b.clients fd _)

pub broker_close-Steps :
    (p : Platform) (b : Broker) (msg : Msg) (c : Client)
    → IsBuild p
    → get_elem? b.clients msg.ctrl_data ≡ some c
    → msg.ctrl_cmd ≡ cmd_close
    → Ends (Steps msg b) (broker_close p msg.ctrl_data b)
broker_close-Steps p b msg c build there cmd =
    rw (broker_close-frees p msg.ctrl_data b c there (omega arith)) (
      closes (slot_of c) cmd (slots_there b.clients msg.ctrl_data there)
        (slots_set b.clients msg.ctrl_data _))
