-- ===== src/Broker/Spec/Open.antt =====
-- The request to open as a step of the abstract broker.
use mathlib.Core.Option.{some-injective}
use psmq.Prelude.{
  ℕ, ◌<◌, ◌≡◌, refl, sym, ap, ◌∙◌, true, false, not, none, some, map, get_elem?, Bool-cases,
  Option-cases, inl, inr, List, [], ◌∷◌, zero, suc,
}
use psmq.Message.{Msg, topic, cmd_open}
use psmq.Platform.{Platform, opens}
use psmq.Broker.State.{Client, Broker, ask}
use psmq.Broker.Slots.{free_client_from-FirstFree}
use psmq.Broker.Reply.{is_free}
use psmq.Broker.Requests.{broker_open}
use psmq.Broker.Valid.{IsBuild, IsValid}
use psmq.Broker.Effects.{after_call}
use psmq.Broker.Effects.Open.{let_in, welcome, broker_open-turned_away, broker_open-let_in}
use psmq.Broker.Spec.{Slot, slot_of, view, Effect}
use psmq.Broker.Spec.Views.{Ends, slots_set, slots_there, slots_same}
use psmq.Broker.Spec.Requests.{Steps}

-- A slot of the view is that of a client.
client_of :
    (cs : List Client) (j : ℕ) (r : Slot)
    → get_elem? (map slot_of cs) j ≡ some r
    → (d : Client) × (get_elem? cs j ≡ some d) × (slot_of d ≡ r)
client_of [] j r e = cc
client_of (d ∷ cs) zero r e = (d, refl, some-injective _ _ e)
client_of (d ∷ cs) (suc j) r e = client_of cs j r e

-- A queue that could not be opened.
broker_open-none :
    (p : Platform) (b : Broker) (msg : Msg)
    → p.mq_open b.calls (opens (topic msg)) ≡ none
    → broker_open p msg b ≡ some (false, after_call (opens (topic msg)) b)
unfolding broker_open ask
broker_open-none p b msg e = rw e

module _ (p : Platform) (b : Broker) (msg : Msg) (cmd : msg.ctrl_cmd ≡ cmd_open) (q fd : ℕ)
    (c : Client) (there : get_elem? b.clients fd ≡ some c) (free : is_free c ≡ true)
    (before : (i : ℕ) (d : Client)
      → i < fd
      → get_elem? b.clients i ≡ some d
      → is_free d ≡ false) where
  let_in-Steps : Ends (Steps msg b) (some (let_in p q fd c (after_call (opens (topic msg)) b)))
  let_in-Steps =
      let b0 = after_call (opens (topic msg)) b in
      elim (Bool-cases (p.mq_timedsend b0.calls (welcome p q fd b0))) [
        | inl e ↦ rw e (
            Effect.opens fd (slot_of c) cmd (slots_there b.clients fd there) (ap not free) lower
              (slots_set b.clients fd (record c { mq = some q })))
        | inr e ↦ rw e (
            slots_same b.clients fd c (record c { mq = none }) there
              (ap (λ t. record { taken = not t; topics = (slot_of c).topics }) (sym free)))
      ]
    where
      lower : (j : ℕ) (r : Slot) → j < fd → get_elem? (view b) j ≡ some r → r.taken ≡ true
      lower j r lt e =
          let (d, k, s) = client_of b.clients j r e in
          sym (ap (λ (x : Slot). x.taken) s) ∙ ap not (before j d lt k)

pub broker_open-Steps :
    (p : Platform) (b : Broker) (msg : Msg)
    → IsBuild p
    → IsValid p b
    → msg.ctrl_cmd ≡ cmd_open
    → Ends (Steps msg b) (broker_open p msg b)
broker_open-Steps p b msg build v cmd =
    elim (Option-cases (p.mq_open b.calls (opens (topic msg)))) [
      | inl e ↦ rw (broker_open-none p b msg e) refl
      | inr (q, e) ↦ elim (free_client_from-FirstFree 0 b.clients) [
        | inl (_, full) ↦ rw (broker_open-turned_away p b msg q build e full) refl
        | inr (i, c, r, there, free, before) ↦
            rw (broker_open-let_in p b msg q i c build v e there free before)
              (let_in-Steps p b msg cmd q i c there free before)
      ]
    ]
