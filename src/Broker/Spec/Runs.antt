-- ===== src/Broker/Spec/Runs.antt =====
-- All rounds of the main loop of src/broker.c as a run of the abstract broker over the same events.
use psmq.Prelude.{ℕ, ◌≡◌, Bool, true, false, List, [], ◌∷◌, Option, none, some, inl, inr}
use psmq.Message.{Msg}
use psmq.Platform.{Platform}
use psmq.Broker.State.{Broker, and_then}
use psmq.Broker.Loop.{
  Event, shutdown, interrupted, broken, message, Exit, stopped, failed, waiting, accepts, dispatch,
  handle, broker_start,
}
use psmq.Broker.Valid.{IsBuild, IsValid}
use psmq.Broker.Safety.Handle.{IsHarmless, accepts-cases}
use psmq.Broker.Spec.{View, view, Step}
use psmq.Broker.Spec.Dispatch.{Implements, dispatch-Implements}

-- The abstract broker over a list of events: each message that passes the checks is one step, which is
-- that message's own; a message that does not pass them, and an interrupted wait, change nothing; and
-- the flag or a broken wait ends the run, whatever events are left.
pub data Run (p : Platform) : List Event → Exit → View → View → Type 0 where
  waits : {v : View} → Run p [] waiting v v
  stops : {v : View} {events : List Event} → Run p (shutdown ∷ events) stopped v v
  breaks : {v : View} {events : List Event} → Run p (broken ∷ events) failed v v
  resumes :
      {v u : View} {e : Exit} {events : List Event}
      → Run p events e v u
      → Run p (interrupted ∷ events) e v u
  refuses :
      {v u : View} {e : Exit} {events : List Event} {msg : Msg} {prio : ℕ}
      → accepts p msg ≡ some false
      → Run p events e v u
      → Run p (message msg prio ∷ events) e v u
  takes :
      {v w u : View} {e : Exit} {events : List Event} {msg : Msg} {prio : ℕ} (r : Bool)
      → accepts p msg ≡ some true
      → Step msg r v w
      → Run p events e w u
      → Run p (message msg prio ∷ events) e v u

-- The loop ends without a fault, as the abstract broker does on these events.
abbrev pub Reaches : Platform → List Event → Broker → Option (Exit × Broker) → Type 0
Reaches p events b none = ⊥
Reaches p events b (some (e, b')) = IsValid p b' × Run p events e (view b) (view b')

module _ (p : Platform) (build : IsBuild p) where
  interrupted-Reaches :
      (events : List Event) (b : Broker) (o : Option (Exit × Broker))
      → Reaches p events b o
      → Reaches p (interrupted ∷ events) b o
  interrupted-Reaches events b none h = h
  interrupted-Reaches events b (some (e, b')) h = (h.0, resumes h.1)

  refused-Reaches :
      (events : List Event) (b : Broker) (msg : Msg) (prio : ℕ) (o : Option (Exit × Broker))
      → accepts p msg ≡ some false
      → Reaches p events b o
      → Reaches p (message msg prio ∷ events) b o
  refused-Reaches events b msg prio none a h = h
  refused-Reaches events b msg prio (some (e, b')) a h = (h.0, refuses a h.1)

  step-Reaches :
      (events : List Event) (b b1 : Broker) (msg : Msg) (prio : ℕ) (r : Bool)
      (o : Option (Exit × Broker))
      → accepts p msg ≡ some true
      → Step msg r (view b) (view b1)
      → Reaches p events b1 o
      → Reaches p (message msg prio ∷ events) b o
  step-Reaches events b b1 msg prio r none a st h = h
  step-Reaches events b b1 msg prio r (some (e, b')) a st h = (h.0, takes r a st h.1)

  taken-Reaches :
      (events : List Event) (b : Broker) (msg : Msg) (prio : ℕ) (o : Option (Bool × Broker))
      → accepts p msg ≡ some true
      → Implements p msg b o
      → ((b1 : Broker) → IsValid p b1 → Reaches p events b1 (broker_start p events b1))
      → Reaches p
          (message msg prio ∷ events)
          b
          (and_then (and_then o (λ _ b'. some (tt {0}, b'))) (λ _. broker_start p events))
  taken-Reaches events b msg prio none a i next = i
  taken-Reaches events b msg prio (some (r, b1)) a i next =
      step-Reaches events b b1 msg prio r (broker_start p events b1) a i.1 (next b1 i.0)

  -- On a valid broker of an allowed build, the main loop runs through any sequence of events whose
  -- messages are well formed, have a NUL, and do not overflow, without a fault; the broker is valid
  -- then, and its slots, with the bags of topics in them, are changed as the abstract broker changes
  -- them over the same events: a message that passes the checks by a step of its own, and any other not
  -- at all; and the loop ends at the same event and with the same result.
  pub broker_start-Reaches :
      (events : List Event) (b : Broker)
      → IsValid p b
      → IsHarmless p events
      → Reaches p events b (broker_start p events b)
  unfolding broker_start handle
  broker_start-Reaches [] b v h = (v, waits)
  broker_start-Reaches (shutdown ∷ events) b v h = (v, stops)
  broker_start-Reaches (interrupted ∷ events) b v h =
      interrupted-Reaches events b _ (broker_start-Reaches events b v h)
  broker_start-Reaches (broken ∷ events) b v h = (v, breaks)
  broker_start-Reaches (message msg prio ∷ events) b v h = elim (accepts-cases p msg h.1.0) [
    | inl a ↦ rw a (
        taken-Reaches events b msg prio (dispatch p msg prio b) a
          (dispatch-Implements p b msg prio build v h.0 a h.1.1)
          (λ b1 v1. broker_start-Reaches events b1 v1 h.2))
    | inr a ↦ rw a (refused-Reaches events b msg prio _ a (broker_start-Reaches events b v h.2))
  ]
