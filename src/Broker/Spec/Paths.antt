-- ===== src/Broker/Spec/Paths.antt =====
-- The topics that clients of src/broker.c are subscribed to, in every state that it reaches.
use psmq.Prelude.{
  ℕ, ◌<◌, ◌≡◌, ◌≢◌, sym, subst, Bool, true, false, List, [], ◌∷◌, Option, none, some, Bool-cases,
  inl, inr, All, All-get_elem?, All-set, set, get_elem?, arith,
}
use psmq.CString.{Bytes, str_eq, str_eq_iff}
use psmq.CString.Strtok.{tokens}
use psmq.Message.{Msg, topic}
use psmq.Platform.{Platform}
use psmq.Topic.{slash}
use psmq.Topic.Path.{path, subscribe_refuses-iff-path}
use psmq.TopicList.Bag.{Bag, of_list, occurrences, put, occurrences-put, occurrences-empty}
use psmq.Broker.State.{Broker}
use psmq.Broker.Loop.{Event, Exit, broker_start}
use psmq.Broker.Valid.{IsBuild, IsValid}
use psmq.Broker.Safety.Handle.{IsHarmless}
use psmq.Broker.Spec.{
  Slot, View, view, vacant, Drops, Effect, closes, subscribes, unsubscribes, publishes, configures,
  Step,
}
use psmq.Broker.Spec.Runs.{
  Run, waits, stops, breaks, resumes, refuses, takes, Reaches, broker_start-Reaches,
}

-- The topic is written from parts that are not empty, each behind a slash.
abbrev pub IsPath : Bytes → Type 0
IsPath t = (t ≢ []) × (path (tokens slash t) ≡ t)

abbrev pub HasPaths : Bag → Type 0
HasPaths x = (u : Bytes) → 0 < occurrences u x → IsPath u

abbrev pub AllPaths : View → Type 0
AllPaths v = All (λ s. HasPaths s.topics) v

pub HasPaths-empty : HasPaths (of_list [])
HasPaths-empty u h = absurd (omega (arith, occurrences-empty u))

HasPaths-put : (t : Bytes) (x : Bag) → IsPath t → HasPaths x → HasPaths (put t x)
HasPaths-put t x k h u lt = elim (Bool-cases (str_eq t u)) [
  | inl e ↦ subst IsPath ((str_eq_iff t u).0 e) k
  | inr e ↦ h u (ground (arith, occurrences-put t u x))
]

HasPaths-left : (t : Bytes) (x : Bag) → HasPaths (put t x) → HasPaths x
HasPaths-left t x h u lt = h u (omega (arith, occurrences-put t u x))

AllPaths-Drops : (may : Slot → Type 0) (vs ws : View) → Drops may vs ws → AllPaths vs → AllPaths ws
AllPaths-Drops may [] [] d h = h
AllPaths-Drops may [] (w ∷ ws) d h = absurd d
AllPaths-Drops may (v ∷ vs) [] d h = tt
AllPaths-Drops may (v ∷ vs) (w ∷ ws) (inl e, d) h =
    (subst (λ (s : Slot). HasPaths s.topics) (sym e) h.0, AllPaths-Drops may vs ws d h.1)
AllPaths-Drops may (v ∷ vs) (w ∷ ws) (inr (_, e, _), d) h =
    (subst (λ (s : Slot). HasPaths s.topics) (sym e) HasPaths-empty, AllPaths-Drops may vs ws d h.1)

module _ (v : View) (h : AllPaths v) where
  -- A slot that is changed.
  AllPaths-set : (w : View) (i : ℕ) (s : Slot) → w ≡ set v i s → HasPaths s.topics → AllPaths w
  AllPaths-set w i s e k =
      subst AllPaths (sym e) (All-set (λ (r : Slot). HasPaths r.topics) v i h k)

  there : (i : ℕ) (s : Slot) → get_elem? v i ≡ some s → HasPaths s.topics
  there i s e = All-get_elem? (λ (r : Slot). HasPaths r.topics) v i h e

  Effect-AllPaths : (msg : Msg) (w : View) → Effect msg v w → AllPaths w
  Effect-AllPaths msg w (Effect.opens i s _ e free lower to) = AllPaths-set w i _ to (there i s e)
  Effect-AllPaths msg w (closes s _ e to) = AllPaths-set w msg.ctrl_data vacant to HasPaths-empty
  Effect-AllPaths msg w (subscribes s _ e good to) = AllPaths-set w msg.ctrl_data _ to (
      let (_, not_empty, written) = (subscribe_refuses-iff-path (topic msg) msg.paylen).0 good in
      HasPaths-put (topic msg) s.topics (not_empty, written) (there msg.ctrl_data s e))
  Effect-AllPaths msg w (unsubscribes s left _ e split to) =
      AllPaths-set w msg.ctrl_data _ to
        (HasPaths-left (topic msg) left (subst HasPaths split (there msg.ctrl_data s e)))
  Effect-AllPaths msg w (publishes _ d) = AllPaths-Drops _ v w d h
  Effect-AllPaths msg w (configures _ to) = subst AllPaths (sym to) h

Step-AllPaths : (msg : Msg) (r : Bool) (v w : View) → Step msg r v w → AllPaths v → AllPaths w
Step-AllPaths msg true v w st h = Effect-AllPaths v h msg w st
Step-AllPaths msg false v w st h = subst AllPaths (sym st) h

Run-AllPaths :
    {p : Platform} {events : List Event} {e : Exit} {v w : View}
    → Run p events e v w
    → AllPaths v
    → AllPaths w
Run-AllPaths waits h = h
Run-AllPaths stops h = h
Run-AllPaths breaks h = h
Run-AllPaths (resumes run) h = Run-AllPaths run h
Run-AllPaths (refuses a run) h = Run-AllPaths run h
Run-AllPaths (takes {v} {w} {u} {e} {events} {msg} r a st run) h =
    Run-AllPaths run (Step-AllPaths msg r v w st h)

-- Every topic that a client of the broker is subscribed to is a path.
abbrev pub Stores : {A : Type 0} → Option (A × Broker) → Type 0
Stores none = ⊥
Stores (some (a, b)) = AllPaths (view b)

Reaches-Stores :
    (p : Platform) (events : List Event) (b : Broker) (o : Option (Exit × Broker))
    → Reaches p events b o
    → AllPaths (view b)
    → Stores o
Reaches-Stores p events b none r h = r
Reaches-Stores p events b (some (e, b')) r h = Run-AllPaths r.1 h

-- On a valid broker of an allowed build, whose clients are subscribed to paths only: through any
-- sequence of events whose messages are well formed, have a NUL, and do not overflow, the main loop runs
-- without a fault, and every topic that a client is then subscribed to is a path, which is to say that it is
-- written from parts that are not empty, each behind a slash.
pub broker_start-Stores :
    (p : Platform) (build : IsBuild p) (events : List Event) (b : Broker)
    → IsValid p b
    → AllPaths (view b)
    → IsHarmless p events
    → Stores (broker_start p events b)
broker_start-Stores p build events b v h harmless =
    Reaches-Stores p events b _ (broker_start-Reaches p build events b v harmless) h
