-- ===== src/Psmqd/Runs.antt =====
-- The broker's program from its start to its end.
use psmq.Prelude.{
  ℕ, zero, suc, ◌≡◌, ◌≤◌, arith, refl, Bool, true, false, List, [], ◌∷◌, ◌++◌, Option, none, some,
  All, ap, ◌⊎◌, inl, inr, Option-cases,
}
use psmq.CString.{Bytes}
use psmq.Platform.{Call, Platform, closes, unlinks}
use psmq.Broker.State.{Client, Broker, and_then}
use psmq.Broker.Reply.{is_free}
use psmq.Broker.Loop.{
  Event, shutdown, interrupted, broken, message, Exit, stopped, failed, waiting, handle,
  broker_start,
}
use psmq.Broker.Session.{Cfg, zeroed}
use psmq.Broker.Session.Init.{empty_slot, Starts, broker_init-Starts}
use psmq.Broker.Session.Cleanup.{closings, broker_cleanup-closes}
use psmq.Broker.Valid.{IsBuild, IsValid, Keeps}
use psmq.Broker.Safety.Handle.{IsHarmless, handle-Keeps}
use psmq.Psmqd.{leave, serve, start, configured, psmqd_main}
use psmq.Psmqd.Args.{ℤ, pos, negsuc, Strtol, Arg, Config, cfg_init}

-- Do the events contain the one after which the main loop is left?
abbrev pub is_ended : List Event → Bool
is_ended [] = false
is_ended (shutdown ∷ events) = true
is_ended (broken ∷ events) = true
is_ended (interrupted ∷ events) = is_ended events
is_ended (message msg prio ∷ events) = is_ended events

abbrev ended_as : Exit → Bool
ended_as stopped = true
ended_as failed = true
ended_as waiting = false

-- The main loop runs without a fault, and is left exactly at such an event.
abbrev Loops : Platform → List Event → Option (Exit × Broker) → Type 0
Loops p events none = ⊥
Loops p events (some (e, b)) = IsValid p b × (is_ended events ≡ ended_as e)

module _ (p : Platform) (build : IsBuild p) where
  Loops-bind :
      (events : List Event) (o : Option (Unit {0} × Broker))
      → Keeps p o
      → ((b : Broker) → IsValid p b → Loops p events (broker_start p events b))
      → Loops p events (and_then o (λ _. broker_start p events))
  Loops-bind events none h next = h
  Loops-bind events (some (u, b)) h next = next b h

  broker_start-Loops :
      (events : List Event) (b : Broker)
      → IsValid p b
      → IsHarmless p events
      → Loops p events (broker_start p events b)
  unfolding broker_start
  broker_start-Loops [] b v h = (v, refl)
  broker_start-Loops (shutdown ∷ events) b v h = (v, refl)
  broker_start-Loops (broken ∷ events) b v h = (v, refl)
  broker_start-Loops (interrupted ∷ events) b v h = broker_start-Loops events b v h
  broker_start-Loops (message msg prio ∷ events) b v h =
      Loops-bind events (handle p msg prio b) (handle-Keeps p build b msg prio v h.0 h.1)
        (λ b' v'. broker_start-Loops events b' v' h.2)

-- Every connection is closed; and the control queue is closed and unlinked, or was never opened.
abbrev pub Closed : Bytes → Broker → Type 0
Closed name b =
    All (λ c. is_free c ≡ true) b.clients
    × ((b.qctrl ≡ none)
        ⊎ ((before : List Call) × (b.calls ≡ unlinks name ∷ closes b.qctrl ∷ before)))

-- The program runs without a fault. While it has no exit code it is in its main loop, with a valid
-- broker, and no event has ended the loop; when it exits, it has closed everything or done nothing.
abbrev pub Runs : Platform → List Event → Bytes → Option (Option ℕ × Broker) → Type 0
Runs p events name none = ⊥
Runs p events name (some (none, b)) = IsValid p b × (is_ended events ≡ false)
Runs p events name (some (some zero, b)) = (b.calls ≡ []) ⊎ Closed name b
Runs p events name (some (some (suc code), b)) = (code ≡ 0) × (b.calls ≡ [])

module _ (p : Platform) (build : IsBuild p) (cfg : Cfg) (events : List Event)
    (harmless : IsHarmless p events) where
  leave-Runs :
      (o : Option (Exit × Broker))
      → Loops p events o
      → Runs p events cfg.broker_name (and_then o (leave p cfg))
  unfolding leave
  leave-Runs none h = h
  leave-Runs (some (waiting, b)) h = h
  leave-Runs (some (stopped, b)) h =
      let (run, free) = broker_cleanup-closes p cfg b build h.0 in
      rw run (inr (free, inr (closings p b.clients b.calls, refl)))
  leave-Runs (some (failed, b)) h =
      let (run, free) = broker_cleanup-closes p cfg b build h.0 in
      rw run (inr (free, inr (closings p b.clients b.calls, refl)))

  free_of_empty : (cs : List Client) → All (λ c. c ≡ empty_slot) cs → All (λ c. is_free c ≡ true) cs
  free_of_empty [] h = tt
  free_of_empty (c ∷ cs) h = (ap is_free h.0, free_of_empty cs h.1)

  serve-Runs :
      (o : Option (Bool × Broker))
      → Starts p o
      → Runs p events cfg.broker_name (and_then o (serve p cfg events))
  unfolding serve
  serve-Runs none h = h
  serve-Runs (some (true, b)) h = leave-Runs _ (broker_start-Loops p build events b h.0 harmless)
  serve-Runs (some (false, b)) h =
      inr (free_of_empty b.clients h.1, inl (no_queue (Option-cases b.qctrl)))
    where
      no_queue : (b.qctrl ≡ none) ⊎ ((q : ℕ) × (b.qctrl ≡ some q)) → b.qctrl ≡ none
      no_queue (inl e) = e
      no_queue (inr (q, e)) = absurd (cc (h.2.1 λ n. absurd (cc)))

configured-Runs :
    (p : Platform) (embedlog : Bool) (strtol : Strtol) (events : List Event) (r : Config × ℤ)
    → IsBuild p
    → IsHarmless p events
    → Runs p events r.0.broker.broker_name (configured p embedlog strtol events r (zeroed p))
unfolding configured start
configured-Runs p embedlog strtol events (cfg, pos zero) build harmless =
    serve-Runs p build cfg.broker events harmless _ (broker_init-Starts p cfg.broker)
configured-Runs p embedlog strtol events (cfg, pos (suc n)) build harmless = (refl, refl)
configured-Runs p embedlog strtol events (cfg, negsuc zero) build harmless = (refl, refl)
configured-Runs p embedlog strtol events (cfg, negsuc (suc zero)) build harmless = inl refl
configured-Runs p embedlog strtol events (cfg, negsuc (suc (suc zero))) build harmless = inl refl
configured-Runs p embedlog strtol events (cfg, negsuc (suc (suc (suc n)))) build harmless =
    (refl, refl)

-- On any arguments and any messages that are well formed, have a NUL in their data, and are no
-- overflowing ioctls, the program does not read or write out of bounds. It is in its main loop with a
-- valid broker until an event ends the loop. Where it exits with 1, it has made no call of the broker's;
-- where it exits with 0, neither, or every connection is closed, and the control queue is closed and
-- unlinked, or could not be opened.
pub psmqd_main-Runs :
    (p : Platform) (embedlog : Bool) (strtol : Strtol) (args : List Arg) (events : List Event)
    → IsBuild p
    → IsHarmless p events
    → Runs p events
        (cfg_init embedlog strtol args).0.broker.broker_name
        (psmqd_main p embedlog strtol args events (zeroed p))
unfolding psmqd_main
psmqd_main-Runs p embedlog strtol args events build harmless =
    configured-Runs p embedlog strtol events (cfg_init embedlog strtol args) build harmless

-- The program has exited.
abbrev pub Exits : Option (Option ℕ × Broker) → Type 0
Exits none = ⊥
Exits (some (none, b)) = ⊥
Exits (some (some code, b)) = code ≤ 1

is_ended-append :
    (before after : List Event) (e : Event)
    → is_ended (e ∷ after) ≡ true
    → is_ended (before ++ e ∷ after) ≡ true
is_ended-append [] after e h = h
is_ended-append (shutdown ∷ before) after e h = refl
is_ended-append (broken ∷ before) after e h = refl
is_ended-append (interrupted ∷ before) after e h = is_ended-append before after e h
is_ended-append (message msg prio ∷ before) after e h = is_ended-append before after e h

Runs-Exits :
    (p : Platform) (events : List Event) (name : Bytes) (o : Option (Option ℕ × Broker))
    → is_ended events ≡ true
    → Runs p events name o
    → Exits o
Runs-Exits p events name none e h = h
Runs-Exits p events name (some (none, b)) e h = cc
Runs-Exits p events name (some (some zero, b)) e h = omega arith
Runs-Exits p events name (some (some (suc code), b)) e h = omega arith

-- After any messages that are well formed, have a NUL in their data, and are no overflowing ioctls, once
-- the signal handler has set the shutdown flag, the program exits without a fault, on any arguments.
pub psmqd_main-Exits :
    (p : Platform) (embedlog : Bool) (strtol : Strtol) (args : List Arg) (before after : List Event)
    → IsBuild p
    → IsHarmless p (before ++ shutdown ∷ after)
    → Exits (psmqd_main p embedlog strtol args (before ++ shutdown ∷ after) (zeroed p))
psmqd_main-Exits p embedlog strtol args before after build harmless =
    Runs-Exits p (before ++ shutdown ∷ after) _ _ (is_ended-append before after shutdown refl)
      (psmqd_main-Runs p embedlog strtol args (before ++ shutdown ∷ after) build harmless)
