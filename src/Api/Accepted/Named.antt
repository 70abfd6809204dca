-- ===== src/Api/Accepted/Named.antt =====
-- lib/psmq.c: how psmq_init_named and psmq_init end.
use psmq.Prelude.{
  ℕ, zero, suc, ◌+◌, ◌≤◌, ◌<◌, ◌≡◌, refl, true, false, List, ◌∷◌, Option, none, some, ◌⊎◌, inl, inr,
  ◌==◌, Bool-cases, Option-cases, if◌then◌else◌, length, arith,
}
use psmq.CString.{Bytes, IsString}
use psmq.Errno.{Result, ok, err, eexist}
use psmq.Api.State.{Psmq, Os, Syscall, Run, is_open, creates_read, unlinks}
use psmq.Api.Init.{
  Outcome, generated_name, issue, init_wq, zeroed_psmq, init_with_name, init_generated, init_queue,
  name_refused, or_default, init_named,
}
use psmq.Api.Accepted.Settles.{Gives, OnlyStale, IsSettled, init_wq-IsSettled}
use psmq.Api.Accepted.Generated.{generated_name-IsString}

-- How an initialization of the struct `s` ends: with both queues open; or with a failure that leaves
-- the struct alone, or marks both queues closed, or marks the client's own queue closed and leaves the
-- descriptor 0 for the broker's; or it waits, as none of the `n` messages that it received last was an
-- answer to an open request.
abbrev pub IsEnded : Os → ℕ → Psmq → Outcome → List Syscall → Type 0
IsEnded os n s none calls = OnlyStale os n calls
IsEnded os n s (some (s', ok u)) calls = (is_open s'.qsub ≡ true) × (is_open s'.qpub ≡ true)
IsEnded os n s (some (s', err e)) calls =
    (s' ≡ s) ⊎ ((s'.qsub ≡ none) × ((s'.qpub ≡ none) ⊎ (s'.qpub ≡ some 0)))

Settled-Ended :
    (os : Os) (n : ℕ) (s : Psmq) (o : Option (Outcome × List Syscall))
    → Gives (IsSettled os n) o
    → Gives (IsEnded os n s) o
Settled-Ended os n s none h = h
Settled-Ended os n s (some (none, calls)) h = h
Settled-Ended os n s (some (some (s', ok u), calls)) h = h
Settled-Ended os n s (some (some (s', err e), calls)) h = inr (h.0, inl h.1)

module _ (os : Os) (n : ℕ) (s : Psmq) (brokername : Bytes) (maxmsg : ℕ) where
  init_with_name-Ends :
      (mqname : Bytes) (calls : List Syscall)
      → IsString mqname
      → length mqname + 1 ≤ os.msg_max
      → Gives (IsEnded os n s) (init_with_name os n brokername mqname maxmsg calls)
  unfolding init_with_name issue
  init_with_name-Ends mqname calls h fits =
      opened-Ends (os.mq_open (unlinks mqname ∷ calls) (creates_read mqname false maxmsg))
    where
      opened-Ends :
          (opened : Result ℕ)
          → Gives (IsEnded os n s) (
              (elim opened as (λ (_ : Result ℕ). Run Outcome) [
                | err e ↦ (λ c. some (some (record (zeroed_psmq os n) { qsub = none }, err e), c))
                | ok q ↦
                    init_wq os n (record (zeroed_psmq os n) { qsub = some q }) brokername mqname
              ])
                (creates_read mqname false maxmsg ∷ unlinks mqname ∷ calls))
      opened-Ends (err e) = inr (refl, inr refl)
      opened-Ends (ok q) = Settled-Ended os n s _ (
          init_wq-IsSettled os n (record (zeroed_psmq os n) { qsub = some q }) brokername mqname
            (creates_read mqname false maxmsg ∷ unlinks mqname ∷ calls) refl h fits)

  -- What follows the creation of a queue with a generated name.
  generated-Ends :
      (next : Run Outcome) (i : ℕ) (opened : Result ℕ) (calls : List Syscall)
      → 10 ≤ os.msg_max
      → Gives (IsEnded os n s) (next calls)
      → Gives (IsEnded os n s) (
          (elim opened as (λ (_ : Result ℕ). Run Outcome) [
            | err e ↦
                if e == eexist
                then next
                else (λ c. some (some (record (zeroed_psmq os n) { qsub = none }, err e), c))
            | ok q ↦
                init_wq os n
                  (record (zeroed_psmq os n) { qsub = some q })
                  brokername
                  (generated_name i)
          ])
            calls)
  generated-Ends next i (err e) calls fits h = elim (Bool-cases (e == eexist)) [
    | inl there ↦ rw there h
    | inr other ↦ rw other (inr (refl, inr refl))
  ]
  generated-Ends next i (ok q) calls fits h = Settled-Ended os n s _ (
      init_wq-IsSettled os n (record (zeroed_psmq os n) { qsub = some q }) brokername
        (generated_name i) calls refl (generated_name-IsString i) fits)

  init_generated-Ends :
      (left i : ℕ) (calls : List Syscall)
      → 10 ≤ os.msg_max
      → Gives (IsEnded os n s) (init_generated os n left i brokername maxmsg calls)
  unfolding init_generated
  init_generated-Ends zero i calls fits = inr (refl, inr refl)
  init_generated-Ends (suc left) i calls fits =
      generated-Ends (init_generated os n left (i + 1) brokername maxmsg) i
        (os.mq_open calls (creates_read (generated_name i) true maxmsg))
        (creates_read (generated_name i) true maxmsg ∷ calls) fits
        (init_generated-Ends left (i + 1) (creates_read (generated_name i) true maxmsg ∷ calls)
          fits)

abbrev pub IsName : Option Bytes → Type 0
IsName none = Unit {0}
IsName (some name) = IsString name

name_refused-short :
    (os : Os) (n : ℕ) (brokername : Option Bytes) (mqname : Bytes)
    → name_refused os n brokername (some mqname) ≡ none
    → length mqname < os.msg_max
unfolding name_refused
name_refused-short os n none mqname e = ground arith
name_refused-short os n (some b) mqname e = ground arith

init_queue-Ends :
    (os : Os) (n : ℕ) (s : Psmq) (brokername mqname : Option Bytes) (maxmsg : ℕ)
    (calls : List Syscall)
    → 10 ≤ os.msg_max
    → IsName mqname
    → name_refused os n brokername mqname ≡ none
    → Gives (IsEnded os n s) (init_queue os n (or_default os n brokername) mqname maxmsg calls)
unfolding init_queue
init_queue-Ends os n s brokername none maxmsg calls fits h e =
    init_generated-Ends os n s (or_default os n brokername) maxmsg os.max_clients 0 calls fits
init_queue-Ends os n s brokername (some mqname) maxmsg calls fits h e =
    init_with_name-Ends os n s (or_default os n brokername) maxmsg mqname calls h
      (omega (arith, name_refused-short os n brokername mqname e))

-- Where PSMQ_MSG_MAX is at least 10, psmq_init_named runs without a fault on any struct and any
-- strings as names, however its calls are answered. Where it ends with 0 both queues are open; where
-- it ends with -1 it has left the struct alone, or marked both queues closed, or marked the client's
-- own queue closed and left 0 for the broker's. It ends, unless the last `n` calls are receives each of
-- which gave a message that is no answer to an open request; `n` is the number of messages it may
-- receive.
pub init_named-Ends :
    (os : Os) (n : ℕ) (s : Psmq) (brokername mqname : Option Bytes) (maxmsg : ℕ)
    (calls : List Syscall)
    → 10 ≤ os.msg_max
    → IsName mqname
    → Gives (IsEnded os n s) (init_named os n (some s) brokername mqname maxmsg calls)
unfolding init_named
init_named-Ends os n s brokername mqname maxmsg calls fits h = elim (Bool-cases (maxmsg == 0)) [
  | inl e ↦ rw e (inl refl)
  | inr e ↦ elim (Option-cases (name_refused os n brokername mqname)) [
    | inr (k, r) ↦ rw (e, r) (inl refl)
    | inl r ↦ rw (e, r) (init_queue-Ends os n s brokername mqname maxmsg calls fits h r)
  ]
]
