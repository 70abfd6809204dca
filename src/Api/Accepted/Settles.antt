-- ===== src/Api/Accepted/Settles.antt =====
-- lib/psmq.c: how psmq_init_wq ends.
use psmq.Prelude.{
  ℕ, zero, suc, ◌+◌, ◌≤◌, ◌≡◌, refl, true, false, List, [], ◌∷◌, ◌⊎◌, subst, arith, Option, none,
  some, Bool-cases, Option-cases, inl, inr, ◌==◌, length,
}
use psmq.CString.{Bytes, IsString}
use psmq.Errno.{Result, ok, err, ebadf}
use psmq.Message.{Msg, cmd_open}
use psmq.Platform.{Mqd}
use psmq.Time.{Timespec}
use psmq.Api.State.{
  Psmq, Os, Syscall, Run, then_run, is_open, mqd_eq, opens_write, closes, receives_until,
}
use psmq.Api.Send.{publish_msg}
use psmq.Api.Receive.{fill, overwrite, receive_into, timedreceive_prio, timedreceive_ms}
use psmq.Api.Init.{
  Ack, Outcome, granted, refused, read_answer, zeroed_msg, issue, await_answer, abandon, conclude,
  register, init_wq,
}
use psmq.Api.Accepted.Handshake.{waits}
use psmq.Api.Accepted.Sent.{send_msg-topic}

-- The command ran without a fault; its value, and the calls then, are such.
abbrev pub Gives : {A : Type 0} → (A → List Syscall → Type 0) → Option (A × List Syscall) → Type 0
Gives P none = ⊥
Gives P (some (a, calls)) = P a calls

Gives-bind :
    {A B : Type 0} (P : A → List Syscall → Type 0) (Q : B → List Syscall → Type 0)
    (o : Option (A × List Syscall)) (f : A → Run B)
    → Gives P o
    → ((a : A) (calls : List Syscall) → P a calls → Gives Q (f a calls))
    → Gives Q (then_run o f)
Gives-bind P Q none f h k = h
Gives-bind P Q (some (a, calls)) f h k = k a calls h

abbrev Any : {A : Type 0} → A → List Syscall → Type 0
Any a calls = Unit {0}

-- A message, but no answer to an open request.
abbrev IsStale : Result (Msg × ℕ) → Type 0
IsStale (err e) = ⊥
IsStale (ok m) = (m.0.ctrl_cmd == cmd_open) ≡ false

-- The last `k` calls are receives, each of which gave such a message.
abbrev pub OnlyStale : Os → ℕ → List Syscall → Type 0
OnlyStale os zero calls = Unit {0}
OnlyStale os (suc k) [] = ⊥
OnlyStale os (suc k) (c ∷ calls) =
    ((q : Mqd) × (tp : Timespec) × (c ≡ receives_until q tp))
    × IsStale (os.mq_receive calls c)
    × OnlyStale os k calls

-- A wait ends, unless none of the `n` messages is an answer.
abbrev Awaited : Os → ℕ → Option Ack → List Syscall → Type 0
Awaited os n none calls = OnlyStale os n calls
Awaited os n (some ack) calls = Unit {0}

-- An initialization that succeeded has both queues open; one that failed has neither; or it waits, as
-- none of `n` messages was an answer.
abbrev pub IsSettled : Os → ℕ → Outcome → List Syscall → Type 0
IsSettled os n none calls = OnlyStale os n calls
IsSettled os n (some (s, ok u)) calls = (is_open s.qsub ≡ true) × (is_open s.qpub ≡ true)
IsSettled os n (some (s, err e)) calls = (s.qsub ≡ none) × (s.qpub ≡ none)

timedreceive-cases :
    (os : Os) (s : Psmq) (calls : List Syscall)
    → (timedreceive_ms os (some s) (some (zeroed_msg os)) 30000 calls
        ≡ some (
          fill (zeroed_msg os) (os.mq_receive calls (waits os s calls)),
          waits os s calls ∷ calls,
        ))
      ⊎ ((e : ℕ) × (timedreceive_ms os (some s) (some (zeroed_msg os)) 30000 calls
            ≡ some (err e, calls)))
unfolding timedreceive_ms timedreceive_prio receive_into
timedreceive-cases os s calls = elim (Bool-cases (is_open s.qpub)) [
  | inr e ↦ inr (ebadf, simp e refl)
  | inl e ↦ elim (Bool-cases (mqd_eq s.qsub s.qpub)) [
    | inl k ↦ inr (ebadf, simp (e, k) refl)
    | inr k ↦ inl (simp (e, k) refl)
  ]
]

read_answer-none :
    (old : Msg) (m : Msg × ℕ) → read_answer (overwrite old m.0) ≡ none → IsStale (ok m)
unfolding read_answer overwrite
read_answer-none old m e = ground arith

-- What follows a receive, where what follows a stale message is such.
read-Awaited :
    (os : Os) (n : ℕ) (old : Msg) (rest : Run (Option Ack)) (got : Result (Msg × ℕ))
    (calls : List Syscall)
    → (IsStale got → Gives (Awaited os n) (rest calls))
    → Gives (Awaited os n) (
        (elim (fill old got) as (λ (_ : Result (Msg × ℕ)). Run (Option Ack)) [
          | err e ↦ (λ c. some (some (refused e), c))
          | ok m ↦ elim (read_answer m.0) as (λ (_ : Option Ack). Run (Option Ack)) [
            | none ↦ rest
            | some ack ↦ (λ c. some (some ack, c))
          ]
        ])
          calls)
read-Awaited os n old rest (err e) calls h = tt
read-Awaited os n old rest (ok m) calls h = elim (Option-cases (read_answer (overwrite old m.0))) [
  | inl e ↦ rw e (h (read_answer-none old m e))
  | inr (ack, e) ↦ rw e tt
]

await_answer-Awaited :
    (os : Os) (n k : ℕ) (s : Psmq) (calls : List Syscall)
    → OnlyStale os k calls
    → Gives (Awaited os (n + k)) (await_answer os n s calls)
unfolding await_answer
await_answer-Awaited os zero k s calls h =
    let sum : k ≡ 0 + k = omega arith in subst (λ m. OnlyStale os m calls) sum h
await_answer-Awaited os (suc n) k s calls h = elim (timedreceive-cases os s calls) [
  | inr (e, r) ↦ rw r tt
  | inl r ↦
      let c = waits os s calls in
      let sum : n + suc k ≡ suc n + k = omega arith in
      rw r (
        read-Awaited os (suc n + k) (zeroed_msg os) (await_answer os n s) (os.mq_receive calls c)
          (c ∷ calls)
          λ stale.
            subst (λ m. Gives (Awaited os m) (await_answer os n s (c ∷ calls))) sum
              (await_answer-Awaited os n (suc k) s (c ∷ calls) ((_, _, refl), stale, h)))
]

abandon-IsSettled :
    (os : Os) (n : ℕ) (mqname : Bytes) (s : Psmq) (e : ℕ) (calls : List Syscall)
    → Gives (IsSettled os n) (abandon mqname s e calls)
unfolding abandon issue
abandon-IsSettled os n mqname s e calls = (refl, refl)

conclude-IsSettled :
    (os : Os) (n : ℕ) (mqname : Bytes) (s : Psmq) (ack : Option Ack) (calls : List Syscall)
    → Awaited os n ack calls
    → is_open s.qsub ≡ true
    → is_open s.qpub ≡ true
    → Gives (IsSettled os n) (conclude mqname s ack calls)
unfolding conclude
conclude-IsSettled os n mqname s none calls h o o' = h
conclude-IsSettled os n mqname s (some (refused e)) calls h o o' =
    abandon-IsSettled os n mqname s e calls
conclude-IsSettled os n mqname s (some (granted ack fd)) calls h o o' =
    elim (Bool-cases (ack == 0)) [
      | inl e ↦ rw e (o, o')
      | inr e ↦ rw e (abandon-IsSettled os n mqname (record s { fd = fd }) ack calls)
    ]

-- The request to open is sent, or refused, but never a fault where the name fits a message.
open-Any :
    (os : Os) (s : Psmq) (mqname : Bytes) (calls : List Syscall)
    → is_open s.qpub ≡ true
    → IsString mqname
    → length mqname + 1 ≤ os.msg_max
    → Gives Any (publish_msg os (some s) cmd_open 0 (some mqname) none 0 0 calls)
unfolding publish_msg
open-Any os s mqname calls o h fits = elim (Bool-cases (mqd_eq s.qsub s.qpub)) [
  | inl e ↦ simp (o, e) tt
  | inr e ↦ simp (o, e, send_msg-topic os s.qpub cmd_open 0 0 calls mqname refl h fits) tt
]

register-IsSettled :
    (os : Os) (n : ℕ) (mqname : Bytes) (s : Psmq) (calls : List Syscall)
    → is_open s.qsub ≡ true
    → is_open s.qpub ≡ true
    → IsString mqname
    → length mqname + 1 ≤ os.msg_max
    → Gives (IsSettled os n) (register os n mqname s calls)
unfolding register
register-IsSettled os n mqname s calls o o' h fits =
    Gives-bind Any (IsSettled os n)
      (publish_msg os (some s) cmd_open 0 (some mqname) none 0 0 calls) _
      (open-Any os s mqname calls o' h fits) (λ sent calls' _. sent-IsSettled sent calls')
  where
    sent-IsSettled :
        (sent : Result (Unit {0})) (calls' : List Syscall)
        → Gives (IsSettled os n) (
            (elim sent as (λ (_ : Result (Unit {0})). Run Outcome) [
              | err e ↦ abandon mqname s e
              | ok u ↦ (λ c. then_run (await_answer os n s c) (conclude mqname s))
            ])
              calls')
    sent-IsSettled (err e) calls' = abandon-IsSettled os n mqname s e calls'
    sent-IsSettled (ok u) calls' =
        let sum : n + 0 ≡ n = omega arith in
        Gives-bind (Awaited os n) (IsSettled os n) (await_answer os n s calls') (conclude mqname s)
          (subst (λ m. Gives (Awaited os m) (await_answer os n s calls')) sum
            (await_answer-Awaited os n 0 s calls' tt))
          (λ ack c h. conclude-IsSettled os n mqname s ack c h o o')

-- Where the client's own queue is open and its name fits a message, psmq_init_wq runs without a fault,
-- however its calls are answered. Where it ends with 0 both queues are open; where it ends with -1
-- both are marked closed; and it still waits only where each of the `n` messages that it received was
-- no answer to an open request.
pub init_wq-IsSettled :
    (os : Os) (n : ℕ) (s : Psmq) (brokername mqname : Bytes) (calls : List Syscall)
    → is_open s.qsub ≡ true
    → IsString mqname
    → length mqname + 1 ≤ os.msg_max
    → Gives (IsSettled os n) (init_wq os n s brokername mqname calls)
unfolding init_wq issue
init_wq-IsSettled os n s brokername mqname calls o h fits =
    opened-IsSettled (os.mq_open calls (opens_write brokername))
  where
    opened-IsSettled :
        (opened : Result ℕ)
        → Gives (IsSettled os n) (
            (elim opened as (λ (_ : Result ℕ). Run Outcome) [
              | err e ↦ (λ c.
                  some (some (record s { qsub = none; qpub = none }, err e), closes s.qsub ∷ c))
              | ok q ↦ register os n mqname (record s { qpub = some q })
            ])
              (opens_write brokername ∷ calls))
    opened-IsSettled (err e) = (refl, refl)
    opened-IsSettled (ok q) =
        register-IsSettled os n mqname (record s { qpub = some q }) (opens_write brokername ∷ calls)
          o refl h fits
