-- ===== src/Sub/Again.antt =====
-- src/psmq-sub.c: main called again in a process where it has connected before, as a build without
-- separate programs does.
use psmq.Prelude.{
  ℕ, ◌≡◌, refl, Bool, true, false, not, ◌&&◌, ◌||◌, ◌++◌, All, List, [], ◌∷◌, Option, none, some,
  ◌==◌, Bool-cases, inl, inr, get_or,
}
use psmq.CString.{Bytes}
use psmq.Errno.{Result, ok, err}
use psmq.Message.{Msg}
use psmq.Api.State.{Os, Syscall, mqd_eq}
use psmq.Api.Send.{subscribe, request_topic}
use psmq.Api.Init.{zeroed_psmq, cleanup}
use psmq.Topic.{slash}
use psmq.Sub.Program.{
  Subscriber, goes_on, exits, Round, option_b, hang_up, sub_connect, give_up, subscribe_topic,
  option_t, sub_option, sub_options, sub_qname, after_options, psmq_sub_main,
}

-- Did it fail, without a call?
abbrev FailsQuietly : List Syscall → Option (Result (Unit {0}) × List Syscall) → Type 0
FailsQuietly calls none = ⊥
FailsQuietly calls (some (ok u, calls')) = ⊥
FailsQuietly calls (some (err e, calls')) = calls' ≡ calls

subscribe-unconnected :
    (os : Os) (n : ℕ) (topic : Bytes) (calls : List Syscall)
    → FailsQuietly calls (subscribe os (some (zeroed_psmq os n)) (some topic) calls)
unfolding subscribe request_topic mqd_eq
subscribe-unconnected os n topic calls = elim (Bool-cases (get_or topic 0 0 == 0)) [
  | inl e ↦ rw e refl
  | inr e ↦ elim (Bool-cases (get_or topic 0 0 == slash)) [
    | inl k ↦ rw (e, k) refl
    | inr k ↦ rw (e, k) refl
  ]
]

-- The variables of main before it has connected, with the static that is left over.
abbrev left_over : Os → ℕ → Bytes → Bool → Bool → Subscriber
left_over os n qname got_b got_t = record {
  psmq = zeroed_psmq os n;
  qname = qname;
  got_b = got_b;
  got_t = got_t;
  connected = true;
}

module _ (os : Os) (n : ℕ) (buffer : Msg) (isprint isspace : ℕ → Bool) (opens_log : Bytes → Bool)
    (qname : Bytes) (got_b : Bool) where
  give_up-unconnected :
      (calls : List Syscall)
      → give_up os n buffer isprint isspace opens_log (left_over os n qname got_b true) calls
        ≡ some (exits 1 (left_over os n qname got_b true), calls)
  unfolding give_up hang_up cleanup mqd_eq
  give_up-unconnected calls = refl

  asked-unconnected :
      (topic : Bytes) (calls : List Syscall) (o : Option (Result (Unit {0}) × List Syscall))
      → subscribe os (some (zeroed_psmq os n)) (some topic) calls ≡ o
      → FailsQuietly calls o
      → subscribe_topic os n buffer isprint isspace opens_log
          (left_over os n qname got_b true)
          topic
          calls
        ≡ some (exits 1 (left_over os n qname got_b true), calls)
  unfolding subscribe_topic
  asked-unconnected topic calls none e h = absurd h
  asked-unconnected topic calls (some (ok u, calls')) e h = absurd h
  asked-unconnected topic calls (some (err k, calls')) e h = rw (e, h) (give_up-unconnected calls)

  option_t-unconnected :
      (topic : Bytes) (calls : List Syscall)
      → option_t os n buffer isprint isspace opens_log
          (left_over os n qname got_b false)
          topic
          calls
        ≡ some (exits 1 (left_over os n qname got_b true), calls)
  unfolding option_t sub_connect
  option_t-unconnected topic calls =
      let fails = asked-unconnected topic calls _ refl (subscribe-unconnected os n topic calls) in
      elim (Bool-cases got_b) [ inl e ↦ rw e (rw e at fails) | inr e ↦ rw e (rw e at fails) ]

-- An option after which main goes on: another than -t, none that prints and ends the program and no error
-- of getopt(), and where it is -o, with a file that can be opened.
pub record IsPassed (opens_log : Bytes → Bool) (option : ℕ × Bytes) : Type 0 where
  pub no_t : (option.0 == b't') ≡ false
  pub no_o : (option.0 == b'o') && not (opens_log option.1) ≡ false
  pub no_help : (option.0 == b'v') || (option.0 == b'h') ≡ false
  pub no_error : (option.0 == b':') || (option.0 == b'?') ≡ false

module _ (os : Os) (n : ℕ) (buffer : Msg) (isprint isspace : ℕ → Bool)
    (opens_log : Bytes → Bool) where
  option-passed :
      (qname : Bytes) (got_b : Bool) (option : ℕ × Bytes) (calls : List Syscall)
      → IsPassed opens_log option
      → (qname' : Bytes) × (got_b' : Bool) × (sub_option os n buffer isprint isspace opens_log
            (left_over os n qname got_b false)
            option
            calls
          ≡ some (goes_on (left_over os n qname' got_b' false), calls))
  unfolding sub_option option_b sub_connect
  option-passed qname got_b (arg, optarg) calls h =
      let t = h.no_t in
      let o = h.no_o in
      let help = h.no_help in
      let error = h.no_error in
      elim (Bool-cases (arg == b'n')) [
        | inl e ↦ (optarg, got_b, rw e refl)
        | inr e ↦ elim (Bool-cases (arg == b'b')) [
          | inl e' ↦ (qname, true, rw (e, e') refl)
          | inr e' ↦ elim (Bool-cases (arg == b'o')) [
            | inl k ↦ elim (Bool-cases (opens_log optarg)) [
              | inl l ↦ (qname, got_b, rw (e, e', t, k, l) refl)
              | inr l ↦ absurd (cc (rw (k, l) at o))
            ]
            | inr k ↦ (qname, got_b, rw (e, e', t, k, help, error) refl)
          ]
        ]
      ]

  options-fail :
      (qname : Bytes) (got_b : Bool) (before : List (ℕ × Bytes)) (topic : Bytes)
      (after : List (ℕ × Bytes)) (calls : List Syscall)
      → All (IsPassed opens_log) before
      → (s : Subscriber) × (sub_options os n buffer isprint isspace opens_log
            (before ++ (b't', topic) ∷ after)
            (left_over os n qname got_b false)
            calls
          ≡ some (exits 1 s, calls))
  unfolding sub_options sub_option
  options-fail qname got_b [] topic after calls h = (
    left_over os n qname got_b true,
    rw (option_t-unconnected os n buffer isprint isspace opens_log qname got_b topic calls) refl,
  )
  options-fail qname got_b (option ∷ before) topic after calls h =
      let (qname', got_b', e) = option-passed qname got_b option calls h.0 in
      let (s, fails) = options-fail qname' got_b' before topic after calls h.1 in
      (s, rw (e, fails) refl)

-- Where main has connected before in the same process, and its arguments have a -t that no option before
-- it keeps main from reaching: it takes the first topic for one of a connection that is there, with -b or
-- without it, and exits with 1 without a single call, whatever comes behind that -t.
pub psmq_sub_main-fails_again :
    (os : Os) (n : ℕ) (buffer : Msg) (isprint isspace : ℕ → Bool) (opens_log : Bytes → Bool)
    (before : List (ℕ × Bytes)) (topic : Bytes) (after : List (ℕ × Bytes)) (rounds : List Round)
    (calls : List Syscall)
    → All (IsPassed opens_log) before
    → psmq_sub_main os n buffer isprint isspace opens_log true
        (before ++ (b't', topic) ∷ after)
        rounds
        calls
      ≡ some (record { shown = []; code = some 1 }, calls)
unfolding psmq_sub_main after_options
psmq_sub_main-fails_again os n buffer isprint isspace opens_log before topic after rounds calls h =
    let (s, fails) =
      options-fail os n buffer isprint isspace opens_log sub_qname false before topic after calls
        h in
    rw fails refl
