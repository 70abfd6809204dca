-- ===== src/Psmqd/Args/Reads.antt =====
-- What a configuration that psmqd_cfg_init accepts holds of its arguments.
use psmq.Prelude.{
  ℕ, ◌≡◌, ap, Bool, true, false, ◌||◌, List, [], ◌∷◌, Option, none, some, ◌==◌, inl, inr,
  Bool-cases, if◌then◌else◌, arith, Option-cases, sym, subst, ◌∙◌,
}
use psmq.CString.{Bytes}
use psmq.Psmqd.Args.{
  pos, Strtol, Arg, Config, int_max, parse_int, Step, goes_on, log_option, broker_option,
  parse_option, cfg_parse_args, defaults, cfg_init,
}
use psmq.Psmqd.Args.Accepted.{IsNumber, in_range_iff, Step-cases, parse_option-returns}

-- The options one by one: which are accepted, and what an accepted one sets.
module _ (embedlog : Bool) (strtol : Strtol) where
  abbrev pub Sets : Config → Arg → Config → Type 0
  Sets cfg (arg, optarg) cfg' =
      (cfg'.broker.broker_name ≡ (if arg == b'b' then optarg else cfg.broker.broker_name))
      × (cfg'.broker.remove_queue ≡ ((arg == b'r') || cfg.broker.remove_queue))
      × (if arg == b'm'
          then IsNumber strtol int_max optarg cfg'.broker.broker_maxmsg
          else cfg'.broker.broker_maxmsg ≡ cfg.broker.broker_maxmsg)
      × (if arg == b'l'
          then IsNumber strtol 7 optarg cfg'.log_level
          else cfg'.log_level ≡ cfg.log_level)
      × (cfg'.colorful_output ≡ ((arg == b'c') || cfg.colorful_output))
      × (cfg'.program_log ≡ (if arg == b'p' then some optarg else cfg.program_log))

  broker_option-Sets :
      (cfg cfg' : Config) (a : Arg) → broker_option strtol cfg a ≡ goes_on cfg' → Sets cfg a cfg'
  unfolding broker_option parse_int
  broker_option-Sets cfg cfg' (arg, optarg) e = ground (arith, in_range_iff int_max (strtol optarg))

  log_option-Sets :
      (cfg cfg' : Config) (a : Arg) (others : Step)
      → (others ≡ goes_on cfg' → Sets cfg a cfg')
      → log_option strtol cfg a others ≡ goes_on cfg'
      → Sets cfg a cfg'
  unfolding log_option parse_int
  log_option-Sets cfg cfg' (arg, optarg) others h e = ground (arith, in_range_iff 7 (strtol optarg))

  parse_option-Sets :
      (e : Bool) (cfg cfg' : Config) (a : Arg)
      → parse_option e strtol cfg a ≡ goes_on cfg'
      → Sets cfg a cfg'
  unfolding parse_option
  parse_option-Sets true cfg cfg' a h =
      log_option-Sets cfg cfg' a _ (broker_option-Sets cfg cfg' a) h
  parse_option-Sets false cfg cfg' a h = broker_option-Sets cfg cfg' a h

  -- The argument of the last option of that letter.
  abbrev pub last_arg : ℕ → List Arg → Option Bytes
  last_arg letter [] = none
  last_arg letter ((arg, optarg) ∷ args) = elim (last_arg letter args) [
    | none ↦ if arg == letter then some optarg else none
    | some a ↦ some a
  ]

  abbrev pub Read : (Bytes → ℕ → Type 0) → ℕ → Option Bytes → ℕ → Type 0
  Read P old none v = v ≡ old
  Read P old (some a) v = P a v

  abbrev pub given : Bytes → Option Bytes → Bytes
  given old none = old
  given old (some a) = a

  abbrev pub is_given : Bool → Option Bytes → Bool
  is_given old none = old
  is_given old (some a) = true

  abbrev pub given_arg : Option Bytes → Option Bytes → Option Bytes
  given_arg old none = old
  given_arg old (some a) = some a

  abbrev pub Reads : Config → List Arg → Config → Type 0
  Reads cfg args cfg' =
      (cfg'.broker.broker_name ≡ given cfg.broker.broker_name (last_arg b'b' args))
      × (cfg'.broker.remove_queue ≡ is_given cfg.broker.remove_queue (last_arg b'r' args))
      × Read (IsNumber strtol int_max) cfg.broker.broker_maxmsg (last_arg b'm' args)
          cfg'.broker.broker_maxmsg
      × Read (IsNumber strtol 7) cfg.log_level (last_arg b'l' args) cfg'.log_level
      × (cfg'.colorful_output ≡ is_given cfg.colorful_output (last_arg b'c' args))
      × (cfg'.program_log ≡ given_arg cfg.program_log (last_arg b'p' args))

  Read-cons :
      (P : Bytes → ℕ → Type 0) (old mid v letter : ℕ) (a : Arg) (args : List Arg)
      → (if a.0 == letter then P a.1 mid else mid ≡ old)
      → Read P mid (last_arg letter args) v
      → Read P old (last_arg letter (a ∷ args)) v
  Read-cons P old mid v letter (arg, optarg) args s r = elim (Option-cases (last_arg letter args)) [
    | inr (x, e) ↦ rw e (rw e at r)
    | inl e ↦ elim (Bool-cases (arg == letter)) [
      | inl h ↦ rw (e, h) (subst (P optarg) (sym (rw e at r)) (rw h at s))
      | inr h ↦ rw (e, h) (rw e at r ∙ rw h at s)
    ]
  ]

  given-cons :
      (old mid v : Bytes) (letter : ℕ) (a : Arg) (args : List Arg)
      → mid ≡ (if a.0 == letter then a.1 else old)
      → v ≡ given mid (last_arg letter args)
      → v ≡ given old (last_arg letter (a ∷ args))
  given-cons old mid v letter (arg, optarg) args s r = elim (Option-cases (last_arg letter args)) [
    | inr (x, e) ↦ rw e (rw e at r)
    | inl e ↦ elim (Bool-cases (arg == letter)) [
      | inl h ↦ rw (e, h) (rw e at r ∙ rw h at s)
      | inr h ↦ rw (e, h) (rw e at r ∙ rw h at s)
    ]
  ]

  is_given-cons :
      (old mid v : Bool) (letter : ℕ) (a : Arg) (args : List Arg)
      → mid ≡ ((a.0 == letter) || old)
      → v ≡ is_given mid (last_arg letter args)
      → v ≡ is_given old (last_arg letter (a ∷ args))
  is_given-cons old mid v letter (arg, optarg) args s r =
      elim (Option-cases (last_arg letter args)) [
        | inr (x, e) ↦ rw e (rw e at r)
        | inl e ↦ elim (Bool-cases (arg == letter)) [
          | inl h ↦ rw (e, h) (rw e at r ∙ rw h at s)
          | inr h ↦ rw (e, h) (rw e at r ∙ rw h at s)
        ]
      ]

  given_arg-cons :
      (old mid v : Option Bytes) (letter : ℕ) (a : Arg) (args : List Arg)
      → mid ≡ (if a.0 == letter then some a.1 else old)
      → v ≡ given_arg mid (last_arg letter args)
      → v ≡ given_arg old (last_arg letter (a ∷ args))
  given_arg-cons old mid v letter (arg, optarg) args s r =
      elim (Option-cases (last_arg letter args)) [
        | inr (x, e) ↦ rw e (rw e at r)
        | inl e ↦ elim (Bool-cases (arg == letter)) [
          | inl h ↦ rw (e, h) (rw e at r ∙ rw h at s)
          | inr h ↦ rw (e, h) (rw e at r ∙ rw h at s)
        ]
      ]

  cfg_parse_args-Reads :
      (args : List Arg) (cfg cfg' : Config)
      → cfg_parse_args embedlog strtol args cfg ≡ (cfg', pos 0)
      → Reads cfg args cfg'
  unfolding cfg_parse_args
  cfg_parse_args-Reads [] cfg cfg' h = (cc, cc, cc, cc, cc, cc)
  cfg_parse_args-Reads (a ∷ args) cfg cfg' h =
      elim (Step-cases embedlog strtol (parse_option embedlog strtol cfg a)) [
        | inl (mid, e) ↦
            let s = parse_option-Sets embedlog cfg mid a e in
            let r = cfg_parse_args-Reads args mid cfg' (rw e at h) in
            (
              given-cons _ mid.broker.broker_name _ b'b' a args s.0 r.0,
              is_given-cons _ mid.broker.remove_queue _ b'r' a args s.1 r.1,
              Read-cons (IsNumber strtol int_max) _ mid.broker.broker_maxmsg _ b'm' a args s.2 r.2,
              Read-cons (IsNumber strtol 7) _ mid.log_level _ b'l' a args s.3 r.3,
              is_given-cons _ mid.colorful_output _ b'c' a args s.4 r.4,
              given_arg-cons _ mid.program_log _ b'p' a args s.5 r.5,
            )
        | inr (code, e) ↦
            absurd (parse_option-returns embedlog strtol cfg a code e (ap (λ r. r.1) (rw e at h)))
      ]

-- Where psmqd_cfg_init returns 0, the broker's name, its limit of messages and the log level are those
-- of the last option of their letters, the two numbers as strtol() reads them and within their
-- bounds, and otherwise the defaults; the file of the program's log is that of the last -p, if any;
-- and the stale queue is removed exactly where -r is given, and the output coloured exactly where -c is.
pub cfg_init-Reads :
    (embedlog : Bool) (strtol : Strtol) (args : List Arg) (cfg : Config)
    → cfg_init embedlog strtol args ≡ (cfg, pos 0)
    → Reads embedlog strtol (defaults embedlog) args cfg
unfolding cfg_init
cfg_init-Reads embedlog strtol args cfg h =
    cfg_parse_args-Reads embedlog strtol args (defaults embedlog) cfg h
