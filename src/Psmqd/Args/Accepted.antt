-- ===== src/Psmqd/Args/Accepted.antt =====
-- Which arguments psmqd_cfg_init accepts.
use psmq.Prelude.{
  ℕ, ◌≤◌, ◌≡◌, ◌≢◌, refl, ◌↔◌, Bool, true, false, List, [], ◌∷◌, none, some, All, ◌==◌, inl, inr,
  Bool-cases, arith, Option-cases, ◌⊎◌,
}
use psmq.CString.{Bytes}
use psmq.Psmqd.Args.{
  ℤ, pos, negsuc, Strtol, Arg, Config, int_max, in_range, parse_int, Step, goes_on, returns,
  log_option, ending_option, broker_option, parse_option, cfg_parse_args, defaults, cfg_init,
}

-- strtol() reads the whole argument, as a number from 0 to `maxv`.
abbrev pub IsNumber : Strtol → ℕ → Bytes → ℕ → Type 0
IsNumber strtol maxv a v = (strtol a ≡ (pos v, [])) × (v ≤ maxv)

pub in_range_iff :
    (maxv : ℕ) (r : ℤ × Bytes) (v : ℕ)
    → (in_range maxv r ≡ some v) ↔ ((r ≡ (pos v, [])) × (v ≤ maxv))
unfolding in_range
in_range_iff maxv (val, c ∷ rest) v = ground arith
in_range_iff maxv (negsuc n, []) v = ground arith
in_range_iff maxv (pos n, []) v = ground arith

module _ (embedlog : Bool) (strtol : Strtol) where
  -- An option that psmqd_cfg_init goes on after.
  abbrev pub Accepted : Arg → Type 0
  Accepted (arg, optarg) =
      (arg ≡ b'b')
      ⊎ ((arg ≡ b'r')
          ⊎ (((arg ≡ b'm') × ((v : ℕ) × IsNumber strtol int_max optarg v))
              ⊎ ((embedlog ≡ true)
                  × ((arg ≡ b'c')
                      ⊎ ((arg ≡ b'p') ⊎ ((arg ≡ b'l') × ((v : ℕ) × IsNumber strtol 7 optarg v)))))))

  Fits : Arg → Step → Type 0
  Fits a (goes_on cfg) = Accepted a
  Fits a (returns code) = (¬ Accepted a) × (code ≢ pos 0)

  ending_option-not_zero : (arg : ℕ) → ending_option arg ≢ pos 0
  unfolding ending_option
  ending_option-not_zero arg = ground arith

  -- Options with a number.
  Number-cases :
      (maxv : ℕ) (optarg : Bytes)
      → ((parse_int strtol maxv optarg ≡ none) × (¬ ((v : ℕ) × IsNumber strtol maxv optarg v)))
        ⊎ ((v : ℕ) × (parse_int strtol maxv optarg ≡ some v) × IsNumber strtol maxv optarg v)
  unfolding parse_int
  Number-cases maxv optarg = elim (Option-cases (in_range maxv (strtol optarg))) [
    | inl e ↦ inl (e, λ h. absurd (cc (e, (in_range_iff maxv (strtol optarg) h.0).1 h.1)))
    | inr (v, e) ↦ inr (v, e, (in_range_iff maxv (strtol optarg) v).0 e)
  ]

  broker_option-Fits :
      (cfg : Config) (a : Arg)
      → (embedlog ≡ true → (a.0 ≢ b'c') × (a.0 ≢ b'p') × (a.0 ≢ b'l'))
      → Fits a (broker_option strtol cfg a)
  unfolding broker_option Fits
  broker_option-Fits cfg (arg, optarg) other = elim (Bool-cases (arg == b'm')) [
    | inl m ↦ elim (Number-cases int_max optarg) [
      | inl (e, none_is) ↦ rw (m, e) ((λ h. ground (arith, none_is)), cc)
      | inr (v, e, n) ↦ rw (m, e) (inr (inr (inl (ground arith, (v, n)))))
    ]
    | inr m ↦ elim (Bool-cases (arg == b'b')) [
      | inl b ↦ rw (m, b) (inl (ground arith))
      | inr b ↦ elim (Bool-cases (arg == b'r')) [
        | inl r ↦ rw (m, b, r) (inr (inl (ground arith)))
        | inr r ↦ rw (m, b, r) ((λ h. ground arith), ending_option-not_zero arg)
      ]
    ]
  ]

  log_option-Fits :
      (cfg : Config) (a : Arg) (others : Step)
      → embedlog ≡ true
      → ((a.0 ≢ b'c') × (a.0 ≢ b'p') × (a.0 ≢ b'l') → Fits a others)
      → Fits a (log_option strtol cfg a others)
  unfolding log_option Fits
  log_option-Fits cfg (arg, optarg) others there h = elim (Bool-cases (arg == b'c')) [
    | inl c ↦ rw c (inr (inr (inr (there, inl (ground arith)))))
    | inr c ↦ elim (Bool-cases (arg == b'l')) [
      | inl l ↦ elim (Number-cases 7 optarg) [
        | inl (e, none_is) ↦ rw (c, l, e) ((λ h. ground (arith, none_is)), cc)
        | inr (v, e, n) ↦ rw (c, l, e) (inr (inr (inr (there, inr (inr (ground arith, (v, n)))))))
      ]
      | inr l ↦ elim (Bool-cases (arg == b'p')) [
        | inl q ↦ rw (c, l, q) (inr (inr (inr (there, inr (inl (ground arith))))))
        | inr q ↦ rw (c, l, q) (h (ground arith))
      ]
    ]
  ]

  parse_option-cases :
      (e : Bool) (cfg : Config) (a : Arg)
      → ((e ≡ true)
          × (parse_option e strtol cfg a ≡ log_option strtol cfg a (broker_option strtol cfg a)))
        ⊎ ((e ≡ false) × (parse_option e strtol cfg a ≡ broker_option strtol cfg a))
  unfolding parse_option
  parse_option-cases true cfg a = inl (refl, refl)
  parse_option-cases false cfg a = inr (refl, refl)

  parse_option-Fits : (cfg : Config) (a : Arg) → Fits a (parse_option embedlog strtol cfg a)
  parse_option-Fits cfg a = elim (parse_option-cases embedlog cfg a) [
    | inl (there, e) ↦
        rw e (log_option-Fits cfg a _ there λ other. broker_option-Fits cfg a λ _. other)
    | inr (absent, e) ↦ rw e (broker_option-Fits cfg a λ there. absurd (cc))
  ]

  pub Step-cases :
      (s : Step) → ((cfg : Config) × (s ≡ goes_on cfg)) ⊎ ((code : ℤ) × (s ≡ returns code))
  Step-cases (goes_on cfg) = inl (cfg, refl)
  Step-cases (returns code) = inr (code, refl)

  pub parse_option-returns :
      (cfg : Config) (a : Arg) (code : ℤ)
      → parse_option embedlog strtol cfg a ≡ returns code
      → code ≢ pos 0
  parse_option-returns cfg a code e =
      let refused : Fits a (returns code) = rw e at (parse_option-Fits cfg a) in
      unfold Fits in refused.1

  cfg_parse_args_iff :
      (args : List Arg) (cfg : Config)
      → ((cfg_parse_args embedlog strtol args cfg).1 ≡ pos 0) ↔ All Accepted args
  unfolding cfg_parse_args Fits
  cfg_parse_args_iff [] cfg = (λ _. tt, λ _. refl)
  cfg_parse_args_iff (a ∷ args) cfg = elim (Step-cases (parse_option embedlog strtol cfg a)) [
    | inl (cfg', e) ↦
        let ok_here = rw e at (parse_option-Fits cfg a) in
        let rest = cfg_parse_args_iff args cfg' in rw e (λ h. (ok_here, rest.0 h), λ h. rest.1 h.1)
    | inr (code, e) ↦
        let refused = rw e at (parse_option-Fits cfg a) in
        rw e (λ h. absurd (refused.1 h), λ h. absurd (refused.0 h.0))
  ]

-- psmqd_cfg_init returns 0 exactly on arguments each of which it accepts: -b, -r, -m with a number
-- from 0 to INT_MAX, and with embedlog -c, -p and -l with a number from 0 to 7.
pub cfg_init-iff-Accepted :
    (embedlog : Bool) (strtol : Strtol) (args : List Arg)
    → ((cfg_init embedlog strtol args).1 ≡ pos 0) ↔ All (Accepted embedlog strtol) args
unfolding cfg_init
cfg_init-iff-Accepted embedlog strtol args =
    cfg_parse_args_iff embedlog strtol args (defaults embedlog)
