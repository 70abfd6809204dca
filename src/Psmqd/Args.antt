-- ===== src/Psmqd/Args.antt =====
-- src/cfg.c: psmqd_cfg_init. What getopt() returns, up to its -1, is a list of the option's letter and
-- `optarg`; strtol() is a parameter, which gives the number and what `endptr` leads to.
pub mod Accepted
pub mod Reads
use psmq.Prelude.{
  ℕ, ◌-◌, ◌^◌, Bool, true, false, ◌&&◌, List, [], ◌∷◌, Option, none, some, ltb, ◌==◌, if◌then◌else◌,
}
use psmq.CString.{Bytes}
use psmq.Broker.Session.{Cfg}

-- A number with its sign: `negsuc n` is -(n + 1).
pub data ℤ : Type 0 where
  pos negsuc : ℕ → ℤ

abbrev pub Strtol : Type 0
Strtol = Bytes → ℤ × Bytes

-- What getopt() returns, and `optarg`.
abbrev pub Arg : Type 0
Arg = ℕ × Bytes

-- struct psmqd_cfg, with the fields that are there with embedlog.
pub record Config : Type 0 where
  pub broker : Cfg
  pub log_level : ℕ
  pub colorful_output : Bool
  pub program_log : Option Bytes

abbrev pub int_max : ℕ
int_max = 2147483647

-- The range check of PARSE_INT; MINV is 0 at each use.
unfoldable pub in_range : ℕ → ℤ × Bytes → Option ℕ
in_range maxv (val, c ∷ rest) = none
in_range maxv (negsuc n, []) = none
in_range maxv (pos n, []) = if ltb maxv n then none else some n

-- PARSE_INT
unfoldable pub parse_int : Strtol → ℕ → Bytes → Option ℕ
unfolding in_range
parse_int strtol maxv optarg = in_range maxv (strtol optarg)

-- One option: the loop goes on, or the function returns.
pub data Step : Type 0 where
  goes_on : Config → Step
  returns : ℤ → Step

abbrev store_level : Config → Option ℕ → Step
store_level cfg none = returns (negsuc 0)
store_level cfg (some val) = goes_on (record cfg { log_level = val })

abbrev store_maxmsg : Config → Option ℕ → Step
store_maxmsg cfg none = returns (negsuc 0)
store_maxmsg cfg (some val) =
    goes_on (record cfg { broker = record cfg.broker { broker_maxmsg = val } })

-- The options that are there with embedlog.
unfoldable pub log_option : Strtol → Config → Arg → Step → Step
unfolding parse_int
log_option strtol cfg (arg, optarg) others =
    if arg == b'c'
    then goes_on (record cfg { colorful_output = true })
    else if arg == b'l'
    then store_level cfg (parse_int strtol 7 optarg)
    else if arg == b'p'
    then goes_on (record cfg { program_log = some optarg })
    else others

-- The options that print and end the program, and the errors of getopt().
unfoldable pub ending_option : ℕ → ℤ
ending_option arg =
    if arg == b'h'
    then negsuc 1
    else if arg == b'v'
    then negsuc 2
    else if arg == b':'
    then negsuc 3
    else if arg == b'?'
    then negsuc 4
    else negsuc 5

unfoldable pub broker_option : Strtol → Config → Arg → Step
unfolding parse_int ending_option
broker_option strtol cfg (arg, optarg) =
    if arg == b'm'
    then store_maxmsg cfg (parse_int strtol int_max optarg)
    else if arg == b'b'
    then goes_on (record cfg { broker = record cfg.broker { broker_name = optarg } })
    else if arg == b'r'
    then goes_on (record cfg { broker = record cfg.broker { remove_queue = true } })
    else returns (ending_option arg)

-- The switch of cfg_parse_args; whether embedlog is there is a choice of the build.
unfoldable pub parse_option : Bool → Strtol → Config → Arg → Step
unfolding log_option broker_option
parse_option true strtol cfg arg = log_option strtol cfg arg (broker_option strtol cfg arg)
parse_option false strtol cfg arg = broker_option strtol cfg arg

-- The rest of the loop after an option, or what the function returns there.
abbrev pub resume : Step → Config → (Config → Config × ℤ) → Config × ℤ
resume (goes_on cfg') cfg rest = rest cfg'
resume (returns code) cfg rest = (cfg, code)

-- cfg_parse_args: the configuration that it leaves behind, and what it returns.
unfoldable pub cfg_parse_args : Bool → Strtol → List Arg → Config → Config × ℤ
cfg_parse_args embedlog strtol [] cfg = (cfg, pos 0)
cfg_parse_args embedlog strtol (arg ∷ args) cfg =
    resume (parse_option embedlog strtol cfg arg) cfg (cfg_parse_args embedlog strtol args)

-- EL_INFO
abbrev pub el_info : ℕ
el_info = 6

-- The zeroed `g_psmqd_cfg` with the defaults of psmqd_cfg_init.
abbrev pub defaults : Bool → Config
defaults embedlog = record {
  broker = record {
    remove_queue = false;
    broker_name = b'/' ∷ b'p' ∷ b's' ∷ b'm' ∷ b'q' ∷ b'd' ∷ [];
    broker_maxmsg = 10;
  };
  log_level = if embedlog then el_info else 0;
  colorful_output = false;
  program_log = none;
}

-- psmqd_cfg_init
unfoldable pub cfg_init : Bool → Strtol → List Arg → Config × ℤ
unfolding cfg_parse_args
cfg_init embedlog strtol args = cfg_parse_args embedlog strtol args (defaults embedlog)
