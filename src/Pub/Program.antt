-- ===== src/Pub/Program.antt =====
-- src/psmq-pub.c: main. What getopt() returns, up to its -1, is a list; atoi() is a parameter.
pub mod Publishes
use psmq.Prelude.{
  ℕ, ◌+◌, Bool, true, false, ◌||◌, List, [], ◌∷◌, ◌++◌, Option, none, some, ltb, ◌==◌,
  if◌then◌else◌, length,
}
use psmq.CString.{Bytes}
use psmq.Errno.{Result, ok, err}
use psmq.Api.State.{Psmq, Os, Run, give, ◌>>=◌, ◌>>◌, unlinks}
use psmq.Api.Init.{issue, default_qname, zeroed_psmq, init_named, cleanup}
use psmq.Pub.{publish_payload, send_stdin_binary, send_stdin}

-- The variables of main that the options set.
pub record Options : Type 0 where
  pub broker_name : Option Bytes
  pub qname : Option Bytes
  pub message : Option Bytes
  pub topic : Option Bytes
  pub send_empty : Bool
  pub send_binary : Bool
  pub prio : ℕ

abbrev pub no_options : Options
no_options = record {
  broker_name = none;
  qname = none;
  message = none;
  topic = none;
  send_empty = false;
  send_binary = false;
  prio = 0;
}

-- An option: the loop goes on, or main returns.
pub data Step : Type 0 where
  goes_on : Options → Step
  exits : ℕ → Step

-- The switch on an option; `atoi` gives an unsigned int.
unfoldable pub pub_option : (Bytes → ℕ) → Options → ℕ × Bytes → Step
pub_option atoi o (arg, optarg) =
    if arg == b'b'
    then goes_on (record o { broker_name = some optarg })
    else if arg == b'm'
    then goes_on (record o { message = some optarg })
    else if arg == b't'
    then goes_on (record o { topic = some optarg })
    else if arg == b'n'
    then goes_on (record o { qname = some optarg })
    else if arg == b'p'
    then goes_on (record o { prio = atoi optarg })
    else if arg == b'e'
    then goes_on (record o { send_empty = true })
    else if arg == b'B'
    then goes_on (record o { send_binary = true })
    else if (arg == b'v') || (arg == b'h')
    then exits 0
    else if (arg == b':') || (arg == b'?')
    then exits 1
    else goes_on o

abbrev pub resume : (Options → Step) → Step → Step
resume rest (goes_on o) = rest o
resume rest (exits code) = exits code

-- The loop over the options.
unfoldable pub pub_options : (Bytes → ℕ) → List (ℕ × Bytes) → Options → Step
pub_options atoi [] o = goes_on o
pub_options atoi (arg ∷ args) o = resume (pub_options atoi args) (pub_option atoi o arg)

abbrev pub one : Bool → ℕ
one true = 1
one false = 0

abbrev pub is_given : Option Bytes → Bool
is_given none = false
is_given (some a) = true

-- `!!message + send_binary + send_empty`
abbrev pub sources : Options → ℕ
sources o = one (is_given o.message) + one o.send_binary + one o.send_empty

-- "/psmq_pub"
abbrev pub pub_qname : Bytes
pub_qname = b'/' ∷ b'p' ∷ b's' ∷ b'm' ∷ b'q' ∷ b'_' ∷ b'p' ∷ b'u' ∷ b'b' ∷ []

abbrev pub or_else : Bytes → Option Bytes → Bytes
or_else d none = d
or_else d (some a) = a

-- What main publishes of: what read() gives, what is in the buffer `line`, and what fgets() gives.
pub record Input : Type 0 where
  pub reads : List (Result Bytes)
  pub line : Bytes
  pub gots : List (Option Bytes)

module _ (os : Os) (n : ℕ) (input : Input) where
  -- What main publishes; what publish() returns is not used.
  unfoldable pub publish_source : Options → Psmq → Bytes → Run (Unit {0})
  publish_source o s topic =
      if o.send_empty
      then (do publish_payload os s topic o.prio none 0; give tt)
      else if o.send_binary
      then send_stdin_binary os s topic o.prio input.reads
      else publish_text o.message
    where
      publish_text : Option Bytes → Run (Unit {0})
      publish_text none = send_stdin os s topic o.prio input.line input.gots
      publish_text (some message) = do
        publish_payload os s topic o.prio (some (message ++ 0 ∷ [])) (length message + 1)
        give tt

  -- main once psmq_init_named has returned: the exit code, or none where it has not.
  unfoldable pub connected : Options → Bytes → Option (Psmq × Result (Unit {0})) → Run (Option ℕ)
  connected o topic none = give none
  connected o topic (some (s, err e)) = give (some 1)
  connected o topic (some (s, ok u)) = do
    publish_source o s topic
    cleanup os (some s)
    issue (unlinks (or_else pub_qname o.qname))
    give (some 0)

  -- main behind the test for a topic
  unfoldable pub with_topic : Options → Option Bytes → Run (Option ℕ)
  with_topic o none = give (some 1)
  with_topic o (some topic) =
      if ltb 1 (sources o)
      then give (some 1)
      else init_named os n (some (zeroed_psmq os n)) (some (or_else default_qname o.broker_name))
          (some (or_else pub_qname o.qname)) 2
        >>= connected o topic

  unfoldable pub after_options : Step → Run (Option ℕ)
  after_options (exits code) = give (some code)
  after_options (goes_on o) = with_topic o o.topic

  -- main
  unfoldable pub psmq_pub_main : (Bytes → ℕ) → List (ℕ × Bytes) → Run (Option ℕ)
  psmq_pub_main atoi args = after_options (pub_options atoi args no_options)
