-- ===== src/Tests/Daemon.antt =====
-- The broker's program at concrete inputs.
use psmq.Prelude.{ℕ, ◌-◌, ◌≡◌, ◌↔◌, refl, true, [], ◌∷◌, ◌++◌, All, List, some}
use psmq.CString.{Bytes}
use psmq.Broker.Loop.{message, shutdown, interrupted}
use psmq.Broker.Session.{zeroed}
use psmq.Psmqd.{psmqd_main}
use psmq.Psmqd.Args.{pos, Strtol, Config, defaults, parse_option, cfg_init}
use psmq.Psmqd.Args.Accepted.{Accepted, cfg_init-iff-Accepted}
use psmq.Psmqd.Args.Reads.{Reads, cfg_init-Reads}
use psmq.Psmqd.Runs.{Runs, Exits, psmqd_main-Runs, psmqd_main-Exits}
use psmq.Tests.{small, small-IsBuild, hello, hello-IsMessage, hello-IsSafe}

-- strtol() on numbers of one digit
abbrev one_digit : Strtol
one_digit [] = (pos 0, [])
one_digit (c ∷ rest) = (pos (c - 48), rest)

-- -m 5 -r -p /l -c
abbrev daemon_args : List (ℕ × Bytes)
daemon_args = (b'm', b'5' ∷ []) ∷ (b'r', []) ∷ (b'p', b'/' ∷ b'l' ∷ []) ∷ (b'c', []) ∷ []

abbrev accepted : Config
accepted = record (defaults true) {
  broker = record (defaults true).broker { broker_maxmsg = 5; remove_queue = true };
  colorful_output = true;
  program_log = some (b'/' ∷ b'l' ∷ []);
}

cfg_init-iff-Accepted_example :
    ((cfg_init true one_digit daemon_args).1 ≡ pos 0) ↔ All (Accepted true one_digit) daemon_args
cfg_init-iff-Accepted_example = cfg_init-iff-Accepted true one_digit daemon_args

daemon_args-accepted : cfg_init true one_digit daemon_args ≡ (accepted, pos 0)
unfolding cfg_init parse_option
daemon_args-accepted = refl

cfg_init-Reads_example : Reads true one_digit (defaults true) daemon_args accepted
cfg_init-Reads_example = cfg_init-Reads true one_digit daemon_args accepted daemon_args-accepted

psmqd_main-Runs_example :
    Runs small
      (message hello 0 ∷ shutdown ∷ [])
      (cfg_init true one_digit daemon_args).0.broker.broker_name
      (psmqd_main small true one_digit daemon_args (message hello 0 ∷ shutdown ∷ []) (zeroed small))
psmqd_main-Runs_example =
    psmqd_main-Runs small true one_digit daemon_args (message hello 0 ∷ shutdown ∷ []) small-IsBuild
      (hello-IsMessage, hello-IsSafe, tt)

psmqd_main-Exits_example : Exits (
    psmqd_main small true one_digit daemon_args
      ((message hello 0 ∷ interrupted ∷ []) ++ shutdown ∷ [])
      (zeroed small))
psmqd_main-Exits_example =
    psmqd_main-Exits small true one_digit daemon_args (message hello 0 ∷ interrupted ∷ []) []
      small-IsBuild (hello-IsMessage, hello-IsSafe, tt)
