-- ===== src/Psmqd.antt =====
-- src/psmqd.c: the broker's program.
pub mod Args
pub mod Runs
use psmq.Prelude.{ℕ, zero, suc, Bool, true, false, List, Option, none, some}
use psmq.Platform.{Platform}
use psmq.Broker.State.{M, pure, ◌>>=◌, ◌>>◌}
use psmq.Broker.Loop.{Event, Exit, stopped, failed, waiting, broker_start}
use psmq.Broker.Session.{Cfg, broker_init, broker_cleanup}
use psmq.Psmqd.Args.{ℤ, pos, negsuc, Strtol, Arg, Config, cfg_init}

module _ (p : Platform) (cfg : Cfg) where
  -- After the main loop. The program is still in it where the events are used up: no exit code.
  unfoldable pub leave : Exit → M (Option ℕ)
  leave waiting = pure none
  leave stopped = do broker_cleanup p cfg; pure (some 0)
  leave failed = do broker_cleanup p cfg; pure (some 0)

  -- What main does once the queue is there, or could not be opened.
  unfoldable pub serve : List Event → Bool → M (Option ℕ)
  serve events false = pure (some 0)
  serve events true = broker_start p events >>= leave

  -- main from psmqd_broker_init on
  unfoldable pub start : List Event → M (Option ℕ)
  start events = broker_init p cfg >>= serve events

module _ (p : Platform) (embedlog : Bool) (strtol : Strtol) where
  -- The switch on what psmqd_cfg_init returns.
  unfoldable pub configured : List Event → Config × ℤ → M (Option ℕ)
  configured events (cfg, pos zero) = start p cfg.broker events
  configured events (cfg, pos (suc n)) = pure (some 1)
  configured events (cfg, negsuc zero) = pure (some 1)
  configured events (cfg, negsuc (suc zero)) = pure (some 0)
  configured events (cfg, negsuc (suc (suc zero))) = pure (some 0)
  configured events (cfg, negsuc (suc (suc (suc n)))) = pure (some 1)

  -- main, with what its calls of getopt() and the waits of its main loop give: the exit code.
  unfoldable pub psmqd_main : List Arg → List Event → M (Option ℕ)
  psmqd_main args events = configured events (cfg_init embedlog strtol args)
