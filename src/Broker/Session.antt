-- ===== src/Broker/Session.antt =====
-- src/broker.c: psmqd_broker_init and psmqd_broker_cleanup, and the globals before the first of them.
pub mod Init
pub mod Cleanup
use psmq.Prelude.{
  ℕ, zero, suc, ◌+◌, Bool, true, false, List, [], Option, none, some, if◌then◌else◌, map, replicate,
}
use psmq.CString.{Bytes}
use psmq.Platform.{Mqd, Call, Platform, creates, closes, unlinks}
use psmq.Broker.State.{Client, Broker, M, pure, ◌>>=◌, ◌>>◌, load_client, issue, ask}
use psmq.Broker.Reply.{is_free}
use psmq.Broker.Requests.{broker_close}

-- The part of `g_psmqd_cfg` that the broker uses.
pub record Cfg : Type 0 where
  pub remove_queue : Bool
  pub broker_name : Bytes
  pub broker_maxmsg : ℕ

-- The globals when the program starts: static memory is zeroed.
abbrev pub zeroed : Platform → Broker
zeroed p = record {
  clients =
      replicate p.max_clients
        (record { mq = some 0; topics = []; missed_pubs = 0; reply_timeout = 0 });
  qctrl = some 0;
  calls = [];
}

abbrev pub invalidate : Client → Client
invalidate c = record c { mq = none }

-- `clients[i].mq = (mqd_t)-1` for each slot
unfoldable pub invalidate_clients : M (Unit {0})
invalidate_clients b = some (tt, record b { clients = map invalidate b.clients })

-- `qctrl = mq`
unfoldable pub store_qctrl : Mqd → M (Unit {0})
store_qctrl mq b = some (tt, record b { qctrl = mq })

-- `if (g_psmqd_cfg.remove_queue) mq_unlink(...)`, whose failure is only logged
unfoldable pub remove_stale : Cfg → M (Unit {0})
remove_stale cfg = if cfg.remove_queue then issue (unlinks cfg.broker_name) else pure tt

module _ (p : Platform) (cfg : Cfg) where
  -- The loop that opens the control queue, with the tries that are left; true where one succeeded.
  unfoldable pub open_control : ℕ → M Bool
  open_control zero = pure false
  open_control (suc tries) = do
    q ← ask p.mq_open (creates cfg.broker_name true cfg.broker_maxmsg)
    store_qctrl q
    elim q [ none ↦ open_control tries | some d ↦ pure true ]

  -- psmqd_broker_init
  unfoldable pub broker_init : M Bool
  broker_init = do invalidate_clients; remove_stale cfg; open_control 10

module _ (p : Platform) where
  -- One round of the loop of psmqd_broker_cleanup.
  unfoldable pub cleanup_client : ℕ → M Bool
  cleanup_client fd = do c ← load_client fd; if is_free c then pure true else broker_close p fd

  -- The loop, over `n` slots from slot `fd` on.
  unfoldable pub cleanup_clients : ℕ → ℕ → M (Unit {0})
  cleanup_clients zero fd = pure tt
  cleanup_clients (suc n) fd = do cleanup_client fd; cleanup_clients n (fd + 1)

  unfoldable pub close_control : M (Unit {0})
  close_control b = issue (closes b.qctrl) b

  -- psmqd_broker_cleanup
  unfoldable pub broker_cleanup : Cfg → M Bool
  broker_cleanup cfg = do
    cleanup_clients p.max_clients 0
    close_control
    issue (unlinks cfg.broker_name)
    pure true
