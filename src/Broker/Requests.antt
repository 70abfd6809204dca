-- ===== src/Broker/Requests.antt =====
-- src/broker.c: what the broker does with each request. A result true is 0, false is -1.
use psmq.Prelude.{
  ℕ, ◌+◌, ◌*◌, ◌/◌, ◌%◌, Bool, true, false, List, [], ◌∷◌, none, some, ◌==◌, if◌then◌else◌, get_or,
}
use psmq.CString.{Bytes, strlen}
use psmq.Errno.{Result, ok, err, errno_byte, uchar_max, enospc, ebadmsg}
use psmq.Message.{Msg, topic, cmd_open, cmd_close, cmd_subscribe, cmd_unsubscribe}
use psmq.Platform.{Platform, opens, closes, allocates}
use psmq.Topic.{subscribe_refuses}
use psmq.TopicList.{node_size, tl_add, tl_delete}
use psmq.Broker.State.{M, pure, ◌>>=◌, ◌>>◌, load_client, store_client, issue, ask}
use psmq.Broker.Reply.{get_free_client, reply_mq, reply_ctrl}

-- PSMQ_MAX_MISSED_PUBS
abbrev pub max_missed_pubs : ℕ
max_missed_pubs = 10

-- An unsigned short in memory, the low byte first.
unfoldable pub ushort_bytes : ℕ → Bytes
ushort_bytes v = (v % 256) ∷ (v / 256) ∷ []

unfoldable pub bytes_ushort : Bytes → ℕ
bytes_ushort b = get_or b 0 0 + 256 * get_or b 1 0

module _ (p : Platform) where
  -- psmqd_broker_open where all slots are taken
  unfoldable pub no_free_slot : ℕ → M Bool
  no_free_slot q = do
    reply_mq p (some q) cmd_open enospc none none 0 0 0
    issue (closes (some q))
    pure false

  -- psmqd_broker_open where the client could not be told its descriptor
  unfoldable pub give_up_slot : ℕ → ℕ → M Bool
  give_up_slot q fd = do
    issue (closes (some q))
    c ← load_client fd
    store_client fd (record c { mq = none })
    pure false

  -- psmqd_broker_open at a free slot
  unfoldable pub take_slot : ℕ → ℕ → M Bool
  take_slot q fd = do
    c ← load_client fd
    store_client fd (record c { mq = some q })
    sent ← reply_mq p (some q) cmd_open 0 none (some (fd ∷ [])) 1 0 0
    if sent then pure true else give_up_slot q fd

  unfoldable pub open_queue : ℕ → M Bool
  open_queue q = do fd ← get_free_client; if fd == uchar_max then no_free_slot q else take_slot q fd

  -- psmqd_broker_open
  unfoldable pub broker_open : Msg → M Bool
  broker_open msg = do
    qc ← ask p.mq_open (opens (topic msg))
    elim qc [ none ↦ pure false | some q ↦ open_queue q ]

  -- The reply to a request that failed, and the return behind it.
  unfoldable pub refuse : ℕ → ℕ → ℕ → Bytes → M Bool
  refuse fd cmd status extra = do reply_ctrl p fd cmd status (some extra); pure false

  -- The client's list is replaced, and the request confirmed.
  unfoldable pub put_topics : ℕ → ℕ → Bytes → List Bytes → M Bool
  put_topics fd cmd extra new = do
    c ← load_client fd
    store_client fd (record c { topics = new })
    reply_ctrl p fd cmd 0 (some extra)
    pure true

  -- What follows a change of the client's list, or the failure to change it.
  unfoldable pub answer_change : ℕ → ℕ → Bytes → Result (List Bytes) → M Bool
  answer_change fd cmd extra (ok new) = put_topics fd cmd extra new
  answer_change fd cmd extra (err e) = refuse fd cmd (errno_byte e) extra

  -- psmqd_broker_subscribe behind the checks of the topic. The memory of a node holds the topic too.
  unfoldable pub add_topic : ℕ → Bytes → M Bool
  add_topic fd stopic = do
    c ← load_client fd
    memory ← ask p.malloc (allocates (node_size + strlen stopic + 1))
    answer_change fd cmd_subscribe stopic (tl_add memory c.topics stopic)

  -- psmqd_broker_subscribe
  unfoldable pub broker_subscribe : Msg → M Bool
  broker_subscribe msg =
      if subscribe_refuses (topic msg) msg.paylen
      then refuse msg.ctrl_data cmd_subscribe ebadmsg (topic msg)
      else add_topic msg.ctrl_data (topic msg)

  -- psmqd_broker_unsubscribe
  unfoldable pub broker_unsubscribe : Msg → M Bool
  broker_unsubscribe msg = do
    c ← load_client msg.ctrl_data
    answer_change msg.ctrl_data cmd_unsubscribe (topic msg) (tl_delete c.topics (topic msg))

  -- psmqd_broker_close
  unfoldable pub broker_close : ℕ → M Bool
  broker_close fd = do
    c ← load_client fd
    store_client fd (record c { missed_pubs = 0 })
    reply_ctrl p fd cmd_close 0 none
    c' ← load_client fd
    issue (closes c'.mq)
    store_client fd (record c' { mq = none; topics = [] })
    pure true
