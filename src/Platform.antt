-- ===== src/Platform.antt =====
-- What the program does not implement: message queues, memory and the clock of the operating
-- system, and the two limits that the build chooses. An answer may depend on all calls before it.
use psmq.Prelude.{ℕ, Bool, List, Option}
use psmq.CString.{Bytes}
use psmq.Message.{Msg}
use psmq.Time.{Timespec}

-- A queue descriptor, `mqd_t`; `none` is (mqd_t)-1.
abbrev pub Mqd : Type 0
Mqd = Option ℕ

-- The calls that the program makes.
pub data Call : Type 0 where
  -- mq_open(name, O_RDWR) or mq_open(name, O_WRONLY)
  opens : Bytes → Call
  -- mq_open with O_CREAT, whether O_EXCL is set, and `mq_maxmsg`
  creates : Bytes → Bool → ℕ → Call
  closes : Mqd → Call
  unlinks : Bytes → Call
  -- mq_timedsend: descriptor, what is sent, its priority, the time to give up
  sends : Mqd → Msg → ℕ → Timespec → Call
  -- mq_timedreceive with a time in the past, the message thrown away
  discards : Mqd → Call
  -- malloc(size)
  allocates : ℕ → Call

pub record Platform : Type 0 where
  -- PSMQ_MSG_MAX
  pub msg_max : ℕ
  -- PSMQ_MAX_CLIENTS
  pub max_clients : ℕ
  -- The answers, given the calls so far, the last one first, and the call. mq_open gives -1 or a
  -- descriptor; mq_timedsend and malloc fail or not.
  pub mq_open : List Call → Call → Mqd
  pub mq_timedsend : List Call → Call → Bool
  pub malloc : List Call → Call → Bool
  -- clock_gettime(CLOCK_REALTIME)
  pub clock : List Call → Timespec
