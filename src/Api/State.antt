-- ===== src/Api/State.antt =====
-- `struct psmq`, and what a client asks of its operating system, which is another process's than the
-- broker's.
use psmq.Prelude.{ℕ, Bool, true, false, List, ◌∷◌, Option, none, some, ◌==◌}
use psmq.CString.{Bytes}
use psmq.Errno.{Result}
use psmq.Message.{Msg}
use psmq.Platform.{Mqd}
use psmq.Time.{Timespec}

pub record Psmq : Type 0 where
  pub qsub : Mqd
  pub qpub : Mqd
  pub fd : ℕ

-- The calls that the library makes.
pub data Syscall : Type 0 where
  -- mq_open(name, O_WRONLY)
  opens_write : Bytes → Syscall
  -- mq_open(name, O_RDONLY | O_CREAT), whether with O_EXCL, and `mq_maxmsg`
  creates_read : Bytes → Bool → ℕ → Syscall
  -- mq_send: descriptor, what is sent, its priority
  sends : Mqd → Msg → ℕ → Syscall
  -- mq_receive
  receives : Mqd → Syscall
  -- mq_timedreceive
  receives_until : Mqd → Timespec → Syscall
  closes : Mqd → Syscall
  unlinks : Bytes → Syscall

pub record Os : Type 0 where
  -- PSMQ_MSG_MAX and PSMQ_MAX_CLIENTS
  pub msg_max : ℕ
  pub max_clients : ℕ
  -- The answers, given the calls so far, the last one first, and the call: a value, or errno.
  pub mq_open : List Syscall → Syscall → Result ℕ
  pub mq_send : List Syscall → Syscall → Result (Unit {0})
  -- mq_receive and mq_timedreceive: the struct that is filled, and the priority.
  pub mq_receive : List Syscall → Syscall → Result (Msg × ℕ)
  -- clock_gettime(CLOCK_REALTIME)
  pub clock : List Syscall → Timespec

-- A command gives a value and the calls after it; `none` is a read or a write out of bounds.
abbrev pub Run : Type 0 → Type 0
Run A = List Syscall → Option (A × List Syscall)

module _ {A : Type 0} where
  abbrev pub give : A → Run A
  give a calls = some (a, calls)

  -- A fault of a buffer operation is a fault of the command.
  abbrev pub checked : Option A → Run A
  checked none calls = none
  checked (some a) calls = some (a, calls)

  abbrev pub call : (List Syscall → Syscall → A) → Syscall → Run A
  call answer c calls = some (answer calls c, c ∷ calls)

module _ {A B : Type 0} where
  abbrev pub then_run : Option (A × List Syscall) → (A → Run B) → Option (B × List Syscall)
  then_run none f = none
  then_run (some (a, calls)) f = f a calls

  infixl 5 ◌>>=◌ ◌>>◌
  abbrev pub ◌>>=◌ : Run A → (A → Run B) → Run B
  ◌>>=◌ m f calls = then_run (m calls) f

  abbrev pub ◌>>◌ : Run A → Run B → Run B
  ◌>>◌ m n calls = then_run (m calls) (λ _. n)

-- `a == b` of two descriptors
unfoldable pub mqd_eq : Mqd → Mqd → Bool
mqd_eq none none = true
mqd_eq none (some b) = false
mqd_eq (some a) none = false
mqd_eq (some a) (some b) = a == b

abbrev pub is_open : Mqd → Bool
is_open none = false
is_open (some q) = true
