-- ===== src/Broker/State.antt =====
-- The globals of src/broker.c, and commands over them.
use psmq.Prelude.{ℕ, List, ◌∷◌, Option, none, some, get_elem?, set, ltb, if◌then◌else◌, length}
use psmq.CString.{Bytes}
use psmq.Platform.{Mqd, Call}

-- `struct client`: `mq` is `none` where the slot is free.
pub record Client : Type 0 where
  pub mq : Mqd
  pub topics : List Bytes
  pub missed_pubs : ℕ
  pub reply_timeout : ℕ

-- The array `clients`, the control queue `qctrl`, and the calls made so far, the last one first.
pub record Broker : Type 0 where
  pub clients : List Client
  pub qctrl : Mqd
  pub calls : List Call

-- A command gives a value and the broker after it; `none` is a read or a write out of bounds.
abbrev pub M : Type 0 → Type 0
M A = Broker → Option (A × Broker)

module _ {A : Type 0} where
  abbrev pub pure : A → M A
  pure a b = some (a, b)

  -- A fault of a buffer operation is a fault of the command.
  abbrev pub lift : Option A → M A
  lift none b = none
  lift (some a) b = some (a, b)

module _ {A B : Type 0} where
  abbrev pub and_then : Option (A × Broker) → (A → M B) → Option (B × Broker)
  and_then none f = none
  and_then (some (a, b)) f = f a b

  infixl 5 ◌>>=◌ ◌>>◌
  abbrev pub ◌>>=◌ : M A → (A → M B) → M B
  ◌>>=◌ m f b = and_then (m b) f

  abbrev pub ◌>>◌ : M A → M B → M B
  ◌>>◌ m n b = and_then (m b) (λ _. n)

-- `clients[fd]`
unfoldable pub load_client : ℕ → M Client
load_client fd b = elim (get_elem? b.clients fd) [ none ↦ none | some c ↦ some (c, b) ]

-- `clients[fd] = c`
unfoldable pub store_client : ℕ → Client → M (Unit {0})
store_client fd c b =
    if ltb fd (length b.clients) then some (tt, record b { clients = set b.clients fd c }) else none

-- A call whose answer is not used.
unfoldable pub issue : Call → M (Unit {0})
issue call b = some (tt, record b { calls = call ∷ b.calls })

-- A call whose answer is what the platform says.
unfoldable pub ask : {A : Type 0} → (List Call → Call → A) → Call → M A
ask answer call b = some (answer b.calls call, record b { calls = call ∷ b.calls })
