-- ===== src/Suite/Tables.antt =====
-- src/tst/psmqd.c: the tables of the tests of wildcards, which depend on PSMQ_MSG_MAX and
-- PSMQ_MAX_CLIENTS.
pub mod Plus
pub mod Star
pub mod Mixed
pub mod Right
use Prim.Native.Char.{code}
use Prim.Native.String.{String}
use psmq.Prelude.{ℕ, Bool, ◌&&◌, List, [], ◌∷◌, leb, if◌then◌else◌}
use psmq.CString.{Bytes}
use psmq.Suite.{Row}

-- The bytes of a text in ASCII.
abbrev pub codes : String → Bytes
codes String.[] = []
codes (String.◌∷◌ c s) = code c ∷ codes s

abbrev pub row : String → List ℕ → Row
row topic matches = record { topic = codes topic; matches = matches }

-- #if PSMQ_MSG_MAX >= least_size && PSMQ_MAX_CLIENTS >= least_clients
abbrev pub from_size {ℓ} :
    {A : Type ℓ} → (msg_max max_clients least_size least_clients : ℕ) → List A → List A
from_size msg_max max_clients least_size least_clients rows =
    if leb least_size msg_max && leb least_clients max_clients then rows else []
