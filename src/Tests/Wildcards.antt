-- ===== src/Tests/Wildcards.antt =====
-- The tests of wildcards at a concrete broker and concrete clients.
use psmq.Prelude.{ℕ, ◌<◌, ◌==◌, false, ◌≡◌, refl, true, List, [], ◌∷◌, none, some, length, arith}
use psmq.CString.{Bytes}
use psmq.Errno.{Result, ok}
use psmq.Platform.{Platform}
use psmq.Time.{epoch}
use psmq.Broker.State.{Client}
use psmq.Broker.Valid.{IsBuild, IsClient, IsValid}
use psmq.Api.State.{Os, Syscall}
use psmq.Suite.{World}
use psmq.Suite.Connects.{wildcard_test}
use psmq.Suite.Waiting.{IsName}
use psmq.Suite.Wildcard.{IsTable}
use psmq.Suite.Passes.{wildcard_test-passes}
use psmq.Suite.Tables.{codes}
use psmq.Suite.Tables.Plus
use psmq.Suite.Tables.Star
use psmq.Suite.Tables.Mixed
use psmq.Suite.Tables.Right.{tables_right}

-- A broker for messages of 8 bytes and three clients, where every call succeeds.
abbrev three : Platform
three = record {
  msg_max = 8;
  max_clients = 3;
  mq_open = λ calls _. some (length calls);
  mq_timedsend = λ _ _. true;
  malloc = λ _ _. true;
  clock = λ _. epoch;
}

abbrev descriptor : Syscall → Result ℕ
descriptor (Syscall.opens_write name) = ok 4
descriptor _ = ok 3

abbrev os : Os
os = record {
  msg_max = 8;
  max_clients = 3;
  mq_open = λ _ call. descriptor call;
  mq_send = λ _ _. ok tt;
  mq_receive = λ _ _. ok (record { ctrl_cmd = 0; ctrl_data = 0; paylen = 0; msg_data = [] }, 0);
  clock = λ _. epoch;
}

abbrev vacant : Client
vacant = record { mq = none; topics = []; missed_pubs = 0; reply_timeout = 0 }

-- The world before a test.
abbrev fresh : World
fresh = record {
  broker = record { clients = vacant ∷ vacant ∷ vacant ∷ []; qctrl = some 0; calls = [] };
  calls = [];
  waiting = λ _. [];
}

-- The queues' names, and the topics of the test with '*'.
abbrev users : List (Bytes × Bytes)
users = (codes "/s0", codes "/*") ∷ (codes "/s1", codes "/a/*") ∷ []

three-IsBuild : IsBuild three
three-IsBuild = record {
  msg_max_least = omega arith;
  clients_least = omega arith;
  clients_most = omega arith;
}

vacant-IsClient : IsClient three vacant
vacant-IsClient = record { topics_fit = tt; missed_byte = omega arith; timeout_short = omega arith }

fresh-IsValid : IsValid three fresh.broker
fresh-IsValid = record {
  slots = refl;
  each = (vacant-IsClient, (vacant-IsClient, (vacant-IsClient, tt)));
}

-- "/s" and a digit
queue-IsName : (c : ℕ) → (c == 0) ≡ false → c < 256 → IsName three (b'/' ∷ b's' ∷ c ∷ [])
queue-IsName c full byte = record {
  slashed = refl;
  string = (refl, (refl, (full, tt)));
  bytes = (omega arith, (omega arith, (byte, tt)));
  fits = omega arith;
}

tables_right_example :
    IsTable three (Plus.sub_topics 8 3) (Plus.msgs 8 3)
    × IsTable three (Star.sub_topics 8 3) (Star.msgs 8 3)
    × IsTable three (Mixed.sub_topics 8 3) (Mixed.msgs 8 3)
tables_right_example = tables_right three (omega arith) (omega arith)

wildcard_test-passes_example :
    (w : World) × (wildcard_test os three 1 (codes "/b") (codes "/sp") users (Star.msgs 8 3) fresh
      ≡ some (true, w))
wildcard_test-passes_example =
    wildcard_test-passes os three 1 (codes "/b") three-IsBuild refl (omega arith) (omega arith) refl
      (λ _ _. refl) (λ _ _. refl) (λ calls _. (length calls, refl)) (λ _ _. refl)
      (λ _ _. (3, 4, refl, refl, refl)) fresh (codes "/sp") users (Star.msgs 8 3) fresh-IsValid
      ((refl, refl), ((refl, refl), ((refl, refl), tt))) (λ _. refl)
      (queue-IsName b'p' refl (omega arith))
      (queue-IsName b'0' refl (omega arith), (queue-IsName b'1' refl (omega arith), tt))
      ((tables_right three (omega arith) (omega arith)).1)
