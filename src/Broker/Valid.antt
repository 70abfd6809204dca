-- ===== src/Broker/Valid.antt =====
-- What holds of the broker between two requests, and of what it is given.
use psmq.Prelude.{
  ℕ, ◌^◌, ◌≤◌, ◌<◌, ◌≡◌, ◌∙◌, Bool, List, ◌∷◌, Option, none, some, All, All-get_elem?, All-set,
  length, length-set, get_elem?, get_elem?_of_lt, set, arith,
}
use psmq.CString.{Bytes, IsString}
use psmq.Platform.{Call, Platform}
use psmq.Broker.State.{Client, Broker, M, and_then, ◌>>=◌, load_client, store_client}
use psmq.Broker.Reply.Sends.{heard, replied, load_client-there, store_client-there}

-- The limits that configure.ac and psmq-common.h allow. A `paylen` is an unsigned short.
pub record IsBuild (p : Platform) : Type 0 where
  pub msg_max_least : 6 ≤ p.msg_max
  pub clients_least : 2 ≤ p.max_clients
  pub clients_most : p.max_clients ≤ 254

-- A subscribed topic fits into a message, with its terminator.
abbrev pub IsTopic : Platform → Bytes → Type 0
IsTopic p t = IsString t × (length t < p.msg_max)

pub record IsClient (p : Platform) (c : Client) : Type 0 where
  pub topics_fit : All (IsTopic p) c.topics
  pub missed_byte : c.missed_pubs < 256
  pub timeout_short : c.reply_timeout < 2 ^ 16

pub record IsValid (p : Platform) (b : Broker) : Type 0 where
  pub slots : length b.clients ≡ p.max_clients
  pub each : All (IsClient p) b.clients

-- The command ran without a fault, and the broker is valid behind it.
abbrev pub Keeps : {A : Type 0} → Platform → Option (A × Broker) → Type 0
Keeps p none = ⊥
Keeps p (some (a, b)) = IsValid p b

pub Keeps-bind :
    {A B : Type 0} (p : Platform) (o : Option (A × Broker)) (f : A → M B)
    → Keeps p o
    → ((a : A) (b : Broker) → IsValid p b → Keeps p (f a b))
    → Keeps p (and_then o f)
Keeps-bind p none f h k = h
Keeps-bind p (some (a, b)) f h k = k a b h

module _ (p : Platform) (fd : ℕ) (b : Broker) (v : IsValid p b) (lt : fd < p.max_clients) where
  pub client_there : (c : Client) × (get_elem? b.clients fd ≡ some c) × IsClient p c
  client_there =
      let (c, e) = get_elem?_of_lt b.clients fd (omega arith) in
      (c, e, All-get_elem? (IsClient p) b.clients fd v.each e)

  pub load_client-Keeps :
      {A : Type 0} (f : Client → M A)
      → ((c : Client) → get_elem? b.clients fd ≡ some c → IsClient p c → Keeps p (f c b))
      → Keeps p ((load_client fd >>= f) b)
  load_client-Keeps f k = let (c, e, h) = client_there in rw (load_client-there fd b e) (k c e h)

  pub set-IsValid :
      (c : Client) (calls : List Call)
      → IsClient p c
      → IsValid p (record b { clients = set b.clients fd c; calls = calls })
  set-IsValid c calls h = record {
    slots = length-set b.clients fd c ∙ v.slots;
    each = All-set (IsClient p) b.clients fd v.each h;
  }

  pub store_client-Keeps : (c : Client) → IsClient p c → Keeps p (store_client fd c b)
  store_client-Keeps c h =
      let (c', e, _) = client_there in rw (store_client-there fd b e c) (set-IsValid c b.calls h)

heard-IsClient :
    (p : Platform) (c : Client) (sent : Bool) → IsClient p c → IsClient p (heard c sent)
heard-IsClient p c sent h = record {
  topics_fit = h.topics_fit;
  missed_byte = ground arith;
  timeout_short = h.timeout_short;
}

pub replied-IsValid :
    (p : Platform) (fd : ℕ) (b : Broker) (c : Client) (call : Call) (sent : Bool)
    → IsValid p b
    → fd < p.max_clients
    → IsClient p c
    → IsValid p (replied b fd c call sent)
replied-IsValid p fd b c call sent v lt h =
    set-IsValid p fd b v lt (heard c sent) (call ∷ b.calls) (heard-IsClient p c sent h)
