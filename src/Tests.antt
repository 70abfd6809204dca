-- ===== src/Tests.antt =====
-- Concrete inputs for the theorems, and what they say there.
pub mod Nodes
pub mod Groups
pub mod Shell
pub mod Daemon
pub mod Programs
pub mod Subscribed
pub mod Spec
pub mod Requests
pub mod Clients
pub mod Shown
pub mod Wildcards
use psmq.Prelude.{
  ℕ, ◌+◌, ◌*◌, ◌≡◌, ◌≢◌, ◌⊎◌, ◌↔◌, refl, Bool, true, false, List, [], ◌∷◌, none, some, drop, arith,
}
use psmq.CString.{Bytes, IsString, c_str, strlen}
use psmq.CString.Strtok.{tokens}
use psmq.Errno.{err, enomem}
use psmq.Message.{Msg, topic, cmd_publish}
use psmq.Platform.{Platform}
use psmq.Time.{Timespec, epoch, ms_to_tp, IsNormal, nanoseconds, ms_to_tp-adds}
use psmq.Topic.{slash, topic_matches, subscribe_refuses}
use psmq.Topic.Matching.{Matches, topic_matches-iff-Matches}
use psmq.Topic.Path.{path, subscribe_refuses-iff-path}
use psmq.TopicList.{tl_add, tl_delete}
use psmq.TopicList.Counts.{Deletes, tl_delete-Deletes}
use psmq.Broker.State.{Client, Broker}
use psmq.Broker.Reply.{free_client_from}
use psmq.Broker.Publish.{broker_publish}
use psmq.Broker.Publish.Delivery.{interested, state, delivered, deliveries}
use psmq.Broker.Loop.{accepts, topic_length, message, shutdown, handle, broker_start}
use psmq.Broker.Valid.{IsBuild, IsClient, IsValid, Keeps}
use psmq.Broker.Slots.{FirstFree, free_client_from-FirstFree}
use psmq.Broker.Safety.Ioctl.{Overflows}
use psmq.Broker.Safety.Handle.{
  IsMessage, IsSafe, handle-Keeps, broker_start-Keeps, handle-fault_iff,
}
use psmq.Broker.Effects.Publish.{HasMatch, interested-iff-HasMatch, broker_publish-delivers}

-- A broker with two slots, for messages of 8 bytes, where every call succeeds.
abbrev pub small : Platform
small = record {
  msg_max = 8;
  max_clients = 2;
  mq_open = λ _ _. some 7;
  mq_timedsend = λ _ _. true;
  malloc = λ _ _. true;
  clock = λ _. epoch;
}

-- "/a", "/+"
abbrev pub topic_a : Bytes
topic_a = b'/' ∷ b'a' ∷ []

abbrev pub topic_any : Bytes
topic_any = b'/' ∷ b'+' ∷ []

abbrev pub listener : Client
listener = record { mq = some 5; topics = topic_any ∷ []; missed_pubs = 3; reply_timeout = 0 }

abbrev pub free_slot : Client
free_slot = record { mq = none; topics = []; missed_pubs = 0; reply_timeout = 0 }

abbrev pub one_client : Broker
one_client = record { clients = listener ∷ free_slot ∷ []; qctrl = some 4; calls = [] }

-- "/a" with the payload "!"
abbrev pub hello : Msg
hello = record {
  ctrl_cmd = cmd_publish;
  ctrl_data = 0;
  paylen = 1;
  msg_data = b'/' ∷ b'a' ∷ 0 ∷ b'!' ∷ 0 ∷ 0 ∷ 0 ∷ 0 ∷ [];
}

pub small-IsBuild : IsBuild small
small-IsBuild = record {
  msg_max_least = omega arith;
  clients_least = omega arith;
  clients_most = omega arith;
}

pub listener-IsClient : IsClient small listener
listener-IsClient = record {
  topics_fit = (((refl, (refl, tt)), omega arith), tt);
  missed_byte = omega arith;
  timeout_short = omega arith;
}

free_slot-IsClient : IsClient small free_slot
free_slot-IsClient = record {
  topics_fit = tt;
  missed_byte = omega arith;
  timeout_short = omega arith;
}

pub one_client-IsValid : IsValid small one_client
one_client-IsValid = record { slots = refl; each = (listener-IsClient, (free_slot-IsClient, tt)) }

pub hello-IsMessage : IsMessage small hello
hello-IsMessage = record {
  cmd_byte = omega arith;
  ctrl_byte = omega arith;
  paylen_short = omega arith;
  data_size = refl;
  data_bytes = (
    omega arith,
    (
      omega arith,
      (omega arith, (omega arith, (omega arith, (omega arith, (omega arith, (omega arith, tt)))))),
    ),
  );
}

pub hello-accepted : accepts small hello ≡ some true
unfolding accepts topic_length strlen c_str
hello-accepted = refl

pub hello-harmless : ¬ Overflows hello
hello-harmless o = absurd (omega (arith, o.0))

pub hello-IsSafe : IsSafe hello
unfolding strlen
hello-IsSafe = (omega arith, hello-harmless)

handle-Keeps_example : Keeps small (handle small hello 0 one_client)
handle-Keeps_example =
    handle-Keeps small small-IsBuild one_client hello 0 one_client-IsValid hello-IsMessage
      hello-IsSafe

handle-fault_iff_example :
    (handle small hello 0 one_client ≡ none)
    ↔ (IsString hello.msg_data ⊎ ((accepts small hello ≡ some true) × Overflows hello))
handle-fault_iff_example =
    handle-fault_iff small one_client hello 0 small-IsBuild one_client-IsValid hello-IsMessage

broker_publish-delivers_example :
    broker_publish small hello 0 one_client
    ≡ some (
      true,
      state
          (delivered small
            (topic hello)
            (drop (strlen hello.msg_data + 1) hello.msg_data)
            1
            0
            one_client.clients)
          (some 4)
          (deliveries small
            (topic hello)
            (drop (strlen hello.msg_data + 1) hello.msg_data)
            1
            0
            one_client.clients
            []),
    )
broker_publish-delivers_example =
    broker_publish-delivers small one_client hello 0 one_client-IsValid hello-IsMessage
      hello-accepted (λ _ _. refl)

topic_matches-iff-Matches_example :
    (topic_matches 8 topic_a topic_any ≡ some true)
    ↔ Matches (tokens slash topic_a) (tokens slash topic_any)
topic_matches-iff-Matches_example =
    topic_matches-iff-Matches 8 topic_a topic_any (omega arith) (omega arith)

subscribe_refuses-iff-path_example :
    (subscribe_refuses topic_a 0 ≡ false)
    ↔ ((◌≡◌ {A = ℕ} 0 0) × (topic_a ≢ []) × (path (tokens slash topic_a) ≡ topic_a))
subscribe_refuses-iff-path_example = subscribe_refuses-iff-path topic_a 0

-- Half a second after 1.7 seconds.
ms_to_tp-adds_example :
    (let now : Timespec = record { tv_sec = 1; tv_nsec = 700000000 } in
      IsNormal (ms_to_tp now 500)
      × (nanoseconds (ms_to_tp now 500) ≡ nanoseconds now + 500 * 1000000))
ms_to_tp-adds_example =
    ms_to_tp-adds (record { tv_sec = 1; tv_nsec = 700000000 }) 500 (omega arith) (omega arith)
