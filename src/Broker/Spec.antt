-- ===== src/Broker/Spec.antt =====
-- What src/broker.c promises its clients: an abstract broker, whose slots are free or taken and hold a
-- bag of topics each, and what a request may do to it.
pub mod Views
pub mod Ioctl
pub mod Requests
pub mod Open
pub mod Drops
pub mod Publish
pub mod Dispatch
pub mod Runs
pub mod Paths
use psmq.Prelude.{
  ℕ, ◌<◌, ◌≡◌, Bool, true, false, not, List, [], ◌∷◌, some, ◌⊎◌, map, get_elem?, set,
}
use psmq.CString.{Bytes}
use psmq.CString.Strtok.{tokens}
use psmq.Message.{
  Msg, topic, cmd_open, cmd_close, cmd_subscribe, cmd_unsubscribe, cmd_publish, cmd_ioctl,
}
use psmq.Topic.{slash, subscribe_refuses}
use psmq.Topic.Matching.{Matches}
use psmq.TopicList.Bag.{Bag, of_list, occurrences, put}
use psmq.Broker.State.{Client, Broker}
use psmq.Broker.Reply.{is_free}

pub record Slot : Type 0 where
  pub taken : Bool
  pub topics : Bag

abbrev pub View : Type 0
View = List Slot

abbrev pub slot_of : Client → Slot
slot_of c = record { taken = not (is_free c); topics = of_list c.topics }

abbrev pub view : Broker → View
view b = map slot_of b.clients

abbrev pub vacant : Slot
vacant = record { taken = false; topics = of_list [] }

-- Some clients may have been disconnected: those for which the guard holds.
abbrev pub Drops : (Slot → Type 0) → View → View → Type 0
Drops may [] [] = Unit {0}
Drops may [] (t ∷ ws) = ⊥
Drops may (s ∷ vs) [] = ⊥
Drops may (s ∷ vs) (t ∷ ws) =
    ((t ≡ s) ⊎ ((s.taken ≡ true) × (t ≡ vacant) × may s)) × Drops may vs ws

-- The client in the slot has a subscription that the topic matches.
abbrev pub IsServed : Bytes → Slot → Type 0
IsServed t s =
    (u : Bytes) × (0 < occurrences u s.topics) × Matches (tokens slash t) (tokens slash u)

-- What a request does where it succeeds. A client of slot `msg.ctrl_data` asks.
pub data Effect (msg : Msg) (v w : View) : Type 0 where
  -- the first free slot is taken
  opens :
      (i : ℕ) (s : Slot)
      → msg.ctrl_cmd ≡ cmd_open
      → get_elem? v i ≡ some s
      → s.taken ≡ false
      → ((j : ℕ) (r : Slot) → j < i → get_elem? v j ≡ some r → r.taken ≡ true)
      → w ≡ set v i (record s { taken = true })
      → Effect msg v w
  closes :
      (s : Slot)
      → msg.ctrl_cmd ≡ cmd_close
      → get_elem? v msg.ctrl_data ≡ some s
      → w ≡ set v msg.ctrl_data vacant
      → Effect msg v w
  -- a topic that may be subscribed to is put into the bag
  subscribes :
      (s : Slot)
      → msg.ctrl_cmd ≡ cmd_subscribe
      → get_elem? v msg.ctrl_data ≡ some s
      → subscribe_refuses (topic msg) msg.paylen ≡ false
      → w ≡ set v msg.ctrl_data (record s { topics = put (topic msg) s.topics })
      → Effect msg v w
  -- a topic that is in the bag is taken out once
  unsubscribes :
      (s : Slot) (left : Bag)
      → msg.ctrl_cmd ≡ cmd_unsubscribe
      → get_elem? v msg.ctrl_data ≡ some s
      → s.topics ≡ put (topic msg) left
      → w ≡ set v msg.ctrl_data (record s { topics = left })
      → Effect msg v w
  -- only clients that are to get the message may be disconnected
  publishes : msg.ctrl_cmd ≡ cmd_publish → Drops (IsServed (topic msg)) v w → Effect msg v w
  configures : msg.ctrl_cmd ≡ cmd_ioctl → w ≡ v → Effect msg v w

-- A request that fails changes nothing.
abbrev pub Step : Msg → Bool → View → View → Type 0
Step msg true v w = Effect msg v w
Step msg false v w = w ≡ v
