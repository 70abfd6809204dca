-- ===== src/Broker/Memory.antt =====
-- The memory of src/broker.c: the lists of topics of all its clients, on the nodes of TopicList/Nodes.
-- Each is a change of clients[fd].topics; a slot that the array does not have is turned away before.
pub mod Lists
pub mod Owned
pub mod Follows
pub mod Runs
use psmq.Prelude.{ℕ, suc, List, [], ◌∷◌, Option, none, some, get_elem?, set}
use psmq.Errno.{Result}
use psmq.Platform.{Mqd}
use psmq.TopicList.Heap.{Ptr, null, Cmd, pure, ◌>>=◌, ◌>>◌, Malloc}
use psmq.TopicList.Nodes.{destroy}
use psmq.TopicList.Nodes.Changes.{Change, change, head_after}

-- What a request does to the topics of the client in a slot.
pub data Request : Type 0 where
  -- psmqd_tl_add and psmqd_tl_delete
  changes : ℕ → Change → Request
  -- psmqd_broker_close
  closes : ℕ → Request

abbrev pub slot_of : Request → ℕ
slot_of (changes fd c) = fd
slot_of (closes fd) = fd

module _ (n : ℕ) (malloc : Malloc) where
  -- The list behind the request.
  unfoldable pub request_on : Ptr → Request → Cmd Ptr
  unfolding change destroy
  request_on head (changes fd c) = change n malloc head c >>= λ r. pure (head_after head r)
  request_on head (closes fd) = destroy n head >> pure null

  abbrev at_slot : List Ptr → Request → Option Ptr → Cmd (List Ptr)
  at_slot heads r none = pure heads
  at_slot heads r (some head) = request_on head r >>= λ q. pure (set heads (slot_of r) q)

  unfoldable pub request : List Ptr → Request → Cmd (List Ptr)
  unfolding request_on
  request heads r = at_slot heads r (get_elem? heads (slot_of r))

  unfoldable pub requests : List Ptr → List Request → Cmd (List Ptr)
  unfolding request
  requests heads [] = pure heads
  requests heads (r ∷ rs) = request heads r >>= λ heads'. requests heads' rs

  -- The loop of psmqd_broker_cleanup from the slot `fd` on, with the queues of the slots; a free slot is
  -- passed over, whatever topics it has.
  unfoldable pub cleanup_topics : ℕ → List Mqd → List Ptr → Cmd (List Ptr)
  unfolding request
  cleanup_topics fd [] heads = pure heads
  cleanup_topics fd (none ∷ mqs) heads = cleanup_topics (suc fd) mqs heads
  cleanup_topics fd (some q ∷ mqs) heads = request heads (closes fd) >>= cleanup_topics (suc fd) mqs

  -- From the broker's start, where no slot has a topic, to its end, where the slots have these queues.
  unfoldable pub lifetime : List Mqd → List Ptr → List Request → Cmd (List Ptr)
  unfolding requests cleanup_topics
  lifetime mqs heads rs = requests heads rs >>= cleanup_topics 0 mqs
