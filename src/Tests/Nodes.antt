-- ===== src/Tests/Nodes.antt =====
-- The theorems on the nodes of a list of topics at concrete inputs: a memory of two blocks.
use psmq.Prelude.{
  refl, true, Option, none, some, List, [], ◌∷◌, ◌==◌, arith, if◌then◌else◌, Option-cases, inl, inr,
  replicate,
}
use psmq.CString.{Bytes}
use psmq.Platform.{Mqd}
use psmq.TopicList.Heap.{Ptr, null, Node, Heap, Malloc, IsMalloc, cell}
use psmq.TopicList.Nodes.Chain.{Nodes, Chain, end, link, Implements}
use psmq.TopicList.Nodes.Changes.{subscribed, unsubscribed, list_change, change, change-Implements}
use psmq.Broker.Memory.{Request, changes, closes, requests, lifetime}
use psmq.Broker.Memory.Follows.{Follows, requests-Implements}
use psmq.Broker.Memory.Runs.{Remains, lifetime-Remains}
use psmq.Tests.{topic_a}

abbrev empty_heap : Heap
empty_heap a = none

abbrev from_first : Option Node → Option Node → Ptr
from_first none second = 1
from_first (some n) none = 2
from_first (some n) (some m) = 0

-- Two blocks, at the addresses 1 and 2; the lower one that is not in use is given.
abbrev two_blocks : Malloc
two_blocks n h = (from_first (h 1) (h 2), record { topic = []; next = 7 })

two_blocks-IsMalloc : IsMalloc two_blocks
two_blocks-IsMalloc n h e = elim (Option-cases (h 1)) [
  | inl free ↦ rw free free
  | inr (m, used) ↦ elim (Option-cases (h 2)) [
    | inl free ↦ rw (used, free) free
    | inr (k, taken) ↦ absurd (let x = rw (used, taken) at e in ground arith)
  ]
]

-- "/b"
abbrev topic_b : Bytes
topic_b = b'/' ∷ b'b' ∷ []

abbrev two_nodes : Nodes
two_nodes = (2, topic_b) ∷ (1, topic_a) ∷ []

abbrev two_heap : Heap
two_heap a =
    if a == 2
    then some (record { topic = topic_b; next = 1 })
    else if a == 1
    then some (record { topic = topic_a; next = 0 })
    else none

two_nodes-Chain : Chain two_heap 2 two_nodes
unfolding cell
two_nodes-Chain = link (record { holds = refl }) refl (link (record { holds = refl }) refl end)

change-Implements_example :
    Implements
      (list_change true (topic_b ∷ topic_a ∷ []) (unsubscribed topic_a))
      two_nodes
      two_heap
      (change 3 two_blocks 2 (unsubscribed topic_a) two_heap)
change-Implements_example =
    change-Implements 3 two_blocks two_blocks-IsMalloc two_nodes-Chain (omega arith)
      (unsubscribed topic_a)

-- Two clients; the second one's subscription finds no memory until the first one's close gives it back.
abbrev seven_requests : List Request
seven_requests =
    changes 0 (subscribed topic_a)
    ∷ changes 0 (subscribed topic_b)
    ∷ changes 1 (subscribed topic_a)
    ∷ closes 0
    ∷ changes 1 (subscribed topic_a)
    ∷ changes 1 (unsubscribed topic_b)
    ∷ changes 5 (subscribed topic_a)
    ∷ []

-- At the cleanup only the first slot has a queue: the topic of the second one stays in memory.
abbrev first_taken : List Mqd
first_taken = some 4 ∷ none ∷ []

lifetime-Remains_example :
    Remains 9 empty_heap first_taken
      (replicate 2 [])
      seven_requests
      (lifetime 10 two_blocks first_taken (replicate 2 null) seven_requests empty_heap)
lifetime-Remains_example =
    lifetime-Remains two_blocks two_blocks-IsMalloc 10 first_taken seven_requests (omega arith)
      empty_heap

requests-Implements_example :
    Follows 7 empty_heap
      (replicate 2 [])
      seven_requests
      (requests 8 two_blocks (replicate 2 null) seven_requests empty_heap)
requests-Implements_example =
    requests-Implements two_blocks two_blocks-IsMalloc 8 2 seven_requests (omega arith) empty_heap
