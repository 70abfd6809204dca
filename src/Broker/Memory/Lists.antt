-- ===== src/Broker/Memory/Lists.antt =====
-- What the requests of Broker/Memory do to lists of topics.
use psmq.Prelude.{Bool, List, [], ◌∷◌, Option, none, some, get_elem?, set}
use psmq.CString.{Bytes}
use psmq.Errno.{Result, ok, err}
use psmq.TopicList.Nodes.Changes.{list_change}
use psmq.Broker.Memory.{Request, changes, closes, slot_of}

-- The list behind a call: unchanged where it fails.
abbrev pub list_after : List Bytes → Result (List Bytes) → List Bytes
list_after ts (ok us) = us
list_after ts (err e) = ts

-- The flag is whether malloc() gives a node.
abbrev pub list_on : Bool → List Bytes → Request → List Bytes
list_on memory ts (changes fd c) = list_after ts (list_change memory ts c)
list_on memory ts (closes fd) = []

abbrev at_list : Bool → List (List Bytes) → Request → Option (List Bytes) → List (List Bytes)
at_list memory tss r none = tss
at_list memory tss r (some ts) = set tss (slot_of r) (list_on memory ts r)

abbrev pub request_lists : Bool → List (List Bytes) → Request → List (List Bytes)
request_lists memory tss r = at_list memory tss r (get_elem? tss (slot_of r))

-- The lists behind several requests, whatever malloc() gave to each.
pub data Steps : List (List Bytes) → List Request → List (List Bytes) → Type 0 where
  done : {tss : List (List Bytes)} → Steps tss [] tss
  next :
      {tss uss : List (List Bytes)} {r : Request} {rs : List Request} (memory : Bool)
      → Steps (request_lists memory tss r) rs uss
      → Steps tss (r ∷ rs) uss
