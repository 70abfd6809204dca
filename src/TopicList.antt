-- ===== src/TopicList.antt =====
-- src/topic-list.c: the topics that a client is subscribed to, as the list of the topics. The nodes that
-- hold them are in TopicList/Nodes.
pub mod Counts
pub mod Bag
pub mod Elements
pub mod Heap
pub mod Nodes
pub mod Suite
use psmq.Prelude.{ℕ, Bool, true, false, List, [], ◌∷◌, Option, none, some, if◌then◌else◌}
use psmq.CString.{Bytes, str_eq}
use psmq.Errno.{Result, ok, err, enoent, enomem, einval}

-- sizeof(struct psmqd_tl), two pointers
abbrev pub node_size : ℕ
node_size = 16

-- psmqd_tl_add: the new topic goes behind the head. The flag is whether malloc() gave a node.
unfoldable pub tl_add : Bool → List Bytes → Bytes → Result (List Bytes)
tl_add false head topic = err enomem
tl_add true [] topic = ok (topic ∷ [])
tl_add true (first ∷ others) topic = ok (first ∷ topic ∷ others)

abbrev keep : Bytes → Option (List Bytes) → Option (List Bytes)
keep t none = none
keep t (some ts) = some (t ∷ ts)

-- The list without the first node of that topic, if psmqd_tl_find_node finds one.
unfoldable pub unlink_node : List Bytes → Bytes → Option (List Bytes)
unfolding str_eq
unlink_node [] topic = none
unlink_node (t ∷ ts) topic = if str_eq t topic then some ts else keep t (unlink_node ts topic)

abbrev or_enoent : Option (List Bytes) → Result (List Bytes)
or_enoent none = err enoent
or_enoent (some ts) = ok ts

-- psmqd_tl_delete
unfoldable pub tl_delete : List Bytes → Bytes → Result (List Bytes)
unfolding unlink_node
tl_delete head topic = or_enoent (unlink_node head topic)
