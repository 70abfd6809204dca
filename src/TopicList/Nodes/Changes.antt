-- ===== src/TopicList/Nodes/Changes.antt =====
-- psmqd_tl_add and psmqd_tl_delete as the changes of one list, against the list of its topics.
use psmq.Prelude.{
  ℕ, suc, ◌+◌, ◌≤◌, ◌<◌, ◌≡◌, refl, Bool, true, false, Option, none, some, List, [], ◌∷◌, inl, inr,
  Bool-cases, length, arith,
}
use psmq.CString.{Bytes, str_eq}
use psmq.Errno.{Result, ok, err}
use psmq.TopicList.{keep, tl_add, unlink_node, or_enoent, tl_delete}
use psmq.TopicList.Heap.{Ptr, Heap, Cmd, Malloc, IsMalloc}
use psmq.TopicList.Nodes.{add, delete}
use psmq.TopicList.Nodes.Chain.{Nodes, topics, Chain, Implements}
use psmq.TopicList.Nodes.Add.{has_memory, add-Implements}
use psmq.TopicList.Nodes.Delete.{delete-Implements}

pub data Change : Type 0 where
  subscribed : Bytes → Change
  unsubscribed : Bytes → Change

-- psmqd_tl_add(&topics, topic) and psmqd_tl_delete(&topics, topic)
unfoldable pub change : ℕ → Malloc → Ptr → Change → Cmd (Result Ptr)
change n malloc head (subscribed topic) = add malloc (some head) (some topic)
change n malloc head (unsubscribed topic) = delete n (some head) (some topic)

-- The list's head after the call: unchanged where it fails.
abbrev pub head_after : Ptr → Result Ptr → Ptr
head_after head (ok q) = q
head_after head (err e) = head

-- What a change does to the list of topics, where malloc() gives memory or not.
abbrev pub list_change : Bool → List Bytes → Change → Result (List Bytes)
list_change memory ts (subscribed topic) = tl_add memory ts topic
list_change memory ts (unsubscribed topic) = tl_delete ts topic

abbrev pub topic_of : Change → Bytes
topic_of (subscribed topic) = topic
topic_of (unsubscribed topic) = topic

-- Where malloc() gives memory that is not in use, and with more rounds than the list has nodes:
-- psmqd_tl_add and psmqd_tl_delete on the nodes of a list end without a fault and refine tl_add and
-- tl_delete on the list of their topics; they fail with the same errno and change nothing, or leave
-- nodes of the new list, and change no memory but that of the nodes that came or are gone.
pub change-Implements :
    (n : ℕ) (malloc : Malloc) {h : Heap} {p : Ptr} {xs : Nodes}
    → IsMalloc malloc
    → Chain h p xs
    → length xs < n
    → (c : Change)
    → Implements
        (list_change (has_memory malloc (topic_of c) h) (topics xs) c)
        xs
        h
        (change n malloc p c h)
unfolding change
change-Implements n malloc fresh chain enough (subscribed topic) =
    add-Implements malloc fresh chain topic
change-Implements n malloc fresh chain enough (unsubscribed topic) =
    delete-Implements n chain enough topic

-- A list of at most so many topics, or a failure.
abbrev pub Within : ℕ → Result (List Bytes) → Type 0
Within k (err e) = Unit {0}
Within k (ok ts) = length ts ≤ k

tl_add-Within :
    (memory : Bool) (ts : List Bytes) (t : Bytes) → Within (length ts + 1) (tl_add memory ts t)
unfolding tl_add
tl_add-Within false ts t = tt
tl_add-Within true [] t = omega arith
tl_add-Within true (u ∷ ts) t = omega arith

keep-Within :
    (k : ℕ) (u : Bytes) (o : Option (List Bytes))
    → Within k (or_enoent o)
    → Within (suc k) (or_enoent (keep u o))
keep-Within k u none h = tt
keep-Within k u (some ts) h = omega arith

pub unlink_node-Within :
    (ts : List Bytes) (t : Bytes) → Within (length ts) (or_enoent (unlink_node ts t))
unfolding unlink_node
unlink_node-Within [] t = tt
unlink_node-Within (u ∷ ts) t = elim (Bool-cases (str_eq u t)) [
  | inl e ↦ rw e (omega arith)
  | inr e ↦ rw e (keep-Within (length ts) u (unlink_node ts t) (unlink_node-Within ts t))
]

pub length-topics : (xs : Nodes) → length (topics xs) ≡ length xs
length-topics [] = refl
length-topics (x ∷ xs) = omega (arith, length-topics xs)

pub Within-mono : (i j : ℕ) (r : Result (List Bytes)) → Within i r → i ≤ j → Within j r
Within-mono i j (err e) w le = tt
Within-mono i j (ok ts) w le = omega arith

pub list_change-Within :
    (memory : Bool) (ts : List Bytes) (c : Change)
    → Within (length ts + 1) (list_change memory ts c)
unfolding tl_delete
list_change-Within memory ts (subscribed topic) = tl_add-Within memory ts topic
list_change-Within memory ts (unsubscribed topic) =
    Within-mono (length ts) (length ts + 1) _ (unlink_node-Within ts topic) (omega arith)
