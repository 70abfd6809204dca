-- ===== src/TopicList/Nodes.antt =====
-- src/topic-list.c: the list of topics as nodes in memory, with the pointers that the functions move.
-- A `struct psmqd_tl **head` is the pointer it leads to, or `none` for NULL; what a function leaves
-- in `*head` is its result.
pub mod Chain
pub mod Add
pub mod Delete
pub mod Destroy
pub mod Changes
use psmq.Prelude.{ℕ, zero, suc, ◌+◌, Option, none, some, ◌==◌, leb, if◌then◌else◌}
use psmq.CString.{Bytes, str_eq, strlen}
use psmq.Errno.{Result, ok, err, enoent, enomem, einval}
use psmq.TopicList.{node_size}
use psmq.TopicList.Heap.{
  Ptr, null, Cmd, pure, ◌>>=◌, ◌>>◌, load, set_topic, set_next, free, Malloc, alloc,
}

-- The loop of psmqd_tl_find_node, on rounds: the node of that topic, or NULL, and the node before it.
unfoldable pub find_from : ℕ → Ptr → Ptr → Bytes → Cmd (Ptr × Ptr)
find_from zero prev node topic = λ h. none
find_from (suc n) prev node topic =
    if node == null
    then pure (null, prev)
    else load node >>= λ c.
        if str_eq c.topic topic then pure (node, prev) else find_from n node c.next topic

-- psmqd_tl_find_node
unfoldable pub find_node : ℕ → Ptr → Bytes → Cmd (Ptr × Ptr)
unfolding find_from
find_node n head topic = find_from n null head topic

-- strcpy() of a topic behind the node, in a block of `size` bytes; past the end of the block is a fault.
unfoldable pub copy_topic : (size : ℕ) → Ptr → Bytes → Cmd (Unit {0})
unfolding set_topic
copy_topic size node topic =
    if leb (node_size + strlen topic + 1) size then set_topic node topic else λ h. none

-- psmqd_tl_new_node
unfoldable pub new_node : Malloc → Bytes → Cmd Ptr
unfolding alloc copy_topic set_next
new_node malloc topic = do
  let size = node_size + strlen topic + 1
  node ← alloc malloc size
  if node == null then pure null else copy_topic size node topic >> set_next node null >> pure node

-- What psmqd_tl_add does with a new node.
unfoldable pub link_node : Ptr → Ptr → Cmd (Result Ptr)
unfolding load set_next
link_node head node =
    if head == null
    then pure (ok node)
    else do first ← load head; set_next node first.next; set_next head node; pure (ok head)

-- psmqd_tl_add
unfoldable pub add : Malloc → Option Ptr → Option Bytes → Cmd (Result Ptr)
unfolding new_node link_node
add malloc none topic = pure (err einval)
add malloc (some head) none = pure (err einval)
add malloc (some head) (some topic) = do
  node ← new_node malloc topic
  if node == null then pure (err enomem) else link_node head node

-- What psmqd_tl_delete does with the node that it has found.
unfoldable pub remove_node : Ptr → Ptr → Ptr → Cmd (Result Ptr)
unfolding load set_next free
remove_node head node prev = if node == null then pure (err enoent) else do
  found ← load node
  if node == head
      then free node >> pure (ok found.next)
      else set_next prev found.next >> free node >> pure (ok head)

-- psmqd_tl_delete
unfoldable pub delete : ℕ → Option Ptr → Option Bytes → Cmd (Result Ptr)
unfolding find_node remove_node
delete n none topic = pure (err einval)
delete n (some head) none = pure (err (if head == null then enoent else einval))
delete n (some head) (some topic) =
    if head == null
    then pure (err enoent)
    else find_node n head topic >>= λ found. remove_node head found.0 found.1

-- The loop of psmqd_tl_destroy, on rounds.
unfoldable pub destroy_from : ℕ → Ptr → Cmd (Result (Unit {0}))
unfolding load free
destroy_from zero head = λ h. none
destroy_from (suc n) head =
    if head == null then pure (ok tt) else load head >>= λ c. free head >> destroy_from n c.next

-- psmqd_tl_destroy
unfoldable pub destroy : ℕ → Ptr → Cmd (Result (Unit {0}))
unfolding destroy_from
destroy n head = if head == null then pure (err einval) else destroy_from n head
