-- ===== src/TopicList/Suite.antt =====
-- src/tst/topic-list.c: the tests of the list of topics, each a command that says whether it passed.
-- What mtest counts and prints is left out; mt_assert leaves a test, mt_fok, mt_ferr and mt_fail go on.
pub mod Lists
pub mod Tracks
pub mod Makes
pub mod Passes
pub mod Cases
pub mod Group
use psmq.Prelude.{
  ℕ, zero, suc, ◌+◌, Bool, true, false, ◌&&◌, List, [], ◌∷◌, Option, none, some, ◌==◌,
  if◌then◌else◌, length,
}
use psmq.CString.{Bytes, str_eq}
use psmq.Errno.{Result, ok, err, enoent, einval}
use psmq.TopicList.Heap.{Ptr, null, Cmd, pure, ◌>>=◌, ◌>>◌, load, Malloc}
use psmq.TopicList.Nodes.{add, delete, destroy}

-- mt_fok(call)
abbrev pub fok {ℓ} : {A : Type ℓ} → Result A → Bool
fok (ok a) = true
fok (err e) = false

-- mt_ferr(call, errno)
abbrev pub ferr {ℓ} : {A : Type ℓ} → Result A → ℕ → Bool
ferr (ok a) errno = false
ferr (err e) errno = e == errno

-- `tl` behind a call that is given its address.
abbrev pub head_behind : Ptr → Result Ptr → Ptr
head_behind tl (ok q) = q
head_behind tl (err e) = tl

-- The first loop of check_list over the nodes, on rounds.
unfoldable pub count_nodes : ℕ → Ptr → Cmd ℕ
unfolding load
count_nodes zero node = λ h. none
count_nodes (suc n) node =
    if node == null then pure 0 else load node >>= λ c. count_nodes n c.next >>= λ k. pure (suc k)

-- The second one: the node of that topic, or NULL.
unfoldable pub look_for : ℕ → Ptr → Bytes → Cmd Ptr
unfolding load
look_for zero node topic = λ h. none
look_for (suc n) node topic =
    if node == null
    then pure null
    else load node >>= λ c. if str_eq c.topic topic then pure node else look_for n c.next topic

-- What a test does with `tl`.
pub data Line : Type 0 where
  -- mt_fok(psmqd_tl_delete(&tl, topic))
  deletes : Bytes → Line
  -- mt_ferr(psmqd_tl_delete(&tl, topic), errno)
  delete_fails : Bytes → ℕ → Line
  -- mt_fok(check_list(tl, topics))
  lists : List Bytes → Line
  -- mt_fail(tl == NULL)
  is_null : Line

-- psmqd_tl_destroy(tl)
unfoldable pub destroys : ℕ → Ptr → Cmd (Unit {0})
unfolding destroy
destroys n tl = do destroy n tl; pure tt

module _ (n : ℕ) (malloc : Malloc) where
  -- The loop of create_list.
  unfoldable pub create_from : Ptr → List Bytes → Cmd Ptr
  unfolding add destroy
  create_from tl [] = pure tl
  create_from tl (topic ∷ topics) = do
    r ← add malloc (some tl) (some topic)
    elim r [ ok q ↦ create_from q topics | err e ↦ (do destroy n tl; pure null) ]

  unfoldable pub create_list : List Bytes → Cmd Ptr
  unfolding create_from
  create_list topics = create_from null topics

  -- The loop of check_list over the topics.
  unfoldable pub check_topics : Ptr → List Bytes → Cmd Bool
  unfolding look_for
  check_topics tl [] = pure true
  check_topics tl (topic ∷ topics) = do
    node ← look_for n tl topic
    if node == null then pure false else check_topics tl topics

  -- check_list; true is 0
  unfoldable pub check_list : Ptr → List Bytes → Cmd Bool
  unfolding count_nodes check_topics
  check_list tl topics = do
    tlcount ← count_nodes n tl
    if length topics == tlcount then check_topics tl topics else pure false

  unfoldable pub run_line : Ptr → Line → Cmd (Bool × Ptr)
  unfolding delete check_list
  run_line tl (deletes topic) =
      delete n (some tl) (some topic) >>= λ r. pure (fok r, head_behind tl r)
  run_line tl (delete_fails topic errno) =
      delete n (some tl) (some topic) >>= λ r. pure (ferr r errno, head_behind tl r)
  run_line tl (lists topics) = check_list tl topics >>= λ same. pure (same, tl)
  run_line tl is_null = pure (tl == null, tl)

  unfoldable pub run_lines : Ptr → List Line → Cmd (Bool × Ptr)
  unfolding run_line
  run_lines tl [] = pure (true, tl)
  run_lines tl (line ∷ lines) = do
    r ← run_line tl line
    rest ← run_lines r.1 lines
    pure (r.0 && rest.0, rest.1)

  -- mt_assert((tl = create_list(topics)) != NULL), the lines behind it, and the last call, the result
  -- of which is not used.
  unfoldable pub test : List Bytes → List Line → (Ptr → Cmd (Unit {0})) → Cmd Bool
  unfolding create_list run_lines
  test topics lines last = do
    tl ← create_list topics
    if tl == null then pure false else do r ← run_lines tl lines; last r.1; pure r.0

  unfoldable pub add_null_topic : Cmd Bool
  unfolding add
  add_null_topic = add malloc (some null) none >>= λ r. pure (ferr r einval)

  unfoldable pub delete_null_topic : Bytes → Cmd Bool
  unfolding add delete destroys
  delete_null_topic a = do
    r ← add malloc (some null) (some a)
    let tl = head_behind null r
    d ← delete n (some tl) none
    destroys n tl
    pure (ferr d einval)

  unfoldable pub delete_null_list : Bytes → Cmd Bool
  unfolding delete
  delete_null_list a = delete n (some null) (some a) >>= λ r. pure (ferr r enoent)

  unfoldable pub delete_null_null_list : Bytes → Cmd Bool
  unfolding delete
  delete_null_null_list a = delete n none (some a) >>= λ r. pure (ferr r einval)

  unfoldable pub destroy_null_list : Cmd Bool
  unfolding destroy
  destroy_null_list = destroy n null >>= λ r. pure (ferr r einval)
