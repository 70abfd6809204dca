-- ===== src/TopicList/Suite/Cases.antt =====
-- The tests of src/tst/topic-list.c, by their names there without psmqd_tl_, and psmqd_tl_test_group.
use psmq.Prelude.{ℕ, Bool, true, ◌&&◌, List, [], ◌∷◌}
use psmq.CString.{Bytes}
use psmq.Errno.{enoent}
use psmq.TopicList.Heap.{Cmd, pure, ◌>>=◌, Malloc}
use psmq.TopicList.Suite.{
  deletes, delete_fails, lists, is_null, test, destroys, add_null_topic, delete_null_topic,
  delete_null_list, delete_null_null_list, destroy_null_list,
}

abbrev pub t1 : Bytes
t1 = b'/' ∷ b'1' ∷ []

abbrev t6_7_8_9 : Bytes
t6_7_8_9 = b'/' ∷ b'6' ∷ b'/' ∷ b'7' ∷ b'/' ∷ b'8' ∷ b'/' ∷ b'9' ∷ []

abbrev t3_4_5 : Bytes
t3_4_5 = b'/' ∷ b'3' ∷ b'/' ∷ b'4' ∷ b'/' ∷ b'5' ∷ []

abbrev pub t2 : Bytes
t2 = b'/' ∷ b'2' ∷ []

abbrev t10 : Bytes
t10 = b'/' ∷ b'1' ∷ b'0' ∷ []

abbrev t8 : Bytes
t8 = b'/' ∷ b'8' ∷ []

abbrev t11 : Bytes
t11 = b'/' ∷ b'1' ∷ b'1' ∷ []

abbrev t3 : Bytes
t3 = b'/' ∷ b'3' ∷ []

abbrev t6 : Bytes
t6 = b'/' ∷ b'6' ∷ []

abbrev t9 : Bytes
t9 = b'/' ∷ b'9' ∷ []

abbrev t7 : Bytes
t7 = b'/' ∷ b'7' ∷ []

abbrev t5 : Bytes
t5 = b'/' ∷ b'5' ∷ []

abbrev t4 : Bytes
t4 = b'/' ∷ b'4' ∷ []

abbrev t_absent : Bytes
t_absent = b'/' ∷ b'd' ∷ b'o' ∷ b'e' ∷ b's' ∷ b'n' ∷ b't' ∷ b'/' ∷ b'e' ∷ b'x' ∷ b'i' ∷ b't' ∷ []

abbrev pub ta : Bytes
ta = b'/' ∷ b'a' ∷ []

abbrev one_topic : List Bytes
one_topic = t1 ∷ []

abbrev four_topics : List Bytes
four_topics = t1 ∷ t2 ∷ t3_4_5 ∷ t6_7_8_9 ∷ []

abbrev eleven_topics : List Bytes
eleven_topics = t1 ∷ t2 ∷ t3 ∷ t4 ∷ t5 ∷ t6 ∷ t7 ∷ t8 ∷ t9 ∷ t10 ∷ t11 ∷ []

module _ (n : ℕ) (malloc : Malloc) where
  unfoldable pub create_new : Cmd Bool
  create_new = test n malloc one_topic (lists (t1 ∷ []) ∷ []) (destroys n)

  unfoldable pub create_multiple : Cmd Bool
  create_multiple =
      test n malloc four_topics (lists (t1 ∷ t6_7_8_9 ∷ t3_4_5 ∷ t2 ∷ []) ∷ []) (destroys n)

  unfoldable pub create_and_delete_one_topic : Cmd Bool
  create_and_delete_one_topic = test n malloc one_topic (deletes t1 ∷ is_null ∷ []) (destroys n)

  unfoldable pub delete_one_first_topic : Cmd Bool
  delete_one_first_topic =
      test n malloc four_topics (deletes t1 ∷ lists (t6_7_8_9 ∷ t3_4_5 ∷ t2 ∷ []) ∷ []) (destroys n)

  unfoldable pub delete_one_middle_topic : Cmd Bool
  delete_one_middle_topic =
      test n malloc four_topics (deletes t3_4_5 ∷ lists (t1 ∷ t6_7_8_9 ∷ t2 ∷ []) ∷ []) (destroys n)

  unfoldable pub delete_one_last_topic : Cmd Bool
  delete_one_last_topic =
      test n malloc four_topics (deletes t2 ∷ lists (t1 ∷ t6_7_8_9 ∷ t3_4_5 ∷ []) ∷ []) (destroys n)

  unfoldable pub delete_multi_first_topic : Cmd Bool
  delete_multi_first_topic =
      test n malloc four_topics (deletes t1 ∷ deletes t6_7_8_9 ∷ lists (t3_4_5 ∷ t2 ∷ []) ∷ [])
        (destroys n)

  unfoldable pub delete_multi_middle_topic : Cmd Bool
  delete_multi_middle_topic =
      test n malloc four_topics (deletes t3_4_5 ∷ deletes t6_7_8_9 ∷ lists (t1 ∷ t2 ∷ []) ∷ [])
        (destroys n)

  unfoldable pub delete_multi_last_topic : Cmd Bool
  delete_multi_last_topic =
      test n malloc four_topics (deletes t2 ∷ deletes t3_4_5 ∷ lists (t1 ∷ t6_7_8_9 ∷ []) ∷ [])
        (destroys n)

  unfoldable pub delete_multi_mixed_topic : Cmd Bool
  delete_multi_mixed_topic =
      test n malloc eleven_topics
        (deletes t2
          ∷ deletes t1
          ∷ deletes t10
          ∷ deletes t8
          ∷ deletes t11
          ∷ deletes t3
          ∷ deletes t6
          ∷ lists (t9 ∷ t7 ∷ t5 ∷ t4 ∷ [])
          ∷ deletes t9
          ∷ deletes t7
          ∷ deletes t5
          ∷ deletes t4
          ∷ is_null
          ∷ [])
        (λ _. pure tt)

  unfoldable pub delete_nonexisting_topic : Cmd Bool
  delete_nonexisting_topic =
      test n malloc eleven_topics (delete_fails t_absent enoent ∷ []) (destroys n)

  unfoldable pub destroy_multi_topic : Cmd Bool
  destroy_multi_topic = test n malloc eleven_topics [] (destroys n)

  abbrev pub tests : List (Cmd Bool)
  tests =
      create_new
      ∷ create_multiple
      ∷ create_and_delete_one_topic
      ∷ delete_one_first_topic
      ∷ delete_one_middle_topic
      ∷ delete_one_last_topic
      ∷ delete_multi_first_topic
      ∷ delete_multi_middle_topic
      ∷ delete_multi_last_topic
      ∷ delete_multi_mixed_topic
      ∷ delete_nonexisting_topic
      ∷ destroy_multi_topic
      ∷ add_null_topic n malloc
      ∷ delete_null_topic n malloc ta
      ∷ delete_null_list n malloc ta
      ∷ delete_null_null_list n malloc ta
      ∷ destroy_null_list n malloc
      ∷ []

-- mt_run of each test, one after another: did all pass?
unfoldable pub run_tests : List (Cmd Bool) → Cmd Bool
run_tests [] = pure true
run_tests (t ∷ ts) = t >>= λ passed. run_tests ts >>= λ rest. pure (passed && rest)

-- psmqd_tl_test_group
unfoldable pub test_group : ℕ → Malloc → Cmd Bool
unfolding run_tests
test_group n malloc = run_tests (tests n malloc)
