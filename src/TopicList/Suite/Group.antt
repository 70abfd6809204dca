-- ===== src/TopicList/Suite/Group.antt =====
-- psmqd_tl_test_group of src/tst/topic-list.c: all of its tests pass.
use psmq.Prelude.{ℕ, ◌<◌, ◌≡◌, refl, true, List, [], ◌∷◌, some, Bool, All, arith}
use psmq.TopicList.{tl_delete, unlink_node}
use psmq.CString.{str_eq}
use psmq.TopicList.Heap.{Heap, Cmd, Malloc, IsMalloc}
use psmq.TopicList.Nodes.{add, delete, destroy}
use psmq.TopicList.Suite.{
  add_null_topic, delete_null_list, delete_null_null_list, destroy_null_list,
}
use psmq.TopicList.Suite.Makes.{HasMemory}
use psmq.TopicList.Suite.Passes.{
  test-destroys-passes, test_empties-passes, delete_null_topic-passes,
}
use psmq.TopicList.Suite.Cases.{
  create_new, create_multiple, create_and_delete_one_topic, delete_one_first_topic,
  delete_one_middle_topic, delete_one_last_topic, delete_multi_first_topic,
  delete_multi_middle_topic, delete_multi_last_topic, delete_multi_mixed_topic,
  delete_nonexisting_topic, destroy_multi_topic, tests, run_tests, test_group, ta,
}

run_tests-passes :
    (ts : List (Cmd Bool)) (h : Heap)
    → All (λ (t : Cmd Bool). t h ≡ some (true, h)) ts
    → run_tests ts h ≡ some (true, h)
unfolding run_tests
run_tests-passes [] h a = refl
run_tests-passes (t ∷ ts) h a = rw (a.0, run_tests-passes ts h a.1) refl

-- Where malloc() gives memory that is not in use and does not fail as long as fewer than eleven nodes
-- came to the memory, and with more than eleven rounds: every test of psmqd_tl_test_group passes, one
-- after another, and all memory is behind them as it was before the first.
test_group-passes :
    (malloc : Malloc)
    → IsMalloc malloc
    → (n : ℕ) → 11 < n
    → (h : Heap) → HasMemory 11 malloc h
    → test_group n malloc h ≡ some (true, h)
unfolding test_group create_new create_multiple create_and_delete_one_topic delete_one_first_topic
    delete_one_middle_topic delete_one_last_topic delete_multi_first_topic delete_multi_middle_topic
    delete_multi_last_topic delete_multi_mixed_topic delete_nonexisting_topic destroy_multi_topic
    add_null_topic delete_null_list delete_null_null_list destroy_null_list tl_delete unlink_node
    str_eq add delete destroy
test_group-passes malloc fresh n lt h enough =
    let destroyed = test-destroys-passes h n malloc fresh 11 enough in
    let emptied = test_empties-passes h n malloc fresh 11 enough in
    run_tests-passes (tests n malloc) h (
      destroyed _ _ (omega arith) refl (omega arith) refl,
      (
        destroyed _ _ (omega arith) refl (omega arith) refl,
        (
          destroyed _ _ (omega arith) refl (omega arith) refl,
          (
            destroyed _ _ (omega arith) refl (omega arith) refl,
            (
              destroyed _ _ (omega arith) refl (omega arith) refl,
              (
                destroyed _ _ (omega arith) refl (omega arith) refl,
                (
                  destroyed _ _ (omega arith) refl (omega arith) refl,
                  (
                    destroyed _ _ (omega arith) refl (omega arith) refl,
                    (
                      destroyed _ _ (omega arith) refl (omega arith) refl,
                      (
                        emptied _ _ (omega arith) refl (omega arith) refl,
                        (
                          destroyed _ _ (omega arith) refl (omega arith) refl,
                          (
                            destroyed _ _ (omega arith) refl (omega arith) refl,
                            (
                              refl,
                              (
                                delete_null_topic-passes h n malloc fresh 11 enough ta (omega arith)
                                    (omega arith),
                                (refl, (refl, (refl, tt))),
                              ),
                            ),
                          ),
                        ),
                      ),
                    ),
                  ),
                ),
              ),
            ),
          ),
        ),
      ),
    )
