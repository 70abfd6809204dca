-- ===== src/TopicList/Suite/Passes.antt =====
-- The tests of src/tst/topic-list.c pass, and give all memory back.
use mathlib.Core.Path.{fun_ext}
use psmq.Prelude.{
  ℕ, ◌≤◌, ◌<◌, ◌≡◌, refl, ap, ◌∙◌, subst, Bool, true, false, List, [], ◌∷◌, Option, none, some,
  ◌==◌, if◌then◌else◌, length, arith,
}
use psmq.CString.{Bytes}
use psmq.Errno.{Result, ok, err, einval}
use psmq.TopicList.Heap.{Ptr, null, Heap, Cmd, pure, resumed, ◌>>=◌, ◌>>◌, Malloc, IsMalloc}
use psmq.TopicList.Nodes.{add, delete, destroy}
use psmq.TopicList.Nodes.Chain.{Nodes, topics, end, beside, SameBeside}
use psmq.TopicList.Nodes.Changes.{length-topics}
use psmq.TopicList.Nodes.Destroy.{Destroys, destroy_result, destroy-Destroys}
use psmq.TopicList.Suite.{
  ferr, head_behind, Line, run_lines, create_from, create_list, test, destroys, delete_null_topic,
}
use psmq.TopicList.Suite.Lists.{is_nil, line_of, lines_of, Holds, Follows}
use psmq.TopicList.Suite.Tracks.{Tracks, length-line_of, is_null-Chain, run_lines-Tracks}
use psmq.TopicList.Suite.Makes.{made, HasMemory, add-Follows, Makes, create_from-Makes}

module _ (base : Heap) (n : ℕ) (malloc : Malloc) (fresh : IsMalloc malloc) (m : ℕ)
    (enough : HasMemory m malloc base) where
  -- The test passes, and all memory is as it was before.
  abbrev Restored : Option (Unit {0} × Heap) → Type 0
  Restored none = ⊥
  Restored (some (u, g)) = (a : Ptr) → g a ≡ base a

  Destroys-gives_back :
      (q : Ptr) (g : Heap) (xs : Nodes) (r : Result (Unit {0}))
      (o : Option (Result (Unit {0}) × Heap))
      → SameBeside [] base xs g
      → Destroys xs g r o
      → Restored (resumed (λ _. pure tt) o)
  unfolding beside
  Destroys-gives_back q g xs r none same d = d
  Destroys-gives_back q g xs r (some (s, f)) same (_, same') = λ a. same' a ∙ same a

  destroys-Restored :
      (q : Ptr) (g : Heap) (ts : List Bytes)
      → Holds base ts q g
      → length ts < n
      → Restored (destroys n q g)
  unfolding destroys
  destroys-Restored q g ts (xs, e, c, same) lt =
      Destroys-gives_back q g xs (destroy_result xs) (destroy n q g) same
        (destroy-Destroys n c (omega (arith, ap (length {A = Bytes}) e, length-topics xs)))

  finishes :
      (b : Bool) (o : Option (Unit {0} × Heap))
      → b ≡ true
      → Restored o
      → resumed (λ _. pure b) o ≡ some (true, base)
  finishes b none e r = absurd r
  finishes b (some (u, g)) e r = rw e (ap (λ f. some (true, f)) (fun_ext r))

  ended :
      (last : Ptr → Cmd (Unit {0})) (ts : List Bytes) (o : Option ((Bool × Ptr) × Heap))
      → Tracks base (true, ts) o
      → ((q : Ptr) (g : Heap) → Holds base ts q g → Restored (last q g))
      → resumed (λ r g. resumed (λ _. pure r.0) (last r.1 g)) o ≡ some (true, base)
  ended last ts none t k = absurd t
  ended last ts (some ((a, q), g)) (e, holds) k = finishes a (last q g) e (k q g holds)

  -- What a test does once its list is made.
  abbrev rest_of : List Line → (Ptr → Cmd (Unit {0})) → Ptr → Cmd Bool
  rest_of ls last tl =
      if tl == null
      then pure false
      else (λ h. resumed (λ r g. resumed (λ _. pure r.0) (last r.1 g)) (run_lines n malloc tl ls h))

  rest_of-passes :
      (ls : List Line) (last : Ptr → Cmd (Unit {0})) (us : List Bytes) (h : Heap) (q : Ptr)
      → is_nil us ≡ false
      → length us < n
      → (lines_of us ls).0 ≡ true
      → ((r : Ptr) (g : Heap) → Holds base (lines_of us ls).1 r g → Restored (last r g))
      → Holds base us q h
      → rest_of ls last q h ≡ some (true, base)
  rest_of-passes ls last us h q ne lt good k (xs, e, c, same) =
      let full : (q == null) ≡ false = is_null-Chain c ∙ ap is_nil e ∙ ne in
      rw full (
        ended last (lines_of us ls).1 (run_lines n malloc q ls h)
          (subst (λ b. Tracks base (b, (lines_of us ls).1) (run_lines n malloc q ls h)) good
            (run_lines-Tracks base n malloc ls h q us (xs, e, c, same) lt))
          k)

  made-passes :
      (ls : List Line) (last : Ptr → Cmd (Unit {0})) (us : List Bytes) (o : Option (Ptr × Heap))
      → Makes base us o
      → ((h : Heap) (q : Ptr) → Holds base us q h → rest_of ls last q h ≡ some (true, base))
      → resumed (rest_of ls last) o ≡ some (true, base)
  made-passes ls last us none m k = absurd m
  made-passes ls last us (some (q, g)) m k = k g q m

  -- A test passes, and leaves all memory as it was, where its lines hold of the list of its topics.
  test-passes :
      (ts : List Bytes) (ls : List Line) (last : Ptr → Cmd (Unit {0}))
      → length ts ≤ m
      → is_nil (made [] ts) ≡ false
      → length (made [] ts) < n
      → (lines_of (made [] ts) ls).0 ≡ true
      → ((r : Ptr) (g : Heap) → Holds base (lines_of (made [] ts) ls).1 r g → Restored (last r g))
      → test n malloc ts ls last base ≡ some (true, base)
  unfolding test create_list
  test-passes ts ls last le ne lt good k =
      made-passes ls last (made [] ts) (create_from n malloc null ts base)
        (create_from-Makes base n malloc fresh m enough ts base null [] ([], refl, end, λ a. refl)
          (omega arith))
        λ h q holds. rest_of-passes ls last (made [] ts) h q ne lt good k holds

  length-lines_of : (us : List Bytes) (ls : List Line) → length (lines_of us ls).1 ≤ length us
  length-lines_of us [] = omega arith
  length-lines_of us (l ∷ ls) =
      omega (arith, length-line_of us l, length-lines_of (line_of us l).1 ls)

  -- Where malloc() gives memory that is not in use and does not fail as long as fewer than `m` nodes
  -- came to the memory, and with more rounds than the list has nodes: a test that makes a list of at
  -- least one topic and at most `m`, whose lines hold of the list of these topics, and that ends with
  -- psmqd_tl_destroy, passes, and all memory is behind it as it was before.
  pub test-destroys-passes :
      (ts : List Bytes) (ls : List Line)
      → length ts ≤ m
      → is_nil (made [] ts) ≡ false
      → length (made [] ts) < n
      → (lines_of (made [] ts) ls).0 ≡ true
      → test n malloc ts ls (destroys n) base ≡ some (true, base)
  test-destroys-passes ts ls le ne lt good =
      test-passes ts ls (destroys n) le ne lt good λ q g holds.
        destroys-Restored q g (lines_of (made [] ts) ls).1 holds
          (omega (arith, length-lines_of (made [] ts) ls))

  nothing_left :
      (q : Ptr) (g : Heap) (xs : Nodes)
      → topics xs ≡ []
      → SameBeside [] base xs g
      → (a : Ptr) → g a ≡ base a
  unfolding beside
  nothing_left q g [] e same = same
  nothing_left q g (x ∷ xs) e same = absurd (cc)

  -- And where its lines leave an empty list, and it does not.
  pub test_empties-passes :
      (ts : List Bytes) (ls : List Line)
      → length ts ≤ m
      → is_nil (made [] ts) ≡ false
      → length (made [] ts) < n
      → lines_of (made [] ts) ls ≡ (true, [])
      → test n malloc ts ls (λ _. pure tt) base ≡ some (true, base)
  test_empties-passes ts ls le ne lt e =
      test-passes ts ls (λ _. pure tt) le ne lt (ap (λ (r : Bool × List Bytes). r.0) e)
        λ q g holds.
          let (xs, k, c, same) = holds in
          nothing_left q g xs (k ∙ ap (λ (r : Bool × List Bytes). r.1) e) same

  -- psmqd_tl_delete of a NULL topic, on the list of one topic.
  null_deleted :
      (a : Bytes) (o : Option (Result Ptr × Heap))
      → 1 < n
      → Follows base (ok (a ∷ [])) null [] o
      → resumed
          (λ r.
            let tl = head_behind null r in
            delete n (some tl) none >>= λ d. destroys n tl >> pure (ferr d einval))
          o
        ≡ some (true, base)
  unfolding delete
  null_deleted a none lt f = absurd f
  null_deleted a (some (err e, g)) lt (f, _, holds) = absurd (cc f)
  null_deleted a (some (ok q, g)) lt (_, _, (xs, e, c, same)) =
      let full : (q == null) ≡ false = is_null-Chain c ∙ ap is_nil e in
      rw full
        (finishes true (destroys n q g) refl (destroys-Restored q g (a ∷ []) (xs, e, c, same) lt))

  pub delete_null_topic-passes :
      (a : Bytes) → 1 < n → 0 < m → delete_null_topic n malloc a base ≡ some (true, base)
  unfolding delete_null_topic
  delete_null_topic-passes a lt few =
      null_deleted a (add malloc (some null) (some a) base) lt
        (add-Follows base n malloc fresh m enough base null [] a ([], refl, end, λ b. refl) few)
