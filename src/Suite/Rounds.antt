-- ===== src/Suite/Rounds.antt =====
-- src/tst/psmqd.c, psmqd_wildard_test: the loops over a row of the table, and over all rows.
use psmq.Prelude.{
  ℕ, ◌+◌, ◌≡◌, refl, ap, sym, true, false, List, [], ◌∷◌, ◌++◌, none, some, if◌then◌else◌,
  Bool-cases, inl, inr, ◌==◌, ==_iff, length, append_assoc, get_elem?, get_elem?-append,
  length-append, All, arith,
}
use psmq.CString.{Bytes, IsString, strlen, str_eq_iff}
use psmq.Message.{Msg, cmd_publish}
use psmq.Platform.{Platform}
use psmq.Topic.{topic_matches}
use psmq.Broker.Publish.Delivery.{is_match}
use psmq.Api.State.{Os, receives}
use psmq.Api.Receive.{receive_prio, receive_into, overwrite}
use psmq.Api.Accepted.Sent.{IsReady}
use psmq.Sub.Text.{c_str-message}
use psmq.Broker.Reply.Buffer.{topic_msg}
use psmq.Suite.{has_topic, World, Peer, as_expected, receive_expect, receive_each}
use psmq.Suite.Waiting.{publication}
use psmq.Suite.Seats.{matching, due}

module _ (os : Os) (p : Platform) (cmd : ℕ) (has : has_topic cmd ≡ true) (t : Bytes)
    (h : IsString t) where
  abbrev message : Msg
  message = topic_msg cmd 0 t []

  as_expected-message :
      (z : Bytes)
      → as_expected cmd 0 0 (some t) none (record message { msg_data = ((t ++ 0 ∷ []) ++ []) ++ z })
        ≡ true
  unfolding as_expected strlen
  as_expected-message z =
      let ended : (length t + 1 == 0) ≡ false = ground arith in
      rw ((==_iff cmd cmd).1 refl, has, c_str-message t [] z h, (str_eq_iff t t).1 refl, ended) refl

  -- What a receive of the first message leaves.
  abbrev pub taken : Peer → List Msg → World → World
  taken x msgs w = record w {
    calls = receives x.psmq.qsub ∷ w.calls;
    waiting = λ q. if q == x.mq then msgs else w.waiting q;
  }

  pub receive_expect-taken :
      (x : Peer) (msgs : List Msg) (w : World)
      → IsReady x.psmq
      → w.waiting x.mq ≡ message ∷ msgs
      → receive_expect os p x cmd 0 0 (some t) none w ≡ some (true, taken x msgs w)
  unfolding receive_expect receive_prio receive_into overwrite
  receive_expect-taken x msgs w r e =
      rw (e, r.qpub_open, r.differ) (ap (λ b. some (b, taken x msgs w)) (as_expected-message _))

module _ (os : Os) (p : Platform) (t : Bytes) (h : IsString t) where
  -- The receives run, as expected, and leave no queue with a message.
  abbrev pub Empties : List Peer → List ℕ → World → Type 0
  Empties peers ms w =
      (w' : World) × (receive_each os p peers t ms w ≡ some (true, w'))
      × ((q : ℕ) → w'.waiting q ≡ [])
      × (w'.broker ≡ w.broker)

  Empties-cons :
      (peers : List Peer) (i : ℕ) (ms : List ℕ) (x : Peer) (msgs : List Msg) (w : World)
      → get_elem? peers i ≡ some x
      → IsReady x.psmq
      → w.waiting x.mq ≡ publication t ∷ msgs
      → Empties peers ms (taken os p cmd_publish refl t h x msgs w)
      → Empties peers (i ∷ ms) w
  unfolding receive_each
  Empties-cons peers i ms x msgs w there r e next =
      let (w', run, empty, same) = next in
      (
        w',
        rw (there, receive_expect-taken os p cmd_publish refl t h x msgs w r e, run) refl,
        empty,
        same,
      )

  taken-due :
      (x : Peer) (w : World) (left : ℕ → List Msg)
      → ((q : ℕ) → w.waiting q ≡ (if x.mq == q then publication t ∷ [] else []) ++ left q)
      → (q : ℕ) → (taken os p cmd_publish refl t h x (left x.mq) w).waiting q ≡ left q
  taken-due x w left d q = elim (Bool-cases (q == x.mq)) [
    | inl e ↦ rw e (ap left (sym ((==_iff q x.mq).0 e)))
    | inr e ↦ let e' : (x.mq == q) ≡ false = ground arith in rw (e, d q, e') refl
  ]

  -- The clients behind those of `done` are the ones that still have to receive it.
  pub receive_each-Empties :
      (done xs : List Peer) (subs : List Bytes) (w : World)
      → All (λ x. IsReady x.psmq) xs
      → length xs ≡ length subs
      → ((q : ℕ) → w.waiting q ≡ due p.msg_max t q xs subs)
      → Empties (done ++ xs) (matching p.msg_max (length done) subs t) w
  unfolding receive_each
  receive_each-Empties done [] [] w rs e d = (w, refl, d, refl)
  receive_each-Empties done [] (s ∷ subs) w rs e d = absurd (omega arith)
  receive_each-Empties done (x ∷ xs) [] w rs e d = absurd (omega arith)
  receive_each-Empties done (x ∷ xs) (s ∷ subs) w rs e d =
      let next : (w1 : World)
          → ((q : ℕ) → w1.waiting q ≡ due p.msg_max t q xs subs)
          → Empties (done ++ x ∷ xs) (matching p.msg_max (length done + 1) subs t) w1 =
        λ w1 d1.
          rw (append_assoc done (x ∷ []) xs, length-append done (x ∷ [])) at
            (receive_each-Empties (done ++ x ∷ []) xs subs w1 rs.1 (omega arith) d1) in
      elim (Bool-cases (is_match (topic_matches p.msg_max t s))) [
        | inl m ↦
            let d' : (q : ℕ)
                → w.waiting q
                  ≡ (if x.mq == q then publication t ∷ [] else []) ++ due p.msg_max t q xs subs =
              λ q. rw m at (d q) in
            let self : (x.mq == x.mq) ≡ true = (==_iff x.mq x.mq).1 refl in
            let first : w.waiting x.mq ≡ publication t ∷ due p.msg_max t x.mq xs subs =
              rw self at (d' x.mq) in
            rw m (
              Empties-cons (done ++ x ∷ xs) (length done) _ x (due p.msg_max t x.mq xs subs) w
                (get_elem?-append done xs x) rs.0 first
                (next (taken os p cmd_publish refl t h x _ w)
                  (taken-due x w (λ q. due p.msg_max t q xs subs) d')))
        | inr m ↦ rw m (next w (λ q. rw m at (d q)))
      ]
