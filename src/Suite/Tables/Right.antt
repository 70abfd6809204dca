-- ===== src/Suite/Tables/Right.antt =====
-- src/tst/psmqd.c: the tables of the tests of wildcards against the matching of the broker.
use psmq.Prelude.{
  ℕ, ◌+◌, ◌≤◌, ◌<◌, ◌≡◌, refl, ◌∙◌, Bool, true, false, not, ◌&&◌, List, [], ◌∷◌, inl, inr,
  Bool-cases, ◌==◌, ltb, leb, length, All, get_or, arith,
}
use psmq.CString.{Bytes, IsString, str_eq, str_eq_iff}
use psmq.Platform.{Platform}
use psmq.Topic.{slash, topic_matches, subscribe_refuses}
use psmq.Suite.{Row}
use psmq.Suite.Waiting.{IsName}
use psmq.Suite.Seats.{matching}
use psmq.Suite.Wildcard.{IsRight, IsSubscription, IsTable}
use psmq.Suite.Tables.Plus
use psmq.Suite.Tables.Star
use psmq.Suite.Tables.Mixed

-- Each byte is one, and none is a NUL.
abbrev bytes_ok : Bytes → Bool
bytes_ok [] = true
bytes_ok (c ∷ s) = not (c == 0) && ltb c 256 && bytes_ok s

abbrev name_ok : ℕ → Bytes → Bool
name_ok n t = (get_or t 0 0 == slash) && bytes_ok t && leb (length t + 1) n

abbrev subs_ok : ℕ → List Bytes → Bool
subs_ok n [] = true
subs_ok n (s ∷ subs) = name_ok n s && not (subscribe_refuses s 0) && subs_ok n subs

abbrev rows_ok : ℕ → List Bytes → List Row → Bool
rows_ok n subs [] = true
rows_ok n subs (row ∷ rows) =
    name_ok n row.topic && str_eq row.matches (matching n 0 subs row.topic) && rows_ok n subs rows

bytes_ok_sound : (s : Bytes) → bytes_ok s ≡ true → IsString s × All (λ x. x < 256) s
bytes_ok_sound [] h = (tt, tt)
bytes_ok_sound (c ∷ s) h =
    let rest = bytes_ok_sound s (ground arith) in ((ground arith, rest.0), (ground arith, rest.1))

module _ (p : Platform) (n : ℕ) (le : n ≤ p.msg_max) where
  name_ok-IsName : (t : Bytes) → name_ok n t ≡ true → IsName p t
  name_ok-IsName t h =
      let (string, bytes) = bytes_ok_sound t (ground arith) in
      record { slashed = ground arith; string = string; bytes = bytes; fits = ground arith }

  -- What matches does not depend on the size of the copies that are large enough.
  topic_matches-larger :
      (t s : Bytes)
      → length t < n
      → length s < n
      → topic_matches p.msg_max t s ≡ topic_matches n t s
  unfolding topic_matches
  topic_matches-larger t s ht hs =
      let a : leb n (length t) ≡ false = ground arith in
      let b : leb n (length s) ≡ false = ground arith in
      let a' : leb p.msg_max (length t) ≡ false = ground arith in
      let b' : leb p.msg_max (length s) ≡ false = ground arith in rw (a, b, a', b') refl

  matching-larger :
      (i : ℕ) (subs : List Bytes) (t : Bytes)
      → length t < n
      → subs_ok n subs ≡ true
      → matching p.msg_max i subs t ≡ matching n i subs t
  matching-larger i [] t ht h = refl
  matching-larger i (s ∷ subs) t ht h =
      rw
        (
          topic_matches-larger t s ht (ground arith),
          matching-larger (i + 1) subs t ht (ground arith),
        )
        refl

  rows_ok_sound :
      (subs : List Bytes) (rows : List Row)
      → subs_ok n subs ≡ true
      → rows_ok n subs rows ≡ true
      → All (IsRight p subs) rows
  rows_ok_sound subs [] hs h = tt
  rows_ok_sound subs (row ∷ rows) hs h =
      let same : str_eq row.matches (matching n 0 subs row.topic) ≡ true = ground arith in
      (
        (
          name_ok-IsName row.topic (ground arith),
          (str_eq_iff row.matches _).0 same
              ∙ rw (matching-larger 0 subs row.topic (ground arith) hs) refl,
        ),
        rows_ok_sound subs rows hs (ground arith),
      )

  subs_ok_sound : (subs : List Bytes) → subs_ok n subs ≡ true → All (IsSubscription p) subs
  subs_ok_sound [] h = tt
  subs_ok_sound (s ∷ subs) h =
      ((name_ok-IsName s (ground arith), ground arith), subs_ok_sound subs (ground arith))

  sound-IsTable :
      (subs : List Bytes) (rows : List Row)
      → (length subs < p.max_clients)
      → subs_ok n subs ≡ true
      → rows_ok n subs rows ≡ true
      → IsTable p subs rows
  sound-IsTable subs rows few hs h = record {
    few = few;
    subscriptions = subs_ok_sound subs hs;
    rights = rows_ok_sound subs rows hs h;
  }

module _ (p : Platform) (least : 3 ≤ p.msg_max) (two : 2 ≤ p.max_clients) where
  plus-IsTable :
      IsTable p (Plus.sub_topics p.msg_max p.max_clients) (Plus.msgs p.msg_max p.max_clients)
  unfolding subscribe_refuses str_eq topic_matches
  plus-IsTable = elim (Bool-cases (leb 7 p.msg_max && leb 12 p.max_clients)) [
    | inl e ↦
        let e' : (leb 5 p.msg_max && leb 5 p.max_clients) ≡ true = ground arith in
        rw (e', e) (sound-IsTable p 7 (ground arith) _ _ (ground arith) refl refl)
    | inr e ↦ elim (Bool-cases (leb 5 p.msg_max && leb 5 p.max_clients)) [
      | inl e' ↦ rw (e', e) (sound-IsTable p 5 (ground arith) _ _ (ground arith) refl refl)
      | inr e' ↦ rw (e', e) (sound-IsTable p 3 least _ _ (omega arith) refl refl)
    ]
  ]

  star-IsTable :
      IsTable p (Star.sub_topics p.msg_max p.max_clients) (Star.msgs p.msg_max p.max_clients)
  unfolding subscribe_refuses str_eq topic_matches
  star-IsTable = elim (Bool-cases (leb 7 p.msg_max && leb 4 p.max_clients)) [
    | inl e ↦
        let e' : (leb 5 p.msg_max && leb 3 p.max_clients) ≡ true = ground arith in
        rw (e', e) (sound-IsTable p 7 (ground arith) _ _ (ground arith) refl refl)
    | inr e ↦ elim (Bool-cases (leb 5 p.msg_max && leb 3 p.max_clients)) [
      | inl e' ↦ rw (e', e) (sound-IsTable p 5 (ground arith) _ _ (ground arith) refl refl)
      | inr e' ↦ rw (e', e) (sound-IsTable p 3 least _ _ (omega arith) refl refl)
    ]
  ]

  mixed-IsTable :
      IsTable p (Mixed.sub_topics p.msg_max p.max_clients) (Mixed.msgs p.msg_max p.max_clients)
  unfolding subscribe_refuses str_eq topic_matches
  mixed-IsTable = elim (Bool-cases (leb 9 p.msg_max && leb 5 p.max_clients)) [
    | inl e ↦
        let e' : (leb 7 p.msg_max && leb 5 p.max_clients) ≡ true = ground arith in
        let e'' : (leb 5 p.msg_max && leb 2 p.max_clients) ≡ true = ground arith in
        rw (e'', e', e) (sound-IsTable p 9 (ground arith) _ _ (ground arith) refl refl)
    | inr e ↦ elim (Bool-cases (leb 7 p.msg_max && leb 5 p.max_clients)) [
      | inl e' ↦
          let e'' : (leb 5 p.msg_max && leb 2 p.max_clients) ≡ true = ground arith in
          rw (e'', e', e) (sound-IsTable p 7 (ground arith) _ _ (ground arith) refl refl)
      | inr e' ↦ elim (Bool-cases (leb 5 p.msg_max && leb 2 p.max_clients)) [
        | inl e'' ↦ rw (e'', e', e) (sound-IsTable p 5 (ground arith) _ _ (ground arith) refl refl)
        | inr e'' ↦ rw (e'', e', e) (sound-IsTable p 3 least _ _ (omega arith) refl refl)
      ]
    ]
  ]

  -- For a PSMQ_MSG_MAX of 3 or more and a PSMQ_MAX_CLIENTS of 2 or more, in each of the three tests
  -- of wildcards: the broker has a slot for each client and one for the publisher; each topic of a
  -- client may be subscribed to; and each row names, in their order, the clients whose topic the row's matches.
  pub tables_right :
      IsTable p (Plus.sub_topics p.msg_max p.max_clients) (Plus.msgs p.msg_max p.max_clients)
      × IsTable p (Star.sub_topics p.msg_max p.max_clients) (Star.msgs p.msg_max p.max_clients)
      × IsTable p (Mixed.sub_topics p.msg_max p.max_clients) (Mixed.msgs p.msg_max p.max_clients)
  tables_right = (plus-IsTable, star-IsTable, mixed-IsTable)
