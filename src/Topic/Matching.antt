-- ===== src/Topic/Matching.antt =====
-- The matcher against an independent description: a relation between the parts of two topics.
use psmq.Prelude.{
  ℕ, zero, suc, ◌+◌, ◌<◌, ◌≡◌, refl, subst, ◌↔◌, Bool, true, false, not, List, [], ◌∷◌, inl, inr,
  some, if◌then◌else◌, length, Bool-cases, arith,
}
use psmq.CString.{Bytes, str_eq, str_eq_iff}
use psmq.CString.Strtok.{strtok_r, tokens, strtok_r-Takes}
use psmq.Topic.{slash, star, plus, match_loop, topic_matches}

-- The parts of a published topic against the parts of a subscription: `*` stands for one part or
-- more up to the end, `+` for exactly one part, any other part for itself.
pub data Matches : List Bytes → List Bytes → Type 0 where
  done : Matches [] []
  rest : {t u : Bytes} {ts us : List Bytes} → u ≡ star → Matches (t ∷ ts) (u ∷ us)
  any : {t u : Bytes} {ts us : List Bytes} → u ≡ plus → Matches ts us → Matches (t ∷ ts) (u ∷ us)
  same : {t u : Bytes} {ts us : List Bytes} → u ≡ t → Matches ts us → Matches (t ∷ ts) (u ∷ us)

-- The loop over parts that are split beforehand.
match_parts : List Bytes → List Bytes → Bool
match_parts [] [] = true
match_parts [] (u ∷ us) = false
match_parts (t ∷ ts) [] = false
match_parts (t ∷ ts) (u ∷ us) =
    if str_eq u star
    then true
    else if str_eq u plus
    then match_parts ts us
    else if not (str_eq u t)
    then false
    else match_parts ts us

match_loop-parts :
    (f : ℕ) (p s : Bytes)
    → length p < f
    → match_loop f (strtok_r slash p) (strtok_r slash s)
      ≡ match_parts (tokens slash p) (tokens slash s)
unfolding match_loop match_parts
match_loop-parts zero p s h = absurd (omega arith)
match_loop-parts (suc f) p s h = elim (strtok_r-Takes slash p) [
  | inl (e, k) ↦ elim (strtok_r-Takes slash s) [
    | inl (e', k') ↦ rw (e, e', k, k')
    | inr (u, us, e', k', l') ↦ rw (e, e', k, k')
  ]
  | inr (t, ts, e, k, l) ↦ elim (strtok_r-Takes slash s) [
    | inl (e', k') ↦ rw (e, e', k, k')
    | inr (u, us, e', k', l') ↦ rw (e, e', k, k') (ground (arith, match_loop-parts f ts us))
  ]
]

match_parts_sound : (ts us : List Bytes) → match_parts ts us ≡ true → Matches ts us
unfolding match_parts
match_parts_sound [] [] h = done
match_parts_sound [] (u ∷ us) h = cc
match_parts_sound (t ∷ ts) [] h = cc
match_parts_sound (t ∷ ts) (u ∷ us) h = elim (Bool-cases (str_eq u star)) [
  | inl e ↦ rest ((str_eq_iff u star).0 e)
  | inr e ↦ elim (Bool-cases (str_eq u plus)) [
    | inl e' ↦ any ((str_eq_iff u plus).0 e') (match_parts_sound ts us (ground arith))
    | inr e' ↦ same ((str_eq_iff u t).0 (ground arith)) (match_parts_sound ts us (ground arith))
  ]
]

match_parts_complete : {ts us : List Bytes} → Matches ts us → match_parts ts us ≡ true
unfolding match_parts
match_parts_complete done = refl
match_parts_complete (rest {u = u} e) = ground (arith, str_eq_iff u star)
match_parts_complete (any {u = u} e m) = ground (arith, str_eq_iff u plus, match_parts_complete m)
match_parts_complete (same {t = t} {u = u} e m) =
    ground (arith, str_eq_iff u t, match_parts_complete m)

Matches-refl : (ts : List Bytes) → Matches ts ts
Matches-refl [] = done
Matches-refl (t ∷ ts) = same refl (Matches-refl ts)

-- For topics that fit a message, `psmqd_broker_topic_matches` answers 1 exactly when the parts of
-- the published topic match the parts of the subscription.
pub topic_matches-iff-Matches :
    (msg_max : ℕ) (pub_topic sub_topic : Bytes)
    → length pub_topic < msg_max
    → length sub_topic < msg_max
    → (topic_matches msg_max pub_topic sub_topic ≡ some true)
      ↔ Matches (tokens slash pub_topic) (tokens slash sub_topic)
unfolding topic_matches
topic_matches-iff-Matches n p s hp hs = elim (Bool-cases (str_eq p s)) [
  | inl e ↦ (
    λ _.
        subst (λ k. Matches (tokens slash p) (tokens slash k)) ((str_eq_iff p s).0 e)
          (Matches-refl (tokens slash p)),
    λ _. rw e,
  )
  | inr e ↦ (
    λ h. match_parts_sound _ _ (ground (arith, match_loop-parts (length p + 2) p s)),
    λ m. ground (arith, match_parts_complete m, match_loop-parts (length p + 2) p s),
  )
]

-- Whatever the topics that fit, it answers.
pub topic_matches_total :
    (msg_max : ℕ) (pub_topic sub_topic : Bytes)
    → length pub_topic < msg_max
    → length sub_topic < msg_max
    → (b : Bool) × (topic_matches msg_max pub_topic sub_topic ≡ some b)
unfolding topic_matches
topic_matches_total n p s hp hs = elim (Bool-cases (str_eq p s)) [
  | inl e ↦ (true, rw e)
  | inr e ↦ (match_loop (length p + 2) (strtok_r slash p) (strtok_r slash s), ground arith)
]
