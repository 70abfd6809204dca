-- ===== src/Broker/Spec/Drops.antt =====
-- Disconnections of some clients: one by one, and one after another.
use psmq.Prelude.{
  ℕ, zero, suc, ◌<◌, ◌≡◌, refl, ◌∙◌, subst, ap, sym, true, List, [], ◌∷◌, inl, inr, map, some,
  get_elem?, set, All, Bool-cases, length, arith,
}
use mathlib.Core.Option.{some-injective}
use psmq.CString.{Bytes, str_eq, str_eq_iff}
use psmq.Platform.{Platform}
use psmq.Topic.{topic_matches}
use psmq.Topic.Matching.{topic_matches-iff-Matches}
use psmq.TopicList.Counts.{count}
use psmq.TopicList.Bag.{occurrences, occurrences-of_list}
use psmq.Broker.State.{Client}
use psmq.Broker.Valid.{IsTopic, IsClient}
use psmq.Broker.Spec.{Slot, View, slot_of, vacant, Drops, IsServed}

module _ (may : Slot → Type 0) where
  pub Drops-refl : (vs : View) → Drops may vs vs
  Drops-refl [] = tt
  Drops-refl (s ∷ vs) = (inl refl, Drops-refl vs)

  pub Drops-set :
      (vs : View) (i : ℕ) (s : Slot)
      → get_elem? vs i ≡ some s
      → s.taken ≡ true
      → may s
      → Drops may vs (set vs i vacant)
  Drops-set [] i s e taken m = tt
  Drops-set (r ∷ vs) zero s e taken m =
      let k : s ≡ r = sym (some-injective _ _ e) in
      (inr (ap (λ (x : Slot). x.taken) (sym k) ∙ taken, refl, subst may k m), Drops-refl vs)
  Drops-set (r ∷ vs) (suc i) s e taken m = (inl refl, Drops-set vs i s e taken m)

  pub Drops-trans : (us vs ws : View) → Drops may us vs → Drops may vs ws → Drops may us ws
  Drops-trans [] [] [] h k = tt
  Drops-trans [] [] (w ∷ ws) h k = k
  Drops-trans [] (v ∷ vs) ws h k = absurd h
  Drops-trans (u ∷ us) [] ws h k = absurd h
  Drops-trans (u ∷ us) (v ∷ vs) [] h k = k
  Drops-trans (u ∷ us) (v ∷ vs) (w ∷ ws) (inl e, h) (inl f, k) =
      (inl (f ∙ e), Drops-trans us vs ws h k)
  Drops-trans (u ∷ us) (v ∷ vs) (w ∷ ws) (inl e, h) (inr (t, f, m), k) =
      (inr (ap (λ (x : Slot). x.taken) (sym e) ∙ t, f, subst may e m), Drops-trans us vs ws h k)
  Drops-trans (u ∷ us) (v ∷ vs) (w ∷ ws) (inr (t, e, m), h) (inl f, k) =
      (inr (t, f ∙ e, m), Drops-trans us vs ws h k)
  Drops-trans (u ∷ us) (v ∷ vs) (w ∷ ws) (inr (t, e, m), h) (inr (_, f, _), k) =
      (inr (t, f, m), Drops-trans us vs ws h k)

-- The code's test of the client's topics.
abbrev pub IsMatched : ℕ → Bytes → Slot → Type 0
IsMatched msg_max t s =
    (u : Bytes) × (0 < occurrences u s.topics) × (topic_matches msg_max t u ≡ some true)

pub All-count : (P : Bytes → Type 0) (xs : List Bytes) (u : Bytes) → All P xs → 0 < count u xs → P u
unfolding count
All-count P [] u h lt = absurd (omega arith)
All-count P (x ∷ xs) u h lt = elim (Bool-cases (str_eq x u)) [
  | inl e ↦ subst P ((str_eq_iff x u).0 e) h.0
  | inr e ↦ All-count P xs u h.1 (ground arith)
]

-- For topics that fit a message it decides the relation.
IsMatched-IsServed :
    (p : Platform) (t : Bytes) (c : Client)
    → length t < p.msg_max
    → IsClient p c
    → IsMatched p.msg_max t (slot_of c)
    → IsServed t (slot_of c)
IsMatched-IsServed p t c lt hc (u, in_bag, e) =
    let k = All-count (IsTopic p) c.topics u hc.topics_fit (rw occurrences-of_list at in_bag) in
    (u, in_bag, (topic_matches-iff-Matches p.msg_max t u lt k.1).0 e)

pub Drops-IsServed :
    (p : Platform) (t : Bytes) (cs : List Client) (ws : View)
    → length t < p.msg_max
    → All (IsClient p) cs
    → Drops (IsMatched p.msg_max t) (map slot_of cs) ws
    → Drops (IsServed t) (map slot_of cs) ws
Drops-IsServed p t [] [] lt h d = d
Drops-IsServed p t [] (w ∷ ws) lt h d = d
Drops-IsServed p t (c ∷ cs) [] lt h d = d
Drops-IsServed p t (c ∷ cs) (w ∷ ws) lt h (inl e, d) = (inl e, Drops-IsServed p t cs ws lt h.1 d)
Drops-IsServed p t (c ∷ cs) (w ∷ ws) lt h (inr (taken, e, m), d) =
    (inr (taken, e, IsMatched-IsServed p t c lt h.0 m), Drops-IsServed p t cs ws lt h.1 d)
