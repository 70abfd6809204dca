-- ===== src/Broker/Spec/Publish.antt =====
-- The request to publish as a step of the abstract broker.
use psmq.Prelude.{
  ℕ, zero, suc, ◌+◌, ◌<◌, ◌≡◌, refl, ap, sym, subst, ◌∙◌, Bool, true, false, List, [], ◌∷◌, Option,
  none, some, ◌⊎◌, inl, inr, leb, if◌then◌else◌, get_elem?, set, Bool-cases, Option-cases, arith,
}
use psmq.CString.{Bytes, str_eq_iff}
use psmq.Message.{cmd_publish}
use psmq.Platform.{Mqd, Platform, discards}
use psmq.Topic.{topic_matches}
use psmq.TopicList.Counts.{count}
use psmq.TopicList.Bag.{occurrences, occurrences-of_list}
use psmq.Broker.State.{Client, Broker, M, issue}
use psmq.Broker.Requests.{max_missed_pubs, broker_close}
use psmq.Broker.Publish.{
  drop_client, after_failure, send_to, publish_topics, publish_client, publish_clients,
}
use psmq.Broker.Valid.{IsBuild}
use psmq.Broker.Effects.{after_call}
use psmq.Broker.Spec.{Slot, View, slot_of, view, vacant, Drops}
use psmq.Broker.Spec.Views.{
  Ends, Ends-bind, Ends-mono, Ends-load, SameView, slots_there, reply-Ends,
}
use psmq.Broker.Spec.Requests.{Vacates, broker_close-Vacates}
use psmq.Broker.Spec.Drops.{IsMatched, Drops-refl, Drops-set, Drops-trans}

count_self : (t : Bytes) (ts : List Bytes) → 0 < count t (t ∷ ts)
unfolding count
count_self t ts = ground (arith, str_eq_iff t t)

count-tail : (u t : Bytes) (ts : List Bytes) → 0 < count u ts → 0 < count u (t ∷ ts)
unfolding count
count-tail u t ts h = omega arith

-- The slots are as before, or the client that was to get the message is gone.
abbrev Left : (Slot → Type 0) → View → ℕ → Slot → Unit {0} → Broker → Type 0
Left may V fd s u b = (view b ≡ V) ⊎ (may s × (view b ≡ set V fd vacant))

module _ (p : Platform) (build : IsBuild p) (fd : ℕ) (t payload : Bytes) (paylen prio : ℕ)
    (V : View) (s : Slot) where
  abbrev Leaves : Option (Unit {0} × Broker) → Type 0
  Leaves = Ends (Left (IsMatched p.msg_max t) V fd s)

  drop_client-Leaves :
      (mq : Mqd) (b : Broker) (c : Client)
      → get_elem? b.clients fd ≡ some c
      → view b ≡ V
      → IsMatched p.msg_max t s
      → Leaves (drop_client p fd mq b)
  unfolding drop_client issue
  drop_client-Leaves mq b c there same m =
      let b0 = after_call (discards mq) b in
      Ends-bind (Vacates b0 fd) (Left (IsMatched p.msg_max t) V fd s) (broker_close p fd b0) _
        (broker_close-Vacates p fd b0 c build there)
        λ r b1 closed. inr (m, closed.1 ∙ ap (λ v. set v fd vacant) same)

  after_failure-Leaves :
      (continue : M (Unit {0})) (b : Broker)
      → ((b' : Broker) → view b' ≡ V → Leaves (continue b'))
      → view b ≡ V
      → IsMatched p.msg_max t s
      → Leaves (after_failure p fd continue b)
  unfolding after_failure
  after_failure-Leaves continue b k same m =
      Ends-load (Left (IsMatched p.msg_max t) V fd s) fd b _ λ c there.
        elim (Bool-cases (leb max_missed_pubs c.missed_pubs)) [
          | inl e ↦ rw e (drop_client-Leaves c.mq b c there same m)
          | inr e ↦ rw e (k b same)
        ]

  send_to-Leaves :
      (continue : M (Unit {0})) (b : Broker)
      → ((b' : Broker) → view b' ≡ V → Leaves (continue b'))
      → view b ≡ V
      → IsMatched p.msg_max t s
      → Leaves (send_to p fd t payload paylen prio continue b)
  unfolding send_to
  send_to-Leaves continue b k same m =
      Ends-bind (SameView b) (Left (IsMatched p.msg_max t) V fd s) _ _
        (reply-Ends p cmd_publish 0 (some t) (some payload) paylen prio fd b)
        λ sent b1 kept. after sent b1 (kept ∙ same)
    where
      after :
          (sent : Bool) (b1 : Broker)
          → view b1 ≡ V
          → Leaves ((if sent then (λ b'. some (tt, b')) else after_failure p fd continue) b1)
      after true b1 e = inl e
      after false b1 e = after_failure-Leaves continue b1 k e m

  publish_topics-Leaves :
      (nodes : List Bytes) (b : Broker)
      → ((u : Bytes) → 0 < count u nodes → 0 < occurrences u s.topics)
      → view b ≡ V
      → Leaves (publish_topics p fd t payload paylen prio nodes b)
  unfolding publish_topics
  publish_topics-Leaves [] b sub same = inl same
  publish_topics-Leaves (node ∷ nodes) b sub same =
      let rest : (b' : Broker)
          → view b' ≡ V
          → Leaves (publish_topics p fd t payload paylen prio nodes b') =
        λ b' e. publish_topics-Leaves nodes b' (λ u h. sub u (count-tail u node nodes h)) e in
      elim (Option-cases (topic_matches p.msg_max t node)) [
        | inl e ↦ rw e tt
        | inr (m, e) ↦ rw e (matched m e rest)
      ]
    where
      matched :
          (m : Bool)
          → topic_matches p.msg_max t node ≡ some m
          → ((b' : Broker)
              → view b' ≡ V
              → Leaves (publish_topics p fd t payload paylen prio nodes b'))
          → Leaves (
              (if m
                  then send_to p fd t payload paylen prio
                      (publish_topics p fd t payload paylen prio nodes)
                  else publish_topics p fd t payload paylen prio nodes)
                b)
      matched true e rest = send_to-Leaves _ b rest same (node, sub node (count_self node nodes), e)
      matched false e rest = rest b same

-- What a publish leaves: some clients that the message matches may be gone.
abbrev pub Thins : Platform → Bytes → Broker → Unit {0} → Broker → Type 0
Thins p t b u b' = Drops (IsMatched p.msg_max t) (view b) (view b')

module _ (p : Platform) (build : IsBuild p) (t payload : Bytes) (paylen prio : ℕ) where
  Left-Thins :
      (fd : ℕ) (b : Broker) (c : Client) (q : ℕ)
      → get_elem? b.clients fd ≡ some c
      → c.mq ≡ some q
      → (o : Option (Unit {0} × Broker))
      → Ends (Left (IsMatched p.msg_max t) (view b) fd (slot_of c)) o
      → Ends (Thins p t b) o
  Left-Thins fd b c q there e none h = tt
  Left-Thins fd b c q there e (some (u, b')) (inl same) =
      subst (Drops (IsMatched p.msg_max t) (view b)) (sym same)
        (Drops-refl (IsMatched p.msg_max t) (view b))
  Left-Thins fd b c q there e (some (u, b')) (inr (m, gone)) =
      subst (Drops (IsMatched p.msg_max t) (view b)) (sym gone) (
        Drops-set (IsMatched p.msg_max t) (view b) fd (slot_of c) (slots_there b.clients fd there)
          (rw e refl) m)

  publish_client-Ends :
      (fd : ℕ) (b : Broker) → Ends (Thins p t b) (publish_client p fd t payload paylen prio b)
  unfolding publish_client
  publish_client-Ends fd b = Ends-load (Thins p t b) fd b _ λ c there. elim (Option-cases c.mq) [
    | inl e ↦ rw e (Drops-refl (IsMatched p.msg_max t) (view b))
    | inr (q, e) ↦ rw e (
        Left-Thins fd b c q there e _ (
          publish_topics-Leaves p build fd t payload paylen prio (view b) (slot_of c) c.topics b
            (λ u h. rw occurrences-of_list h) refl))
  ]

  pub publish_clients-Ends :
      (n fd : ℕ) (b : Broker) → Ends (Thins p t b) (publish_clients p n fd t payload paylen prio b)
  unfolding publish_clients
  publish_clients-Ends zero fd b = Drops-refl (IsMatched p.msg_max t) (view b)
  publish_clients-Ends (suc n) fd b =
      Ends-bind (Thins p t b) (Thins p t b) _ _ (publish_client-Ends fd b) λ u b1 first.
        Ends-mono (Thins p t b1) (Thins p t b) _ (publish_clients-Ends n (fd + 1) b1)
          λ _ b2 rest. Drops-trans (IsMatched p.msg_max t) (view b) (view b1) (view b2) first rest
