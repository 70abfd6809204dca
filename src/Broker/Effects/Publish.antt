-- ===== src/Broker/Effects/Publish.antt =====
-- src/broker.c, psmqd_broker_publish: which clients get a message.
use psmq.Prelude.{
  ℕ, ◌+◌, ◌<◌, ◌≡◌, refl, ap, Bool, true, false, List, [], ◌∷◌, some, ◌⊎◌, inl, inr, ◌↔◌, length,
  length-drop, All, drop, arith,
}
use psmq.CString.{Bytes, strlen, c_str-IsString}
use psmq.CString.Strtok.{tokens}
use psmq.Message.{Msg, topic}
use psmq.Platform.{Call, Platform}
use psmq.Topic.{slash, topic_matches}
use psmq.Topic.Matching.{Matches, topic_matches-iff-Matches, topic_matches_total}
use psmq.Broker.State.{Broker, and_then}
use psmq.Broker.Publish.{broker_publish}
use psmq.Broker.Publish.Delivery.{
  interested, state, delivered, deliveries, publish_clients-delivers,
}
use psmq.Broker.Loop.{accepts}
use psmq.Broker.Valid.{IsTopic, IsValid}
use psmq.Broker.Safety.Handle.{IsMessage, accepts_sound}

-- One of the subscriptions matches the topic.
abbrev pub HasMatch : Bytes → List Bytes → Type 0
HasMatch topic [] = ⊥
HasMatch topic (node ∷ nodes) =
    Matches (tokens slash topic) (tokens slash node) ⊎ HasMatch topic nodes

HasMatch-step :
    (msg_max : ℕ) (topic node : Bytes) (nodes : List Bytes) (m : Bool)
    → topic_matches msg_max topic node ≡ some m
    → (topic_matches msg_max topic node ≡ some true)
      ↔ Matches (tokens slash topic) (tokens slash node)
    → (interested msg_max topic nodes ≡ true) ↔ HasMatch topic nodes
    → (interested msg_max topic (node ∷ nodes) ≡ true) ↔ HasMatch topic (node ∷ nodes)
HasMatch-step n topic node nodes true e i r = rw e (λ _. inl (i.0 e), λ _. refl)
HasMatch-step n topic node nodes false e i r = rw e (λ h. inr (r.0 h), back)
  where
    back : HasMatch topic (node ∷ nodes) → interested n topic nodes ≡ true
    back (inl x) = absurd (cc (i.1 x, e))
    back (inr x) = r.1 x

-- For topics that fit a message, a client is interested in a message exactly when the parts of one of
-- its subscriptions match the parts of the message's topic.
pub interested-iff-HasMatch :
    (p : Platform) (topic : Bytes) (nodes : List Bytes)
    → length topic < p.msg_max
    → All (IsTopic p) nodes
    → (interested p.msg_max topic nodes ≡ true) ↔ HasMatch topic nodes
interested-iff-HasMatch p topic [] lt hs = (λ h. absurd (cc), λ h. absurd h)
interested-iff-HasMatch p topic (node ∷ nodes) lt hs =
    let (m, e) = topic_matches_total p.msg_max topic node lt hs.0.1 in
    HasMatch-step p.msg_max topic node nodes m e
      (topic_matches-iff-Matches p.msg_max topic node lt hs.0.1)
      (interested-iff-HasMatch p topic nodes lt hs.1)

-- On a valid broker, and where every send succeeds, a message that passes the checks is sent once to
-- every client whose subscriptions it matches, in the order of the slots, with the message's own
-- topic and payload and its priority; the counters of those clients are reset, and nothing else
-- changes.
pub broker_publish-delivers :
    (p : Platform) (b : Broker) (msg : Msg) (prio : ℕ)
    → IsValid p b
    → IsMessage p msg
    → accepts p msg ≡ some true
    → ((calls : List Call) (call : Call) → p.mq_timedsend calls call ≡ true)
    → (let payload = drop (strlen msg.msg_data + 1) msg.msg_data in
        broker_publish p msg prio b
        ≡ some (
          true,
          state
              (delivered p (topic msg) payload msg.paylen prio b.clients)
              b.qctrl
              (deliveries p (topic msg) payload msg.paylen prio b.clients b.calls),
        ))
unfolding broker_publish strlen
broker_publish-delivers p b msg prio v m a sends_all =
    let (fits, fd) = accepts_sound p msg a in
    let t = topic msg in
    let run =
      publish_clients-delivers p t (drop (length t + 1) msg.msg_data) msg.paylen prio
        (c_str-IsString msg.msg_data, omega arith) fits
        (omega (arith, length-drop (length t + 1) msg.msg_data, m.data_size)) m.paylen_short
        sends_all [] b.clients b.qctrl b.calls v.each in
    ap (λ o. and_then o (λ _ s. some (true, s))) (rw v.slots at run)
