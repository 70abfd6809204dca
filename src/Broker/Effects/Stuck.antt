-- ===== src/Broker/Effects/Stuck.antt =====
-- src/broker.c, psmqd_broker_publish: what happens to a client that takes no messages.
use psmq.Prelude.{
  ℕ, ◌+◌, ◌%◌, ◌^◌, ◌≤◌, ◌<◌, ◌≡◌, refl, sym, ap, subst, ◌∙◌, Bool, true, false, List, [], ◌∷◌,
  Option, none, some, if◌then◌else◌, Bool-cases, inl, inr, ltb, leb, length, get_elem?, set,
  set-set, set-get_elem?, All, arith,
}
use psmq.CString.{Bytes}
use psmq.Message.{cmd_publish, cmd_close}
use psmq.Platform.{Mqd, Call, Platform, discards, closes}
use psmq.Topic.{topic_matches}
use psmq.Topic.Matching.{topic_matches_total}
use psmq.Broker.State.{Client, Broker, M, issue}
use psmq.Broker.Reply.Sends.{heard, replied, reply_mq-payload, reply-sends, load_client-there}
use psmq.Broker.Requests.{max_missed_pubs}
use psmq.Broker.Publish.{drop_client, after_failure, send_to, publish_topics, publish_client}
use psmq.Broker.Publish.Delivery.{is_match, delivery}
use psmq.Broker.Valid.{IsTopic, IsClient}
use psmq.Broker.Effects.{answer, after_call}
use psmq.Broker.Effects.Requests.{told_closed, there_set, broker_close-frees}

-- How many of the topics match.
abbrev pub matching : ℕ → Bytes → List Bytes → ℕ
matching msg_max topic [] = 0
matching msg_max topic (node ∷ nodes) =
    (if is_match (topic_matches msg_max topic node) then 1 else 0) + matching msg_max topic nodes

-- A client after so many sends that failed: it counts them, up to the tenth, with which it is
-- closed. The reply to the closing fails too, and is counted in the slot.
abbrev pub after_missed : Client → ℕ → Client
after_missed c k =
    if ltb (c.missed_pubs + k) max_missed_pubs
    then record c { missed_pubs = c.missed_pubs + k }
    else told_closed c false

-- The slot holds that client, and nothing else changed but the calls.
abbrev pub Leaves : Broker → ℕ → Client → Option ((Unit {0}) × Broker) → Type 0
Leaves b fd c o =
    (calls : List Call) × (o ≡ some (tt, record b { clients = set b.clients fd c; calls = calls }))

module _ (p : Platform) (topic payload : Bytes) (paylen prio : ℕ) (h : IsTopic p topic)
    (fits : length topic + 1 + paylen ≤ p.msg_max) (len : paylen ≤ length payload)
    (short : paylen < 2 ^ 16)
    (sends_none : (calls : List Call) (call : Call) → p.mq_timedsend calls call ≡ false)
    (fd : ℕ) where
  -- The broker behind one send that failed.
  abbrev missed : Broker → Client → Broker
  missed b c = replied b fd c (delivery p topic payload paylen prio b.calls c) false

  send_to-misses :
      (b : Broker) (c : Client) (continue : M (Unit {0}))
      → get_elem? b.clients fd ≡ some c
      → send_to p fd topic payload paylen prio continue b ≡ after_failure p fd continue (missed b c)
  unfolding send_to
  send_to-misses b c continue there = rw (
    reply-sends p fd b there cmd_publish 0 (some topic) (some payload) paylen prio _ (
        reply_mq-payload p c.mq cmd_publish 0 prio c.reply_timeout b topic payload paylen refl h.0
          fits len short),
    sends_none b.calls (delivery p topic payload paylen prio b.calls c),
  )

  -- The client is closed where it missed enough.
  drop_client-Leaves :
      (b : Broker) (c : Client)
      → get_elem? b.clients fd ≡ some c
      → Leaves b fd (told_closed c false) (drop_client p fd c.mq b)
  unfolding drop_client issue
  drop_client-Leaves b c there =
      let b1 = after_call (discards c.mq) b in
      (
        closes c.mq ∷ answer p fd b1 c cmd_close 0 [] ∷ b1.calls,
        rw (
          broker_close-frees p fd b1 c there (omega arith),
          sends_none b1.calls (answer p fd b1 c cmd_close 0 []),
        ),
      )

  -- What is left behind one slot changed twice.
  Leaves-again :
      (b : Broker) (c c' : Client) (calls : List Call) (o : Option ((Unit {0}) × Broker))
      → Leaves (record b { clients = set b.clients fd c; calls = calls }) fd c' o
      → Leaves b fd c' o
  Leaves-again b c c' calls o (calls', e) = (
    calls',
    e
        ∙ ap (λ cs. some (tt, record { clients = cs; qctrl = b.qctrl; calls = calls' }))
            (set-set b.clients fd c c'),
  )

  counted :
      (c : Client) → c.missed_pubs < max_missed_pubs → (c.missed_pubs + 1) % 256 ≡ c.missed_pubs + 1
  counted c few = omega arith

  after_failure-closes :
      (b : Broker) (c : Client) (continue : M (Unit {0}))
      → get_elem? b.clients fd ≡ some c
      → c.missed_pubs < max_missed_pubs
      → leb max_missed_pubs (c.missed_pubs + 1) ≡ true
      → Leaves b fd (told_closed c false) (after_failure p fd continue (missed b c))
  unfolding after_failure
  after_failure-closes b c continue there few e =
      let b1 = missed b c in
      let there1 = there_set b fd (heard c false) there in
      Leaves-again b (heard c false) (told_closed c false) b1.calls _ (
        rw (load_client-there fd b1 there1, ap (leb max_missed_pubs) (counted c few) ∙ e)
          (drop_client-Leaves b1 (heard c false) there1))

  after_failure-goes_on :
      (b : Broker) (c : Client) (continue : M (Unit {0}))
      → get_elem? b.clients fd ≡ some c
      → c.missed_pubs < max_missed_pubs
      → leb max_missed_pubs (c.missed_pubs + 1) ≡ false
      → after_failure p fd continue (missed b c) ≡ continue (missed b c)
  unfolding after_failure
  after_failure-goes_on b c continue there few e =
      let there1 = there_set b fd (heard c false) there in
      rw (load_client-there fd (missed b c) there1, counted c few, e) refl

  after_missed-one :
      (c : Client) (k : ℕ)
      → c.missed_pubs < max_missed_pubs
      → leb max_missed_pubs (c.missed_pubs + 1) ≡ true
      → after_missed c (1 + k) ≡ told_closed c false
  after_missed-one c k few e =
      let l : ltb (c.missed_pubs + (1 + k)) max_missed_pubs ≡ false = ground arith in rw l refl

  after_missed-suc :
      (c : Client) (k : ℕ)
      → c.missed_pubs < max_missed_pubs
      → after_missed (heard c false) k ≡ after_missed c (1 + k)
  after_missed-suc c k few =
      let e : (c.missed_pubs + 1) % 256 + k ≡ c.missed_pubs + (1 + k) =
        omega (arith, counted c few) in
      ap (λ n. if ltb n max_missed_pubs then record c { missed_pubs = n } else told_closed c false)
        e

  after_missed-zero : (c : Client) → c.missed_pubs < max_missed_pubs → after_missed c 0 ≡ c
  after_missed-zero c few =
      let e : c.missed_pubs + 0 ≡ c.missed_pubs = omega arith in
      let l : ltb c.missed_pubs max_missed_pubs ≡ true = ground arith in
      ap (λ n. if ltb n max_missed_pubs then record c { missed_pubs = n } else told_closed c false)
        e
      ∙ ap (λ (t : Bool). if t then c else told_closed c false) l

  -- One topic that matches.
  Leaves-miss :
      (b : Broker) (c : Client) (k : ℕ) (continue : M (Unit {0}))
      → get_elem? b.clients fd ≡ some c
      → c.missed_pubs < max_missed_pubs
      → ((heard c false).missed_pubs < max_missed_pubs
          → Leaves (missed b c) fd (after_missed (heard c false) k) (continue (missed b c)))
      → Leaves b fd (after_missed c (1 + k)) (send_to p fd topic payload paylen prio continue b)
  Leaves-miss b c k continue there few on =
      rw (send_to-misses b c continue there)
        (elim (Bool-cases (leb max_missed_pubs (c.missed_pubs + 1))) [
          | inl e ↦ rw (after_missed-one c k few e) (after_failure-closes b c continue there few e)
          | inr e ↦
              rw (after_failure-goes_on b c continue there few e, ← (after_missed-suc c k few))
                (Leaves-again b (heard c false) (after_missed (heard c false) k) (missed b c).calls
                  _ (on (omega (arith, counted c few, leb→lt (c.missed_pubs + 1) e))))
        ])
    where
      leb→lt : (n : ℕ) → leb max_missed_pubs n ≡ false → n < max_missed_pubs
      leb→lt n e = ground arith

  -- The client in a slot, the sends to which fail, behind the inner loop over topics.
  publish_topics-Leaves :
      (nodes : List Bytes) (b : Broker) (c : Client)
      → get_elem? b.clients fd ≡ some c
      → c.missed_pubs < max_missed_pubs
      → All (IsTopic p) nodes
      → Leaves b fd
          (after_missed c (matching p.msg_max topic nodes))
          (publish_topics p fd topic payload paylen prio nodes b)
  unfolding publish_topics
  publish_topics-Leaves [] b c there few hs =
      let same =
        ap (set b.clients fd) (after_missed-zero c few) ∙ set-get_elem? b.clients fd there in
      (
        b.calls,
        ap (λ cs. some (tt, record { clients = cs; qctrl = b.qctrl; calls = b.calls })) (sym same),
      )
  publish_topics-Leaves (node ∷ nodes) b c there few hs =
      let (m, e) = topic_matches_total p.msg_max topic node h.1 hs.0.1 in
      let k = matching p.msg_max topic nodes in
      rw e
        (elim m
          as (λ (m : Bool).
            Leaves b fd (after_missed c ((if is_match (some m) then 1 else 0) + k)) (
              (if m
                  then send_to p fd topic payload paylen prio
                      (publish_topics p fd topic payload paylen prio nodes)
                  else publish_topics p fd topic payload paylen prio nodes)
                b)) [
                  | true ↦ Leaves-miss b c k _ there few (λ few1.
                      publish_topics-Leaves nodes (missed b c) (heard c false)
                        (there_set b fd (heard c false) there) few1 hs.1)
                  | false ↦
                      let z : k ≡ 0 + k = omega arith in
                      subst
                        (λ n.
                          Leaves b fd (after_missed c n)
                            (publish_topics p fd topic payload paylen prio nodes b))
                        z (publish_topics-Leaves nodes b c there few hs.1)
                ])

-- Where every send fails, a message that fits changes, when it is published, nothing of a client in a
-- taken slot, whose counter is below 10, but its
-- counter, to which every matching subscription adds one, as long as the counter stays below 10;
-- with the tenth miss the client is closed. No other slot changes.
pub publish_client-Leaves :
    (p : Platform) (topic payload : Bytes) (paylen prio fd q : ℕ) (b : Broker) (c : Client)
    → IsTopic p topic
    → length topic + 1 + paylen ≤ p.msg_max
    → paylen ≤ length payload
    → paylen < 2 ^ 16
    → ((calls : List Call) (call : Call) → p.mq_timedsend calls call ≡ false)
    → get_elem? b.clients fd ≡ some c
    → IsClient p c
    → c.mq ≡ some q
    → c.missed_pubs < max_missed_pubs
    → Leaves b fd
        (after_missed c (matching p.msg_max topic c.topics))
        (publish_client p fd topic payload paylen prio b)
unfolding publish_client
publish_client-Leaves p topic payload paylen prio fd q b c h fits len short sends_none there hc e
      few =
    rw (load_client-there fd b there) (
      taken c.mq (publish_topics p fd topic payload paylen prio c.topics) e (
        publish_topics-Leaves p topic payload paylen prio h fits len short sends_none fd c.topics b
          c there few hc.topics_fit))
  where
    taken :
        (mq : Mqd) (run : M (Unit {0}))
        → mq ≡ some q
        → Leaves b fd (after_missed c (matching p.msg_max topic c.topics)) (run b)
        → Leaves b fd (after_missed c (matching p.msg_max topic c.topics)) (
            (elim mq as (λ (_ : Mqd). M (Unit {0})) [ none ↦ (λ s. some (tt, s)) | some d ↦ run ])
              b)
    taken none run k l = absurd (cc)
    taken (some d) run k l = l
