-- ===== src/Broker/Publish/Delivery.antt =====
-- Who gets a published message, where no queue is full.
use psmq.Prelude.{
  ℕ, ◌+◌, ◌^◌, ◌≤◌, ◌<◌, ◌≡◌, refl, Bool, true, false, List, [], ◌∷◌, ◌++◌, Option, none, some,
  if◌then◌else◌, length, length-append, All, take, get_elem?, get_elem?-append, set-append,
  append_assoc,
}
use psmq.CString.{Bytes}
use psmq.Message.{cmd_publish}
use psmq.Platform.{Mqd, Call, Platform}
use psmq.Topic.{topic_matches}
use psmq.Topic.Matching.{topic_matches_total}
use psmq.Broker.State.{Client, Broker, M}
use psmq.Broker.Reply.Buffer.{topic_msg}
use psmq.Broker.Reply.Sends.{
  send_of, heard, replied, reply_mq-payload, reply-sends, load_client-there,
}
use psmq.Broker.Publish.{send_to, publish_topics, publish_client, publish_clients}
use psmq.Broker.Valid.{IsTopic, IsClient}

abbrev pub is_match : Option Bool → Bool
is_match (some true) = true
is_match (some false) = false
is_match none = false

-- Does one of the topics match?
abbrev pub interested : ℕ → Bytes → List Bytes → Bool
interested msg_max topic [] = false
interested msg_max topic (node ∷ nodes) =
    if is_match (topic_matches msg_max topic node) then true else interested msg_max topic nodes

-- Is the slot taken, by a client that subscribed to the topic?
abbrev pub wants : ℕ → Bytes → Client → Bool
wants msg_max topic c = elim c.mq [ none ↦ false | some q ↦ interested msg_max topic c.topics ]

abbrev pub state : List Client → Mqd → List Call → Broker
state clients qctrl calls = record { clients = clients; qctrl = qctrl; calls = calls }

module _ (p : Platform) (topic payload : Bytes) (paylen prio : ℕ) where
  -- The one send that a client gets, after the calls so far.
  abbrev pub delivery : List Call → Client → Call
  delivery calls c =
      send_of p c.mq cmd_publish 0 prio c.reply_timeout
        (record { clients = []; qctrl = none; calls = calls })
        (topic_msg cmd_publish 0 topic (take paylen payload))

  -- The calls once every client that wants the message was sent it, in the order of the slots.
  abbrev pub deliveries : List Client → List Call → List Call
  deliveries [] calls = calls
  deliveries (c ∷ cs) calls =
      deliveries cs (if wants p.msg_max topic c then delivery calls c ∷ calls else calls)

  -- The counters of those clients start again, and nothing else changes.
  abbrev pub delivered : List Client → List Client
  delivered [] = []
  delivered (c ∷ cs) = (if wants p.msg_max topic c then heard c true else c) ∷ delivered cs

module _ (p : Platform) (topic payload : Bytes) (paylen prio : ℕ) (h : IsTopic p topic)
    (fits : length topic + 1 + paylen ≤ p.msg_max) (len : paylen ≤ length payload)
    (short : paylen < 2 ^ 16)
    (sends_all : (calls : List Call) (call : Call) → p.mq_timedsend calls call ≡ true) where
  -- The broker behind the delivery to one client.
  abbrev told : ℕ → Broker → Client → Broker
  told fd b c = replied b fd c (delivery p topic payload paylen prio b.calls c) true

  send_to-delivers :
      (fd : ℕ) (b : Broker) (c : Client) (continue : M (Unit {0}))
      → get_elem? b.clients fd ≡ some c
      → send_to p fd topic payload paylen prio continue b ≡ some (tt, told fd b c)
  unfolding send_to
  send_to-delivers fd b c continue there = rw (
    reply-sends p fd b there cmd_publish 0 (some topic) (some payload) paylen prio _ (
        reply_mq-payload p c.mq cmd_publish 0 prio c.reply_timeout b topic payload paylen refl h.0
          fits len short),
    sends_all b.calls (delivery p topic payload paylen prio b.calls c),
  )

  publish_topics-delivers :
      (fd : ℕ) (b : Broker) (c : Client) (nodes : List Bytes)
      → get_elem? b.clients fd ≡ some c
      → All (IsTopic p) nodes
      → publish_topics p fd topic payload paylen prio nodes b
        ≡ some (tt, if interested p.msg_max topic nodes then told fd b c else b)
  unfolding publish_topics
  publish_topics-delivers fd b c [] there hs = refl
  publish_topics-delivers fd b c (node ∷ nodes) there hs =
      let (m, e) = topic_matches_total p.msg_max topic node h.1 hs.0.1 in
      rw e
        (elim m
          as (λ (m : Bool).
            (if m
                then send_to p fd topic payload paylen prio
                    (publish_topics p fd topic payload paylen prio nodes)
                else publish_topics p fd topic payload paylen prio nodes)
              b
            ≡ some (
              tt,
              if (if is_match (some m) then true else interested p.msg_max topic nodes)
                  then told fd b c
                  else b,
            )) [
              | true ↦ send_to-delivers fd b c _ there
              | false ↦ publish_topics-delivers fd b c nodes there hs.1
            ])

  -- What the test of the slot's queue comes to.
  choose_mq :
      (mq : Mqd) (run : M (Unit {0})) (b told_b : Broker) (wanted : Bool)
      → run b ≡ some (tt, if wanted then told_b else b)
      → (elim mq as (λ (_ : Mqd). M (Unit {0})) [ none ↦ (λ s. some (tt, s)) | some q ↦ run ]) b
        ≡ some (
          tt,
          if (elim mq as (λ (_ : Mqd). Bool) [ none ↦ false | some q ↦ wanted ]) then told_b else b,
        )
  choose_mq none run b told_b wanted e = refl
  choose_mq (some q) run b told_b wanted e = e

  publish_client-delivers :
      (fd : ℕ) (b : Broker) (c : Client)
      → get_elem? b.clients fd ≡ some c
      → IsClient p c
      → publish_client p fd topic payload paylen prio b
        ≡ some (tt, if wants p.msg_max topic c then told fd b c else b)
  unfolding publish_client
  publish_client-delivers fd b c there hc =
      rw (load_client-there fd b there)
        (choose_mq c.mq _ b _ _ (publish_topics-delivers fd b c c.topics there hc.topics_fit))

  abbrev served : Client → Client
  served c = if wants p.msg_max topic c then heard c true else c

  abbrev calls_after : List Call → Client → List Call
  calls_after calls c =
      if wants p.msg_max topic c
      then delivery p topic payload paylen prio calls c ∷ calls
      else calls

  -- One slot served.
  served_lem :
      (done rest : List Client) (c : Client) (q : Mqd) (calls : List Call)
      → (if wants p.msg_max topic c
          then told (length done) (state (done ++ c ∷ rest) q calls) c
          else state (done ++ c ∷ rest) q calls)
        ≡ state ((done ++ served c ∷ []) ++ rest) q (calls_after calls c)
  served_lem done rest c q calls =
      elim (wants p.msg_max topic c)
        as (λ (w : Bool).
          (if w
            then told (length done) (state (done ++ c ∷ rest) q calls) c
            else state (done ++ c ∷ rest) q calls)
          ≡ state ((done ++ (if w then heard c true else c) ∷ []) ++ rest) q
              (if w then delivery p topic payload paylen prio calls c ∷ calls else calls)) [
                | true ↦
                    rw
                      (
                        set-append done rest c (heard c true),
                        append_assoc done (heard c true ∷ []) rest,
                      )
                      refl
                | false ↦ rw (append_assoc done (c ∷ []) rest) refl
              ]

  -- The clients in front of slot `fd` were served, those from it on were not.
  pub publish_clients-delivers :
      (done rest : List Client) (q : Mqd) (calls : List Call)
      → All (IsClient p) rest
      → publish_clients p
          (length rest)
          (length done)
          topic
          payload
          paylen
          prio
          (state (done ++ rest) q calls)
        ≡ some (
          tt,
          state
              (done ++ delivered p topic payload paylen prio rest)
              q
              (deliveries p topic payload paylen prio rest calls),
        )
  unfolding publish_clients
  publish_clients-delivers done [] q calls hs = refl
  publish_clients-delivers done (c ∷ rest) q calls hs =
      let b = state (done ++ c ∷ rest) q calls in
      let next =
        publish_clients-delivers (done ++ served c ∷ []) rest q (calls_after calls c) hs.1 in
      rw
        (
          publish_client-delivers (length done) b c (get_elem?-append done rest c) hs.0,
          served_lem done rest c q calls,
        )
        (cc (
          next,
          length-append done (served c ∷ []),
          append_assoc done (served c ∷ []) (delivered p topic payload paylen prio rest),
        ))
