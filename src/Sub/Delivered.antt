-- ===== src/Sub/Delivered.antt =====
-- lib/psmq.c, src/broker.c and src/psmq-sub.c together: a string from a publisher to a subscriber.
use mathlib.Core.List.{Memᴰ}
use mathlib.Core.Option.{some-injective}
use psmq.Prelude.{
  ℕ, zero, suc, ◌+◌, ◌-◌, ◌^◌, ◌≤◌, ◌<◌, ◌≡◌, refl, sym, ap, subst, ◌∙◌, Bool, true, false, List,
  [], ◌∷◌, ◌++◌, some, ◌==◌, if◌then◌else◌, length, length-append, All, All-get_elem?, take, drop,
  get_or, get_elem?, arith,
}
use psmq.CString.{Bytes, IsString, strlen}
use psmq.CString.Copy.{zeros}
use psmq.Message.{Msg, topic, payload, received, cmd_publish}
use psmq.Time.{Timespec}
use psmq.Platform.{Mqd, Call, Platform, sends}
use psmq.Topic.{slash}
use psmq.Broker.State.{Client, Broker}
use psmq.Broker.Reply.Buffer.{topic_msg}
use psmq.Broker.Publish.Delivery.{wants, delivery, deliveries, delivered, state}
use psmq.Broker.Loop.{handle, dispatch}
use psmq.Broker.Valid.{IsBuild, IsClient, IsValid}
use psmq.Broker.Safety.Handle.{IsMessage}
use psmq.Api.Accepted.Received.{Reads, length-received, publish_prio-Reads}
use psmq.Api.State.{Psmq, Os, Syscall}
use psmq.Api.Send.{publish_prio}
use psmq.Api.Accepted.Sent.{IsReady}
use psmq.Errno.{ok}
use psmq.Sub.{text, on_receive}
use psmq.Sub.Text.{IsText, on_receive-text}
use psmq.Broker.Effects.Publish.{HasMatch, interested-iff-HasMatch, broker_publish-delivers}

-- A call that is among the calls so far is among those after the deliveries too.
deliveries-keep :
    (p : Platform) (t bytes : Bytes) (paylen prio : ℕ) (cs : List Client) (calls : List Call)
    (x : Call)
    → Memᴰ x calls
    → Memᴰ x (deliveries p t bytes paylen prio cs calls)
deliveries-keep p t bytes paylen prio [] calls x m = m
deliveries-keep p t bytes paylen prio (c ∷ cs) calls x m =
    deliveries-keep p t bytes paylen prio cs _ x (added (wants p.msg_max t c))
  where
    added :
        (w : Bool) → Memᴰ x (if w then delivery p t bytes paylen prio calls c ∷ calls else calls)
    added true = Memᴰ.tail m
    added false = m

-- The message is among the calls, sent to that queue with that priority.
abbrev pub IsSent : Mqd → Msg → ℕ → List Call → Type 0
IsSent mq msg prio calls = (tp : Timespec) × Memᴰ (sends mq msg prio tp) calls

-- The client in the first slot.
deliveries-first :
    (p : Platform) (t bytes : Bytes) (paylen prio : ℕ) (d : Client) (cs : List Client)
    (calls : List Call)
    → wants p.msg_max t d ≡ true
    → IsSent d.mq
        (topic_msg cmd_publish 0 t (take paylen bytes))
        prio
        (deliveries p t bytes paylen prio (d ∷ cs) calls)
deliveries-first p t bytes paylen prio d cs calls w =
    rw w (_, deliveries-keep p t bytes paylen prio cs _ _ (Memᴰ.head refl))

deliveries-IsSent :
    (p : Platform) (t bytes : Bytes) (paylen prio : ℕ) (cs : List Client) (calls : List Call)
    (i : ℕ) (c : Client)
    → get_elem? cs i ≡ some c
    → wants p.msg_max t c ≡ true
    → IsSent c.mq
        (topic_msg cmd_publish 0 t (take paylen bytes))
        prio
        (deliveries p t bytes paylen prio cs calls)
deliveries-IsSent p t bytes paylen prio [] calls i c e w = cc
deliveries-IsSent p t bytes paylen prio (d ∷ cs) calls zero c e w =
    let k : d ≡ c = some-injective _ _ e in
    subst
      (λ (x : Client).
        IsSent x.mq (topic_msg cmd_publish 0 t (take paylen bytes)) prio
          (deliveries p t bytes paylen prio (d ∷ cs) calls))
      k (deliveries-first p t bytes paylen prio d cs calls (rw (← k) at w))
deliveries-IsSent p t bytes paylen prio (d ∷ cs) calls (suc i) c e w =
    deliveries-IsSent p t bytes paylen prio cs _ i c e w

All-append : (P : ℕ → Type 0) (xs ys : Bytes) → All P xs → All P ys → All P (xs ++ ys)
All-append P [] ys hx hy = hy
All-append P (x ∷ xs) ys hx hy = (hx.0, All-append P xs ys hx.1 hy)

All-zeros : (n : ℕ) → All (λ x. x < 256) (zeros n)
All-zeros zero = tt
All-zeros (suc n) = (omega arith, All-zeros n)

-- What a client sends is a message once it is received.
pub received-IsMessage :
    (p : Platform) (cmd fd : ℕ) (t bytes : Bytes)
    → cmd < 256
    → fd < 256
    → length t + 1 + length bytes ≤ p.msg_max
    → length bytes < 2 ^ 16
    → All (λ x. x < 256) t
    → All (λ x. x < 256) bytes
    → IsMessage p (received p.msg_max (topic_msg cmd fd t bytes))
unfolding received
received-IsMessage p cmd fd t bytes byte small fits short ht hb = record {
  cmd_byte = byte;
  ctrl_byte = small;
  paylen_short = short;
  data_size = length-received p.msg_max cmd fd t bytes fits;
  data_bytes =
      All-append (λ x. x < 256) _ _
        (All-append (λ x. x < 256) _ _ (All-append (λ x. x < 256) t _ ht (omega arith, tt)) hb)
        (All-zeros (p.msg_max - length ((t ++ 0 ∷ []) ++ bytes)));
}

wants-HasMatch :
    (p : Platform) (t : Bytes) (c : Client) (q : ℕ)
    → length t < p.msg_max
    → IsClient p c
    → c.mq ≡ some q
    → HasMatch t c.topics
    → wants p.msg_max t c ≡ true
wants-HasMatch p t c q lt hc taken match =
    rw taken ((interested-iff-HasMatch p t c.topics lt hc.topics_fit).1 match)

IsSent-read :
    (mq : Mqd) (q : ℕ) (t t' bytes bytes' : Bytes) (prio : ℕ) (calls : List Call)
    → mq ≡ some q
    → t' ≡ t
    → bytes' ≡ bytes
    → IsSent mq (topic_msg cmd_publish 0 t' bytes') prio calls
    → IsSent (some q) (topic_msg cmd_publish 0 t bytes) prio calls
IsSent-read mq q t t' bytes bytes' prio calls e f g h = rw (← e, ← f, ← g) h

-- The message arrives, and is then sent to that queue.
abbrev pub PassesOn : Platform → Broker → Msg → (prio q : ℕ) → Msg → Type 0
PassesOn p b arrived prio q msg =
    (b' : Broker) × (handle p arrived prio b ≡ some (tt {0}, b'))
    × IsSent (some q) msg prio b'.calls

-- The broker's part: a message that arrived is passed on to a client that subscribed to it.
handle-PassesOn :
    (p : Platform) (b : Broker) (prio fd : ℕ) (t bytes : Bytes) (i q : ℕ) (c : Client)
    → (let m = received p.msg_max (topic_msg cmd_publish fd t bytes) in
        IsValid p b
        → ((calls : List Call) (call : Call) → p.mq_timedsend calls call ≡ true)
        → IsMessage p m
        → Reads p m t bytes
        → length t < p.msg_max
        → get_elem? b.clients i ≡ some c
        → c.mq ≡ some q
        → HasMatch t c.topics
        → PassesOn p b m prio q (topic_msg cmd_publish 0 t bytes))
unfolding handle dispatch received payload
handle-PassesOn p b prio fd t bytes i q c v sends_all m r lt there taken match =
    let msg = received p.msg_max (topic_msg cmd_publish fd t bytes) in
    let passed = drop (strlen msg.msg_data + 1) msg.msg_data in
    let run = broker_publish-delivers p b msg prio v m (r.passes) sends_all in
    let hc = All-get_elem? (IsClient p) b.clients i v.each there in
    let w = wants-HasMatch p t c q lt hc taken match in
    (
      state (delivered p (topic msg) passed msg.paylen prio b.clients) b.qctrl
          (deliveries p (topic msg) passed msg.paylen prio b.clients b.calls),
      rw (r.passes, run) refl,
      IsSent-read c.mq q t (topic msg) bytes (take msg.paylen passed) prio _ taken r.topic_read
          r.payload_read
          (deliveries-IsSent p (topic msg) passed msg.paylen prio b.clients b.calls i c there
            (rw r.topic_read w)),
    )

take_all : (xs : Bytes) → take (length xs) xs ≡ xs
take_all [] = refl
take_all (x ∷ xs) = ap (◌∷◌ x) (take_all xs)

-- A string that psmq_publish is given, and what the broker and a subscriber make of it.
abbrev pub Arrives :
    Os
    → Platform
    → (ℕ → Bool)
    → (ℕ → Bool)
    → Psmq
    → List Syscall
    → Broker
    → (prio q : ℕ) → (t string : Bytes) → Type 0
Arrives os p isprint isspace s calls b prio q t string =
    let request = topic_msg cmd_publish s.fd t (string ++ 0 ∷ []) in
    let msg = received os.msg_max (topic_msg cmd_publish 0 t (string ++ 0 ∷ [])) in
    let call = Syscall.sends s.qpub request prio in
    (publish_prio os (some s) (some t) (some (string ++ 0 ∷ [])) (length string + 1) prio calls
      ≡ some (os.mq_send calls call, call ∷ calls))
    × PassesOn p b (received p.msg_max request) prio q
        (topic_msg cmd_publish 0 t (string ++ 0 ∷ []))
    × (on_receive isprint isspace msg (topic msg) (payload msg) msg.paylen prio
        ≡ some (ok (text prio (length string) t string)))

-- Where a client's queues are open and its slot is one of the broker's, the client and a valid broker
-- were built with the same PSMQ_MSG_MAX of fewer than 2^64 bytes, the topic begins with '/', a string of one printable
-- byte or more fits a message behind the topic, with the NULs of both, and in fewer than 2^16 bytes, and every send of
-- the broker succeeds: psmq_publish_prio sends the string in one message; the broker handles the
-- message, when it arrives, without a fault, and sends the string, under the same topic and with the same
-- priority, to the queue of each client with a subscription that the topic matches; and psmq-sub, when
-- that message arrives, shows the string as it was published, and as its length the number of its bytes
-- without the NUL.
pub publish_prio-Arrives :
    (os : Os) (p : Platform) (isprint isspace : ℕ → Bool) (s : Psmq) (calls : List Syscall)
    (b : Broker) (prio i q : ℕ) (c : Client) (t string : Bytes)
    → os.msg_max ≡ p.msg_max
    → os.msg_max < 2 ^ 64
    → IsReady s
    → s.fd < p.max_clients
    → IsBuild p
    → IsValid p b
    → ((made : List Call) (call : Call) → p.mq_timedsend made call ≡ true)
    → (get_or t 0 0 == slash) ≡ true
    → IsString t × IsString string
    → All (λ x. x < 256) t × All (λ x. x < 256) string
    → All (IsText isprint isspace) string
    → 0 < length string
    → length t + 1 + (length string + 1) ≤ p.msg_max
    → length string + 1 < 2 ^ 16
    → get_elem? b.clients i ≡ some c
    → c.mq ≡ some q
    → HasMatch t c.topics
    → Arrives os p isprint isspace s calls b prio q t string
publish_prio-Arrives os p isprint isspace s calls b prio i q c t string same wide ready slot build v
      sends_all slashed (ht, hs) (bt, bs) printable pos fits short there taken match =
    let bytes = string ++ 0 ∷ [] in
    let len : length bytes ≡ length string + 1 = length-append string (0 ∷ []) in
    let whole : take (length string + 1) bytes ≡ bytes =
      ap (λ n. take n bytes) (sym len) ∙ take_all bytes in
    let sent =
      publish_prio-Reads os p s t calls same ready slot slashed ht bytes (length string + 1) prio
        (omega arith) wide (omega arith) short in
    let sent' = rw whole at sent in
    (
      sent'.0,
      handle-PassesOn p b prio s.fd t bytes i q c v sends_all
          (received-IsMessage p cmd_publish s.fd t bytes (omega arith) (omega arith) (omega arith)
            (omega arith) bt (All-append (λ x. x < 256) string (0 ∷ []) bs (omega arith, tt)))
          sent'.1 (omega arith) there taken match,
      on_receive-text isprint isspace os.msg_max 0 prio t string ht hs pos printable,
    )
