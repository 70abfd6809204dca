-- ===== src/Broker/Safety/Open.antt =====
-- The request to open.
use psmq.Prelude.{
  ℕ, ◌<◌, ◌≡◌, refl, Bool, true, false, ◌∷◌, none, some, ◌==◌, if◌then◌else◌, Bool-cases,
  Option-cases, inl, inr, lt_of_get_elem?, arith,
}
use psmq.Errno.{uchar_max, enospc}
use psmq.Message.{Msg, topic, cmd_open}
use psmq.Platform.{Mqd, Platform, opens, closes}
use psmq.Broker.State.{Client, Broker, ask, issue, store_client}
use psmq.Broker.Reply.{free_client_from, get_free_client}
use psmq.Broker.Reply.Sends.{send_of, reply_mq-bare}
use psmq.Broker.Reply.Replies.{fd_msg, reply_mq-fd}
use psmq.Broker.Requests.{no_free_slot, give_up_slot, take_slot, open_queue, broker_open}
use psmq.Broker.Slots.{free_client_from-FirstFree}
use psmq.Broker.Valid.{
  IsBuild, IsClient, IsValid, Keeps, Keeps-bind, load_client-Keeps, store_client-Keeps,
}

-- A slot number that is not UCHAR_MAX is the number of a slot.
pub free_client_lt :
    (p : Platform) (b : Broker)
    → IsValid p b
    → (free_client_from 0 b.clients == uchar_max) ≡ false
    → free_client_from 0 b.clients < p.max_clients
free_client_lt p b v h = elim (free_client_from-FirstFree 0 b.clients) [
  | inl (e, full) ↦ ground arith
  | inr (i, c, e, there, free, before) ↦ omega (arith, lt_of_get_elem? b.clients i there)
]

module _ (p : Platform) (build : IsBuild p) (q : ℕ) (b : Broker) (v : IsValid p b) where
  no_free_slot-Keeps : Keeps p (no_free_slot p q b)
  unfolding no_free_slot ask issue
  no_free_slot-Keeps =
      rw (reply_mq-bare p (some q) cmd_open enospc 0 0 b refl (omega arith))
        (record { slots = v.slots; each = v.each })

  mq-Keeps :
      (fd : ℕ) (mq : Mqd) (c : Client)
      → fd < p.max_clients
      → IsClient p c
      → Keeps p (store_client fd (record c { mq = mq }) b)
  mq-Keeps fd mq c lt h =
      store_client-Keeps p fd b v lt (record c { mq = mq })
        (record {
          topics_fit = h.topics_fit;
          missed_byte = h.missed_byte;
          timeout_short = h.timeout_short;
        })

module _ (p : Platform) (build : IsBuild p) (q fd : ℕ) (lt : fd < p.max_clients) where
  give_up_slot-Keeps : (b : Broker) → IsValid p b → Keeps p (give_up_slot p q fd b)
  unfolding give_up_slot issue
  give_up_slot-Keeps b v =
      let b1 : Broker = record b { calls = closes (some q) ∷ b.calls } in
      let v1 : IsValid p b1 = record { slots = v.slots; each = v.each } in
      load_client-Keeps p fd b1 v1 lt _ λ c there h.
        Keeps-bind p (store_client fd (record c { mq = none }) b1) _
          (mq-Keeps p build q b1 v1 fd none c lt h) (λ _ b2 v2. v2)

  take_slot-Keeps : (b : Broker) → IsValid p b → Keeps p (take_slot p q fd b)
  unfolding take_slot ask
  take_slot-Keeps b v = load_client-Keeps p fd b v lt _ λ c there h.
      Keeps-bind p (store_client fd (record c { mq = some q }) b) _
        (mq-Keeps p build q b v fd (some q) c lt h)
        λ _ b1 v1.
          rw (reply_mq-fd p (some q) cmd_open 0 0 0 b1 fd refl (omega arith))
            (answer b1 v1 (p.mq_timedsend b1.calls _))
    where
      answer :
          (b1 : Broker) (v1 : IsValid p b1) (sent : Bool)
          → Keeps p (
              (if sent then (λ s. some (true, s)) else give_up_slot p q fd) (record b1 {
                calls = send_of p (some q) cmd_open 0 0 0 b1 (fd_msg cmd_open 0 fd) ∷ b1.calls;
              }))
      answer b1 v1 true = record { slots = v1.slots; each = v1.each }
      answer b1 v1 false = give_up_slot-Keeps _ (record { slots = v1.slots; each = v1.each })

module _ (p : Platform) (build : IsBuild p) (b : Broker) (v : IsValid p b) where
  open_queue-Keeps : (q : ℕ) → Keeps p (open_queue p q b)
  unfolding open_queue get_free_client
  open_queue-Keeps q = elim (Bool-cases (free_client_from 0 b.clients == uchar_max)) [
    | inl e ↦ rw e (no_free_slot-Keeps p build q b v)
    | inr e ↦ rw e (take_slot-Keeps p build q _ (free_client_lt p b v e) b v)
  ]

pub broker_open-Keeps :
    (p : Platform) (build : IsBuild p) (b : Broker) (v : IsValid p b) (msg : Msg)
    → Keeps p (broker_open p msg b)
unfolding broker_open ask
broker_open-Keeps p build b v msg = elim (Option-cases (p.mq_open b.calls (opens (topic msg)))) [
  | inl e ↦ rw e (record { slots = v.slots; each = v.each })
  | inr (q, e) ↦ rw e (open_queue-Keeps p build _ (record { slots = v.slots; each = v.each }) q)
]
