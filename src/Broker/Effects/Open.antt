-- ===== src/Broker/Effects/Open.antt =====
-- src/broker.c: what psmqd_broker_open does.
use psmq.Prelude.{
  ℕ, ◌≤◌, ◌<◌, ◌≡◌, refl, ◌∙◌, Bool, true, false, List, [], none, some, if◌then◌else◌, ◌==◌,
  Bool-cases, inl, inr, get_elem?, set-set, All, All-get_elem?, lt_of_get_elem?, ◌⊎◌, arith,
}
use psmq.Errno.{uchar_max, enospc}
use psmq.Message.{Msg, topic, cmd_open}
use psmq.Platform.{Call, Platform, opens, closes}
use psmq.Broker.State.{Client, Broker, ask, issue}
use psmq.Broker.Slots.{FirstFree, free_client_from-FirstFree}
use psmq.Broker.Reply.{is_free, get_free_client}
use psmq.Broker.Reply.Buffer.{topic_msg}
use psmq.Broker.Reply.Sends.{send_of, reply_mq-bare, load_client-there, store_client-there}
use psmq.Broker.Reply.Replies.{fd_msg, reply_mq-fd}
use psmq.Broker.Requests.{no_free_slot, give_up_slot, take_slot, open_queue, broker_open}
use psmq.Broker.Valid.{IsBuild, IsValid}
use psmq.Broker.Effects.{with_client, after_call}
use psmq.Broker.Effects.Requests.{there_set}

-- The broker where no slot is free: the client is told ENOSPC, and its queue is closed again.
abbrev pub turned_away : Platform → ℕ → Broker → Broker
turned_away p q b =
    after_call (closes (some q))
      (after_call (send_of p (some q) cmd_open enospc 0 0 b (topic_msg cmd_open enospc [] [])) b)

-- The reply that tells a client its slot.
abbrev pub welcome : Platform → ℕ → ℕ → Broker → Call
welcome p q fd b = send_of p (some q) cmd_open 0 0 0 b (fd_msg cmd_open 0 fd)

-- The broker where slot `fd` was free: it holds the queue if the client could be told, and is free
-- still if not, the queue being closed again.
abbrev pub let_in : Platform → ℕ → ℕ → Client → Broker → Bool × Broker
let_in p q fd c b =
    if p.mq_timedsend b.calls (welcome p q fd b)
    then (true, after_call (welcome p q fd b) (with_client b fd (record c { mq = some q })))
    else (
      false,
      after_call (closes (some q))
          (after_call (welcome p q fd b) (with_client b fd (record c { mq = none }))),
    )

no_free_slot-turned_away :
    (p : Platform) (q : ℕ) (b : Broker)
    → 1 ≤ p.msg_max
    → no_free_slot p q b ≡ some (false, turned_away p q b)
unfolding no_free_slot ask issue
no_free_slot-turned_away p q b fits = rw (reply_mq-bare p (some q) cmd_open enospc 0 0 b refl fits)

give_up_slot-frees :
    (p : Platform) (q fd : ℕ) (b : Broker) (c : Client)
    → get_elem? b.clients fd ≡ some c
    → give_up_slot p q fd b
      ≡ some (false, after_call (closes (some q)) (with_client b fd (record c { mq = none })))
unfolding give_up_slot issue
give_up_slot-frees p q fd b c there =
    let b1 = after_call (closes (some q)) b in
    rw (load_client-there fd b1 there, store_client-there fd b1 there (record c { mq = none }))

take_slot-let_in :
    (p : Platform) (q fd : ℕ) (b : Broker) (c : Client)
    → get_elem? b.clients fd ≡ some c
    → 3 ≤ p.msg_max
    → take_slot p q fd b ≡ some (let_in p q fd c b)
unfolding take_slot ask
take_slot-let_in p q fd b c there fits =
    let c1 : Client = record c { mq = some q } in
    let b1 = with_client b fd c1 in
    let b2 = after_call (welcome p q fd b) b1 in
    rw
      (
        load_client-there fd b there,
        store_client-there fd b there c1,
        reply_mq-fd p (some q) cmd_open 0 0 0 b1 fd refl fits,
      )
      (elim (Bool-cases (p.mq_timedsend b.calls (welcome p q fd b))) [
        | inl e ↦ rw e
        | inr e ↦ rw (
          e,
          give_up_slot-frees p q fd b2 c1 (there_set b fd c1 there),
          set-set b.clients fd c1 (record c { mq = none }),
        )
      ])

module _ (p : Platform) (q : ℕ) (b : Broker) (msg : Msg)
    (e : p.mq_open b.calls (opens (topic msg)) ≡ some q) where
  open_queue-of : broker_open p msg b ≡ open_queue p q (after_call (opens (topic msg)) b)
  unfolding broker_open ask
  open_queue-of = rw e

-- The free slot that is found is the first one.
FirstFree-unique :
    (i : ℕ) (c : Client) (cs : List Client) (r : ℕ)
    → get_elem? cs i ≡ some c
    → is_free c ≡ true
    → ((j : ℕ) (d : Client) → j < i → get_elem? cs j ≡ some d → is_free d ≡ false)
    → FirstFree 0 cs r
    → r ≡ i
FirstFree-unique i c cs r there free before (inl (e, full)) =
    absurd (cc (All-get_elem? (λ c. is_free c ≡ false) cs i full there, free))
FirstFree-unique i c cs r there free before (inr (j, d, e, there', free', before')) =
    elim (lt_cases i j) [
      | inl lt ↦ absurd (cc (before' i c lt there, free))
      | inr (inl lt) ↦ absurd (cc (before j d lt there', free'))
      | inr (inr same) ↦ omega arith
    ]
  where
    lt_cases : (m n : ℕ) → (m < n) ⊎ ((n < m) ⊎ (m ≡ n))
    lt_cases m n = ground arith

none_free :
    (cs : List Client) (r : ℕ) → All (λ c. is_free c ≡ false) cs → FirstFree 0 cs r → r ≡ uchar_max
none_free cs r full (inl (e, _)) = e
none_free cs r full (inr (i, c, e, there, free, before)) =
    absurd (cc (All-get_elem? (λ c. is_free c ≡ false) cs i full there, free))

-- Of an allowed build: where the queue that a request to open names could be opened and every slot is taken, the client
-- is told ENOSPC, its queue is closed again, and no slot changes.
pub broker_open-turned_away :
    (p : Platform) (b : Broker) (msg : Msg) (q : ℕ)
    → IsBuild p
    → p.mq_open b.calls (opens (topic msg)) ≡ some q
    → All (λ c. is_free c ≡ false) b.clients
    → broker_open p msg b ≡ some (false, turned_away p q (after_call (opens (topic msg)) b))
unfolding open_queue get_free_client
broker_open-turned_away p b msg q build e full =
    let r = none_free b.clients _ full (free_client_from-FirstFree 0 b.clients) in
    open_queue-of p q b msg e
    ∙ rw r (no_free_slot-turned_away p q (after_call (opens (topic msg)) b) (omega arith))

-- On a valid broker of an allowed build: where the queue that a request to open names could be opened,
-- the first free slot gets it if the
-- client could be told the number of the slot; if not, the queue is closed again and the slot stays
-- free. The topics, the counter and the timeout of the slot stay what they were before, and no other
-- slot changes.
pub broker_open-let_in :
    (p : Platform) (b : Broker) (msg : Msg) (q fd : ℕ) (c : Client)
    → IsBuild p
    → IsValid p b
    → p.mq_open b.calls (opens (topic msg)) ≡ some q
    → get_elem? b.clients fd ≡ some c
    → is_free c ≡ true
    → ((i : ℕ) (d : Client) → i < fd → get_elem? b.clients i ≡ some d → is_free d ≡ false)
    → broker_open p msg b ≡ some (let_in p q fd c (after_call (opens (topic msg)) b))
unfolding open_queue get_free_client
broker_open-let_in p b msg q fd c build v e there free before =
    let r =
      FirstFree-unique fd c b.clients _ there free before
        (free_client_from-FirstFree 0 b.clients) in
    let ne : (fd == uchar_max) ≡ false = ground (arith, lt_of_get_elem? b.clients fd there) in
    open_queue-of p q b msg e
    ∙ rw (r, ne) (take_slot-let_in p q fd (after_call (opens (topic msg)) b) c there (omega arith))
