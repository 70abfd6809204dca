-- ===== src/Broker/Safety/Handle.antt =====
-- One round of the main loop, and all rounds.
use psmq.Prelude.{
  ℕ, ◌+◌, ◌^◌, ◌≤◌, ◌<◌, ◌≡◌, ◌≢◌, refl, ap, Bool, true, false, List, [], ◌∷◌, Option, none, some,
  ◌==◌, ==_iff, ltb, ltb→lt, ◌⊎◌, ◌↔◌, Bool-cases, inl, inr, length, All, get_or, arith,
}
use psmq.CString.{Bytes, IsString, c_str, strlen, c_str-IsString, c_str_idem}
use psmq.Message.{
  Msg, topic, cmd_open, cmd_close, cmd_subscribe, cmd_unsubscribe, cmd_publish, cmd_ioctl,
  ioctl_reply_timeout,
}
use psmq.Platform.{Platform}
use psmq.Broker.State.{Broker}
use psmq.Broker.Ioctl.{broker_ioctl}
use psmq.Broker.Loop.{
  Event, shutdown, interrupted, broken, message, topic_length, accepts, dispatch, handle,
  broker_start,
}
use psmq.Broker.Valid.{IsBuild, IsTopic, IsValid, Keeps, Keeps-bind}
use psmq.Broker.Safety.Requests.{
  broker_subscribe-Keeps, broker_unsubscribe-Keeps, broker_close-Keeps,
}
use psmq.Broker.Safety.Open.{broker_open-Keeps}
use psmq.Broker.Safety.Publish.{broker_publish-Keeps}
use psmq.Broker.Safety.Ioctl.{Overflows, broker_ioctl-Keeps, broker_ioctl-overflow}

-- The struct that mq_timedreceive() filled: bytes, an unsigned short, and an array of its size.
pub record IsMessage (p : Platform) (msg : Msg) : Type 0 where
  pub cmd_byte : msg.ctrl_cmd < 256
  pub ctrl_byte : msg.ctrl_data < 256
  pub paylen_short : msg.paylen < 2 ^ 16
  pub data_size : length msg.msg_data ≡ p.msg_max
  pub data_bytes : All (λ x. x < 256) msg.msg_data

-- A NUL is among its bytes.
abbrev pub IsTerminated : Msg → Type 0
IsTerminated msg = strlen msg.msg_data < length msg.msg_data

-- What the checks let through: the topic ends in the array, the payload fits behind it, and the
-- descriptor, where there has to be one, is that of a slot.
pub accepts_sound :
    (p : Platform) (msg : Msg)
    → accepts p msg ≡ some true
    → (strlen msg.msg_data + 1 + msg.paylen ≤ p.msg_max)
      × ((msg.ctrl_cmd == cmd_open) ≡ false → msg.ctrl_data < p.max_clients)
unfolding accepts topic_length
accepts_sound p msg h = (ground arith, λ k. ground arith)

strlen_le : (s : Bytes) → strlen s ≤ length s
unfolding strlen c_str
strlen_le [] = omega arith
strlen_le (c ∷ s) = ground (arith, strlen_le s)

strlen-IsString : (s : Bytes) → IsString s → strlen s ≡ length s
unfolding strlen
strlen-IsString s h = ap length (c_str_idem s h)

IsString-strlen : (s : Bytes) → strlen s ≡ length s → IsString s
unfolding strlen c_str
IsString-strlen [] e = tt
IsString-strlen (c ∷ s) e = elim (Bool-cases (c == 0)) [
  | inl z ↦ absurd (ground arith)
  | inr z ↦ (z, IsString-strlen s (ground arith))
]

pub accepts-cases :
    (p : Platform) (msg : Msg)
    → IsTerminated msg
    → (accepts p msg ≡ some true) ⊎ (accepts p msg ≡ some false)
unfolding accepts topic_length
accepts-cases p msg h =
    let e : (strlen msg.msg_data == length msg.msg_data) ≡ false = ground arith in
    rw e (under_some (Bool-cases _))
  where
    under_some :
        {b : Bool} → (b ≡ true) ⊎ (b ≡ false) → (some b ≡ some true) ⊎ (some b ≡ some false)
    under_some (inl e) = inl (ap some e)
    under_some (inr e) = inr (ap some e)

accepts-none : (p : Platform) (msg : Msg) → IsString msg.msg_data → accepts p msg ≡ none
unfolding accepts topic_length
accepts-none p msg h =
    let e : (strlen msg.msg_data == length msg.msg_data) ≡ true =
      (==_iff _ _).1 (strlen-IsString msg.msg_data h) in
    rw e refl

pub accepts-IsTerminated : (p : Platform) (msg : Msg) → accepts p msg ≡ some true → IsTerminated msg
unfolding accepts topic_length
accepts-IsTerminated p msg h = let k = strlen_le msg.msg_data in ground arith

module _ (p : Platform) (build : IsBuild p) (b : Broker) (v : IsValid p b) (msg : Msg)
    (m : IsMessage p msg) (fits : strlen msg.msg_data + 1 + msg.paylen ≤ p.msg_max)
    (fd : (msg.ctrl_cmd == cmd_open) ≡ false → msg.ctrl_data < p.max_clients) where
  pub topic-IsTopic : IsTopic p (topic msg)
  unfolding strlen
  topic-IsTopic = (c_str-IsString msg.msg_data, omega arith)

  pub dispatch-Keeps : (prio : ℕ) → ¬ Overflows msg → Keeps p (dispatch p msg prio b)
  unfolding dispatch
  dispatch-Keeps prio small = elim (Bool-cases (msg.ctrl_cmd == cmd_open)) [
    | inl e ↦ rw e (broker_open-Keeps p build b v msg)
    | inr e0 ↦ elim (Bool-cases (msg.ctrl_cmd == cmd_close)) [
      | inl e ↦ rw (e0, e) (broker_close-Keeps p build msg.ctrl_data (fd e0) b v)
      | inr e1 ↦ elim (Bool-cases (msg.ctrl_cmd == cmd_subscribe)) [
        | inl e ↦ rw (e0, e1, e) (broker_subscribe-Keeps p build b v msg (fd e0) topic-IsTopic)
        | inr e2 ↦ elim (Bool-cases (msg.ctrl_cmd == cmd_unsubscribe)) [
          | inl e ↦
              rw (e0, e1, e2, e) (broker_unsubscribe-Keeps p build b v msg (fd e0) topic-IsTopic)
          | inr e3 ↦ elim (Bool-cases (msg.ctrl_cmd == cmd_publish)) [
            | inl e ↦
                rw (e0, e1, e2, e3, e)
                  (broker_publish-Keeps p build b v msg prio m.data_size fits m.paylen_short)
            | inr e4 ↦ elim (Bool-cases (msg.ctrl_cmd == cmd_ioctl)) [
              | inl e ↦
                  rw (e0, e1, e2, e3, e4, e)
                    (broker_ioctl-Keeps p build b v msg (fd e0) m.data_size (omega arith)
                      m.data_bytes (λ k. small ((==_iff _ cmd_ioctl).0 e, k.0, k.1)))
              | inr e ↦ rw (e0, e1, e2, e3, e4, e) v
            ]
          ]
        ]
      ]
    ]
  ]

-- There is a NUL in it, and it is not an ioctl whose reply overflows its buffer.
abbrev pub IsSafe : Msg → Type 0
IsSafe msg = IsTerminated msg × (¬ Overflows msg)

-- A received message with a NUL in its data, whatever else its bytes are, makes a valid broker of an allowed
-- build neither read nor write out of bounds, and leaves it valid, unless it is an ioctl whose reply
-- overflows its buffer.
pub handle-Keeps :
    (p : Platform) (build : IsBuild p) (b : Broker) (msg : Msg) (prio : ℕ)
    → IsValid p b
    → IsMessage p msg
    → IsSafe msg
    → Keeps p (handle p msg prio b)
unfolding handle
handle-Keeps p build b msg prio v m safe = elim (accepts-cases p msg safe.0) [
  | inl e ↦
      let (fits, fd) = accepts_sound p msg e in
      rw e (
        Keeps-bind p (dispatch p msg prio b) _
          (dispatch-Keeps p build b v msg m fits fd prio safe.1) (λ _ b1 v1. v1))
  | inr e ↦ rw e v
]

-- The messages among the events are well formed and safe.
abbrev pub IsHarmless : Platform → List Event → Type 0
IsHarmless p [] = Unit {0}
IsHarmless p (message msg prio ∷ events) = IsMessage p msg × IsSafe msg × IsHarmless p events
IsHarmless p (shutdown ∷ events) = IsHarmless p events
IsHarmless p (interrupted ∷ events) = IsHarmless p events
IsHarmless p (broken ∷ events) = IsHarmless p events

-- So the main loop runs through any sequence of such events.
pub broker_start-Keeps :
    (p : Platform) (build : IsBuild p) (events : List Event) (b : Broker)
    → IsValid p b
    → IsHarmless p events
    → Keeps p (broker_start p events b)
unfolding broker_start
broker_start-Keeps p build [] b v h = v
broker_start-Keeps p build (shutdown ∷ events) b v h = v
broker_start-Keeps p build (interrupted ∷ events) b v h = broker_start-Keeps p build events b v h
broker_start-Keeps p build (broken ∷ events) b v h = v
broker_start-Keeps p build (message msg prio ∷ events) b v h =
    Keeps-bind p (handle p msg prio b) _ (handle-Keeps p build b msg prio v h.0 h.1)
      (λ _ b1 v1. broker_start-Keeps p build events b1 v1 h.2)

dispatch-ioctl :
    (p : Platform) (msg : Msg) (prio : ℕ) (b : Broker)
    → msg.ctrl_cmd ≡ cmd_ioctl
    → dispatch p msg prio b ≡ broker_ioctl p msg b
unfolding dispatch
dispatch-ioctl p msg prio b e = rw (
  ne_cmd cmd_open refl,
  ne_cmd cmd_close refl,
  ne_cmd cmd_subscribe refl,
  ne_cmd cmd_unsubscribe refl,
  ne_cmd cmd_publish refl,
  (==_iff msg.ctrl_cmd cmd_ioctl).1 e,
)
  where
    ne_cmd : (cmd : ℕ) → (cmd_ioctl == cmd) ≡ false → (msg.ctrl_cmd == cmd) ≡ false
    ne_cmd cmd h = ground arith

-- It is written past the end of the 16 bytes of `buf`.
handle-overflow :
    (p : Platform) (b : Broker) (msg : Msg) (prio : ℕ)
    → IsMessage p msg
    → accepts p msg ≡ some true
    → Overflows msg
    → handle p msg prio b ≡ none
unfolding handle
handle-overflow p b msg prio m a o =
    let (fits, fd) = accepts_sound p msg a in
    rw (
      a,
      dispatch-ioctl p msg prio b o.0,
      broker_ioctl-overflow p b msg m.data_size (omega arith) o.1 o.2,
    )

Overflows-cases : (msg : Msg) → Overflows msg ⊎ (¬ Overflows msg)
Overflows-cases msg = elim (Bool-cases (msg.ctrl_cmd == cmd_ioctl)) [
  | inr e ↦ inr (λ o. ground arith)
  | inl e ↦ elim (Bool-cases (get_or msg.msg_data 0 0 == ioctl_reply_timeout)) [
    | inr k ↦ inr (λ o. ground arith)
    | inl k ↦ elim (Bool-cases (ltb 16 msg.paylen)) [
      | inr l ↦ inr (λ o. ground arith)
      | inl l ↦
          inl ((==_iff _ cmd_ioctl).0 e, (==_iff _ ioctl_reply_timeout).0 k, ltb→lt 16 msg.paylen l)
    ]
  ]
]

handle-refused :
    (p : Platform) (b : Broker) (msg : Msg) (prio : ℕ)
    → accepts p msg ≡ some false
    → handle p msg prio b ≡ some (tt, b)
unfolding handle
handle-refused p b msg prio e = rw e

not-Keeps-none : {A : Type 0} (p : Platform) (o : Option (A × Broker)) → Keeps p o → o ≢ none
not-Keeps-none p none h e = h
not-Keeps-none p (some x) h e = cc

-- On a valid broker of an allowed build, handling a received message reads or writes out of bounds
-- exactly when no byte of its data is a NUL, so that the length of its topic is read past their end; or
-- it passes the checks and is an ioctl for the reply timeout with more than 16 bytes of payload: its
-- reply is then written past the end of the 16 bytes of `buf`.
pub handle-fault_iff :
    (p : Platform) (b : Broker) (msg : Msg) (prio : ℕ)
    → IsBuild p
    → IsValid p b
    → IsMessage p msg
    → (handle p msg prio b ≡ none)
      ↔ (IsString msg.msg_data ⊎ ((accepts p msg ≡ some true) × Overflows msg))
unfolding handle
handle-fault_iff p b msg prio build v m = (fault, faults)
  where
    fault :
        handle p msg prio b ≡ none
        → IsString msg.msg_data ⊎ ((accepts p msg ≡ some true) × Overflows msg)
    fault e = elim (Bool-cases (strlen msg.msg_data == length msg.msg_data)) [
      | inl k ↦ inl (IsString-strlen msg.msg_data ((==_iff _ _).0 k))
      | inr k ↦
          let le = strlen_le msg.msg_data in
          let ended : IsTerminated msg = ground arith in
          elim (Overflows-cases msg) [
            | inr safe ↦
                absurd (not-Keeps-none p _ (handle-Keeps p build b msg prio v m (ended, safe)) e)
            | inl o ↦ elim (accepts-cases p msg ended) [
              | inl a ↦ inr (a, o)
              | inr a ↦ absurd (cc (e, handle-refused p b msg prio a))
            ]
          ]
    ]

    faults :
        IsString msg.msg_data ⊎ ((accepts p msg ≡ some true) × Overflows msg)
        → handle p msg prio b ≡ none
    faults (inl s) = rw (accepts-none p msg s) refl
    faults (inr h) = handle-overflow p b msg prio m h.0 h.1
