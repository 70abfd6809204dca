-- ===== src/Broker/Safety/Ioctl.antt =====
-- The ioctl request, and the one fault of the broker: the reply to an ioctl whose data do not fit
-- into the 16 bytes of `buf`.
use psmq.Prelude.{
  ℕ, ◌+◌, ◌-◌, ◌^◌, ◌≤◌, ◌<◌, ◌≡◌, refl, true, false, [], ◌∷◌, ◌++◌, Option, none, some, ◌==◌, ltb,
  ltb→lt, lt→ltb, le→ltb, Bool-cases, inl, inr, ==_iff, length, length-append, length-drop,
  length-take, length-replicate, take, drop, get_or, zero, suc, All, arith,
}
use psmq.CString.{Bytes, memcpy}
use psmq.CString.Copy.{zeros, memcpy_behind, read_bytes_lem}
use psmq.Errno.{einval}
use psmq.Message.{Msg, cmd_ioctl, ioctl_reply_timeout}
use psmq.Platform.{Platform}
use psmq.Broker.State.{Broker, store_client}
use psmq.Broker.Reply.{reply}
use psmq.Broker.Reply.Sends.{send_of}
use psmq.Broker.Reply.Replies.{ioctl_msg, reply_mq-ioctl}
use psmq.Broker.Requests.{ushort_bytes, bytes_ushort}
use psmq.Broker.Ioctl.{
  ioctl_buffer, reply_ioctl, refuse_ioctl, store_timeout, set_reply_timeout, broker_ioctl,
}
use psmq.Broker.Valid.{IsBuild, IsValid, Keeps, Keeps-bind, load_client-Keeps, store_client-Keeps}
use psmq.Broker.Safety.{reply-Keeps}

ioctl_buffer-none : (req : ℕ) → ioctl_buffer req none 0 ≡ some ((req ∷ []) ++ ([] ++ zeros 15))
unfolding ioctl_buffer
ioctl_buffer-none req = refl

pub ioctl_buffer-some :
    (req : ℕ) (payload : Bytes) (datalen : ℕ)
    → datalen ≤ 15
    → datalen ≤ length payload
    → ioctl_buffer req (some payload) datalen
      ≡ some ((req ∷ []) ++ (take datalen payload ++ zeros (15 - datalen)))
unfolding ioctl_buffer
ioctl_buffer-some req payload datalen small len =
    let e : length (take datalen payload) ≡ datalen = omega (arith, length-take datalen payload) in
    rw (
      ioctl_buffer,
      read_bytes_lem datalen payload len,
      memcpy_behind 1 (req ∷ []) (take datalen payload) 15 refl (omega arith),
      e,
    )

-- More than 15 bytes of data are written past the end of `buf`.
ioctl_buffer_overflow :
    (req : ℕ) (payload : Bytes) (datalen : ℕ)
    → 15 < datalen
    → datalen ≤ length payload
    → ioctl_buffer req (some payload) datalen ≡ none
unfolding ioctl_buffer memcpy
ioctl_buffer_overflow req payload datalen big len = rw (
  ioctl_buffer,
  read_bytes_lem datalen payload len,
  lt→ltb 16 (1 + length (take datalen payload)) (omega (arith, length-take datalen payload)),
)

length-ioctl_buffer :
    (req n : ℕ) (bytes : Bytes) → length ((req ∷ []) ++ (bytes ++ zeros n)) ≡ 1 + length bytes + n
length-ioctl_buffer req n bytes =
    omega (arith, length-append bytes (zeros n), length-replicate {A = ℕ} n 0)

module _ (p : Platform) (build : IsBuild p) (fd : ℕ) (lt : fd < p.max_clients) (datalen : ℕ)
    (small : datalen ≤ 15) (fits : 1 + datalen ≤ p.msg_max) where
  -- A reply from a buffer that was filled.
  reply_ioctl-Keeps :
      (b : Broker) (status req : ℕ) (payload : Option Bytes) (bytes : Bytes)
      → IsValid p b
      → ioctl_buffer req payload datalen ≡ some ((req ∷ []) ++ (bytes ++ zeros (15 - datalen)))
      → length bytes ≡ datalen
      → Keeps p (reply_ioctl p fd status req payload datalen b)
  unfolding reply_ioctl
  reply_ioctl-Keeps b status req payload bytes v e len =
      let buf = (req ∷ []) ++ (bytes ++ zeros (15 - datalen)) in
      let size = length-ioctl_buffer req (15 - datalen) bytes in
      rw e (
        Keeps-bind p (reply p fd cmd_ioctl status none (some buf) (1 + datalen) 0 b) _
          (reply-Keeps p build fd b v lt cmd_ioctl status none (some buf) (1 + datalen) 0
            (λ c.
              send_of p c.mq cmd_ioctl status 0 c.reply_timeout b
                (ioctl_msg status (take (1 + datalen) buf)))
            (λ c.
              reply_mq-ioctl p c.mq cmd_ioctl status 0 c.reply_timeout b buf (1 + datalen)
                (omega arith) (omega arith) fits (omega arith)))
          (λ a b' v'. v'))

  refuse_ioctl-Keeps :
      (b : Broker) (req : ℕ) (payload : Option Bytes) (bytes : Bytes)
      → IsValid p b
      → ioctl_buffer req payload datalen ≡ some ((req ∷ []) ++ (bytes ++ zeros (15 - datalen)))
      → length bytes ≡ datalen
      → Keeps p (refuse_ioctl p fd req payload datalen b)
  unfolding refuse_ioctl
  refuse_ioctl-Keeps b req payload bytes v e len =
      Keeps-bind p (reply_ioctl p fd einval req payload datalen b) _
        (reply_ioctl-Keeps b einval req payload bytes v e len) (λ a b' v'. v')

-- The ioctl whose reply does not fit: a timeout with more than 15 bytes of data.
abbrev pub Overflows : Msg → Type 0
Overflows msg =
    (msg.ctrl_cmd ≡ cmd_ioctl) × (get_or msg.msg_data 0 0 ≡ ioctl_reply_timeout) × (16 < msg.paylen)

bytes_ushort-lt : (b : Bytes) → All (λ x. x < 256) b → bytes_ushort b < 2 ^ 16
unfolding bytes_ushort
bytes_ushort-lt [] h = omega arith
bytes_ushort-lt (x ∷ []) h = omega arith
bytes_ushort-lt (x ∷ y ∷ b) h = omega arith

ne_two : (n : ℕ) → 15 < n → (n == 2) ≡ false
ne_two n h = ground arith

All-take : (P : ℕ → Type 0) (n : ℕ) (b : Bytes) → All P b → All P (take n b)
All-take P zero b h = tt
All-take P (suc n) [] h = tt
All-take P (suc n) (x ∷ b) h = (h.0, All-take P n b h.1)

module _ (p : Platform) (build : IsBuild p) (fd : ℕ) (lt : fd < p.max_clients) where
  store_timeout-Keeps :
      (b : Broker) (req : ℕ) (bytes : Bytes)
      → IsValid p b
      → All (λ x. x < 256) bytes
      → Keeps p (store_timeout p fd req bytes 2 b)
  unfolding store_timeout ushort_bytes
  store_timeout-Keeps b req bytes v h =
      let t = bytes_ushort bytes in
      load_client-Keeps p fd b v lt _ λ c there hc.
        Keeps-bind p (store_client fd (record c { reply_timeout = t }) b) _
          (store_client-Keeps p fd b v lt (record c { reply_timeout = t })
            (record {
              topics_fit = hc.topics_fit;
              missed_byte = hc.missed_byte;
              timeout_short = bytes_ushort-lt bytes h;
            }))
          λ _ b1 v1.
            Keeps-bind p (reply_ioctl p fd 0 req (some (ushort_bytes t)) 2 b1) _
              (reply_ioctl-Keeps p build fd lt 2 (omega arith) (omega arith) b1 0 req
                (some (ushort_bytes t)) (ushort_bytes t) v1
                (ioctl_buffer-some req (ushort_bytes t) 2 (omega arith) (omega arith)) refl)
              (λ _ b2 v2. v2)

  -- A timeout with data of the right length is stored, with any other is refused.
  set_reply_timeout-Keeps :
      (b : Broker) (req : ℕ) (payload : Bytes) (dlen : ℕ)
      → IsValid p b
      → dlen ≤ 15
      → dlen ≤ length payload
      → 1 + dlen ≤ p.msg_max
      → All (λ x. x < 256) payload
      → Keeps p (set_reply_timeout p fd req payload dlen b)
  unfolding set_reply_timeout
  set_reply_timeout-Keeps b req payload dlen v small len fits bytes =
      elim (Bool-cases (dlen == 2)) [
        | inl e ↦ rw ((==_iff dlen 2).0 e) (
            rw (read_bytes_lem 2 payload (omega (arith, (==_iff dlen 2).0 e))) (
              store_timeout-Keeps b req (take 2 payload) v
                (All-take (λ x. x < 256) 2 payload bytes)))
        | inr e ↦ rw e (
            refuse_ioctl-Keeps p build fd lt dlen small fits b req (some payload)
              (take dlen payload) v (ioctl_buffer-some req payload dlen small len)
              (omega (arith, length-take dlen payload)))
      ]

All-drop_one : (P : ℕ → Type 0) (b : Bytes) → All P b → All P (drop 1 b)
All-drop_one P [] h = tt
All-drop_one P (x ∷ b) h = h.1

module _ (p : Platform) (build : IsBuild p) (b : Broker) (v : IsValid p b) (msg : Msg)
    (lt : msg.ctrl_data < p.max_clients) (size : length msg.msg_data ≡ p.msg_max)
    (fits : msg.paylen < p.msg_max) where
  -- Any other ioctl is answered.
  pub broker_ioctl-Keeps :
      All (λ x. x < 256) msg.msg_data
      → ¬ ((get_or msg.msg_data 0 0 ≡ ioctl_reply_timeout) × (16 < msg.paylen))
      → Keeps p (broker_ioctl p msg b)
  unfolding broker_ioctl
  broker_ioctl-Keeps bytes small = elim (Bool-cases (ltb msg.paylen 1)) [
    | inl e ↦ rw e (bare 0)
    | inr e ↦ elim (Bool-cases (get_or msg.msg_data 0 0 == ioctl_reply_timeout)) [
      | inl k ↦
          rw (e, k)
            (set_reply_timeout-Keeps p build msg.ctrl_data lt b _ (drop 1 msg.msg_data)
              (msg.paylen - 1) v (dlen k) (omega (arith, length-drop 1 msg.msg_data)) (omega arith)
              (All-drop_one (λ x. x < 256) msg.msg_data bytes))
      | inr k ↦ rw (e, k) (bare (get_or msg.msg_data 0 0))
    ]
  ]
    where
      bare : (req : ℕ) → Keeps p (refuse_ioctl p msg.ctrl_data req none 0 b)
      bare req =
          refuse_ioctl-Keeps p build msg.ctrl_data lt 0 (omega arith) (omega arith) b req none [] v
            (ioctl_buffer-none req) refl

      dlen : (get_or msg.msg_data 0 0 == ioctl_reply_timeout) ≡ true → msg.paylen - 1 ≤ 15
      dlen k = elim (Bool-cases (ltb 16 msg.paylen)) [
        | inl big ↦ absurd (small ((==_iff _ ioctl_reply_timeout).0 k, ltb→lt 16 msg.paylen big))
        | inr ok ↦ ground arith
      ]

-- There it writes past the end of `buf`.
pub broker_ioctl-overflow :
    (p : Platform) (b : Broker) (msg : Msg)
    → length msg.msg_data ≡ p.msg_max
    → msg.paylen < p.msg_max
    → get_or msg.msg_data 0 0 ≡ ioctl_reply_timeout
    → 16 < msg.paylen
    → broker_ioctl p msg b ≡ none
unfolding broker_ioctl set_reply_timeout refuse_ioctl reply_ioctl
broker_ioctl-overflow p b msg size fits k big = rw (
  le→ltb msg.paylen 1 (omega arith),
  (==_iff (get_or msg.msg_data 0 0) ioctl_reply_timeout).1 k,
  ne_two (msg.paylen - 1) (omega arith),
  ioctl_buffer_overflow _ (drop 1 msg.msg_data) (msg.paylen - 1) (omega arith)
      (omega (arith, length-drop 1 msg.msg_data)),
)
