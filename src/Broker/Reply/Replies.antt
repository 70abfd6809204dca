-- ===== src/Broker/Reply/Replies.antt =====
-- The replies without a topic: to an open request, and to an ioctl.
use psmq.Prelude.{
  ℕ, zero, suc, ◌+◌, ◌-◌, ◌%◌, ◌^◌, ◌≤◌, ◌<◌, ◌≡◌, refl, ap, ◌∙◌, false, [], ◌∷◌, ◌++◌, none, some,
  ◌==◌, if◌then◌else◌, length, length-take, take-append, take, arith,
}
use psmq.CString.{Bytes, c_str, strlen}
use psmq.CString.Copy.{zeros, memcpy_behind, read_bytes_lem}
use psmq.Message.{Msg, cmd_ioctl, header_size, real_msg_size, sent_bytes}
use psmq.Platform.{Mqd, Platform}
use psmq.Broker.State.{Broker, ask}
use psmq.Broker.Reply.{put_payload, reply_mq}
use psmq.Broker.Reply.Buffer.{suc_eq_zero, reply_mq-sends, put_topic-none}
use psmq.Broker.Reply.Sends.{send_of}

-- The descriptor that the reply to an open request carries, with the bytes behind it that
-- psmq_real_msg_size() counts.
abbrev pub fd_bytes : ℕ → Bytes
fd_bytes fd = if fd == 0 then 0 ∷ 0 ∷ [] else fd ∷ 0 ∷ 0 ∷ []

abbrev pub fd_msg : ℕ → ℕ → ℕ → Msg
fd_msg cmd status fd = record {
  ctrl_cmd = cmd;
  ctrl_data = status;
  paylen = 1;
  msg_data = fd_bytes fd;
}

pub put_payload_fd :
    (fd n : ℕ) → 1 ≤ n → put_payload (some (fd ∷ [])) 1 (zeros n, 0) ≡ some (fd ∷ zeros (n - 1))
unfolding put_payload
put_payload_fd fd n h = rw (
  suc_eq_zero 0,
  read_bytes_lem 1 (fd ∷ []) (omega arith),
  memcpy_behind 0 [] (fd ∷ []) n refl (omega arith),
)

pub sent_bytes-fd :
    (cmd status fd n : ℕ)
    → (cmd == cmd_ioctl) ≡ false
    → (let msg : Msg = record {
      ctrl_cmd = cmd;
      ctrl_data = status;
      paylen = 1;
      msg_data = fd ∷ 0 ∷ 0 ∷ zeros n;
    } in
        (real_msg_size msg ≤ header_size + (n + 3))
        × (sent_bytes (real_msg_size msg) msg ≡ fd_msg cmd status fd))
unfolding real_msg_size sent_bytes strlen c_str
sent_bytes-fd cmd status zero n e = rw e (omega arith, refl)
sent_bytes-fd cmd status (suc fd) n e = rw (e, suc_eq_zero fd) (omega arith, refl)

pub put_payload_ioctl :
    (buf : Bytes) (paylen n : ℕ)
    → 1 ≤ paylen
    → paylen ≤ length buf
    → paylen ≤ n
    → put_payload (some buf) paylen (zeros n, 0) ≡ some (take paylen buf ++ zeros (n - paylen))
unfolding put_payload
put_payload_ioctl buf zero n pos len fits = absurd (omega arith)
put_payload_ioctl buf (suc k) n pos len fits =
    let e : length (take (suc k) buf) ≡ suc k = omega (arith, length-take (suc k) buf) in
    rw (
      suc_eq_zero k,
      read_bytes_lem (suc k) buf len,
      memcpy_behind 0 [] (take (suc k) buf) n refl (omega arith),
      e,
    )

abbrev pub ioctl_msg : ℕ → Bytes → Msg
ioctl_msg status bytes = record {
  ctrl_cmd = cmd_ioctl;
  ctrl_data = status;
  paylen = length bytes;
  msg_data = bytes;
}

pub sent_bytes-ioctl :
    (status n : ℕ) (bytes : Bytes)
    → (let msg = record (ioctl_msg status bytes) { msg_data = bytes ++ zeros n } in
        (real_msg_size msg ≡ header_size + 0 + length bytes)
        × (sent_bytes (real_msg_size msg) msg ≡ ioctl_msg status bytes))
unfolding real_msg_size sent_bytes
sent_bytes-ioctl status n bytes =
    (refl, ap (ioctl_data status (length bytes)) (take-append _ bytes (zeros n) (omega arith)))
  where
    ioctl_data : ℕ → ℕ → Bytes → Msg
    ioctl_data status len d = record {
      ctrl_cmd = cmd_ioctl;
      ctrl_data = status;
      paylen = len;
      msg_data = d;
    }

pub zeros_two : (n : ℕ) → 3 ≤ n → zeros (n - 1) ≡ 0 ∷ 0 ∷ zeros (n - 3)
zeros_two n h = let e : n - 1 ≡ suc (suc (n - 3)) = omega arith in ap zeros e

module _ (p : Platform) (mq : Mqd) (cmd status prio timeout : ℕ) (b : Broker) where
  -- A descriptor and nothing else.
  pub reply_mq-fd :
      (fd : ℕ)
      → (cmd == cmd_ioctl) ≡ false
      → 3 ≤ p.msg_max
      → reply_mq p mq cmd status none (some (fd ∷ [])) 1 prio timeout b
        ≡ ask p.mq_timedsend (send_of p mq cmd status prio timeout b (fd_msg cmd status fd)) b
  reply_mq-fd fd c fits =
      let (size, sent) = sent_bytes-fd cmd status fd (p.msg_max - 3) c in
      let z : zeros (p.msg_max - 1) ≡ 0 ∷ 0 ∷ zeros (p.msg_max - 3) = zeros_two p.msg_max fits in
      reply_mq-sends p mq cmd status prio timeout b none (some (fd ∷ [])) 1 (zeros p.msg_max, 0)
        (fd ∷ 0 ∷ 0 ∷ zeros (p.msg_max - 3)) (put_topic-none _)
        (put_payload_fd fd p.msg_max (omega arith) ∙ ap (λ k. some (fd ∷ k)) z)
        (omega (arith, size))
      ∙ ap (λ m. ask p.mq_timedsend (send_of p mq cmd status prio timeout b m) b) sent

  -- The data of an ioctl.
  pub reply_mq-ioctl :
      (buf : Bytes) (paylen : ℕ)
      → 1 ≤ paylen
      → paylen ≤ length buf
      → paylen ≤ p.msg_max
      → paylen < 2 ^ 16
      → reply_mq p mq cmd_ioctl status none (some buf) paylen prio timeout b
        ≡ ask p.mq_timedsend
            (send_of p mq cmd_ioctl status prio timeout b (ioctl_msg status (take paylen buf)))
            b
  reply_mq-ioctl buf paylen pos len fits short =
      let bytes = take paylen buf in
      let e : paylen % 2 ^ 16 ≡ length bytes = omega (arith, length-take paylen buf) in
      let n = p.msg_max - paylen in
      let (size, sent) = sent_bytes-ioctl status n bytes in
      reply_mq-sends p mq cmd_ioctl status prio timeout b none (some buf) paylen
        (zeros p.msg_max, 0) (take paylen buf ++ zeros (p.msg_max - paylen)) (put_topic-none _)
        (put_payload_ioctl buf paylen p.msg_max pos len fits)
        (rw e (omega (arith, size, length-take paylen buf)))
      ∙ rw e (ap (λ m. ask p.mq_timedsend (send_of p mq cmd_ioctl status prio timeout b m) b) sent)
