-- ===== src/Api/Accepted/Connect.antt =====
-- lib/psmq.c against src/broker.c: the reply timeout, and the answer to an open request.
use psmq.Prelude.{
  zero, suc, ℕ, ◌+◌, ◌-◌, ◌/◌, ◌%◌, ◌^◌, ◌≤◌, ◌<◌, ◌≡◌, refl, sym, true, List, [], ◌∷◌, ◌++◌, none,
  some, le→ltb, leb, length, length-append, length-replicate, take-append, get_elem?, arith,
}
use psmq.CString.{Bytes, c_str, strlen}
use psmq.CString.Copy.{zeros, memcpy_behind, read_bytes_lem}
use psmq.Errno.{enospc}
use psmq.Message.{
  Msg, received, cmd_ioctl, cmd_open, ioctl_reply_timeout, header_size, real_msg_size,
}
use psmq.Platform.{Mqd, Platform}
use psmq.Broker.State.{Client, Broker}
use psmq.Broker.Requests.{ushort_bytes}
use psmq.Broker.Reply.Buffer.{topic_msg, put_topic-none, suc_eq_zero}
use psmq.Broker.Reply.Sends.{send_of, replied}
use psmq.Broker.Reply.Replies.{ioctl_msg, sent_bytes-ioctl, fd_msg}
use psmq.Broker.Ioctl.{broker_ioctl}
use psmq.Broker.Loop.{accepts, topic_length}
use psmq.Broker.Effects.{with_client}
use psmq.Broker.Effects.Ioctl.{broker_ioctl-stores}
use psmq.Api.State.{Psmq, Os, Syscall, sends}
use psmq.Api.Send.{fill_payload, send_msg, ioctl, ioctl_timeout}
use psmq.Api.Receive.{overwrite}
use psmq.Api.Init.{zeroed_msg, read_answer, granted, refused}
use psmq.Api.Accepted.Sent.{IsReady, publish_msg-ready}

-- The three bytes of the request.
abbrev pub timeout_bytes : ℕ → Bytes
timeout_bytes val = ioctl_reply_timeout ∷ (val % 256) ∷ (val / 256) ∷ []

fill_payload-ioctl :
    (bytes rest : Bytes) (n : ℕ)
    → length bytes ≡ 3
    → 3 ≤ n
    → fill_payload (some (bytes ++ rest)) 3 (zeros n, 0) ≡ some (bytes ++ zeros (n - 3), 3)
unfolding fill_payload
fill_payload-ioctl bytes rest n len fits = rw (
  fill_payload,
  read_bytes_lem 3 (bytes ++ rest) (omega (arith, length-append bytes rest)),
  take-append 3 bytes rest (sym len),
  memcpy_behind 0 [] bytes n refl (omega arith),
  len,
)

-- A string ends at the first NUL at the latest.
strlen-le : (xs rest : Bytes) → strlen (xs ++ 0 ∷ rest) ≤ length xs
unfolding strlen c_str
strlen-le [] rest = omega arith
strlen-le (x ∷ xs) rest = ground (arith, strlen-le xs rest)

send_msg-ioctl :
    (os : Os) (qpub : Mqd) (fd prio : ℕ) (bytes rest : Bytes) (calls : List Syscall)
    → length bytes ≡ 3
    → 3 ≤ os.msg_max
    → (let c = sends qpub (ioctl_msg fd bytes) prio in
        send_msg os qpub cmd_ioctl fd none (some (bytes ++ rest)) 3 prio calls
        ≡ some (os.mq_send calls c, c ∷ calls))
unfolding send_msg
send_msg-ioctl os qpub fd prio bytes rest calls len fits =
    let n = os.msg_max - length bytes in
    let (size, sent) = sent_bytes-ioctl fd n bytes in
    let msg : Msg = record (ioctl_msg fd bytes) { msg_data = bytes ++ zeros n } in
    rw (put_topic-none (zeros os.msg_max), fill_payload-ioctl bytes rest os.msg_max len fits)
      (rw (← len)
        (rw (le→ltb (header_size + os.msg_max) (real_msg_size msg) (omega (arith, size)), sent)))

module _ (os : Os) (s : Psmq) (val : ℕ) (calls : List Syscall) (r : IsReady s)
    (short : val < 2 ^ 16) (fits : 3 ≤ os.msg_max) where
  ioctl_timeout-sends :
      (let c = sends s.qpub (ioctl_msg s.fd (timeout_bytes val)) 0 in
        ioctl_timeout os (some s) val calls ≡ some (os.mq_send calls c, c ∷ calls))
  unfolding ioctl_timeout ioctl ushort_bytes
  ioctl_timeout-sends =
      let small : leb val (2 ^ 16 - 1) ≡ true = ground arith in
      simp (
        r.qsub_open,
        r.differ,
        small,
        publish_msg-ready os s cmd_ioctl s.fd none (some (timeout_bytes val ++ zeros 29)) 3 0 r,
        send_msg-ioctl os s.qpub s.fd 0 (timeout_bytes val) (zeros 29) calls refl fits,
      )

-- Under the same conditions, the message as the main loop receives it: its bytes, with zeros behind.
abbrev pub timeout_received : Platform → Psmq → ℕ → Msg
timeout_received p s val = received p.msg_max (ioctl_msg s.fd (timeout_bytes val))

module _ (os : Os) (p : Platform) (s : Psmq) (val : ℕ) (calls : List Syscall)
    (same : os.msg_max ≡ p.msg_max) (r : IsReady s) (slot : s.fd < p.max_clients)
    (short : val < 2 ^ 16) (fits : 7 ≤ p.msg_max) where
  strlen-timeout : strlen (timeout_received p s val).msg_data ≤ 3
  unfolding received
  strlen-timeout =
      let e : p.msg_max - 3 ≡ suc (p.msg_max - 4) = omega arith in
      rw e (strlen-le (timeout_bytes val) (zeros (p.msg_max - 4)))

  timeout-accepted : accepts p (timeout_received p s val) ≡ some true
  unfolding accepts topic_length received
  timeout-accepted = ground (arith, strlen-timeout, length-replicate {A = ℕ} (p.msg_max - 3) 0)

  -- Where the client's queues are open, its slot is one of the broker's and taken, both were built
  -- with the same PSMQ_MSG_MAX of at least 7, and the timeout is an unsigned short:
  -- psmq_ioctl_reply_timeout sends one message, which the checks of the broker's main loop let
  -- through, and for which the broker stores the same timeout in the client's slot.
  pub ioctl_timeout-stored :
      (b : Broker) (c : Client)
      → get_elem? b.clients s.fd ≡ some c
      → (let call = sends s.qpub (ioctl_msg s.fd (timeout_bytes val)) 0 in
          let c' : Client = record c { reply_timeout = val } in
          let back = send_of p c.mq cmd_ioctl 0 0 val b (ioctl_msg 0 (timeout_bytes val)) in
          (ioctl_timeout os (some s) val calls ≡ some (os.mq_send calls call, call ∷ calls))
          × (accepts p (timeout_received p s val) ≡ some true)
          × (broker_ioctl p (timeout_received p s val) b
              ≡ some (
                true,
                replied (with_client b s.fd c') s.fd c' back (p.mq_timedsend b.calls back),
              )))
  unfolding received
  ioctl_timeout-stored b c there = (
    ioctl_timeout-sends os s val calls r short (omega arith),
    timeout-accepted,
    broker_ioctl-stores p b (timeout_received p s val) c (val % 256) (val / 256) val
        (zeros (p.msg_max - 3)) there (omega arith) refl refl (omega arith) (omega arith),
  )

-- How a client takes the two answers that the broker gives to an open request, read into a zeroed
-- buffer: the number of its slot, whichever it is, as its `fd`; and ENOSPC as such.
pub read_answer-broker :
    (os : Os) (fd : ℕ)
    → (read_answer (overwrite (zeroed_msg os) (fd_msg cmd_open 0 fd)) ≡ some (granted 0 fd))
      × (read_answer (overwrite (zeroed_msg os) (topic_msg cmd_open enospc [] []))
          ≡ some (refused enospc))
unfolding read_answer overwrite
read_answer-broker os zero = (refl, refl)
read_answer-broker os (suc fd) = (rw (suc_eq_zero fd) refl, refl)
