-- ===== src/Api/Accepted/Sent.antt =====
-- lib/psmq.c: what psmq_publish_msg puts on the control queue.
use psmq.Prelude.{
  ℕ, ◌+◌, ◌-◌, ◌%◌, ◌^◌, ◌≤◌, ◌<◌, ◌≡◌, refl, sym, ap, ◌∙◌, true, false, List, [], ◌∷◌, ◌++◌,
  Option, none, some, le→ltb, ◌==◌, length, length-take, take, get_or, leb, arith,
}
use psmq.CString.{Bytes, IsString}
use psmq.CString.Copy.{zeros, memcpy_behind, read_bytes_lem}
use psmq.Message.{cmd_ioctl, cmd_publish, header_size, real_msg_size}
use psmq.Platform.{Mqd}
use psmq.Topic.{slash}
use psmq.Broker.Reply.{put_topic}
use psmq.Broker.Reply.Buffer.{
  topic_msg, filled, filled_msg, length-ended, put_topic_lem, put_topic-none, zeros_pos,
  real_msg_size-filled, sent_bytes-filled,
}
use psmq.Api.State.{Psmq, Os, Syscall, sends, is_open, mqd_eq}
use psmq.Api.Send.{fill_payload, send_msg, publish_msg, publish_prio, request_topic}

-- The payload goes behind the topic.
fill_payload_lem :
    (t payload : Bytes) (paylen n : ℕ)
    → length t + 1 + paylen ≤ n
    → paylen ≤ length payload
    → paylen < 2 ^ 16
    → fill_payload (some payload) paylen ((t ++ 0 ∷ []) ++ zeros (n - (length t + 1)), length t + 1)
      ≡ some (filled t (take paylen payload) (n - (length t + 1) - paylen), paylen)
unfolding fill_payload
fill_payload_lem t payload paylen n fits len short =
    let src = take paylen payload in
    let e : length src ≡ paylen = omega (arith, length-take paylen payload) in
    let m : paylen % 2 ^ 16 ≡ paylen = omega arith in
    rw (
      fill_payload,
      read_bytes_lem paylen payload len,
      memcpy_behind (length t + 1) (t ++ 0 ∷ []) src (n - (length t + 1))
          (omega (arith, length-ended t)) (omega arith),
      e,
      m,
    )

fill_payload-none :
    (buf : Bytes) (topiclen paylen : ℕ) → fill_payload none paylen (buf, topiclen) ≡ some (buf, 0)
unfolding fill_payload
fill_payload-none buf topiclen paylen = refl

module _ (os : Os) (qpub : Mqd) (cmd fd prio : ℕ) (calls : List Syscall) where
  send_msg-filled :
      (topic payload : Option Bytes) (paylen : ℕ) (put : Bytes × ℕ) (t bytes : Bytes) (n : ℕ)
      → put_topic topic (zeros os.msg_max) ≡ some put
      → fill_payload payload paylen put ≡ some (filled t bytes n, length bytes)
      → (cmd == cmd_ioctl) ≡ false
      → IsString t
      → length t + 1 + length bytes ≤ os.msg_max
      → (let c = sends qpub (topic_msg cmd fd t bytes) prio in
          send_msg os qpub cmd fd topic payload paylen prio calls
          ≡ some (os.mq_send calls c, c ∷ calls))
  unfolding send_msg
  send_msg-filled topic payload paylen put t bytes n e e' c h fits =
      let size = real_msg_size-filled cmd fd t bytes n c h in
      rw (
        e,
        e',
        le→ltb (header_size + os.msg_max) (real_msg_size (filled_msg cmd fd t bytes n))
            (omega (arith, size)),
        sent_bytes-filled cmd fd t bytes n c h,
      )

  -- A topic and a payload that fit are sent as they are, in one message.
  send_msg-payload :
      (t payload : Bytes) (paylen : ℕ)
      → (cmd == cmd_ioctl) ≡ false
      → IsString t
      → length t + 1 + paylen ≤ os.msg_max
      → paylen ≤ length payload
      → paylen < 2 ^ 16
      → (let c = sends qpub (topic_msg cmd fd t (take paylen payload)) prio in
          send_msg os qpub cmd fd (some t) (some payload) paylen prio calls
          ≡ some (os.mq_send calls c, c ∷ calls))
  send_msg-payload t payload paylen c h fits len short =
      let k : length (take paylen payload) ≡ paylen = omega (arith, length-take paylen payload) in
      send_msg-filled (some t) (some payload) paylen _ t (take paylen payload) _
        (put_topic_lem t os.msg_max (omega arith))
        (fill_payload_lem t payload paylen os.msg_max fits len short
          ∙ ap
              (λ l. some (filled t (take paylen payload) (os.msg_max - (length t + 1) - paylen), l))
              (sym k))
        c h (omega arith)

  -- A topic alone.
  pub send_msg-topic :
      (t : Bytes)
      → (cmd == cmd_ioctl) ≡ false
      → IsString t
      → length t + 1 ≤ os.msg_max
      → (let c = sends qpub (topic_msg cmd fd t []) prio in
          send_msg os qpub cmd fd (some t) none 0 prio calls ≡ some (os.mq_send calls c, c ∷ calls))
  send_msg-topic t c h fits =
      send_msg-filled (some t) none 0 _ t [] _ (put_topic_lem t os.msg_max fits)
        (fill_payload-none _ _ 0) c h (omega arith)

  -- Neither: the topic is empty.
  pub send_msg-bare :
      (cmd == cmd_ioctl) ≡ false
      → 1 ≤ os.msg_max
      → (let c = sends qpub (topic_msg cmd fd [] []) prio in
          send_msg os qpub cmd fd none none 0 prio calls ≡ some (os.mq_send calls c, c ∷ calls))
  send_msg-bare c fits =
      send_msg-filled none none 0 (zeros os.msg_max, 0) [] [] (os.msg_max - 1) (put_topic-none _)
        (fill_payload-none _ _ 0 ∙ ap (λ b. some (b, 0)) (zeros_pos os.msg_max fits)) c tt
        (omega arith)

-- A client whose queues are open and differ, as psmq_init leaves it.
pub record IsReady (s : Psmq) : Type 0 where
  pub qsub_open : is_open s.qsub ≡ true
  pub qpub_open : is_open s.qpub ≡ true
  pub differ : mqd_eq s.qsub s.qpub ≡ false

pub publish_msg-ready :
    (os : Os) (s : Psmq) (cmd fd : ℕ) (topic payload : Option Bytes) (paylen prio : ℕ)
    → IsReady s
    → publish_msg os (some s) cmd fd topic payload paylen prio
      ≡ send_msg os s.qpub cmd fd topic payload paylen prio
unfolding publish_msg
publish_msg-ready os s cmd fd topic payload paylen prio r = simp (r.qpub_open, r.differ)

module _ (os : Os) (s : Psmq) (t : Bytes) (calls : List Syscall) (r : IsReady s)
    (slashed : (get_or t 0 0 == slash) ≡ true) (h : IsString t) where
  -- psmq_publish_prio sends one message, where its arguments are good.
  pub publish_prio-sends :
      (payload : Bytes) (paylen prio : ℕ)
      → length t + 1 + paylen ≤ os.msg_max
      → os.msg_max < 2 ^ 64
      → paylen ≤ length payload
      → paylen < 2 ^ 16
      → (let c = sends s.qpub (topic_msg cmd_publish s.fd t (take paylen payload)) prio in
          publish_prio os (some s) (some t) (some payload) paylen prio calls
          ≡ some (os.mq_send calls c, c ∷ calls))
  unfolding publish_prio
  publish_prio-sends payload paylen prio fits wide len short =
      let small : leb ((length t + 1 + paylen) % 2 ^ 64) os.msg_max ≡ true = ground arith in
      rw
        (
          small,
          slashed,
          publish_msg-ready os s cmd_publish s.fd (some t) (some payload) paylen prio r,
        )
        (send_msg-payload os s.qpub cmd_publish s.fd prio calls t payload paylen refl h fits len
          short)

  -- psmq_subscribe and psmq_unsubscribe too.
  pub request_topic-sends :
      (cmd : ℕ)
      → (cmd == cmd_ioctl) ≡ false
      → length t + 1 ≤ os.msg_max
      → (let c = sends s.qpub (topic_msg cmd s.fd t []) 0 in
          request_topic os cmd (some s) (some t) calls ≡ some (os.mq_send calls c, c ∷ calls))
  unfolding request_topic
  request_topic-sends cmd no_ioctl fits =
      let small : leb (length t + 1) os.msg_max ≡ true = ground arith in
      let full : (get_or t 0 0 == 0) ≡ false = ground arith in
      simp (
        full,
        slashed,
        r.qsub_open,
        r.differ,
        small,
        publish_msg-ready os s cmd s.fd (some t) none 0 0 r,
        send_msg-topic os s.qpub cmd s.fd 0 calls t no_ioctl h fits,
      )
