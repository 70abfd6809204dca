-- ===== src/Api/Accepted/Generated.antt =====
-- lib/psmq.c: the open request with a generated queue name.
use psmq.Prelude.{
  ℕ, ◌+◌, ◌<◌, ◌≡◌, ◌↔◌, refl, List, [], ◌∷◌, ◌++◌, none, some, ltb, lt→ltb, Bool-cases, inl, inr,
  length, length-replicate, arith,
}
use psmq.CString.{Bytes, IsString, memcpy}
use psmq.CString.Copy.{zeros}
use psmq.Message.{cmd_open}
use psmq.Broker.Reply.{put_topic}
use psmq.Broker.Reply.Buffer.{length-ended}
use psmq.Api.State.{Psmq, Os, Syscall}
use psmq.Api.Send.{send_msg, publish_msg}
use psmq.Api.Init.{generated_name}
use psmq.Api.Accepted.Sent.{IsReady, publish_msg-ready, send_msg-topic}

pub generated_name-IsString : (i : ℕ) → IsString (generated_name i)
generated_name-IsString i = (
  refl,
  (refl, (refl, (refl, (refl, (refl, (ground arith, (ground arith, (ground arith, tt)))))))),
)

put_topic-overflow : (t : Bytes) (n : ℕ) → n < length t + 1 → put_topic (some t) (zeros n) ≡ none
unfolding put_topic memcpy
put_topic-overflow t n small = rw (
  put_topic,
  lt→ltb (length (zeros n)) (0 + length (t ++ 0 ∷ []))
      (omega (arith, length-ended t, length-replicate {A = ℕ} n 0)),
)

generated-overflow :
    (os : Os) (s : Psmq) (i : ℕ) (calls : List Syscall)
    → os.msg_max < 10
    → send_msg os s.qpub cmd_open 0 (some (generated_name i)) none 0 0 calls ≡ none
unfolding send_msg
generated-overflow os s i calls small =
    rw (put_topic-overflow (generated_name i) os.msg_max (omega arith))

-- Where both queues are open, the request to open that psmq_init sends under a generated name is
-- written past the end of the message exactly where PSMQ_MSG_MAX is below 10.
pub generated-fault_iff :
    (os : Os) (s : Psmq) (i : ℕ) (calls : List Syscall)
    → IsReady s
    → (publish_msg os (some s) cmd_open 0 (some (generated_name i)) none 0 0 calls ≡ none)
      ↔ (os.msg_max < 10)
generated-fault_iff os s i calls r =
    rw (publish_msg-ready os s cmd_open 0 (some (generated_name i)) none 0 0 r)
      (fault, generated-overflow os s i calls)
  where
    fault :
        send_msg os s.qpub cmd_open 0 (some (generated_name i)) none 0 0 calls ≡ none
        → os.msg_max < 10
    fault e = elim (Bool-cases (ltb os.msg_max 10)) [
      | inl lt ↦ ground arith
      | inr ge ↦ absurd (
          cc (
            e,
            send_msg-topic os s.qpub cmd_open 0 0 calls (generated_name i) refl
                (generated_name-IsString i) (ground arith),
          ))
    ]
