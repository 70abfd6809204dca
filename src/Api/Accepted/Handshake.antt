-- ===== src/Api/Accepted/Handshake.antt =====
-- lib/psmq.c against src/broker.c: the connection of a client, from its request to the answer.
use psmq.Prelude.{
  ℕ, zero, suc, ◌+◌, ◌≤◌, ◌<◌, ◌≡◌, refl, ◌∙◌, false, Option, List, [], ◌∷◌, none, some, ◌==◌,
  length, arith,
}
use psmq.CString.{Bytes, IsString}
use psmq.Errno.{ok}
use psmq.Message.{Msg, cmd_open}
use psmq.Time.{ms_to_tp}
use psmq.Broker.Reply.Buffer.{topic_msg}
use psmq.Broker.Reply.Replies.{fd_msg}
use psmq.Api.State.{Psmq, Os, Syscall, Run, give, opens_write, receives_until, sends}
use psmq.Api.Receive.{overwrite, receive_into, timedreceive_prio, timedreceive_ms}
use psmq.Api.Init.{Ack, granted, read_answer, zeroed_msg, await_answer, conclude, register, init_wq}
use psmq.Api.Accepted.Sent.{IsReady, publish_msg-ready, send_msg-topic}
use psmq.Api.Accepted.Connect.{read_answer-broker}

-- The receive of a client that waits, after the calls so far.
abbrev pub waits : Os → Psmq → List Syscall → Syscall
waits os s calls = receives_until s.qsub (ms_to_tp (os.clock calls) 30000)

-- The client's queue gives these messages one after another, none of them an answer to an open
-- request; and then this one.
abbrev pub GivesThen : Os → Psmq → List (Msg × ℕ) → Msg × ℕ → List Syscall → Type 0
GivesThen os s [] last calls = os.mq_receive calls (waits os s calls) ≡ ok last
GivesThen os s (m ∷ ms) last calls =
    (os.mq_receive calls (waits os s calls) ≡ ok m)
    × ((m.0.ctrl_cmd == cmd_open) ≡ false)
    × GivesThen os s ms last (waits os s calls ∷ calls)

-- The calls once they were all received.
abbrev pub waited : Os → Psmq → List (Msg × ℕ) → List Syscall → List Syscall
waited os s [] calls = waits os s calls ∷ calls
waited os s (m ∷ ms) calls = waited os s ms (waits os s calls ∷ calls)

timedreceive-ready :
    (os : Os) (s : Psmq) (m : Msg × ℕ) (calls : List Syscall)
    → IsReady s
    → os.mq_receive calls (waits os s calls) ≡ ok m
    → timedreceive_ms os (some s) (some (zeroed_msg os)) 30000 calls
      ≡ some (ok (overwrite (zeroed_msg os) m.0, m.1), waits os s calls ∷ calls)
unfolding timedreceive_ms timedreceive_prio receive_into
timedreceive-ready os s m calls r e = rw (r.qpub_open, r.differ, e) refl

read_answer-stale :
    (old m : Msg) → (m.ctrl_cmd == cmd_open) ≡ false → read_answer (overwrite old m) ≡ none
unfolding read_answer overwrite
read_answer-stale old m e = rw e refl

-- What a message means decides whether the wait goes on.
module _ (rest : Run (Option Ack)) (calls : List Syscall) where
  abbrev judged : Option Ack → Option (Option Ack × List Syscall)
  judged o =
      (elim o as (λ (_ : Option Ack). Run (Option Ack)) [
        | none ↦ rest
        | some ack ↦ give (some ack)
      ])
        calls

  judged-some : (o : Option Ack) (ack : Ack) → o ≡ some ack → judged o ≡ some (some ack, calls)
  judged-some o ack e = rw e refl

  judged-none : (o : Option Ack) → o ≡ none → judged o ≡ rest calls
  judged-none o e = rw e refl

await_answer-answers :
    (os : Os) (s : Psmq) (last : Msg × ℕ) (ack : Ack)
    → IsReady s
    → read_answer (overwrite (zeroed_msg os) last.0) ≡ some ack
    → (n : ℕ) (ms : List (Msg × ℕ)) (calls : List Syscall) → length ms < n
    → GivesThen os s ms last calls
    → await_answer os n s calls ≡ some (some ack, waited os s ms calls)
unfolding await_answer
await_answer-answers os s last ack r a zero ms calls enough g = absurd (omega arith)
await_answer-answers os s last ack r a (suc n) [] calls enough g =
    rw (timedreceive-ready os s last calls r g)
      (judged-some (await_answer os n s) (waits os s calls ∷ calls) _ ack a)
await_answer-answers os s last ack r a (suc n) (m ∷ ms) calls enough g =
    rw (timedreceive-ready os s m calls r g.0) (
      judged-none (await_answer os n s) (waits os s calls ∷ calls) _
        (read_answer-stale (zeroed_msg os) m.0 g.1)
      ∙ await_answer-answers os s last ack r a n ms (waits os s calls ∷ calls) (omega arith) g.2)

-- The struct of a client whose two queues are open.
abbrev pub opened : Psmq → ℕ → Psmq
opened s q = record s { qpub = some q }

-- The calls of psmq_init_wq up to its first receive.
abbrev pub asked : Psmq → ℕ → Bytes → Bytes → List Syscall → List Syscall
asked s q brokername mqname calls =
    sends (some q) (topic_msg cmd_open 0 mqname []) 0 ∷ opens_write brokername ∷ calls

-- Where the broker's queue can be opened, the client's own queue is open and another, its name fits a
-- message, the request can be sent, and the client's queue gives fewer messages that are no answers
-- than the client receives at most, and then the broker's answer with the number of a slot:
-- psmq_init_wq ends with 0 and takes that slot as its fd, whatever it is.
pub init_wq-connects :
    (os : Os) (n : ℕ) (s : Psmq) (q fd prio : ℕ) (brokername mqname : Bytes) (ms : List (Msg × ℕ))
    (calls : List Syscall)
    → IsReady (opened s q)
    → os.mq_open calls (opens_write brokername) ≡ ok q
    → IsString mqname
    → length mqname + 1 ≤ os.msg_max
    → os.mq_send
        (opens_write brokername ∷ calls)
        (sends (some q) (topic_msg cmd_open 0 mqname []) 0)
      ≡ ok tt
    → length ms < n
    → GivesThen os (opened s q) ms (fd_msg cmd_open 0 fd, prio) (asked s q brokername mqname calls)
    → init_wq os n s brokername mqname calls
      ≡ some (
        some (record (opened s q) { fd = fd }, ok tt),
        waited os (opened s q) ms (asked s q brokername mqname calls),
      )
unfolding init_wq register conclude
init_wq-connects os n s q fd prio brokername mqname ms calls r there h fits sent enough g =
    rw there (
      rw
        (
          publish_msg-ready os (opened s q) cmd_open 0 (some mqname) none 0 0 r,
          send_msg-topic os (some q) cmd_open 0 0 (opens_write brokername ∷ calls) mqname refl h
              fits,
        )
        (rw sent (
          rw
            (await_answer-answers os (opened s q) (fd_msg cmd_open 0 fd, prio) (granted 0 fd) r
              (read_answer-broker os fd).0 n ms (asked s q brokername mqname calls) enough g)
            refl)))
