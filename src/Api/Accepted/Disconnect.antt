-- ===== src/Api/Accepted/Disconnect.antt =====
-- lib/psmq.c against src/broker.c: a client that leaves.
use psmq.Prelude.{
  ℕ, ◌-◌, ◌≤◌, ◌<◌, ◌≡◌, refl, true, List, [], ◌∷◌, some, none, set, get_elem?, length-replicate,
  arith,
}
use psmq.CString.{strlen, c_str}
use psmq.Errno.{ok}
use psmq.Message.{Msg, received, cmd_close}
use psmq.Platform.{Platform}
use psmq.Broker.State.{Client, Broker}
use psmq.Broker.Reply.Buffer.{topic_msg}
use psmq.Broker.Loop.{accepts, topic_length, dispatch}
use psmq.Broker.Effects.{answer}
use psmq.Broker.Effects.Requests.{told_closed, broker_close-frees}
use psmq.Api.State.{Psmq, Os, Syscall, sends}
use psmq.Api.Init.{issue, cleanup}
use psmq.Api.Accepted.Sent.{IsReady, publish_msg-ready, send_msg-bare}

-- The message of a client that leaves, as the main loop receives it.
abbrev pub goodbye : Platform → Psmq → Msg
goodbye p s = received p.msg_max (topic_msg cmd_close s.fd [] [])

pub cleanup-sends :
    (os : Os) (s : Psmq) (calls : List Syscall)
    → IsReady s
    → 1 ≤ os.msg_max
    → cleanup os (some s) calls
      ≡ some (
        (some (record s { qsub = none; qpub = none }), ok tt),
        psmq.Api.State.closes s.qsub
            ∷ psmq.Api.State.closes s.qpub
            ∷ sends s.qpub (topic_msg cmd_close s.fd [] []) 0
            ∷ calls,
      )
unfolding cleanup issue
cleanup-sends os s calls r fits =
    rw
      (
        r.differ,
        publish_msg-ready os s cmd_close s.fd none none 0 0 r,
        send_msg-bare os s.qpub cmd_close s.fd 0 calls refl fits,
      )
      refl

goodbye-accepted :
    (p : Platform) (s : Psmq)
    → 2 ≤ p.msg_max
    → s.fd < p.max_clients
    → accepts p (goodbye p s) ≡ some true
unfolding accepts topic_length received strlen c_str
goodbye-accepted p s fits slot = ground (arith, length-replicate {A = ℕ} (p.msg_max - 1) 0)

goodbye-closes :
    (p : Platform) (s : Psmq) (prio : ℕ) (b : Broker) (c : Client)
    → get_elem? b.clients s.fd ≡ some c
    → 1 ≤ p.msg_max
    → (let call = answer p s.fd b c cmd_close 0 [] in
        dispatch p (goodbye p s) prio b
        ≡ some (
          true,
          record b {
            clients = set b.clients s.fd (told_closed c (p.mq_timedsend b.calls call));
            calls = psmq.Platform.closes c.mq ∷ call ∷ b.calls;
          },
        ))
unfolding dispatch received
goodbye-closes p s prio b c there fits = broker_close-frees p s.fd b c there fits

-- Where the client's queues are open, its slot is one of the broker's, and both were built with the
-- same PSMQ_MSG_MAX of at least 2: psmq_cleanup sends one message, closes both queues and marks them
-- closed; the checks of the broker's main loop let the message through, and it makes the broker free
-- the client's slot and its topics and close its queue, and change no other slot.
pub cleanup-frees :
    (os : Os) (p : Platform) (s : Psmq) (calls : List Syscall) (prio : ℕ) (b : Broker) (c : Client)
    → os.msg_max ≡ p.msg_max
    → IsReady s
    → s.fd < p.max_clients
    → 2 ≤ p.msg_max
    → get_elem? b.clients s.fd ≡ some c
    → (let call = answer p s.fd b c cmd_close 0 [] in
        (cleanup os (some s) calls
          ≡ some (
            (some (record s { qsub = none; qpub = none }), ok tt),
            psmq.Api.State.closes s.qsub
                ∷ psmq.Api.State.closes s.qpub
                ∷ sends s.qpub (topic_msg cmd_close s.fd [] []) 0
                ∷ calls,
          ))
        × (accepts p (goodbye p s) ≡ some true)
        × (dispatch p (goodbye p s) prio b
            ≡ some (
              true,
              record b {
                clients = set b.clients s.fd (told_closed c (p.mq_timedsend b.calls call));
                calls = psmq.Platform.closes c.mq ∷ call ∷ b.calls;
              },
            )))
cleanup-frees os p s calls prio b c same r slot fits there = (
  cleanup-sends os s calls r (omega arith),
  goodbye-accepted p s fits slot,
  goodbye-closes p s prio b c there (omega arith),
)
