-- ===== src/Sub/Watch.antt =====
-- src/psmq-sub.c: what the receiving loop shows, and how the program ends.
use psmq.Prelude.{
  ℕ, ◌<◌, ◌≡◌, refl, ◌∙◌, Bool, List, [], ◌∷◌, ◌++◌, Option, none, some, map, length, length-append,
  ap, false, ◌==◌, drop, All, arith,
}
use psmq.CString.{Bytes, IsString, c_str, strlen}
use psmq.Errno.{ok}
use psmq.Message.{Msg, payload, cmd_publish}
use psmq.Platform.{Mqd}
use psmq.Broker.Reply.Buffer.{topic_msg}
use psmq.Api.State.{Psmq, Os, Syscall, Run, then_run, give, receives}
use psmq.Api.Receive.{overwrite, receive_into, receive_prio}
use psmq.Api.Accepted.Sent.{IsReady}
use psmq.Sub.{Shown, text}
use psmq.Sub.Text.{IsText, c_str-message, on_receive-text_in}
use psmq.Sub.Program.{Round, payload_in, wait, Watched, show_more, after_receive, watch}

-- A string that the broker passes on: the message, and its priority.
pub record Published : Type 0 where
  pub status : ℕ
  pub prio : ℕ
  pub name : Bytes
  pub string : Bytes

abbrev pub message_of : Published → Msg
message_of x = topic_msg cmd_publish x.status x.name (x.string ++ 0 ∷ [])

abbrev pub shown_of : Published → Shown
shown_of x = text x.prio (length x.string) x.name x.string

abbrev pub IsShowable : (ℕ → Bool) → (ℕ → Bool) → Published → Type 0
IsShowable isprint isspace x =
    IsString x.name
    × IsString x.string
    × (0 < length x.string)
    × All (IsText isprint isspace) x.string

-- The queue gives these messages one after another to receives that follow the calls so far.
abbrev pub Delivers : Os → Mqd → List Published → List Syscall → Type 0
Delivers os q [] calls = Unit
Delivers os q (x ∷ xs) calls =
    (os.mq_receive calls (receives q) ≡ ok (message_of x, x.prio))
    × Delivers os q xs (receives q ∷ calls)

-- The calls after a receive of each.
abbrev pub received_all : Mqd → List Published → List Syscall → List Syscall
received_all q [] calls = calls
received_all q (x ∷ xs) calls = received_all q xs (receives q ∷ calls)

-- The loop, with this much shown before.
abbrev pub preceded : List Shown → Option (Watched × List Syscall) → Option (Watched × List Syscall)
preceded xs none = none
preceded xs (some (w, calls)) = some (record w { shown = xs ++ w.shown }, calls)

preceded-cons :
    (x : Shown) (xs : List Shown) (o : Option (Watched × List Syscall))
    → then_run (preceded xs o) (λ rest. give (record rest { shown = x ∷ rest.shown }))
      ≡ preceded (x ∷ xs) o
preceded-cons x xs none = refl
preceded-cons x xs (some (w, calls)) = refl

preceded-nil : (o : Option (Watched × List Syscall)) → o ≡ preceded [] o
preceded-nil none = refl
preceded-nil (some (w, calls)) = refl

module _ (os : Os) (n : ℕ) (buffer : Msg) (isprint isspace : ℕ → Bool) (opens_log : Bytes → Bool)
    (s : Psmq) (r : IsReady s) where
  receive_prio-ready :
      (calls : List Syscall)
      → receive_prio os (some s) (some buffer) calls
        ≡ receive_into os buffer (receives s.qsub) calls
  unfolding receive_prio
  receive_prio-ready calls = rw (r.qpub_open, r.differ) refl

  receive-some :
      (calls : List Syscall) (msg : Msg) (prio : ℕ)
      → os.mq_receive calls (receives s.qsub) ≡ ok (msg, prio)
      → receive_prio os (some s) (some buffer) calls
        ≡ some (ok (overwrite buffer msg, prio), receives s.qsub ∷ calls)
  receive-some calls msg prio e = receive_prio-ready calls ∙ (unfold receive_into in rw e refl)

  -- The topic of such a message ends within the buffer.
  payload_in-message :
      (x : Published) (z : Bytes)
      → IsString x.name
      → (let m = record (message_of x) { msg_data = (message_of x).msg_data ++ z } in
          payload_in m ≡ some (payload m))
  unfolding payload_in strlen
  payload_in-message x z h =
      let bytes = x.string ++ 0 ∷ [] in
      let t = ap length (c_str-message x.name bytes z h) in
      let sum = length-append ((x.name ++ 0 ∷ []) ++ bytes) z in
      let sum' = length-append (x.name ++ 0 ∷ []) bytes in
      let sum'' = length-append x.name (0 ∷ []) in
      let fits : (length (c_str (((x.name ++ 0 ∷ []) ++ bytes) ++ z))
            == length (((x.name ++ 0 ∷ []) ++ bytes) ++ z))
          ≡ false =
        ground arith in
      rw fits refl

  after_receive-shows :
      (flush : Bool) (rest : Run Watched) (x : Published) (calls : List Syscall)
      → IsShowable isprint isspace x
      → after_receive os n buffer isprint isspace opens_log flush rest
          (ok (overwrite buffer (message_of x), x.prio))
          calls
        ≡ then_run (rest calls) (λ w. give (record w { shown = shown_of x ∷ w.shown }))
  unfolding after_receive show_more overwrite
  after_receive-shows flush rest x calls h =
      let z = drop (length (message_of x).msg_data) buffer.msg_data in
      rw
        (
          payload_in-message x z h.0,
          on_receive-text_in isprint isspace x.status x.prio x.name x.string z h.0 h.1 h.2 h.3,
        )
        refl

  watch-wait :
      (x : Published) (flush : Bool) (rounds : List Round) (calls : List Syscall)
      → IsShowable isprint isspace x
      → os.mq_receive calls (receives s.qsub) ≡ ok (message_of x, x.prio)
      → watch os n buffer isprint isspace opens_log s (wait flush ∷ rounds) calls
        ≡ then_run
            (watch os n buffer isprint isspace opens_log s rounds (receives s.qsub ∷ calls))
            (λ w. give (record w { shown = shown_of x ∷ w.shown }))
  unfolding watch
  watch-wait x flush rounds calls h e =
      rw (receive-some calls (message_of x) x.prio e) (after_receive-shows flush _ x _ h)

  -- Where the client's queues are open: strings that the queue gives one after another are shown one
  -- after another, each as it was published and with the number of its bytes without the NUL, whatever
  -- the signals; and then the loop goes on.
  pub watch-shows :
      (xs : List Published) (flushes : List Bool) (rounds : List Round) (calls : List Syscall)
      → All (IsShowable isprint isspace) xs
      → length flushes ≡ length xs
      → Delivers os s.qsub xs calls
      → watch os n buffer isprint isspace opens_log s (map wait flushes ++ rounds) calls
        ≡ preceded
            (map shown_of xs)
            (watch os n buffer isprint isspace opens_log s rounds (received_all s.qsub xs calls))
  watch-shows [] [] rounds calls hs e d = preceded-nil _
  watch-shows [] (f ∷ flushes) rounds calls hs e d = absurd (omega arith)
  watch-shows (x ∷ xs) [] rounds calls hs e d = absurd (omega arith)
  watch-shows (x ∷ xs) (f ∷ flushes) rounds calls hs e d =
      watch-wait x f (map wait flushes ++ rounds) calls hs.0 d.0
      ∙ rw (watch-shows xs flushes rounds (receives s.qsub ∷ calls) hs.1 (omega arith) d.1)
          (preceded-cons (shown_of x) (map shown_of xs) _)
