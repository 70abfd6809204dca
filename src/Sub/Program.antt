-- ===== src/Sub/Program.antt =====
-- src/psmq-sub.c: main and psmq_sub_connect. What getopt() returns, up to its -1, is a list; a value
-- comes with the state of the program, since the calls are recorded by the commands.
use psmq.Prelude.{
  ℕ, Bool, true, false, not, ◌&&◌, ◌||◌, List, [], ◌∷◌, Option, none, some, ◌==◌, if◌then◌else◌,
  length,
}
use psmq.CString.{Bytes, strlen}
use psmq.Errno.{Result, ok, err, ebadmsg}
use psmq.Message.{Msg, topic, payload, cmd_subscribe, cmd_ioctl, ioctl_reply_timeout}
use psmq.Api.State.{Psmq, Os, Run, give, checked, ◌>>=◌, ◌>>◌, unlinks}
use psmq.Api.Send.{subscribe, ioctl}
use psmq.Api.Receive.{receive_prio}
use psmq.Api.Init.{issue, default_qname, zeroed_psmq, init_named, cleanup}
use psmq.Sub.{Shown, on_receive}

-- The variables of main, and the static `connected` of psmq_sub_connect.
pub record Subscriber : Type 0 where
  pub psmq : Psmq
  pub qname : Bytes
  pub got_b : Bool
  pub got_t : Bool
  pub connected : Bool

-- What main does next: it goes on, or it returns with an exit code; or it still waits for the broker.
pub data Next : Type 0 where
  goes_on : Subscriber → Next
  exits : ℕ → Subscriber → Next
  waits : Next

-- psmq_cleanup(&psmq), whose result is not used
unfoldable pub hang_up : Os → Subscriber → Run Subscriber
hang_up os s = do
  closed ← cleanup os (some s.psmq)
  give (elim closed.0 [ none ↦ s | some psmq ↦ record s { psmq = psmq } ])

-- One round of the receiving loop: `run` is 0 when it is tested; or a receive, and whether `flush` is
-- set when it returns.
pub data Round : Type 0 where
  stop : Round
  wait : (flush : Bool) → Round

-- What is shown, and whether the loop was left.
pub record Watched : Type 0 where
  pub shown : List Shown
  pub over : Bool

-- What the program has shown, and its exit code once it has exited.
pub record Ending : Type 0 where
  pub shown : List Shown
  pub code : Option ℕ

-- "/psmq-sub"
abbrev pub sub_qname : Bytes
sub_qname = b'/' ∷ b'p' ∷ b's' ∷ b'm' ∷ b'q' ∷ b'-' ∷ b's' ∷ b'u' ∷ b'b' ∷ []

-- PSMQ_PAYLOAD(msg); where it looks for the NUL behind the topic and there is none it reads past the
-- end of `msg.data`.
unfoldable pub payload_in : Msg → Option Bytes
unfolding strlen payload
payload_in msg =
    if not (msg.ctrl_cmd == cmd_ioctl) && (strlen msg.msg_data == length msg.msg_data)
    then none
    else some (payload msg)

-- PSMQ_MSG_MAX and the operating system, the messages that a client waits for at most, what is in the
-- buffer `msg` before a receive, isprint() and isspace(), and whether a file can be opened for `-o`,
-- which without embedlog is never tried.
module _ (os : Os) (n : ℕ) (buffer : Msg) (isprint isspace : ℕ → Bool)
    (opens_log : Bytes → Bool) where
  -- What psmq_init_named left behind: whether it succeeded.
  abbrev pub connection :
      Subscriber → Option (Psmq × Result (Unit {0})) → Option (Subscriber × Bool)
  connection s none = none
  connection s (some (psmq, ok u)) = some (record s { psmq = psmq; connected = true }, true)
  connection s (some (psmq, err e)) = some (record s { psmq = psmq }, false)

  -- psmq_sub_connect; true is 0
  unfoldable pub sub_connect : Subscriber → Bytes → Run (Option (Subscriber × Bool))
  sub_connect s brokname = if s.connected then give (some (s, true)) else do
    r ← init_named os n (some s.psmq) (some brokname) (some s.qname) 10
    give (connection s r)

  -- psmq_cleanup(&psmq); return 1;
  unfoldable pub give_up : Subscriber → Run Next
  give_up s = do s' ← hang_up os s; give (exits 1 s')

  -- What the broker answered to a subscription.
  unfoldable pub read_reply : Subscriber → Msg → Run Next
  read_reply s msg =
      if not (msg.ctrl_cmd == cmd_subscribe)
      then give_up s
      else if msg.ctrl_data == ebadmsg
      then give_up s
      else give (goes_on s)

  -- `case 't'` once there is a connection
  unfoldable pub subscribe_topic : Subscriber → Bytes → Run Next
  subscribe_topic s optarg = do
    asked ← subscribe os (some s.psmq) (some optarg)
    elim asked [
      | err e ↦ give_up s
      | ok u ↦ (do
        got ← receive_prio os (some s.psmq) (some buffer)
        elim got [ err e ↦ give_up s | ok m ↦ read_reply s m.0 ])
    ]

  -- What follows a connection: main returns 1 where it failed.
  abbrev pub connected_then : (Subscriber → Run Next) → Option (Subscriber × Bool) → Run Next
  connected_then go none = give waits
  connected_then go (some (s, false)) = give (exits 1 s)
  connected_then go (some (s, true)) = go s

  -- `case 'b'`
  unfoldable pub option_b : Subscriber → Bytes → Run Next
  option_b s optarg =
      sub_connect (record s { got_b = true }) optarg >>= connected_then (λ s'. give (goes_on s'))

  abbrev pub with_topic : Bytes → Subscriber → Run Next
  with_topic optarg s = subscribe_topic (record s { got_t = true }) optarg

  -- `case 't'`
  unfoldable pub option_t : Subscriber → Bytes → Run Next
  option_t s optarg =
      if not s.got_b && not s.got_t
      then sub_connect s default_qname >>= connected_then (with_topic optarg)
      else with_topic optarg s

  -- The switch on an option. `-o` redirects what is shown.
  unfoldable pub sub_option : Subscriber → ℕ × Bytes → Run Next
  sub_option s (arg, optarg) =
      if arg == b'n'
      then give (goes_on (record s { qname = optarg }))
      else if arg == b'b'
      then option_b s optarg
      else if arg == b't'
      then option_t s optarg
      else if arg == b'o'
      then (if opens_log optarg then give (goes_on s) else give_up s)
      else if (arg == b'v') || (arg == b'h')
      then give (exits 0 s)
      else if (arg == b':') || (arg == b'?')
      then give (exits 1 s)
      else give (goes_on s)

  abbrev pub go_on : (Subscriber → Run Next) → Next → Run Next
  go_on rest (goes_on s) = rest s
  go_on rest (exits code s) = give (exits code s)
  go_on rest waits = give waits

  -- The loop over the options.
  unfoldable pub sub_options : List (ℕ × Bytes) → Subscriber → Run Next
  sub_options [] s = give (goes_on s)
  sub_options (arg ∷ args) s = sub_option s arg >>= go_on (sub_options args)

  -- What follows `on_receive`.
  unfoldable pub show_more : Run Watched → Result Shown → Run Watched
  show_more rest (err e) = give (record { shown = []; over = true })
  show_more rest (ok x) = do w ← rest; give (record w { shown = x ∷ w.shown })

  -- What follows the receive.
  unfoldable pub after_receive : Bool → Run Watched → Result (Msg × ℕ) → Run Watched
  unfolding payload_in
  after_receive flush rest (err e) =
      if flush then rest else give (record { shown = []; over = true })
  after_receive flush rest (ok (msg, prio)) = (do
    bytes ← checked (payload_in msg)
    shown ← checked (on_receive isprint isspace msg (topic msg) bytes msg.paylen prio)
    show_more rest shown)

  -- The receiving loop.
  unfoldable pub watch : Psmq → List Round → Run Watched
  watch s [] = give (record { shown = []; over = false })
  watch s (stop ∷ rounds) = give (record { shown = []; over = true })
  watch s (wait flush ∷ rounds) =
      receive_prio os (some s) (some buffer) >>= after_receive flush (watch s rounds)

  -- psmq_cleanup(&psmq); mq_unlink(qname);
  unfoldable pub leave : Subscriber → Run (Unit {0})
  leave s = do hang_up os s; issue (unlinks s.qname)

  -- main behind the receiving loop
  unfoldable pub watched : Subscriber → Watched → Run Ending
  watched s w =
      if w.over
      then (do leave s; give (record { shown = w.shown; code = some 0 }))
      else give (record { shown = w.shown; code = none })

  -- main behind the options
  unfoldable pub after_options : List Round → Next → Run Ending
  after_options rounds waits = give (record { shown = []; code = none })
  after_options rounds (exits code s) = give (record { shown = []; code = some code })
  after_options rounds (goes_on s) =
      if s.got_t
      then (do ioctl os (some s.psmq) ioctl_reply_timeout 100; w ← watch s.psmq rounds; watched s w)
      else (do leave s; give (record { shown = []; code = some 1 }))

  -- main, with `connected` as an earlier run of it in the same process left it.
  unfoldable pub psmq_sub_main : Bool → List (ℕ × Bytes) → List Round → Run Ending
  psmq_sub_main connected args rounds = do
    next ← sub_options args (record {
      psmq = zeroed_psmq os n;
      qname = sub_qname;
      got_b = false;
      got_t = false;
      connected = connected;
    })
    after_options rounds next
