-- ===== src/Tests/Programs.antt =====
-- psmq-pub and psmq-sub at concrete inputs.
use psmq.Prelude.{
  ℕ, ◌+◌, ◌≤◌, ◌<◌, ◌≡◌, refl, Bool, true, false, List, [], ◌∷◌, ◌++◌, Option, none, some, map,
  get_elem?, arith,
}
use psmq.CString.{Bytes, c_str, strlen, memcpy}
use psmq.Errno.{Result, ok, err, ebadf}
use psmq.Message.{real_msg_size, sent_bytes, cmd_open, cmd_close, cmd_publish}
use psmq.Time.{epoch, ms_to_tp}
use psmq.Broker.Loop.{accepts, dispatch}
use psmq.Broker.Reply.{put_topic}
use psmq.Broker.Reply.Buffer.{topic_msg}
use psmq.Broker.Reply.Replies.{fd_msg}
use psmq.Broker.Effects.{answer}
use psmq.Broker.Effects.Requests.{told_closed}
use psmq.Api.State.{
  Psmq, Os, Syscall, mqd_eq, receives, receives_until, opens_write, creates_read, closes, unlinks,
  sends,
}
use psmq.Api.Send.{fill_payload, send_msg, publish_msg}
use psmq.Api.Receive.{overwrite, receive_into, timedreceive_prio, timedreceive_ms}
use psmq.Api.Init.{
  issue, read_answer, await_answer, conclude, register, init_wq, init_with_name, init_queue,
  name_refused, zeroed_msg, zeroed_psmq, default_qname, cleanup, init_named,
}
use psmq.Api.Accepted.Sent.{IsReady}
use psmq.Api.Accepted.Settles.{Gives}
use psmq.Api.Accepted.Named.{IsEnded, init_named-Ends}
use psmq.Api.Accepted.Disconnect.{goodbye, cleanup-frees}
use psmq.Pub.{send_stdin}
use psmq.Pub.Program.{
  Options, no_options, goes_on, Input, pub_option, pub_options, pub_qname, psmq_pub_main,
}
use psmq.Pub.Program.Publishes.{psmq_pub_main-publishes}
use psmq.Pub.Stream.{all_sent}
use psmq.Pub.Lines.{send_stdin-publishes}
use psmq.Sub.Program.{wait, stop, watch, psmq_sub_main}
use psmq.Sub.Watch.{
  Published, IsShowable, preceded, shown_of, message_of, received_all, watch-shows,
}
use psmq.Sub.Again.{psmq_sub_main-fails_again}
use psmq.Tests.{small, one_client, listener, topic_a}
use psmq.Tests.Shown.{isprint, isspace, hi}

-- "Hi" on "/a", with priority 1
abbrev greeting : Published
greeting = record { status = 0; prio = 1; name = topic_a; string = hi }

-- An operating system where sends succeed and the queue always holds the greeting.
abbrev pub lively : Os
lively = record {
  msg_max = 8;
  max_clients = 2;
  mq_open = λ _ _. ok 3;
  mq_send = λ _ _. ok tt;
  mq_receive = λ _ _. ok (message_of greeting, 1);
  clock = λ _. epoch;
}

abbrev pub client : Psmq
client = record { qsub = some 3; qpub = some 4; fd = 0 }

pub client-IsReady : IsReady client
unfolding mqd_eq
client-IsReady = record { qsub_open = refl; qpub_open = refl; differ = refl }

abbrev pub no_log : Bytes → Bool
no_log _ = true

watch-shows_example :
    watch lively 3
      (zeroed_msg lively)
      isprint
      isspace
      no_log
      client
      (map wait (false ∷ true ∷ []) ++ stop ∷ [])
      []
    ≡ preceded (map shown_of (greeting ∷ greeting ∷ [])) (
        watch lively 3
          (zeroed_msg lively)
          isprint
          isspace
          no_log
          client
          (stop ∷ [])
          (received_all (some 3) (greeting ∷ greeting ∷ []) []))
watch-shows_example =
    let shown : IsShowable isprint isspace greeting =
      ((refl, (refl, tt)), (refl, (refl, tt)), omega arith, (refl, (refl, tt))) in
    watch-shows lively 3 (zeroed_msg lively) isprint isspace no_log client client-IsReady
      (greeting ∷ greeting ∷ []) (false ∷ true ∷ []) (stop ∷ []) [] (shown, (shown, tt)) refl
      (refl, (refl, tt))

-- -n /q
abbrev renamed : List (ℕ × Bytes)
renamed = (b'n', b'/' ∷ b'q' ∷ []) ∷ []

psmq_sub_main-fails_again_example :
    psmq_sub_main lively 3
      (zeroed_msg lively)
      isprint
      isspace
      no_log
      true
      (renamed ++ (b't', topic_a) ∷ [])
      (stop ∷ [])
      []
    ≡ some (record { shown = []; code = some 1 }, [])
psmq_sub_main-fails_again_example =
    psmq_sub_main-fails_again lively 3 (zeroed_msg lively) isprint isspace no_log renamed topic_a []
      (stop ∷ []) [] (record { no_t = refl; no_o = refl; no_help = refl; no_error = refl }, tt)

-- "Hi" and "", in a buffer of eight bytes
send_stdin-publishes_example :
    send_stdin lively client topic_a 0
      (1 ∷ 2 ∷ 3 ∷ 4 ∷ 5 ∷ 6 ∷ 7 ∷ 8 ∷ [])
      (map (λ x. some (x ++ 10 ∷ [])) (hi ∷ [] ∷ []) ++ none ∷ [])
      []
    ≡ some (tt, all_sent lively client topic_a 0 (map (λ x. x ++ 0 ∷ []) (hi ∷ [] ∷ [])) [])
send_stdin-publishes_example =
    send_stdin-publishes lively client topic_a 0 client-IsReady refl (refl, (refl, tt))
      (omega arith) (omega arith) (λ _ _. refl) (hi ∷ [] ∷ []) []
      (1 ∷ 2 ∷ 3 ∷ 4 ∷ 5 ∷ 6 ∷ 7 ∷ 8 ∷ []) []
      (((refl, (refl, tt)), omega arith), ((tt, omega arith), tt)) refl

cleanup-frees_example :
    (let call = answer small 0 one_client listener cmd_close 0 [] in
      (cleanup lively (some client) []
        ≡ some (
          (some (record client { qsub = none; qpub = none }), ok tt),
          closes (some 3) ∷ closes (some 4) ∷ sends (some 4) (topic_msg cmd_close 0 [] []) 0 ∷ [],
        ))
      × (accepts small (goodbye small client) ≡ some true)
      × (dispatch small (goodbye small client) 0 one_client
          ≡ some (
            true,
            record one_client {
              clients = psmq.Prelude.set one_client.clients 0 (told_closed listener true);
              calls = psmq.Platform.closes (some 5) ∷ call ∷ [];
            },
          )))
cleanup-frees_example =
    cleanup-frees lively small client [] 0 one_client listener refl client-IsReady (omega arith)
      (omega arith) refl

-- An operating system that opens the client's queue as 3 and the broker's as 4, and where the broker
-- answers with the slot 1.
abbrev open_as : Syscall → Result ℕ
open_as (opens_write name) = ok 4
open_as (creates_read name exclusive maxmsg) = ok 3
open_as (sends mq msg prio) = err ebadf
open_as (receives mq) = err ebadf
open_as (receives_until mq tp) = err ebadf
open_as (closes mq) = err ebadf
open_as (unlinks name) = err ebadf

abbrev roomy : Os
roomy = record lively {
  msg_max = 16;
  mq_open = λ _ c. open_as c;
  mq_receive = λ _ _. ok (fd_msg cmd_open 0 1, 0);
}

abbrev registered : Psmq
registered = record { qsub = some 3; qpub = some 4; fd = 1 }

registered-IsReady : IsReady registered
unfolding mqd_eq
registered-IsReady = record { qsub_open = refl; qpub_open = refl; differ = refl }

init_named-Ends_example :
    Gives (IsEnded roomy 3 client) (init_named roomy 3 (some client) none (some pub_qname) 2 [])
init_named-Ends_example =
    init_named-Ends roomy 3 client none (some pub_qname) 2 [] (omega arith)
      (refl, (refl, (refl, (refl, (refl, (refl, (refl, (refl, (refl, tt)))))))))

-- -t /a -m Hi
abbrev with_message : Options
with_message = record no_options { topic = some topic_a; message = some hi }

options-read :
    pub_options (λ _. 0) ((b't', topic_a) ∷ (b'm', hi) ∷ []) no_options ≡ goes_on with_message
unfolding pub_options pub_option
options-read = refl

abbrev init_calls : List Syscall
init_calls =
    receives_until (some 3) (ms_to_tp epoch 30000)
    ∷ sends (some 4) (topic_msg cmd_open 0 pub_qname []) 0
    ∷ opens_write default_qname
    ∷ creates_read pub_qname false 2
    ∷ unlinks pub_qname
    ∷ []

registered-init :
    init_named roomy 3 (some (zeroed_psmq roomy 3)) (some default_qname) (some pub_qname) 2 []
    ≡ some (some (registered, ok tt), init_calls)
unfolding init_named name_refused init_queue init_with_name init_wq register issue publish_msg
    send_msg put_topic fill_payload memcpy real_msg_size strlen c_str sent_bytes await_answer
    timedreceive_ms timedreceive_prio receive_into overwrite read_answer conclude mqd_eq
registered-init = refl

abbrev no_input : Input
no_input = record { reads = []; line = []; gots = [] }

psmq_pub_main-publishes_example :
    psmq_pub_main roomy 3 no_input (λ _. 0) ((b't', topic_a) ∷ (b'm', hi) ∷ []) []
    ≡ some (
      some 0,
      unlinks pub_qname
          ∷ closes (some 3)
          ∷ closes (some 4)
          ∷ sends (some 4) (topic_msg cmd_close 1 [] []) 0
          ∷ sends (some 4) (topic_msg cmd_publish 1 topic_a (hi ++ 0 ∷ [])) 0
          ∷ init_calls,
    )
psmq_pub_main-publishes_example =
    psmq_pub_main-publishes roomy 3 no_input with_message topic_a hi
      (record { has_topic = refl; has_message = refl; not_empty = refl; not_binary = refl })
      registered registered-IsReady refl (refl, (refl, tt)) (omega arith) (omega arith) (λ _. 0)
      ((b't', topic_a) ∷ (b'm', hi) ∷ []) [] init_calls options-read registered-init
