-- ===== src/Suite/Enrols.antt =====
-- src/tst/psmqd.c, psmqd_wildard_test: a round of the loop that connects and subscribes the clients.
use psmq.Prelude.{
  ℕ, ◌<◌, ◌≡◌, refl, ◌∙◌, true, false, List, [], ◌∷◌, some, none, ◌==◌, ==_iff, get_or, get_elem?,
  get_elem?-set_self, lt_of_get_elem?, set-set, arith,
}
use psmq.CString.{Bytes}
use psmq.Errno.{ok}
use psmq.Message.{cmd_subscribe}
use psmq.Platform.{Call, Platform, opens}
use psmq.Topic.{slash, subscribe_refuses}
use psmq.Broker.State.{Client}
use psmq.Broker.Reply.{is_free}
use psmq.Broker.Reply.Sends.{heard}
use psmq.Broker.Reply.Buffer.{topic_msg}
use psmq.Broker.Valid.{IsBuild, IsValid}
use psmq.Api.State.{Os, Syscall, sends}
use psmq.Api.Send.{subscribe}
use psmq.Api.Accepted.Sent.{IsReady}
use psmq.Api.Accepted.Received.{request_topic-Reads}
use psmq.Suite.{World, Peer, asks, receive_expect}
use psmq.Suite.Connects.{connects}
use psmq.Suite.Waiting.{IsName}
use psmq.Suite.Joins.{subscribe-Joined}
use psmq.Suite.Connected.{OpensBoth, IsConnected, emptied, connects-IsConnected}
use psmq.Suite.Rounds.{taken, receive_expect-taken}

-- The client in its slot once it has subscribed.
abbrev pub enrolled : Client → ℕ → Bytes → Client
enrolled c mq t = heard (record c { mq = some mq; topics = t ∷ [] }) true

module _ (os : Os) (p : Platform) (build : IsBuild p) (same : os.msg_max ≡ p.msg_max)
    (broker_sends : (calls : List Call) (call : Call) → p.mq_timedsend calls call ≡ true)
    (memory : (calls : List Call) (call : Call) → p.malloc calls call ≡ true)
    (client_sends : (calls : List Syscall) (call : Syscall) → os.mq_send calls call ≡ ok tt)
    (t : Bytes) (name : IsName p t) (takes : subscribe_refuses t 0 ≡ false) where
  module _ (w : World) (x : Peer) (c : Client) (r : IsReady x.psmq) (v : IsValid p w.broker)
      (empty : (q : ℕ) → w.waiting q ≡ []) (there : get_elem? w.broker.clients x.psmq.fd ≡ some c)
      (its : c.mq ≡ some x.mq) (none_yet : c.topics ≡ []) where
    -- A connected client subscribes, and receives that it did.
    subscribe-IsConnected :
        (w1 : World) × (w2 : World) × (asks os p (subscribe os (some x.psmq) (some t)) w
          ≡ some (true, w1))
        × (receive_expect os p x cmd_subscribe 0 0 (some t) none w1 ≡ some (true, w2))
        × IsConnected p w w2 x.psmq.fd x (heard (record c { topics = t ∷ [] }) true)
    unfolding asks
    subscribe-IsConnected =
        let fd = x.psmq.fd in
        let lt : fd < p.max_clients =
          omega (arith, v.slots, lt_of_get_elem? w.broker.clients fd there) in
        let reads =
          request_topic-Reads os p x.psmq t w.calls same r lt name.slashed name.string
            (omega (arith, name.fits, same)) in
        let call = sends x.psmq.qpub (topic_msg cmd_subscribe fd t []) 0 in
        let (w1, arrived, joined) =
          subscribe-Joined os p build broker_sends t name.string name.bytes name.fits
            (record w { calls = call ∷ w.calls }) fd x.mq c v memory takes there its none_yet
            empty in
        let self : (x.mq == x.mq) ≡ true = (==_iff x.mq x.mq).1 refl in
        let first : w1.waiting x.mq ≡ topic_msg cmd_subscribe 0 t [] ∷ [] =
          rw self at (joined.waiting x.mq) in
        (
          w1,
          taken os p cmd_subscribe refl t name.string x [] w1,
          rw (reads.0, client_sends w.calls call, arrived) refl,
          receive_expect-taken os p cmd_subscribe refl t name.string x [] w1 r first,
          record {
            ready = r;
            slot = refl;
            valid = joined.valid;
            clients = joined.clients;
            empty = λ q.
                emptied q x.mq (topic_msg cmd_subscribe 0 t []) (w1.waiting q) [] (joined.waiting q)
                  (λ _. refl);
          },
        )

  module _ (rounds : ℕ) (broker_name : Bytes) (enough : 0 < rounds)
      (broker_slash : (get_or broker_name 0 0 == slash) ≡ true)
      (broker_opens : (calls : List Call) (call : Call) → (q : ℕ) × (p.mq_open calls call ≡ some q))
      (opens_both : OpensBoth os broker_name) where
    -- One round of the loop, where slot `i` is the first free one.
    pub round-IsConnected :
        (w : World) (qname : Bytes) (i : ℕ) (c : Client)
        → IsValid p w.broker
        → ((q : ℕ) → w.waiting q ≡ [])
        → IsName p qname
        → get_elem? w.broker.clients i ≡ some c
        → is_free c ≡ true
        → c.topics ≡ []
        → ((j : ℕ) (d : Client) → j < i → get_elem? w.broker.clients j ≡ some d → is_free d ≡ false)
        → (x : Peer) × (w1 : World) × (w2 : World) × (w3 : World) × (connects os p rounds
              broker_name qname w
            ≡ some ((true, x), w1))
          × (asks os p (subscribe os (some x.psmq) (some t)) w1 ≡ some (true, w2))
          × (receive_expect os p x cmd_subscribe 0 0 (some t) none w2 ≡ some (true, w3))
          × IsConnected p w w3 i x (enrolled c x.mq t)
    round-IsConnected w qname i c v empty qname_ok there free none_yet before =
        let (mq, opened) = broker_opens w.broker.calls (opens qname) in
        let (x, w1, connected, seat) =
          connects-IsConnected os p rounds broker_name build same enough broker_slash broker_sends
            client_sends opens_both w qname mq i c v empty qname_ok opened there free before in
        let c1 : Client = record c { mq = some x.mq } in
        let there1 : get_elem? w1.broker.clients x.psmq.fd ≡ some c1 =
          rw (seat.slot, seat.clients)
            (get_elem?-set_self w.broker.clients i c1 (lt_of_get_elem? w.broker.clients i there)) in
        let (w2, w3, asked, told, seat3) =
          subscribe-IsConnected w1 x c1 seat.ready seat.valid seat.empty there1 refl none_yet in
        (
          x,
          w1,
          w2,
          w3,
          connected,
          asked,
          told,
          record {
            ready = seat.ready;
            slot = seat.slot;
            valid = seat3.valid;
            clients =
                seat3.clients
                ∙ rw (seat.slot, seat.clients) (set-set w.broker.clients i c1 (enrolled c x.mq t));
            empty = seat3.empty;
          },
        )
