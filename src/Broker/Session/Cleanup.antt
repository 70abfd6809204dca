-- ===== src/Broker/Session/Cleanup.antt =====
-- src/broker.c: what psmqd_broker_cleanup leaves behind.
use psmq.Prelude.{
  ◌≤◌, ◌≡◌, refl, true, List, [], ◌∷◌, ◌++◌, none, some, if◌then◌else◌, Bool-cases, inl, inr,
  length, length-append, get_elem?-append, set-append, append_assoc, All, arith,
}
use psmq.Message.{cmd_close}
use psmq.Platform.{Mqd, Call, Platform, closes, unlinks}
use psmq.Broker.State.{Client, Broker, issue}
use psmq.Broker.Reply.{is_free}
use psmq.Broker.Reply.Sends.{load_client-there}
use psmq.Broker.Publish.Delivery.{state}
use psmq.Broker.Session.{Cfg, cleanup_client, cleanup_clients, close_control, broker_cleanup}
use psmq.Broker.Valid.{IsBuild, IsValid}
use psmq.Broker.Effects.{answer}
use psmq.Broker.Effects.Requests.{told_closed, broker_close-frees}

module _ (p : Platform) where
  -- The reply to a client whose connection is closed, after the calls so far.
  abbrev pub farewell : List Call → Client → Call
  farewell calls c = answer p 0 (state [] none calls) c cmd_close 0 []

  abbrev pub client_closed : List Call → Client → Client
  client_closed calls c =
      if is_free c then c else told_closed c (p.mq_timedsend calls (farewell calls c))

  abbrev pub calls_closed : List Call → Client → List Call
  calls_closed calls c = if is_free c then calls else closes c.mq ∷ farewell calls c ∷ calls

  -- The slots once all connections are closed, and the calls then: a taken slot is told, and its
  -- queue closed; a free one is skipped.
  abbrev pub all_closed : List Client → List Call → List Client
  all_closed [] calls = []
  all_closed (c ∷ cs) calls = client_closed calls c ∷ all_closed cs (calls_closed calls c)

  abbrev pub closings : List Client → List Call → List Call
  closings [] calls = calls
  closings (c ∷ cs) calls = closings cs (calls_closed calls c)

  client_closed-free : (calls : List Call) (c : Client) → is_free (client_closed calls c) ≡ true
  client_closed-free calls c = elim (Bool-cases (is_free c)) [ inl e ↦ rw e e | inr e ↦ rw e refl ]

  all_closed-free :
      (cs : List Client) (calls : List Call) → All (λ c. is_free c ≡ true) (all_closed cs calls)
  all_closed-free [] calls = tt
  all_closed-free (c ∷ cs) calls =
      (client_closed-free calls c, all_closed-free cs (calls_closed calls c))

module _ (p : Platform) (fits : 1 ≤ p.msg_max) where
  cleanup_client-closes :
      (done rest : List Client) (c : Client) (q : Mqd) (calls : List Call)
      → cleanup_client p (length done) (state (done ++ c ∷ rest) q calls)
        ≡ some (
          true,
          state ((done ++ client_closed p calls c ∷ []) ++ rest) q (calls_closed p calls c),
        )
  unfolding cleanup_client
  cleanup_client-closes done rest c q calls =
      let b = state (done ++ c ∷ rest) q calls in
      let there = get_elem?-append done rest c in
      rw (load_client-there (length done) b there) (elim (Bool-cases (is_free c)) [
        | inl e ↦ rw (e, append_assoc done (c ∷ []) rest) refl
        | inr e ↦
            rw
              (
                e,
                broker_close-frees p (length done) b c there fits,
                set-append done rest c _,
                append_assoc done (told_closed c _ ∷ []) rest,
              )
              refl
      ])

  cleanup_clients-closes :
      (done rest : List Client) (q : Mqd) (calls : List Call)
      → cleanup_clients p (length rest) (length done) (state (done ++ rest) q calls)
        ≡ some (tt, state (done ++ all_closed p rest calls) q (closings p rest calls))
  unfolding cleanup_clients
  cleanup_clients-closes done [] q calls = refl
  cleanup_clients-closes done (c ∷ rest) q calls =
      let c' = client_closed p calls c in
      let next = cleanup_clients-closes (done ++ c' ∷ []) rest q (calls_closed p calls c) in
      rw (cleanup_client-closes done rest c q calls) (
        cc (
          next,
          length-append done (c' ∷ []),
          append_assoc done (c' ∷ []) (all_closed p rest (calls_closed p calls c)),
        ))

-- On a valid broker, psmqd_broker_cleanup runs to its end without a fault: in the order of the slots
-- every client is told that its connection is closed and its queue is closed, whether or not it could
-- be told; then the control queue is closed and unlinked. Afterwards every slot is free.
pub broker_cleanup-closes :
    (p : Platform) (cfg : Cfg) (b : Broker)
    → IsBuild p
    → IsValid p b
    → (broker_cleanup p cfg b
        ≡ some (
          true,
          state
              (all_closed p b.clients b.calls)
              b.qctrl
              (unlinks cfg.broker_name ∷ closes b.qctrl ∷ closings p b.clients b.calls),
        ))
      × All (λ c. is_free c ≡ true) (all_closed p b.clients b.calls)
unfolding broker_cleanup close_control issue
broker_cleanup-closes p cfg b build v =
    let run = cleanup_clients-closes p (omega arith) [] b.clients b.qctrl b.calls in
    (rw (rw v.slots at run) refl, all_closed-free p b.clients b.calls)
