-- ===== src/Broker/Spec/Views.antt =====
-- What the commands of src/broker.c leave of the abstract broker, where they end without a fault.
use mathlib.Core.Option
use psmq.Prelude.{
  ℕ, ◌≡◌, refl, ap, ◌∙◌, Bool, true, false, List, [], ◌∷◌, Option, none, some, zero, suc, ltb, ◌%◌,
  ◌^◌, ◌+◌, map, get_elem?, set, set-get_elem?, if◌then◌else◌, Bool-cases, Option-cases, inl, inr,
  length, replicate,
}
use psmq.CString.{Bytes}
use psmq.Message.{Msg, header_size, real_msg_size}
use psmq.Platform.{Mqd, Platform}
use psmq.Broker.State.{Client, Broker, M, and_then, ◌>>=◌, lift, load_client, store_client, ask}
use psmq.Broker.Reply.{put_topic, put_payload, reply_mq, reply}
use psmq.Broker.Reply.Sends.{load_client-there}
use psmq.Broker.Spec.{slot_of, view}

-- Where the command ends without a fault, its value and the broker behind it satisfy R.
abbrev pub Ends : {A : Type 0} → (A → Broker → Type 0) → Option (A × Broker) → Type 0
Ends R none = Unit {0}
Ends R (some (a, b)) = R a b

pub Ends-bind :
    {A B : Type 0} (R : A → Broker → Type 0) (S : B → Broker → Type 0) (o : Option (A × Broker))
    (f : A → M B)
    → Ends R o
    → ((a : A) (b : Broker) → R a b → Ends S (f a b))
    → Ends S (and_then o f)
Ends-bind R S none f h k = tt
Ends-bind R S (some (a, b)) f h k = k a b h

pub Ends-mono :
    {A : Type 0} (R S : A → Broker → Type 0) (o : Option (A × Broker))
    → Ends R o
    → ((a : A) (b : Broker) → R a b → S a b)
    → Ends S o
Ends-mono R S none h k = tt
Ends-mono R S (some (a, b)) h k = k a b h

pub Ends-lift :
    {A B : Type 0} (S : B → Broker → Type 0) (o : Option A) (f : A → M B) (b : Broker)
    → ((a : A) → Ends S (f a b))
    → Ends S ((lift o >>= f) b)
Ends-lift S none f b k = tt
Ends-lift S (some a) f b k = k a

pub Ends-if :
    {A : Type 0} (S : A → Broker → Type 0) (t : Bool) (m n : M A) (b : Broker)
    → (t ≡ true → Ends S (m b))
    → (t ≡ false → Ends S (n b))
    → Ends S ((if t then m else n) b)
Ends-if S true m n b h k = h refl
Ends-if S false m n b h k = k refl

load_client-none : (fd : ℕ) (b : Broker) → get_elem? b.clients fd ≡ none → load_client fd b ≡ none
unfolding load_client
load_client-none fd b e = rw (load_client, e)

module _ {B : Type 0} (S : B → Broker → Type 0) (fd : ℕ) (b : Broker) where
  pub Ends-load :
      (f : Client → M B)
      → ((c : Client) → get_elem? b.clients fd ≡ some c → Ends S (f c b))
      → Ends S ((load_client fd >>= f) b)
  Ends-load f k = elim (Option-cases (get_elem? b.clients fd)) [
    | inl e ↦ rw (load_client-none fd b e) tt
    | inr (c, e) ↦ rw (load_client-there fd b e) (k c e)
  ]

  pub Ends-store :
      (c : Client) (f : Unit {0} → M B)
      → Ends S (f tt (record b { clients = set b.clients fd c }))
      → Ends S ((store_client fd c >>= f) b)
  unfolding store_client
  Ends-store c f k = elim (Bool-cases (ltb fd (length b.clients))) [
    | inl e ↦ rw e k
    | inr e ↦ rw e tt
  ]

pub slots_set :
    (cs : List Client) (i : ℕ) (c : Client)
    → map slot_of (set cs i c) ≡ set (map slot_of cs) i (slot_of c)
slots_set [] i c = refl
slots_set (d ∷ cs) zero c = refl
slots_set (d ∷ cs) (suc i) c = ap (◌∷◌ (slot_of d)) (slots_set cs i c)

pub slots_there :
    (cs : List Client) (i : ℕ) {c : Client}
    → get_elem? cs i ≡ some c
    → get_elem? (map slot_of cs) i ≡ some (slot_of c)
slots_there [] i e = cc
slots_there (d ∷ cs) zero e = ap (Option.map slot_of) e
slots_there (d ∷ cs) (suc i) e = slots_there cs i e

-- A change of a client that its slot does not show.
pub slots_same :
    (cs : List Client) (i : ℕ) (c d : Client)
    → get_elem? cs i ≡ some c
    → slot_of d ≡ slot_of c
    → map slot_of (set cs i d) ≡ map slot_of cs
slots_same cs i c d there e =
    slots_set cs i d
    ∙ ap (set (map slot_of cs) i) e
    ∙ set-get_elem? (map slot_of cs) i (slots_there cs i there)

-- The slots are what they were.
abbrev pub SameView : {A : Type 0} → Broker → A → Broker → Type 0
SameView b a b' = view b' ≡ view b

module _ (p : Platform) (cmd status : ℕ) (topic payload : Option Bytes) (paylen prio : ℕ) where
  reply_mq-Ends :
      (mq : Mqd) (timeout : ℕ) (b : Broker)
      → Ends
          (λ _ b'. b'.clients ≡ b.clients)
          (reply_mq p mq cmd status topic payload paylen prio timeout b)
  unfolding reply_mq ask
  reply_mq-Ends mq timeout b =
      let S : Bool → Broker → Type 0 = λ _ b'. b'.clients ≡ b.clients in
      Ends-lift S (put_topic topic (replicate p.msg_max 0)) _ b λ put.
        Ends-lift S (put_payload payload paylen put) _ b λ buf.
          let msg : Msg = record {
            ctrl_cmd = cmd;
            ctrl_data = status;
            paylen = paylen % 2 ^ 16;
            msg_data = buf;
          } in
          elim (Bool-cases (ltb (header_size + p.msg_max) (real_msg_size msg))) [
            | inl e ↦ rw e tt
            | inr e ↦ rw e refl
          ]

  pub reply-Ends :
      (fd : ℕ) (b : Broker) → Ends (SameView b) (reply p fd cmd status topic payload paylen prio b)
  unfolding reply
  reply-Ends fd b = Ends-load (SameView b) fd b _ λ c there.
      Ends-bind (λ _ b1. b1.clients ≡ b.clients) (SameView b) _ _
        (reply_mq-Ends c.mq c.reply_timeout b)
        λ sent b1 same. Ends-load (SameView b) fd b1 _ λ c1 there1.
          Ends-store (SameView b) fd b1 _ _
            (slots_same b1.clients fd c1 _ there1 refl ∙ ap (map slot_of) same)
