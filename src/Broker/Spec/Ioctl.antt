-- ===== src/Broker/Spec/Ioctl.antt =====
-- An ioctl does not change the slots: a timeout is not part of the abstract broker.
use psmq.Prelude.{
  ℕ, ◌-◌, refl, ◌∙◌, Option, none, some, ltb, ◌==◌, drop, get_or, Bool-cases, inl, inr,
}
use psmq.CString.{Bytes, read_bytes}
use psmq.Errno.{einval}
use psmq.Message.{Msg, cmd_ioctl, ioctl_reply_timeout}
use psmq.Platform.{Platform}
use psmq.Broker.State.{Client, Broker}
use psmq.Broker.Requests.{ushort_bytes, bytes_ushort}
use psmq.Broker.Ioctl.{
  ioctl_buffer, reply_ioctl, refuse_ioctl, store_timeout, set_reply_timeout, broker_ioctl,
}
use psmq.Broker.Effects.{with_client}
use psmq.Broker.Spec.Views.{
  Ends, Ends-bind, Ends-lift, Ends-load, Ends-store, SameView, slots_same, reply-Ends,
}

module _ (p : Platform) (fd req : ℕ) where
  reply_ioctl-Ends :
      (status : ℕ) (payload : Option Bytes) (datalen : ℕ) (b : Broker)
      → Ends (SameView b) (reply_ioctl p fd status req payload datalen b)
  unfolding reply_ioctl
  reply_ioctl-Ends status payload datalen b =
      Ends-lift (SameView b) (ioctl_buffer req payload datalen) _ b λ buf.
        Ends-bind (SameView b) (SameView b) _ _
          (reply-Ends p cmd_ioctl status none (some buf) _ 0 fd b) λ sent b1 same. same

  refuse_ioctl-Ends :
      (payload : Option Bytes) (datalen : ℕ) (b : Broker)
      → Ends (SameView b) (refuse_ioctl p fd req payload datalen b)
  unfolding refuse_ioctl
  refuse_ioctl-Ends payload datalen b =
      Ends-bind (SameView b) (SameView b) _ _ (reply_ioctl-Ends einval payload datalen b)
        λ u b1 same. same

  store_timeout-Ends :
      (bytes : Bytes) (dlen : ℕ) (b : Broker)
      → Ends (SameView b) (store_timeout p fd req bytes dlen b)
  unfolding store_timeout
  store_timeout-Ends bytes dlen b = Ends-load (SameView b) fd b _ λ c there.
      let c' : Client = record c { reply_timeout = bytes_ushort bytes } in
      let b' = with_client b fd c' in
      Ends-store (SameView b) fd b c' _ (
        Ends-bind (SameView b') (SameView b) _ _
          (reply_ioctl-Ends 0 (some (ushort_bytes (bytes_ushort bytes))) dlen b')
          λ u b1 same. same ∙ slots_same b.clients fd c c' there refl)

  set_reply_timeout-Ends :
      (payload : Bytes) (dlen : ℕ) (b : Broker)
      → Ends (SameView b) (set_reply_timeout p fd req payload dlen b)
  unfolding set_reply_timeout
  set_reply_timeout-Ends payload dlen b = elim (Bool-cases (dlen == 2)) [
    | inl e ↦ rw e (
        Ends-lift (SameView b) (read_bytes dlen payload) _ b
          λ bytes. store_timeout-Ends bytes dlen b)
    | inr e ↦ rw e (refuse_ioctl-Ends (some payload) dlen b)
  ]

pub broker_ioctl-Ends :
    (p : Platform) (msg : Msg) (b : Broker) → Ends (SameView b) (broker_ioctl p msg b)
unfolding broker_ioctl
broker_ioctl-Ends p msg b = elim (Bool-cases (ltb msg.paylen 1)) [
  | inl e ↦ rw e (refuse_ioctl-Ends p msg.ctrl_data 0 none 0 b)
  | inr e ↦ elim (Bool-cases (get_or msg.msg_data 0 0 == ioctl_reply_timeout)) [
    | inl k ↦
        rw (e, k)
          (set_reply_timeout-Ends p msg.ctrl_data _ (drop 1 msg.msg_data) (msg.paylen - 1) b)
    | inr k ↦ rw (e, k) (refuse_ioctl-Ends p msg.ctrl_data _ none 0 b)
  ]
]
