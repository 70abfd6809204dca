-- ===== src/Broker/Effects/Ioctl.antt =====
-- src/broker.c: what psmqd_broker_ioctl does to a reply timeout.
use psmq.Prelude.{
  ℕ, ◌+◌, ◌*◌, ◌/◌, ◌%◌, ◌≤◌, ◌<◌, ◌≡◌, refl, sym, ap, ◌∙◌, true, [], ◌∷◌, none, some, get_elem?,
  arith,
}
use psmq.CString.{Bytes}
use psmq.CString.Copy.{zeros, read_bytes_lem}
use psmq.Message.{Msg, cmd_ioctl, ioctl_reply_timeout}
use psmq.Platform.{Platform}
use psmq.Broker.State.{Client, Broker}
use psmq.Broker.Reply.Sends.{send_of, replied, reply-sends, load_client-there, store_client-there}
use psmq.Broker.Reply.Replies.{ioctl_msg, reply_mq-ioctl}
use psmq.Broker.Requests.{ushort_bytes, bytes_ushort}
use psmq.Broker.Ioctl.{reply_ioctl, store_timeout, set_reply_timeout, broker_ioctl}
use psmq.Broker.Safety.Ioctl.{ioctl_buffer-some}
use psmq.Broker.Effects.{with_client}
use psmq.Broker.Effects.Requests.{there_set}

pub ushort_bytes-of : (lo hi : ℕ) → lo < 256 → ushort_bytes (lo + 256 * hi) ≡ lo ∷ hi ∷ []
unfolding ushort_bytes
ushort_bytes-of lo hi h =
    let e : (lo + 256 * hi) % 256 ≡ lo = omega arith in
    let e' : (lo + 256 * hi) / 256 ≡ hi = omega arith in rw (e, e') refl

bytes_ushort-of : (lo hi : ℕ) (rest : Bytes) → bytes_ushort (lo ∷ hi ∷ rest) ≡ lo + 256 * hi
unfolding bytes_ushort
bytes_ushort-of lo hi rest = refl

-- Of a client in a slot, and where a message holds 3 bytes at least: a timeout is stored in the client's slot as the two bytes of the request spell it, the low byte
-- first, and the same bytes are sent back to the client, within the new timeout.
pub broker_ioctl-stores :
    (p : Platform) (b : Broker) (msg : Msg) (c : Client) (lo hi v : ℕ) (rest : Bytes)
    → get_elem? b.clients msg.ctrl_data ≡ some c
    → 3 ≤ p.msg_max
    → msg.paylen ≡ 3
    → msg.msg_data ≡ ioctl_reply_timeout ∷ lo ∷ hi ∷ rest
    → lo < 256
    → v ≡ lo + 256 * hi
    → (let fd = msg.ctrl_data in
        let c' : Client = record c { reply_timeout = v } in
        let b' = with_client b fd c' in
        let call =
          send_of p c.mq cmd_ioctl 0 0 v b (ioctl_msg 0 (ioctl_reply_timeout ∷ lo ∷ hi ∷ [])) in
        broker_ioctl p msg b ≡ some (true, replied b' fd c' call (p.mq_timedsend b.calls call)))
unfolding broker_ioctl set_reply_timeout store_timeout reply_ioctl
broker_ioctl-stores p b msg c lo hi v rest there fits len d lt hv =
    let c' : Client = record c { reply_timeout = v } in
    let b' = with_client b msg.ctrl_data c' in
    let buf = ioctl_reply_timeout ∷ lo ∷ hi ∷ zeros 13 in
    let e = bytes_ushort-of lo hi [] ∙ sym hv in
    let e' = ap ushort_bytes hv ∙ ushort_bytes-of lo hi lt in
    rw (len, d)
      (rw (
        read_bytes_lem 2 (lo ∷ hi ∷ rest) (omega arith),
        load_client-there msg.ctrl_data b there,
        e,
        store_client-there msg.ctrl_data b there c',
        e',
        ioctl_buffer-some ioctl_reply_timeout (lo ∷ hi ∷ []) 2 (omega arith) (omega arith),
        reply-sends p msg.ctrl_data b' (there_set b msg.ctrl_data c' there) cmd_ioctl 0 none
            (some buf) 3 0 _
            (reply_mq-ioctl p c.mq cmd_ioctl 0 0 v b' buf 3 (omega arith) (omega arith) fits
              (omega arith)),
      ))
