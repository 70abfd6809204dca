-- ===== src/Sub/Text.antt =====
-- src/psmq-sub.c: which payloads are shown as text.
use psmq.Prelude.{
  ℕ, zero, suc, ◌+◌, ◌-◌, ◌<◌, ◌≡◌, ◌↔◌, refl, sym, ap, ◌∙◌, Bool, true, false, ◌||◌, [], ◌∷◌, ◌++◌,
  some, ◌==◌, length, length-append, take, take-append, drop-append, All, append_assoc, arith,
}
use psmq.CString.{Bytes, IsString, c_str, c_str-append, strlen}
use psmq.CString.Copy.{zeros}
use psmq.Errno.{ok}
use psmq.Message.{topic, payload, received, cmd_publish}
use psmq.Broker.Reply.Buffer.{topic_msg, length-ended}
use psmq.Sub.{text, scan, is_payload_binary, show_publish, on_receive}

module _ (isprint isspace : ℕ → Bool) where
  -- The byte can be printed, or is white space.
  abbrev pub IsText : ℕ → Type 0
  IsText c = (isprint c || isspace c) ≡ true

  -- The bytes are a text of `n` bytes that can be printed, and a NUL.
  abbrev pub IsEnded : ℕ → Bytes → Type 0
  IsEnded n bytes = (t : Bytes) × (bytes ≡ t ++ 0 ∷ []) × (length t ≡ n) × All IsText t

  scan_sound :
      (n : ℕ) (s : Bytes) → scan isprint isspace n s ≡ some false → IsEnded n (take (suc n) s)
  unfolding scan
  scan_sound n [] h = absurd (cc)
  scan_sound zero (c ∷ s) h = let e : c ≡ 0 = ground arith in ([], ap (λ k. k ∷ []) e, refl, tt)
  scan_sound (suc n) (c ∷ s) h =
      let (t, e, l, a) = scan_sound n s (ground arith) in
      (c ∷ t, ap (◌∷◌ c) e, ap suc l, (ground arith, a))

  scan_complete :
      (n : ℕ) (s t : Bytes)
      → take (suc n) s ≡ t ++ 0 ∷ []
      → length t ≡ n
      → All IsText t
      → scan isprint isspace n s ≡ some false
  unfolding scan
  scan_complete n [] [] e l a = absurd (cc)
  scan_complete n [] (d ∷ t) e l a = absurd (cc)
  scan_complete zero (c ∷ s) [] e l a = ground arith
  scan_complete zero (c ∷ s) (d ∷ t) e l a = absurd (omega arith)
  scan_complete (suc n) (c ∷ s) [] e l a = absurd (omega arith)
  scan_complete (suc n) (c ∷ s) (d ∷ t) e l a =
      let k = scan_complete n s t (ground arith) (omega arith) a.1 in ground (arith, k)

  -- A payload is taken for text exactly when it has two bytes at least, of which the last is a NUL and
  -- each other can be printed or is white space.
  pub is_payload_binary-iff-IsEnded :
      (buf : Bytes) (paylen : ℕ)
      → (is_payload_binary isprint isspace buf paylen ≡ some false)
        ↔ ((1 < paylen) × IsEnded (paylen - 1) (take paylen buf))
  unfolding is_payload_binary
  is_payload_binary-iff-IsEnded buf zero = (λ h. absurd (cc), λ h. absurd (omega (arith, h.0)))
  is_payload_binary-iff-IsEnded buf (suc zero) =
      (λ h. absurd (cc), λ h. absurd (omega (arith, h.0)))
  is_payload_binary-iff-IsEnded buf (suc (suc n)) =
      let e : suc (suc n) - 1 ≡ suc n = omega arith in
      let z : ((suc (suc n) == 0) || (suc (suc n) == 1)) ≡ false = ground arith in
      rw (e, z)
        (
          λ h. (omega arith, scan_sound (suc n) buf h),
          λ h. let (_, (t, k, l, a)) = h in scan_complete (suc n) buf t k l a,
        )

module _ (t bytes z : Bytes) (h : IsString t) where
  behind_topic : ((t ++ 0 ∷ []) ++ bytes) ++ z ≡ t ++ 0 ∷ (bytes ++ z)
  behind_topic = append_assoc (t ++ 0 ∷ []) bytes z ∙ append_assoc t (0 ∷ []) (bytes ++ z)

  pub c_str-message : c_str (((t ++ 0 ∷ []) ++ bytes) ++ z) ≡ t
  c_str-message = ap c_str behind_topic ∙ c_str-append t (bytes ++ z) h

  -- What is behind the topic of a publication in the buffer: the payload, and what the buffer held.
  payload-message :
      (status : ℕ)
      → payload (record (topic_msg cmd_publish status t bytes) {
        msg_data = ((t ++ 0 ∷ []) ++ bytes) ++ z;
      })
        ≡ bytes ++ z
  unfolding payload strlen
  payload-message status =
      rw (c_str-message, append_assoc (t ++ 0 ∷ []) bytes z)
        (drop-append (length t + 1) (t ++ 0 ∷ []) (bytes ++ z) (sym (length-ended t)))

-- The same of a buffer that holds anything behind the publication.
pub on_receive-text_in :
    (isprint isspace : ℕ → Bool) (status prio : ℕ) (t string z : Bytes)
    → IsString t
    → IsString string
    → 0 < length string
    → All (IsText isprint isspace) string
    → (let msg = record (topic_msg cmd_publish status t (string ++ 0 ∷ [])) {
      msg_data = ((t ++ 0 ∷ []) ++ (string ++ 0 ∷ [])) ++ z;
    } in
        on_receive isprint isspace msg (topic msg) (payload msg) msg.paylen prio
        ≡ some (ok (text prio (length string) t string)))
unfolding on_receive show_publish
on_receive-text_in isprint isspace status prio t string z h h' pos a =
    let bytes = string ++ 0 ∷ [] in
    let len : length bytes ≡ length string + 1 = length-append string (0 ∷ []) in
    let last : length bytes - 1 ≡ length string = omega arith in
    let shown : c_str (bytes ++ z) ≡ string =
      ap c_str (append_assoc string (0 ∷ []) z) ∙ c_str-append string z h' in
    let whole = take-append (length bytes) bytes z refl in
    let as_text =
      (is_payload_binary-iff-IsEnded isprint isspace (bytes ++ z) (length bytes)).1
        (omega arith, (string, whole, sym last, a)) in
    rw (c_str-message t bytes z h, payload-message t bytes z h status)
      (rw (as_text, last, shown) refl)

-- A string of one byte or more, each of which can be printed or is white space, published with its NUL, is shown as that string, under its topic and
-- with its length and its priority, by a subscriber that receives the broker's message.
pub on_receive-text :
    (isprint isspace : ℕ → Bool) (n status prio : ℕ) (t string : Bytes)
    → IsString t
    → IsString string
    → 0 < length string
    → All (IsText isprint isspace) string
    → (let msg = received n (topic_msg cmd_publish status t (string ++ 0 ∷ [])) in
        on_receive isprint isspace msg (topic msg) (payload msg) msg.paylen prio
        ≡ some (ok (text prio (length string) t string)))
unfolding received
on_receive-text isprint isspace n status prio t string h h' pos a =
    on_receive-text_in isprint isspace status prio t string
      (zeros (n - length ((t ++ 0 ∷ []) ++ (string ++ 0 ∷ [])))) h h' pos a
