-- ===== src/Topic.antt =====
-- Topics: which published topics a subscription matches (psmqd_broker_topic_matches of
-- src/broker.c), and the checks of a subscription topic (psmqd_broker_subscribe).
pub mod Matching
pub mod Path
use psmq.Prelude.{
  ℕ, zero, suc, ◌+◌, ◌-◌, Bool, true, false, not, ◌&&◌, ◌||◌, List, [], ◌∷◌, Option, none, some,
  ltb, leb, ◌==◌, if◌then◌else◌, length,
}
use psmq.CString.{Bytes, str_eq}
use psmq.CString.Strtok.{strtok_r}

abbrev pub slash : ℕ
slash = b'/'

abbrev pub star : Bytes
star = b'*' ∷ []

abbrev pub plus : Bytes
plus = b'+' ∷ []

-- A token with the saved pointer behind it; `none` is the NULL of `strtok_r`.
abbrev pub Token : Type 0
Token = Option (Bytes × Bytes)

-- The `while` loop and the test behind it. The two tokens lie in different buffers, so the pointers
-- are equal only if both are NULL. A round takes a token off each topic: `topic_matches` gives more
-- rounds than the topic has bytes.
unfoldable pub match_loop : ℕ → Token → Token → Bool
unfolding str_eq strtok_r
match_loop zero pubtok subtok = false
match_loop (suc f) none none = true
match_loop (suc f) none (some sub) = false
match_loop (suc f) (some pub_) none = false
match_loop (suc f) (some (pubtok, pubts)) (some (subtok, subts)) =
    let rest = match_loop f (strtok_r slash pubts) (strtok_r slash subts) in
    if str_eq subtok star
    then true
    else if str_eq subtok plus
    then rest
    else if not (str_eq subtok pubtok)
    then false
    else rest

-- `none` is a `strcpy` past the end of `pubt` or `subt`, which hold `msg_max` bytes.
unfoldable pub topic_matches : ℕ → Bytes → Bytes → Option Bool
unfolding str_eq strtok_r match_loop
topic_matches msg_max pub_topic sub_topic =
    if str_eq pub_topic sub_topic
    then some true
    else if leb msg_max (length pub_topic) || leb msg_max (length sub_topic)
    then none
    else some
        (match_loop (length pub_topic + 2) (strtok_r slash pub_topic) (strtok_r slash sub_topic))

-- Two '/' in a row: the `for` loop of the subscribe request.
unfoldable pub has_double_slash : Bytes → Bool
has_double_slash [] = false
has_double_slash (c ∷ []) = false
has_double_slash (c ∷ d ∷ s) =
    if (c == slash) && (d == slash) then true else has_double_slash (d ∷ s)

abbrev pub first_byte : Bytes → ℕ
first_byte [] = 0
first_byte (c ∷ s) = c

abbrev pub last_byte : Bytes → ℕ
last_byte [] = 0
last_byte (c ∷ []) = c
last_byte (c ∷ d ∷ s) = last_byte (d ∷ s)

-- The guards of the subscribe request, in the order of the source: is the topic refused?
unfoldable pub subscribe_refuses : Bytes → ℕ → Bool
unfolding has_double_slash
subscribe_refuses stopic paylen =
    if ltb (length stopic) 2
    then true
    else if not (paylen == 0)
    then true
    else if not (first_byte stopic == slash)
    then true
    else if last_byte stopic == slash
    then true
    else has_double_slash stopic
