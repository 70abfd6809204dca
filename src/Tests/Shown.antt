-- ===== src/Tests/Shown.antt =====
-- The subscriber at concrete inputs.
use psmq.Prelude.{ℕ, Bool, ◌&&◌, ◌||◌, [], ◌∷◌, ◌==◌, ltb, leb}
use psmq.CString.{Bytes}

-- isprint() and isspace() in the C locale
abbrev pub isprint : ℕ → Bool
isprint c = leb 32 c && ltb c 127

abbrev pub isspace : ℕ → Bool
isspace c = (c == 32) || (leb 9 c && ltb c 14)

-- "Hi"
abbrev pub hi : Bytes
hi = b'H' ∷ b'i' ∷ []
