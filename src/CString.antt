-- ===== src/CString.antt =====
-- The C strings and byte buffers that the program passes around (string.h, as the sources use it).
-- A buffer is the list of its bytes; a string is the list of its bytes without the terminator.
pub mod Strtok
pub mod Copy
use psmq.Prelude.{
  ℕ, ◌+◌, ◌≡◌, refl, ap, Bool, true, false, ◌&&◌, List, [], ◌∷◌, ◌++◌, Option, none, some, ◌↔◌, ltb,
  ◌==◌, if◌then◌else◌, length, take, drop, arith,
}

abbrev pub Bytes : Type 0
Bytes = List ℕ

-- The string that starts at a buffer: its bytes up to the first NUL.
unfoldable pub c_str : Bytes → Bytes
c_str [] = []
c_str (c ∷ s) = if c == 0 then [] else c ∷ c_str s

-- strlen(); where no NUL is in the buffer it counts the buffer.
unfoldable pub strlen : Bytes → ℕ
unfolding c_str
strlen s = length (c_str s)

-- strcmp(a, b) == 0
unfoldable pub str_eq : Bytes → Bytes → Bool
str_eq [] [] = true
str_eq [] (d ∷ b) = false
str_eq (c ∷ a) [] = false
str_eq (c ∷ a) (d ∷ b) = (c == d) && str_eq a b

-- memcpy(dst + at, src, length src); `none` is a write past the end of `dst`.
unfoldable pub memcpy : ℕ → Bytes → Bytes → Option Bytes
memcpy at src dst =
    if ltb (length dst) (at + length src)
    then none
    else some (take at dst ++ (src ++ drop (at + length src) dst))

-- The `n` bytes at `src`; `none` is a read past its end.
unfoldable pub read_bytes : ℕ → Bytes → Option Bytes
read_bytes n src = if ltb (length src) n then none else some (take n src)

-- No byte of the string is a NUL.
abbrev pub IsString : Bytes → Type 0
IsString [] = Unit {0}
IsString (c ∷ s) = ((c == 0) ≡ false) × IsString s

pub str_eq_iff : (a b : Bytes) → (str_eq a b ≡ true) ↔ (a ≡ b)
unfolding str_eq
str_eq_iff [] [] = ground arith
str_eq_iff [] (d ∷ b) = ground arith
str_eq_iff (c ∷ a) [] = ground arith
str_eq_iff (c ∷ a) (d ∷ b) = ground (arith, str_eq_iff a b)

pub c_str-IsString : (s : Bytes) → IsString (c_str s)
unfolding c_str
c_str-IsString [] = tt
c_str-IsString (c ∷ s) = ground (arith, c_str-IsString s)

pub c_str-append : (s rest : Bytes) → IsString s → c_str (s ++ 0 ∷ rest) ≡ s
unfolding c_str
c_str-append [] rest h = refl
c_str-append (c ∷ s) rest h = ground (arith, c_str-append s rest h.1)

pub c_str_idem : (s : Bytes) → IsString s → c_str s ≡ s
unfolding c_str
c_str_idem [] h = refl
c_str_idem (c ∷ s) h = ground (arith, c_str_idem s h.1)
