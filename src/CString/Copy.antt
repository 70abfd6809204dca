-- ===== src/CString/Copy.antt =====
-- Copies into a zeroed buffer, one behind the other.
use psmq.Prelude.{
  ℕ, suc, ◌+◌, ◌-◌, ◌≤◌, ◌≡◌, refl, [], ◌∷◌, ◌++◌, some, le→ltb, append_assoc, length,
  length-append, length-replicate, take, drop, take-append, drop-replicate, replicate, arith,
}
use psmq.CString.{Bytes, memcpy, read_bytes}

abbrev pub zeros : ℕ → Bytes
zeros n = replicate n 0

drop-behind : (a : Bytes) (k n : ℕ) → drop (length a + k) (a ++ zeros n) ≡ zeros (n - k)
drop-behind [] k n = let e : 0 + k ≡ k = omega arith in rw e (drop-replicate k n 0)
drop-behind (x ∷ a) k n =
    let e : length (x ∷ a) + k ≡ suc (length a + k) = omega arith in rw e (drop-behind a k n)

-- What is copied behind the bytes that are there takes the place of as many zeros.
pub memcpy_behind :
    (at : ℕ) (a src : Bytes) (n : ℕ)
    → at ≡ length a
    → length src ≤ n
    → memcpy at src (a ++ zeros n) ≡ some (a ++ (src ++ zeros (n - length src)))
unfolding memcpy
memcpy_behind at a src n e h = rw e (
    rw (
      le→ltb (length (a ++ zeros n)) (length a + length src)
          (omega (arith, length-append a (zeros n), length-replicate {A = ℕ} n 0)),
      take-append (length a) a (zeros n) refl,
      drop-behind a (length src) n,
    ))

pub read_bytes_lem : (n : ℕ) (src : Bytes) → n ≤ length src → read_bytes n src ≡ some (take n src)
unfolding read_bytes
read_bytes_lem n src h = rw (le→ltb (length src) n h)

-- The first bytes of a buffer that was filled in that way.
pub take_filled :
    (a src : Bytes) (k n : ℕ)
    → k ≡ length a + length src
    → take k (a ++ (src ++ zeros n)) ≡ a ++ src
take_filled a src k n h =
    rw (← append_assoc) (take-append k (a ++ src) (zeros n) (omega (arith, length-append a src)))
