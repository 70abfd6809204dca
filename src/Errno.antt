-- ===== src/Errno.antt =====
-- errno values, as Linux numbers them, and the result of a function that returns 0 or -1 with errno.
use psmq.Prelude.{ℕ, ltb, if◌then◌else◌}

pub data Result {ℓ} (A : Type ℓ) : Type ℓ where
  ok : A → Result A
  err : ℕ → Result A

abbrev pub enoent : ℕ
enoent = 2

abbrev pub eintr : ℕ
eintr = 4

abbrev pub ebadf : ℕ
ebadf = 9

abbrev pub enomem : ℕ
enomem = 12

abbrev pub eexist : ℕ
eexist = 17

abbrev pub einval : ℕ
einval = 22

abbrev pub enospc : ℕ
enospc = 28

abbrev pub enametoolong : ℕ
enametoolong = 36

abbrev pub ebadmsg : ℕ
ebadmsg = 74

abbrev pub enobufs : ℕ
enobufs = 105

abbrev pub etimedout : ℕ
etimedout = 110

abbrev pub uchar_max : ℕ
uchar_max = 255

-- `errno < UCHAR_MAX ? errno : UCHAR_MAX`: an errno as it fits into one byte of a reply.
unfoldable pub errno_byte : ℕ → ℕ
errno_byte errno = if ltb errno uchar_max then errno else uchar_max
