-- ===== src/Time.antt =====
-- utils.c: psmq_ms_to_tp, which turns a timeout in milliseconds into the absolute time that
-- mq_timedsend() and mq_timedreceive() take.
use psmq.Prelude.{ℕ, ◌+◌, ◌-◌, ◌*◌, ◌/◌, ◌%◌, ◌<◌, ◌≡◌, refl, leb, ◌==◌, if◌then◌else◌, arith}

-- `struct timespec`; `tv_sec` does not wrap.
pub record Timespec : Type 0 where
  pub tv_sec : ℕ
  pub tv_nsec : ℕ

abbrev pub epoch : Timespec
epoch = record { tv_sec = 0; tv_nsec = 0 }

-- The carry out of the nanoseconds.
abbrev carry : Timespec → Timespec
carry tp =
    if leb 1000000000 tp.tv_nsec
    then record { tv_sec = tp.tv_sec + 1; tv_nsec = tp.tv_nsec - 1000000000 }
    else tp

-- `now` is what clock_gettime(CLOCK_REALTIME) gives.
unfoldable pub ms_to_tp : Timespec → ℕ → Timespec
ms_to_tp now ms =
    if ms == 0
    then epoch
    else let nsec = (ms % 1000) * 1000000 in
      carry (record { tv_sec = now.tv_sec + ms / 1000; tv_nsec = now.tv_nsec + nsec })

abbrev pub IsNormal : Timespec → Type 0
IsNormal tp = tp.tv_nsec < 1000000000

abbrev pub nanoseconds : Timespec → ℕ
nanoseconds tp = tp.tv_sec * 1000000000 + tp.tv_nsec

-- Of a clock with fewer than 10^9 nanoseconds and a timeout that is not 0, the result has fewer
-- than 10^9 nanoseconds too, and lies exactly `ms` milliseconds after the clock.
pub ms_to_tp-adds :
    (now : Timespec) (ms : ℕ)
    → IsNormal now
    → 0 < ms
    → IsNormal (ms_to_tp now ms) × (nanoseconds (ms_to_tp now ms) ≡ nanoseconds now + ms * 1000000)
unfolding ms_to_tp
ms_to_tp-adds now ms h pos = ground arith

-- A timeout of 0 is the epoch, whatever the clock: the call that gets it does not wait.
pub ms_to_tp-zero : (now : Timespec) → ms_to_tp now 0 ≡ epoch
unfolding ms_to_tp
ms_to_tp-zero now = refl
