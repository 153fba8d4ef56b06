-- ===== src/TimeStamp/Laws.antt =====
-- What the integer forms of a time say, and the splits.
use pqnet.Common.{ℕ, ◌+◌, ◌*◌, ◌/◌, ◌^◌, ◌≡◌, ◌<◌, arith}
use pqnet.TimeStamp.Defs.{int10, int13, int16, int19, now, ms2_sec_and_nsec, us2_sec_and_nsec}

-- A clock reading below 2^54 microseconds comes back from `now` by Int16, and Int13 and Int10 are
-- its milliseconds and seconds, and Int19 its nanoseconds.
pub now_lem :
    (tv : ℕ)
    → tv < 2 ^ 54
    → (int16 (now tv) ≡ tv)
      × (int13 (now tv) ≡ tv / 1000)
      × (int10 (now tv) ≡ tv / 1000000)
      × (int19 (now tv) ≡ tv * 1000)
unfolding int10 int13 int16 int19 now
now_lem tv h = (omega arith, omega arith, omega arith, omega arith)

-- The split of a 32-bit count of milliseconds: the parts add up to it, and the nanoseconds are fewer
-- than those of a second.
pub ms2_sec_and_nsec_lem :
    (ms : ℕ)
    → ms < 2 ^ 32
    → let (sec, nsec) = ms2_sec_and_nsec ms in
      (sec * 1000000000 + nsec ≡ ms * 1000000) × (nsec < 1000000000)
unfolding ms2_sec_and_nsec
ms2_sec_and_nsec_lem ms h = (omega arith, omega arith)

-- The split of a 32-bit count of microseconds, likewise.
pub us2_sec_and_nsec_lem :
    (us : ℕ)
    → us < 2 ^ 32
    → let (sec, nsec) = us2_sec_and_nsec us in
      (sec * 1000000000 + nsec ≡ us * 1000) × (nsec < 1000000000)
unfolding us2_sec_and_nsec
us2_sec_and_nsec_lem us h = (omega arith, omega arith)
