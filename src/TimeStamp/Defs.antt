-- ===== src/TimeStamp/Defs.antt =====
-- timestamp.h and the arithmetic of timestamp.cpp. The clock is the count of microseconds since the
-- epoch that `std::chrono::system_clock` gives; the broken-down `std::tm` is left out.
use pqnet.Common.{ℕ, ◌*◌, ◌/◌, ◌%◌}
use pqnet.Common.Words.{size_mod, uint_mod, add_size, mul_size, mul_uint, sub_uint}

abbrev pub k1e3 : ℕ
k1e3 = 1000

abbrev pub k1e6 : ℕ
k1e6 = 1000000

abbrev pub k1e9 : ℕ
k1e9 = 1000000000

pub record TimeStamp : Type 0 where
  pub sec : ℕ
  pub usec : ℕ

unfoldable pub millisecond : TimeStamp → ℕ
millisecond ts = (ts.usec / k1e3) % uint_mod

unfoldable pub microsecond : TimeStamp → ℕ
microsecond ts = ts.usec % uint_mod

unfoldable pub nanosecond : TimeStamp → ℕ
nanosecond ts = (ts.usec * k1e3) % uint_mod

unfoldable pub int10 : TimeStamp → ℕ
int10 ts = ts.sec % size_mod

unfoldable pub int13 : TimeStamp → ℕ
int13 ts = add_size (mul_size ts.sec k1e3) (ts.usec / k1e3)

unfoldable pub int16 : TimeStamp → ℕ
int16 ts = add_size (mul_size ts.sec k1e6) ts.usec

unfoldable pub int19 : TimeStamp → ℕ
int19 ts = add_size (mul_size ts.sec k1e9) (mul_size ts.usec k1e3)

-- `now()` where the clock reads `tv` microseconds.
unfoldable pub now : ℕ → TimeStamp
now tv = record { sec = tv / k1e6; usec = tv % k1e6 }

unfoldable pub ms2_sec_and_nsec : ℕ → ℕ × ℕ
ms2_sec_and_nsec ms = let sec = ms / k1e3 in (sec, mul_uint (sub_uint ms (mul_uint sec k1e3)) k1e6)

unfoldable pub us2_sec_and_nsec : ℕ → ℕ × ℕ
us2_sec_and_nsec us = let sec = us / k1e6 in (sec, mul_uint (sub_uint us (mul_uint sec k1e6)) k1e3)
