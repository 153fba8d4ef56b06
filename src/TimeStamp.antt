-- ===== src/TimeStamp.antt =====
-- `struct TimeStamp` (pqnet/util/timestamp.h, pqnet/util/timestamp.cpp): a time in seconds and
-- microseconds since the epoch, its integer forms, and the split of a span of time.
mod Defs
pub mod Laws
pub use Defs.{TimeStamp}
unfoldable pub use Defs.{int10, int13, int16, int19, now, ms2_sec_and_nsec, us2_sec_and_nsec}
