-- ===== src/Timers.antt =====
-- `class Timer` and `class TimerQueue` (pqnet/core/timer.h, pqnet/core/timerqueue.h,
-- pqnet/core/timerqueue.cpp): the timers of an event loop, ordered by the time they end at.
mod Defs
pub mod Order
mod Tests
pub use Defs.{Timer, TimerQueue}
unfoldable pub use Defs.{insert, wait_of, add_timer, del_timer, handle, get_expire}
pub mod Handling
pub mod Expiry
pub mod Fd
pub mod Arming
pub mod Overdue
mod FdTests
