-- ===== src/Scheduling.antt =====
-- The timers of `class EventLoop` (pqnet/core/eventloop.h, pqnet/core/eventloop.cpp): runAt, runAfter,
-- runEvery and cancel, over the loop's timer queue.
mod Defs
pub mod Due
mod Tests
