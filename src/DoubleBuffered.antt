-- ===== src/DoubleBuffered.antt =====
-- `class DoubleBufferedQueue` and `class Queue`
-- (raw-examples/cpp11/doublebufferedqueue/doublebufferedqueue.h).
mod Queue
mod Defs
pub mod Refines
mod Tests
