-- ===== src/LockFree/Spsc.antt =====
-- `class LockFreeQueue` of raw-examples/cpp11/lockFreeQueue/spsc/lockFreeQueue.h.
mod Defs
mod Window
mod Sound
pub mod Fifo
mod Tests
