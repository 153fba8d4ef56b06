-- ===== src/LockFree.antt =====
-- The lock-free queues of raw-examples/cpp11/lockFreeQueue: `Spsc` for one producer and one consumer
-- (spsc/lockFreeQueue.h).
pub mod Spsc
