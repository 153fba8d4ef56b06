-- ===== src/ThreadPool.antt =====
-- `class ThreadPool` (pqnet/util/threadpool.h, pqnet/util/threadpool.cpp): worker threads that take
-- tasks from one queue. `Defs` has its operations, and the steps of callers and workers; `Runs` what
-- holds over every interleaving of them.
mod Defs
pub mod Runs
mod Tests
pub mod Leaving
