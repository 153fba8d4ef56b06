-- ===== src/LoopPool.antt =====
-- `class EventLoopThreadPool` (pqnet/core/eventloopthreadpool.h, pqnet/core/eventloopthreadpool.cpp):
-- the event loops of a server's followers, handed out in turn.
mod Defs
pub mod Laws
mod Tests
pub use Defs.{LoopPool}
unfoldable pub use Defs.{new, advance, get_event_loop_by_index, get_next_event_loop, next_loops}
