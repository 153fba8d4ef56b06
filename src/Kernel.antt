-- ===== src/Kernel.antt =====
-- The system calls that the library makes. What was called, and what it answered, is kept as a
-- history, newest first; what the kernel answers next is a parameter, a function of the history, so
-- that a theorem about every `Kernel` holds for whatever the peers and the kernel do.
mod Calls
pub mod Sample
pub use Calls.{
  ReadResult, got, read_failed, WriteResult, accepted, write_failed, Level, debug, info, warn,
  error, fatal, Poll, Slot, on_connect, on_close, on_remove, on_message, on_written, Event,
  received, read_error, sent, write_error, poll_add, poll_mod, poll_del, closed, shut, called,
  queued, log, History, Kernel,
}
unfoldable pub use Calls.{received_on, sent_on, sys_read, sys_write}
mod Streams
pub use Streams.*
