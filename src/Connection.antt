-- ===== src/Connection.antt =====
-- `class TcpConnection` (pqnet/core/connection.h, pqnet/core/connection.cpp): the states of a
-- connection, its two buffers, and its handlers.
mod Defs
pub mod Sound
pub mod Stream
mod Keeps
pub mod Handlers
mod Steps
pub mod Invariant
pub mod Closing
pub mod Unremoved
pub mod Runs
mod Tests
pub use Steps.{Op, establishes, destroys, sends, asks_shutdown, shuts, reads, writes, closes, errs}
unfoldable pub use Steps.{step}
pub use Defs.{Status, disconnected, connecting, connected, disconnecting, Conn, World, User}
unfoldable pub use Defs.{
  new, set_connect_callback, set_close_callback, set_remove_conn_callback,
  set_message_arrived_callback, set_write_completed_callback, call, connect_established,
  connect_destroyed, send, queue_rest, shutdown, shutdown_in_loop, handle_read, handle_write,
  handle_close, handle_error, handlers, log_at,
}
