-- ===== src/Buffer.antt =====
-- `class Buffer` (pqnet/core/buffer.h, pqnet/core/buffer.cpp): a growing byte buffer with a read and
-- a write index. The definitions stand in `Defs` (memory) and `Net` (descriptors); the other modules
-- prove what they keep and what they do to the unread bytes.
mod Defs
mod Net
pub mod Valid
pub mod Contents
pub mod Append
pub mod Ints
pub mod Read
pub mod Write
mod Tests
pub use Defs.{Buffer}
unfoldable pub use Defs.{
  init, max_size, front_bytes, readable_bytes, writable_bytes, is_readable, is_writable,
  has_readable, has_writable, double_size, vacate, make_space, append, append_int8, append_int16,
  append_int32, append_int64, get, get_int8, get_int16, get_int32, get_int64, unread,
}
pub use Net.{Ssize, count, sys_error, buffer_size_maximum, Outcome}
unfoldable pub use Net.{write_to, read_from, read_loop, go_on, before_read, stored}
