-- ===== src/RingBuffer.antt =====
-- `class RingBuffer` (raw-examples/cpp11/ringbuffer/ringbuffer.h): a byte queue in an array of 1024
-- bytes, with a read and a write index that go round, and a flag for the full ring.
mod Defs
pub mod Contents
pub mod Reading
pub mod Writing
pub mod Storing
pub mod Queue
mod Tests
