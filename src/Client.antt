-- ===== src/Client.antt =====
-- `class TcpClient` (pqnet/core/client.h, pqnet/core/client.cpp): one connection, and its loop.
mod Defs
mod Callbacks
pub mod Closing
mod Tests
