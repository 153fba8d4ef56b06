-- ===== src/Server.antt =====
-- `class TcpServer` (pqnet/core/server.h, pqnet/core/server.cpp): the leader's loop accepts and removes
-- connections, the followers' loops run them.
mod Defs
mod Callbacks
pub mod Table
pub mod Setup
pub mod Accepting
pub mod Removing
mod Tests
mod SetupTests
