-- ===== src/Sockets.antt =====
-- socket.h, socket.cpp, ipaddr.h and ipaddr.cpp under pqnet/core: the options of a socket, and the
-- addresses that the server and the client use.
pub mod Address
pub mod Api
pub mod Options
pub mod Setting
pub mod Setup
pub mod Sample
mod Tests
