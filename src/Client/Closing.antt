-- ===== src/Client/Closing.antt =====
-- A client whose peer closes.
use pqnet.Kernel.{Kernel}
use pqnet.Connection
use pqnet.Connection.{connected, connect_established}
use pqnet.Sockets.Api.{Api}
use pqnet.Client.Defs.{Client}
