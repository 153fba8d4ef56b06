-- ===== src/Server/Callbacks.antt =====
-- The setters of server.h: the callbacks that a connection is given when it is accepted.
use pqnet.Common.{ℕ, Option}
use pqnet.Server.Defs.{Server}

module _ (cb : Option ℕ) (s : Server) where
  unfoldable pub set_connect_callback : Server
  set_connect_callback = record s { conncb = cb }

  unfoldable pub set_close_callback : Server
  set_close_callback = record s { closecb = cb }

  unfoldable pub set_message_arrived_callback : Server
  set_message_arrived_callback = record s { macb = cb }

  unfoldable pub set_write_completed_callback : Server
  set_write_completed_callback = record s { wccb = cb }
