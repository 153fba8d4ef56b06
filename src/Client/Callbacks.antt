-- ===== src/Client/Callbacks.antt =====
-- The setters of client.h: the callbacks that start gives to the connection.
use pqnet.Common.{ℕ, Option}
use pqnet.Client.Defs.{Client}

module _ (cb : Option ℕ) (c : Client) where
  unfoldable pub set_connect_callback : Client
  set_connect_callback = record c { conncb = cb }

  unfoldable pub set_close_callback : Client
  set_close_callback = record c { closecb = cb }

  unfoldable pub set_message_arrived_callback : Client
  set_message_arrived_callback = record c { macb = cb }

  unfoldable pub set_write_completed_callback : Client
  set_write_completed_callback = record c { wccb = cb }
