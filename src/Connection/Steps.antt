-- ===== src/Connection/Steps.antt =====
-- What can happen to a connection: its public operations, the functor of `shutdown`, and the handlers
-- that its trigger calls.
use pqnet.Common.{ℕ, Option, some, List}
use pqnet.Kernel.{Kernel}
use pqnet.Connection.Defs.{
  World, User, connect_established, connect_destroyed, send, shutdown, shutdown_in_loop,
  handle_read, handle_write, handle_close, handle_error,
}

pub data Op : Type 0 where
  establishes destroys : Op
  sends : List ℕ → Op
  asks_shutdown shuts reads writes closes errs : Op

unfoldable pub step : Kernel → User → Op → World → Option World
step k user establishes s = connect_established k user s
step k user destroys s = connect_destroyed k user s
step k user (sends xs) s = send k user xs s
step k user asks_shutdown s = some (shutdown s)
step k user shuts s = some (shutdown_in_loop s)
step k user reads s = handle_read k user s
step k user writes s = handle_write k user s
step k user closes s = handle_close k user s
step k user errs s = handle_error k user s
