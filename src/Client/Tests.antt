-- ===== src/Client/Tests.antt =====
-- A client of the sample kernels, whose peer closes at once.
use pqnet.Common.{Option, none, some, []}
use pqnet.Kernel.Sample.{sample_kernel}
use pqnet.Connection
use pqnet.Connection.{World, User, handle_close}
use pqnet.Sockets.Address.{SockAddr}
use pqnet.Sockets.Sample.{sample, unset}
use pqnet.Client.Callbacks.{
  set_connect_callback, set_close_callback, set_message_arrived_callback,
  set_write_completed_callback,
}
use pqnet.Client.Defs.{Client, init, start}

abbrev idle : User
idle cb w = some w

abbrev here : SockAddr
here = record { sin_family = 2; sin_port = 20480; sin_addr = 0 }

abbrev client : Client
client = set_connect_callback (some 1) (
    set_close_callback (some 2) (
      set_message_arrived_callback (some 3)
        (set_write_completed_callback (some 4) (init sample here 5 ([], unset)).0)))

abbrev blank : World
blank = record { conn = Connection.new 5 3; history = [] }

abbrev result : Option World → World
result none = blank
result (some w) = w

abbrev ended : World
ended = result (handle_close sample_kernel idle (result (start sample_kernel idle client [])))
