-- ===== src/Server/SetupTests.antt =====
-- A server whose leader has the descriptor 5, on the sample kernels.
use pqnet.Common.{◌≡◌, ◌≢◌, ◌≤◌, true, some, [], ◌∷◌, arith}
use pqnet.Kernel.{History, poll_mod, poll_add}
use pqnet.Kernel.Sample.{sample_kernel}
use pqnet.Sockets.Address.{SockAddr}
use pqnet.Sockets.Api.{minus_one}
use pqnet.Sockets.Options.{new_socket, set_non_block, set_reuse_addr, set_reuse_port}
use pqnet.Sockets.Sample.{Options, sample-Passive, sample, unset, sample-Documented}
use pqnet.Sockets.Setup.{errors, configure, Configured}
use pqnet.Trigger.{add_to_loop, like_reading}
use pqnet.Server.Defs.{Server, new, listen_on}
use pqnet.Server.Setup.{init, init-Configured}

abbrev anywhere : SockAddr
anywhere = record { sin_family = 2; sin_port = 20480; sin_addr = 0 }

abbrev server : Server
server = new 5 (6 ∷ 7 ∷ [])

silent_init :
    errors (init sample_kernel sample anywhere (server, unset)).0.history ≤ errors server.history
unfolding errors init listen_on configure new_socket set_non_block set_reuse_addr set_reuse_port new
    add_to_loop like_reading
silent_init = omega arith

abbrev made : Server × Options
made = init sample_kernel sample anywhere (server, unset)

init-Configured_example :
    (made.0.listen_trigger.fd ≡ 3)
    × (3 ≢ minus_one)
    × (sample-Passive.bound 3 made.1 ≡ some anywhere)
    × (sample-Passive.listens 3 made.1 ≡ true)
    × Configured sample 3 made.1
    × (made.0.listen_trigger.events.reading ≡ true)
    × (h : History) × (made.0.history
        ≡ poll_mod 5 3 made.0.listen_trigger.events ∷ poll_add 5 3 server.listen_trigger.events ∷ h)
unfolding new
init-Configured_example =
    init-Configured sample_kernel sample sample-Documented sample-Passive anywhere server unset
      silent_init
