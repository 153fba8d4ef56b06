-- ===== src/Server/Tests.antt =====
-- A server with two followers, and two clients.
use pqnet.Common.{
  ℕ, ◌≡◌, refl, sym, ◌++◌, true, none, some, List, [], ◌∷◌, ◌==◌, if◌then◌else◌, arith,
}
use pqnet.Kernel.Sample.{sample_kernel}
use pqnet.Connection
use pqnet.Connection.{
  Conn, set_connect_callback, set_close_callback, set_remove_conn_callback,
  set_message_arrived_callback, set_write_completed_callback,
}
use pqnet.LoopPool
use pqnet.Trigger
use pqnet.Server.Defs.{destroy, Server, find_conn, make_conn, on_accept, remove_connection_in_loop}
use pqnet.Server.Table.{IsSound}
use pqnet.Server.Accepting.{Accepts, on_accept_lem}
use pqnet.Server.Removing.{remove_connection_in_loop_lem}

abbrev fresh : Server
fresh = record {
  conncb = some 1;
  closecb = some 2;
  macb = some 3;
  wccb = none;
  connpool = [];
  listen_trigger = Trigger.new 3 4;
  leader = 3;
  followers = LoopPool.new (5 ∷ 8 ∷ []);
  heap = [];
  pending = [];
  history = [];
}

fresh-IsSound : IsSound fresh
unfolding find_conn LoopPool.new
fresh-IsSound = record {
  turns = (refl, omega arith, omega arith);
  ordered = tt;
  lives = λ fd c e. absurd (cc);
}

-- Descriptors 9 and 7 are accepted, and 9 again, reused.
on_accept_lem_example :
    (ls : List ℕ) × (t : Server) × (on_accept sample_kernel (9 ∷ 7 ∷ 9 ∷ []) true fresh ≡ some t)
    × Accepts fresh (9 ∷ 7 ∷ 9 ∷ []) ls t
on_accept_lem_example = on_accept_lem sample_kernel (9 ∷ 7 ∷ 9 ∷ []) true fresh fresh-IsSound

-- The same server with the connection 0, of descriptor 9, in the table.
abbrev busy : Server
busy = record fresh { connpool = (9, 0) ∷ []; heap = make_conn 5 9 fresh ∷ [] }

find_nine : (fd c : ℕ) → find_conn fd busy.connpool ≡ some c → (fd ≡ 9) × (c ≡ 0)
unfolding find_conn
find_nine fd c e = (ground (arith, e), ground (arith, e))

busy-IsSound : IsSound busy
unfolding LoopPool.new make_conn Connection.new Trigger.new set_connect_callback set_close_callback
    set_remove_conn_callback set_message_arrived_callback set_write_completed_callback
busy-IsSound = record {
  turns = (refl, omega arith, omega arith);
  ordered = (tt, tt);
  lives = λ fd c e. let (f, g) = find_nine fd c e in (make_conn 5 9 fresh, rw g refl, sym f);
}

remove_connection_in_loop_lem_example :
    (t : Server) × (remove_connection_in_loop 0 busy ≡ some t)
    × IsSound t
    × ((fd : ℕ)
        → find_conn fd t.connpool
          ≡ (if fd == (make_conn 5 9 fresh).tg.fd then none else find_conn fd busy.connpool))
    × (t.pending ≡ busy.pending ++ ((make_conn 5 9 fresh).looper, destroy 0) ∷ [])
remove_connection_in_loop_lem_example =
    remove_connection_in_loop_lem 0 (make_conn 5 9 fresh) busy busy-IsSound refl
