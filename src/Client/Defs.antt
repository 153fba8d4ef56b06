-- ===== src/Client/Defs.antt =====
-- client.h and client.cpp, over the socket API. A callback is a handle, and `looper` the descriptor of
-- the client's loop; the turns of the loop, into which start goes, are left out.
use pqnet.Common.{ℕ, Option, none, some, ◌∷◌}
use pqnet.Kernel.{Kernel, History, debug, log}
use pqnet.Connection
use pqnet.Connection.{
  Status, connected, disconnected, connecting, disconnecting, Conn, World, User,
  connect_established, connect_destroyed, set_connect_callback, set_close_callback,
  set_message_arrived_callback, set_write_completed_callback,
}
use pqnet.Sockets.Address.{SockAddr}
use pqnet.Sockets.Api.{Api}
use pqnet.Sockets.Options.{new_socket}
use pqnet.Sockets.Setup.{report, done, configure}

pub record Client : Type 0 where
  pub conncb : Option ℕ
  pub closecb : Option ℕ
  pub macb : Option ℕ
  pub wccb : Option ℕ
  pub addr : SockAddr
  pub conn : Conn
  pub looper : ℕ

-- The constructor; the callbacks are empty.
unfoldable pub init : {S : Type 0} → Api S → SockAddr → ℕ → History × S → Client × History × S
init api addr looper (h, s) =
    let (sockfd, s1) = new_socket api s in
    let h1 = report (done sockfd) h in
    let (rc, s2) = api.connect sockfd addr s1 in
    let (h3, s3) = configure api sockfd (log debug ∷ report (done rc) h1, s2) in
    (
      record {
        conncb = none;
        closecb = none;
        macb = none;
        wccb = none;
        addr = addr;
        conn = Connection.new looper sockfd;
        looper = looper;
      },
      h3,
      s3,
    )

unfoldable pub set_callbacks : Client → Client
set_callbacks c = record c {
  conn = set_write_completed_callback c.wccb (
      set_message_arrived_callback c.macb
        (set_close_callback c.closecb (set_connect_callback c.conncb c.conn)));
}

module _ (k : Kernel) (user : User) where
  -- Up to `looper->loop()`.
  unfoldable pub start : Client → History → Option World
  start c h = connect_established k user (record { conn = (set_callbacks c).conn; history = h })

  abbrev destroy_if : Status → World → Option World
  destroy_if connected w = connect_destroyed k user w
  destroy_if _ w = some w

  -- The destructor.
  unfoldable pub drop : World → Option World
  drop w = destroy_if w.conn.status w
