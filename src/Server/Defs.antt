-- ===== src/Server/Defs.antt =====
-- server.h and server.cpp, over connections on a heap: a shared pointer is the index of its
-- connection. What is pushed to an event loop waits in `pending`, with the loop it is for; the loop
-- of the leader is `leader`. `none` is an index out of the followers.
use pqnet.Common.{
  ℕ, Bool, Option, none, some, List, [], ◌∷◌, ◌++◌, map, length, get_elem?, ◌==◌, if◌then◌else◌,
  ltb, ◌>>=◌,
}
use pqnet.Kernel.{Kernel, History, warn, error, debug, log, closed}
use pqnet.Trigger
use pqnet.Trigger.{Trigger, add_to_loop, remove_from_loop, like_reading, set_epfd, set_fd}
use pqnet.Connection
use pqnet.Connection.{
  Conn, set_connect_callback, set_close_callback, set_remove_conn_callback,
  set_message_arrived_callback, set_write_completed_callback,
}
use pqnet.LoopPool
use pqnet.LoopPool.{LoopPool, get_next_event_loop}

-- The functors that the server pushes.
pub data Task : Type 0 where
  -- `TcpConnection::connectEstablished`, `connectDestroyed` of a connection
  establish destroy : ℕ → Task
  -- `TcpServer::removeConnectionInLoop` of a connection, and `EventLoop::quit`
  remove : ℕ → Task
  quit : Task

pub record Server : Type 0 where
  pub conncb : Option ℕ
  pub closecb : Option ℕ
  pub macb : Option ℕ
  pub wccb : Option ℕ
  pub connpool : List (ℕ × ℕ)
  pub listen_trigger : Trigger
  pub leader : ℕ
  pub followers : LoopPool
  pub heap : List Conn
  pub pending : List (ℕ × Task)
  pub history : History

-- The constructor up to `init`: `loops` are the loops of the pool's threads.
unfoldable pub new : ℕ → List ℕ → Server
new leader loops = record {
  conncb = none;
  closecb = none;
  macb = none;
  wccb = none;
  connpool = [];
  listen_trigger = Trigger.new 0 0;
  leader = leader;
  followers = LoopPool.new loops;
  heap = [];
  pending = [];
  history = [];
}

-- `connpool[fd] = conn` and `connpool.erase(fd)`, on pairs in the order of the keys
unfoldable pub put_conn : ℕ → ℕ → List (ℕ × ℕ) → List (ℕ × ℕ)
put_conn fd c [] = (fd, c) ∷ []
put_conn fd c ((k, d) ∷ kvs) =
    let rest = (k, d) ∷ put_conn fd c kvs in
    if ltb fd k then (fd, c) ∷ (k, d) ∷ kvs else if ltb k fd then rest else (k, c) ∷ kvs

unfoldable pub erase_conn : ℕ → List (ℕ × ℕ) → List (ℕ × ℕ)
erase_conn fd [] = []
erase_conn fd ((k, d) ∷ kvs) =
    let rest = (k, d) ∷ erase_conn fd kvs in if k == fd then kvs else rest

unfoldable pub find_conn : ℕ → List (ℕ × ℕ) → Option ℕ
find_conn fd [] = none
find_conn fd ((k, d) ∷ kvs) = let rest = find_conn fd kvs in if k == fd then some d else rest

unfoldable pub push : ℕ → Task → Server → Server
push looper task s = record s { pending = s.pending ++ (looper, task) ∷ [] }

-- The handle of `std::bind(&TcpServer::removeConnection, this, _1)`.
abbrev pub removes : ℕ
removes = 0

-- The connection of a new descriptor on a loop, with the server's callbacks.
unfoldable pub make_conn : ℕ → ℕ → Server → Conn
make_conn looper fd s = set_write_completed_callback s.wccb (
    set_message_arrived_callback s.macb (
      set_remove_conn_callback (some removes)
        (set_close_callback s.closecb (set_connect_callback s.conncb (Connection.new looper fd)))))

-- One turn of the loop in `onAccept`; `permits` is whether fcntl(2) succeeds.
unfoldable pub accept_one : Kernel → ℕ → Server → Option Server
accept_one k fd s = do
  (looper, followers) ← get_next_event_loop s.followers
  let h = if k.permits s.history fd then s.history else log error ∷ s.history
  some (
      push looper (establish (length s.heap)) (record s {
        followers = followers;
        heap = s.heap ++ make_conn looper fd s ∷ [];
        connpool = put_conn fd (length s.heap) s.connpool;
        history = log debug ∷ h;
      }))

unfoldable pub accept_all : Kernel → List ℕ → Server → Option Server
accept_all k [] s = some s
accept_all k (fd ∷ fds) s = accept_one k fd s >>= accept_all k fds

-- `onAccept`: accept(2) gives the descriptors, and then fails, with EAGAIN or another error.
unfoldable pub on_accept : Kernel → List ℕ → Bool → Server → Option Server
on_accept k fds again s = do
  s1 ← accept_all k fds (record s { history = log debug ∷ s.history })
  some (record s1 { history = log (if again then warn else error) ∷ s1.history })

unfoldable pub remove_connection : ℕ → Server → Server
remove_connection c s = push s.leader (remove c) s

unfoldable pub remove_connection_in_loop : ℕ → Server → Option Server
remove_connection_in_loop c s = do
  conn ← get_elem? s.heap c
  some (push conn.looper (destroy c) (record s { connpool = erase_conn conn.tg.fd s.connpool }))

unfoldable pub push_each : List (ℕ × Task) → Server → Server
push_each [] s = s
push_each ((looper, task) ∷ tasks) s = push_each tasks (push looper task s)

unfoldable pub clear_followers : Server → Server
clear_followers s = push_each (map (λ looper. (looper, quit)) s.followers.ev_thread_pool) s

-- `looper->pushFunctor(connectDestroyed)` for each connection of the pool
unfoldable pub destroy_each : List (ℕ × ℕ) → Server → Option Server
destroy_each [] s = some s
destroy_each ((fd, c) ∷ kvs) s = do
  conn ← get_elem? s.heap c
  destroy_each kvs (push conn.looper (destroy c) s)

-- The destructor.
unfoldable pub drop_server : Kernel → Server → Option Server
drop_server k s = do
  let h = remove_from_loop k s.listen_trigger s.history
  let h' = closed s.listen_trigger.fd ∷ h
  let done = if k.permits h s.listen_trigger.fd then h' else log error ∷ h'
  s1 ← destroy_each s.connpool (record s { history = done })
  some (clear_followers s1)

-- The end of `init`: the trigger of the listening descriptor.
unfoldable pub listen_on : Kernel → ℕ → Server → Server
listen_on k fd s =
    let t = set_fd fd (set_epfd s.leader s.listen_trigger) in
    let (t', h) = like_reading k t (add_to_loop k t (log debug ∷ s.history)) in
    record s { listen_trigger = t'; history = h }
