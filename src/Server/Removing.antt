-- ===== src/Server/Removing.antt =====
-- What removals and the destructor do.
use pqnet.Common.{
  ℕ, ◌≡◌, refl, sym, ap, ◌∙◌, Option, none, some, List, [], ◌∷◌, ◌++◌, map, append-nil,
  append_assoc, get_elem?, ◌==◌, if◌then◌else◌,
}
use pqnet.Kernel.{Kernel, log, error, closed}
use pqnet.Trigger.{remove_from_loop}
use pqnet.Connection.{Conn}
use pqnet.Server.Defs.{
  Task, destroy, quit, Server, erase_conn, find_conn, push, remove_connection_in_loop, push_each,
  clear_followers, destroy_each, drop_server,
}
use pqnet.Server.Table.{
  IsSound, Ascends, Lives-head, Lives-rest, Lives, find_conn-erase_conn, erase_conn-Ascends,
  Lives-erase_conn,
}

-- On a sound server, for a connection on the heap, the leader's half of a removal returns a sound
-- server: the connection's descriptor is in the table no more, the other descriptors have what they
-- had, and the connection's own loop, no other, is sent its connectDestroyed, behind all that was
-- pushed before. What the descriptor had in the table need not be the connection that is removed.
pub remove_connection_in_loop_lem :
    (c : ℕ) (conn : Conn) (s : Server)
    → IsSound s
    → get_elem? s.heap c ≡ some conn
    → (t : Server) × (remove_connection_in_loop c s ≡ some t)
      × IsSound t
      × ((fd : ℕ)
          → find_conn fd t.connpool ≡ (if fd == conn.tg.fd then none else find_conn fd s.connpool))
      × (t.pending ≡ s.pending ++ (conn.looper, destroy c) ∷ [])
unfolding remove_connection_in_loop push
remove_connection_in_loop_lem c conn s i e =
    let t =
      push conn.looper (destroy c) (record s { connpool = erase_conn conn.tg.fd s.connpool }) in
    (
      t,
      rw e refl,
      record {
        turns = i.turns;
        ordered = erase_conn-Ascends conn.tg.fd s.connpool i.ordered;
        lives = Lives-erase_conn s.heap s.connpool conn.tg.fd i.ordered i.lives;
      },
      (λ fd. find_conn-erase_conn fd conn.tg.fd s.connpool i.ordered),
      refl,
    )

-- For each entry of the table, the functor for the loop of its connection.
abbrev pub farewell : Option Conn → ℕ → List (ℕ × Task) → List (ℕ × Task)
farewell none c rest = rest
farewell (some conn) c rest = (conn.looper, destroy c) ∷ rest

abbrev pub farewells : List Conn → List (ℕ × ℕ) → List (ℕ × Task)
farewells heap [] = []
farewells heap ((fd, c) ∷ kvs) = farewell (get_elem? heap c) c (farewells heap kvs)

-- The server with more pushed.
abbrev pushed : Server → List (ℕ × Task) → Server
pushed s tasks = record s { pending = s.pending ++ tasks }

pushed_pushed : (s : Server) (a b : List (ℕ × Task)) → pushed (pushed s a) b ≡ pushed s (a ++ b)
pushed_pushed s a b = ap (λ l. record s { pending = l }) (append_assoc s.pending a b)

pushed_none : (s : Server) → pushed s [] ≡ s
pushed_none s = ap (λ l. record s { pending = l }) (append-nil s.pending)

push_each-pushed : (tasks : List (ℕ × Task)) (s : Server) → push_each tasks s ≡ pushed s tasks
unfolding push_each push
push_each-pushed [] s = sym (pushed_none s)
push_each-pushed ((l, task) ∷ tasks) s =
    push_each-pushed tasks (pushed s ((l, task) ∷ [])) ∙ pushed_pushed s ((l, task) ∷ []) tasks

destroy_each-pushed :
    (kvs : List (ℕ × ℕ)) (s : Server)
    → Ascends kvs
    → Lives s.heap kvs
    → destroy_each kvs s ≡ some (pushed s (farewells s.heap kvs))
unfolding destroy_each push
destroy_each-pushed [] s a v = ap some (sym (pushed_none s))
destroy_each-pushed ((k, d) ∷ kvs) s (b, a) v =
    let (conn, e) = Lives-head s.heap k d kvs v in
    let s1 = pushed s ((conn.looper, destroy d) ∷ []) in
    let ih = destroy_each-pushed kvs s1 a (Lives-rest s.heap k d kvs b v) in
    rw e (ih ∙ ap some (pushed_pushed s ((conn.looper, destroy d) ∷ []) (farewells s.heap kvs)))

-- The destructor of a sound server returns, whatever close(2) comes to: behind all that was pushed
-- before stand a connectDestroyed for each connection of the table, in the order of the descriptors
-- and for the connection's own loop, and then one quit for each loop of the pool, in order.
drop_server_lem :
    (k : Kernel) (s : Server)
    → IsSound s
    → (t : Server) × (drop_server k s ≡ some t)
      × (t.pending
          ≡ s.pending
            ++ (farewells s.heap s.connpool
                ++ map (λ looper. (looper, quit)) s.followers.ev_thread_pool))
unfolding drop_server clear_followers
drop_server_lem k s i =
    let h = remove_from_loop k s.listen_trigger s.history in
    let h' = closed s.listen_trigger.fd ∷ h in
    let done = if k.permits h s.listen_trigger.fd then h' else log error ∷ h' in
    let s0 = record s { history = done } in
    let quits = map (λ looper. (looper, quit)) s.followers.ev_thread_pool in
    let s1 = pushed s0 (farewells s.heap s.connpool) in
    let e = destroy_each-pushed s.connpool s0 i.ordered i.lives in
    let f = push_each-pushed quits s1 in
    (pushed s1 quits, rw e (ap some f), append_assoc s.pending (farewells s.heap s.connpool) quits)
