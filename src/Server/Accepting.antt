-- ===== src/Server/Accepting.antt =====
-- What `onAccept` does with the descriptors that accept(2) gives.
use pqnet.Common.{
  ℕ, suc, ◌≡◌, refl, sym, ap, ◌∙◌, Bool, Option, some, List, [], ◌∷◌, ◌++◌, append-nil,
  append_assoc, length, length-append, ◌==◌, if◌then◌else◌, arith,
}
use pqnet.Kernel.{Kernel, log, debug, warn, error}
use pqnet.Connection
use pqnet.Buffer
use pqnet.Connection.{
  Conn, connecting, set_connect_callback, set_close_callback, set_remove_conn_callback,
  set_message_arrived_callback, set_write_completed_callback,
}
use pqnet.Trigger
use pqnet.LoopPool
use pqnet.LoopPool.{next_loops, advance}
use pqnet.LoopPool.Laws.{advance-IsSound, get_next_event_loop_lem}
use pqnet.Server.Defs.{
  Task, establish, Server, put_conn, find_conn, push, removes, make_conn, accept_one, accept_all,
  on_accept,
}
use pqnet.Server.Table.{IsSound, find_conn-put_conn, put_conn-Ascends, Lives-put_conn}

-- A new connection of a descriptor on a loop, with the callbacks of the server and the removal.
abbrev pub conn_for : ℕ → ℕ → Server → Conn
conn_for l fd s = record {
  conncb = s.conncb;
  closecb = s.closecb;
  rmcb = some removes;
  macb = s.macb;
  wccb = s.wccb;
  input = Buffer.init 1024;
  output = Buffer.init 1024;
  status = connecting;
  looper = l;
  tg = Trigger.new l fd;
}

make_conn_lem : (l fd : ℕ) (s : Server) → make_conn l fd s ≡ conn_for l fd s
unfolding make_conn Connection.new set_connect_callback set_close_callback set_remove_conn_callback
    set_message_arrived_callback set_write_completed_callback
make_conn_lem l fd s = refl

-- The connections of new descriptors on the loops they are given to, and their functors.
abbrev pub made : Server → List ℕ → List ℕ → List Conn
made s [] fds = []
made s (l ∷ ls) [] = []
made s (l ∷ ls) (fd ∷ fds) = conn_for l fd s ∷ made s ls fds

abbrev pub establishes : ℕ → List ℕ → List (ℕ × Task)
establishes c [] = []
establishes c (l ∷ ls) = (l, establish c) ∷ establishes (suc c) ls

-- The last of the numbers, from `c` on, that has the descriptor, and `d` where none has.
abbrev pub last_at : ℕ → List ℕ → ℕ → Option ℕ → Option ℕ
last_at fd [] c d = d
last_at fd (x ∷ xs) c d = last_at fd xs (suc c) (if x == fd then some c else d)

pub record Accepts (s : Server) (fds : List ℕ) (ls : List ℕ) (t : Server) : Type 0 where
  pub turns : next_loops (length fds) s.followers ≡ some (ls, t.followers)
  pub conns : t.heap ≡ s.heap ++ made s ls fds
  pub tasks : t.pending ≡ s.pending ++ establishes (length s.heap) ls
  pub known :
      (fd : ℕ) → find_conn fd t.connpool ≡ last_at fd fds (length s.heap) (find_conn fd s.connpool)
  pub sound : IsSound t

made_same :
    (s1 s : Server) (ls fds : List ℕ)
    → ((l fd : ℕ) → conn_for l fd s1 ≡ conn_for l fd s)
    → made s1 ls fds ≡ made s ls fds
made_same s1 s [] fds h = refl
made_same s1 s (l ∷ ls) [] h = refl
made_same s1 s (l ∷ ls) (fd ∷ fds) h =
    ap (λ c. c ∷ made s1 ls fds) (h l fd) ∙ ap (◌∷◌ (conn_for l fd s)) (made_same s1 s ls fds h)

-- The server after one descriptor, given to a loop.
abbrev accepted : Kernel → ℕ → ℕ → Server → Server
accepted k looper fd s =
    let h = if k.permits s.history fd then s.history else log error ∷ s.history in
    push looper (establish (length s.heap)) (record s {
      followers = advance s.followers;
      heap = s.heap ++ make_conn looper fd s ∷ [];
      connpool = put_conn fd (length s.heap) s.connpool;
      history = log debug ∷ h;
    })

accepted_heap :
    (k : Kernel) (l fd : ℕ) (s : Server) → length (accepted k l fd s).heap ≡ suc (length s.heap)
unfolding push
accepted_heap k l fd s = omega (arith, length-append s.heap (make_conn l fd s ∷ []))

accepted-IsSound : (k : Kernel) (l fd : ℕ) (s : Server) → IsSound s → IsSound (accepted k l fd s)
unfolding push make_conn Connection.new Trigger.new set_connect_callback set_close_callback
    set_remove_conn_callback set_message_arrived_callback set_write_completed_callback
accepted-IsSound k l fd s i = record {
  turns = advance-IsSound s.followers i.turns;
  ordered = put_conn-Ascends fd (length s.heap) s.connpool i.ordered;
  lives = Lives-put_conn s.heap s.connpool (make_conn l fd s) i.lives;
}

then-Accepts :
    (k : Kernel) (l fd : ℕ) (s : Server) (fds ls : List ℕ) (t : Server)
    → LoopPool.get_next_event_loop s.followers ≡ some (l, advance s.followers)
    → Accepts (accepted k l fd s) fds ls t
    → Accepts s (fd ∷ fds) (l ∷ ls) t
unfolding push next_loops make_conn
then-Accepts k l fd s fds ls t e a =
    let s1 = accepted k l fd s in
    record {
      turns = rw e (rw a.turns refl);
      conns =
          a.conns
          ∙ append_assoc s.heap (make_conn l fd s ∷ []) (made s1 ls fds)
          ∙ ap (λ r. s.heap ++ make_conn l fd s ∷ r) (made_same s1 s ls fds (λ l' fd'. refl))
          ∙ ap (λ c. s.heap ++ c ∷ made s ls fds) (make_conn_lem l fd s);
      tasks =
          a.tasks
          ∙ append_assoc s.pending ((l, establish (length s.heap)) ∷ [])
              (establishes (length s1.heap) ls)
          ∙ ap (λ n. s.pending ++ (l, establish (length s.heap)) ∷ establishes n ls)
              (accepted_heap k l fd s);
      known = λ x.
          a.known x
          ∙ ap (λ n. last_at x fds n (find_conn x s1.connpool)) (accepted_heap k l fd s)
          ∙ ap (last_at x fds (suc (length s.heap)))
              (find_conn-put_conn x fd (length s.heap) s.connpool);
      sound = a.sound;
    }

accept_all-Accepts :
    (k : Kernel) (fds : List ℕ) (s : Server)
    → IsSound s
    → (ls : List ℕ) × (t : Server) × (accept_all k fds s ≡ some t) × Accepts s fds ls t
unfolding accept_all accept_one next_loops push
accept_all-Accepts k [] s i = (
  [],
  s,
  refl,
  record {
    turns = refl;
    conns = sym (append-nil s.heap);
    tasks = sym (append-nil s.pending);
    known = λ fd. refl;
    sound = i;
  },
)
accept_all-Accepts k (fd ∷ fds) s i =
    let (l, e) = get_next_event_loop_lem s.followers i.turns in
    let s1 = accepted k l fd s in
    let (ls, t, r, a) = accept_all-Accepts k fds s1 (accepted-IsSound k l fd s i) in
    (l ∷ ls, t, rw e r, then-Accepts k l fd s fds ls t e a)

-- On a sound server `onAccept` returns a sound one, whatever the settings of the descriptors come to
-- and whichever error ends accept(2): the descriptors go to the loops that the
-- pool hands out in turn; behind the connections there were stands one for each descriptor, in
-- order, on its loop and with the server's callbacks; each one's loop is sent its
-- connectEstablished, in order; and the table has the last new connection of a descriptor, or, for
-- a descriptor without one, what it had.
pub on_accept_lem :
    (k : Kernel) (fds : List ℕ) (again : Bool) (s : Server)
    → IsSound s
    → (ls : List ℕ) × (t : Server) × (on_accept k fds again s ≡ some t) × Accepts s fds ls t
unfolding on_accept make_conn
on_accept_lem k fds again s i =
    let s0 = record s { history = log debug ∷ s.history } in
    let i0 : IsSound s0 = record { turns = i.turns; ordered = i.ordered; lives = i.lives } in
    let (ls, t, r, a) = accept_all-Accepts k fds s0 i0 in
    let t' = record t { history = log (if again then warn else error) ∷ t.history } in
    (
      ls,
      t',
      rw r refl,
      record {
        turns = a.turns;
        conns = a.conns ∙ ap (◌++◌ s.heap) (made_same s0 s ls fds (λ l fd. refl));
        tasks = a.tasks;
        known = a.known;
        sound = record { turns = a.sound.turns; ordered = a.sound.ordered; lives = a.sound.lives };
      },
    )
