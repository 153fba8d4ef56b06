-- ===== src/Logging/AsyncLog.antt =====
-- asynclog.cpp: the lines are queued by any thread, and one thread takes and prints them. What runs
-- under the mutex is one step, except that the thread that takes falls asleep in a step of its own,
-- after its test and with the mutex still held: the destructor takes no mutex.
use pqnet.Common.{ℕ, Bool, true, false, not, ◌&&◌, List, [], ◌∷◌, ◌++◌, ltb, ◌==◌, if◌then◌else◌}
use pqnet.Kernel.{Level, info}
use pqnet.Logging.Files.{
  Target, to_file, console, out, Result, ok, ◌>>=◌, Files, Sink, fclose, fopen, fprintf,
}
use pqnet.Logging.Logger.{is_file, rank}

-- The thread that takes: before its test; past a failed test, with the mutex; asleep; with a line to
-- print; past its loop.
pub data Taker : Type 0 where
  testing drowsy asleep left : Taker
  printing : Level → ℕ → Taker

pub record AsyncLog : Type 0 where
  pub sink : Sink
  pub running : Bool
  pub logqueue : List (Level × ℕ)
  pub taker : Taker
  -- the lines that were queued, and those that were taken, in order
  pub added : List (Level × ℕ)
  pub taken : List (Level × ℕ)

-- The constructor, where the directory is there or can be made.
unfoldable pub new : ℕ → AsyncLog
new date = record {
  sink = record { level = info; target = console; currdate = date; lf = out; trail = [] };
  running = true;
  logqueue = [];
  taker = testing;
  added = [];
  taken = [];
}

-- A failure of fclose(3) is logged by the other logger, and leaves this one as it is.
unfoldable pub check_date : Files → ℕ → Sink → Result Sink
check_date f date g =
    let opened =
      fclose f g g.lf >>= λ (closed, g1). ok (fopen f (record g1 { currdate = date }) date) in
    if is_file g.target && not (g.currdate == date) then opened else ok g

unfoldable pub set_target : Files → Target → Sink → Result Sink
set_target f to_file g =
    if is_file g.target then ok g else ok (record (fopen f g g.currdate) { target = to_file })
set_target f console g =
    let closed =
      fclose f g g.lf >>= λ (closed, g1). ok (record g1 { lf = out; target = console }) in
    if is_file g.target then closed else ok g

unfoldable pub consume : Files → Level → ℕ → Sink → Result Sink
consume f l msg g =
    let printed = check_date f (f.today g.trail) g >>= λ g1. fprintf l msg g1.lf g1 in
    if ltb (rank l) (rank g.level) then ok g else printed

-- `notify_one` reaches a thread that is asleep, and no other.
abbrev pub woken : Taker → Taker
woken asleep = testing
woken t = t

-- The mutex is free. A caller of `addLog` that finds it held takes no step until it is free.
abbrev pub is_free : Taker → Bool
is_free drowsy = false
is_free _ = true

unfoldable pub add_log : Level → ℕ → AsyncLog → AsyncLog
add_log l msg a =
    if is_free a.taker
    then record a {
      logqueue = a.logqueue ++ (l, msg) ∷ [];
      added = a.added ++ (l, msg) ∷ [];
      taker = woken a.taker;
    }
    else a

-- The test of the wait's predicate, and what follows it under the mutex, the queue being the list.
abbrev pub test : List (Level × ℕ) → AsyncLog → AsyncLog
test [] a = record a { taker = if a.running then drowsy else left }
test ((l, msg) ∷ logs) a = record a {
  logqueue = logs;
  taker = printing l msg;
  taken = a.taken ++ (l, msg) ∷ [];
}

-- The next step of the thread that takes.
unfoldable pub turn : Files → Taker → AsyncLog → Result AsyncLog
turn f testing a = ok (test a.logqueue a)
turn f drowsy a = ok (record a { taker = asleep })
turn f asleep a = ok a
turn f (printing l msg) a = do
  g ← consume f l msg a.sink
  ok (record a { sink = g; taker = testing })
turn f left a = ok a

pub data Op : Type 0 where
  adds : Level → ℕ → Op
  -- the taker's next step; the two halves of the destructor before it joins, the second of which a
  -- wake-up of the taker by itself is like
  turns stops notifies : Op

unfoldable pub step : Files → Op → AsyncLog → Result AsyncLog
step f (adds l msg) a = ok (add_log l msg a)
step f turns a = turn f a.taker a
step f stops a = ok (record a { running = false })
step f notifies a = ok (record a { taker = woken a.taker })

unfoldable pub runs : Files → List Op → AsyncLog → Result AsyncLog
runs f [] a = ok a
runs f (op ∷ ops) a = step f op a >>= runs f ops
