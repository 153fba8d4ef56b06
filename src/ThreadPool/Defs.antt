-- ===== src/ThreadPool/Defs.antt =====
-- threadpool.h and threadpool.cpp. A task is a handle. What runs under the mutex is one step, and so is
-- the test of `addable` in addTask, which takes no mutex: between the two other threads may go on.
use pqnet.Common.{
  ℕ, zero, suc, Bool, true, false, not, Option, none, some, List, [], ◌∷◌, ◌++◌, ◌==◌,
  if◌then◌else◌, get_elem?, set, replicate,
}

-- A worker between two tasks, in `task()`, or past the loop.
pub data Worker : Type 0 where
  idle left : Worker
  busy : ℕ → Worker

pub record Pool : Type 0 where
  pub tn : ℕ
  pub running : Bool
  pub addable : Bool
  pub taskqueue : List ℕ
  pub workers : List Worker
  -- the tasks of the callers that are past the test in addTask
  pub passed : List ℕ
  -- the tasks taken off the queue by workers, and those that callers ran, in order
  pub taken : List ℕ
  pub ran_here : List ℕ

unfoldable pub init : ℕ → Pool
init tn = record {
  tn = tn;
  running = false;
  addable = true;
  taskqueue = [];
  workers = [];
  passed = [];
  taken = [];
  ran_here = [];
}

unfoldable pub run : Pool → Pool
run p = record p { running = true; workers = p.workers ++ replicate p.tn idle }

unfoldable pub shutdown : Pool → Pool
shutdown p = record p { running = false; addable = false }

-- addTask up to its test of `addable`, and after it.
unfoldable pub ask : ℕ → Pool → Pool
ask task p = if not p.addable then p else record p { passed = p.passed ++ task ∷ [] }

unfoldable pub add_task : ℕ → Pool → Pool
add_task task p =
    if p.tn == 0
    then record p { ran_here = p.ran_here ++ task ∷ [] }
    else record p { taskqueue = p.taskqueue ++ task ∷ [] }

-- The callers past the test without the one at a place.
abbrev pub remove : ℕ → List ℕ → List ℕ
remove i [] = []
remove zero (task ∷ tasks) = tasks
remove (suc i) (task ∷ tasks) = task ∷ remove i tasks

-- The caller at a place goes on.
unfoldable pub enter : ℕ → Option ℕ → Pool → Pool
enter i none p = p
enter i (some task) p = add_task task (record p { passed = remove i p.passed })

-- A worker's turn under the lock, the queue being the list: it waits, leaves the loop, or takes a
-- task.
abbrev pub turn_on : ℕ → Pool → List ℕ → Pool
turn_on i p [] = if p.running then p else record p { workers = set p.workers i left }
turn_on i p (task ∷ tasks) = record p {
  taskqueue = tasks;
  workers = set p.workers i (busy task);
  taken = p.taken ++ task ∷ [];
}

unfoldable pub turn : ℕ → Pool → Pool
turn i p = turn_on i p p.taskqueue

pub data Op : Type 0 where
  starts shuts : Op
  asks enters turns returns : ℕ → Op

-- Only a worker that is between two tasks takes a turn, and only a busy one returns from its task.
unfoldable pub worker_step : Op → ℕ → Option Worker → Pool → Pool
worker_step (turns _) i (some idle) p = turn i p
worker_step (returns _) i (some (busy task)) p = record p { workers = set p.workers i idle }
worker_step _ i _ p = p

unfoldable pub step : Op → Pool → Pool
step starts p = run p
step shuts p = shutdown p
step (asks task) p = ask task p
step (enters i) p = enter i (get_elem? p.passed i) p
step (turns i) p = worker_step (turns i) i (get_elem? p.workers i) p
step (returns i) p = worker_step (returns i) i (get_elem? p.workers i) p

unfoldable pub runs : List Op → Pool → Pool
runs [] p = p
runs (op ∷ ops) p = runs ops (step op p)
