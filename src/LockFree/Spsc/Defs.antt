-- ===== src/LockFree/Spsc/Defs.antt =====
-- push and pop, one atomic access or one access to the array at a time. The two threads interleave
-- in any order; the release stores and acquire loads of the source make that order of the accesses
-- to the array and the indices a sequential one.
use pqnet.Common.{ℕ, Option, none, some, List, [], ◌∷◌, ◌++◌, ◌==◌, if◌then◌else◌, get_elem?, set}
use pqnet.Common.Words.{add_size}

-- `push` between two accesses: with the tail and the next tail loaded; with the head found elsewhere;
-- with the element written.
pub data Producer (A : Type 0) : Type 0 where
  resting : Producer A
  loaded cleared written : A → ℕ → ℕ → Producer A

-- `pop` between two accesses: with the head loaded; with the tail found elsewhere; with the element
-- read.
pub data Consumer (A : Type 0) : Type 0 where
  waiting : Consumer A
  at_head found : ℕ → Consumer A
  got : ℕ → A → Consumer A

pub record Queue (A : Type 0) : Type 0 where
  pub slots : List A
  pub n_head : ℕ
  pub n_tail : ℕ
  pub producer : Producer A
  pub consumer : Consumer A
  -- the elements of the calls that returned true, in order
  pub pushed : List A
  pub popped : List A

-- The index after another, in an array of `n`.
unfoldable pub after : ℕ → ℕ → ℕ
after n i = let j = add_size i 1 in if j == n then 0 else j

module _ {A : Type 0} where
  -- `slots` is what the array of `N` elements holds at first.
  unfoldable pub new : List A → Queue A
  new slots = record {
    slots = slots;
    n_head = 0;
    n_tail = 0;
    producer = resting;
    consumer = waiting;
    pushed = [];
    popped = [];
  }

  -- One step of `push`.
  unfoldable pub push_step : Producer A → Queue A → Queue A
  push_step resting q = q
  push_step (loaded x tail tail_next) q = record q {
    producer = if tail_next == q.n_head then resting else cleared x tail tail_next;
  }
  push_step (cleared x tail tail_next) q = record q {
    slots = set q.slots tail x;
    producer = written x tail tail_next;
  }
  push_step (written x tail tail_next) q = record q {
    n_tail = tail_next;
    producer = resting;
    pushed = q.pushed ++ x ∷ [];
  }

  -- The read of an element, `none` being an index out of the array.
  abbrev pub fetch : ℕ → Option A → Queue A → Queue A
  fetch head none q = q
  fetch head (some x) q = record q { consumer = got head x }

  -- One step of `pop`, in an array of `n`.
  unfoldable pub pop_step : ℕ → Consumer A → Queue A → Queue A
  pop_step n waiting q = q
  pop_step n (at_head head) q = record q {
    consumer = if head == q.n_tail then waiting else found head;
  }
  pop_step n (found head) q = fetch head (get_elem? q.slots head) q
  pop_step n (got head x) q = record q {
    n_head = after n head;
    consumer = waiting;
    popped = q.popped ++ x ∷ [];
  }

pub data Op (A : Type 0) : Type 0 where
  -- a call of `push` or of `pop`, and its next step
  push : A → Op A
  pop produces consumes : Op A

module _ {A : Type 0} where
  -- A call loads its own index; while one is under way the thread makes no other.
  abbrev pub begin_push : ℕ → A → Producer A → Queue A → Queue A
  begin_push n x resting q = record q { producer = loaded x q.n_tail (after n q.n_tail) }
  begin_push n x _ q = q

  abbrev pub begin_pop : Consumer A → Queue A → Queue A
  begin_pop waiting q = record q { consumer = at_head q.n_head }
  begin_pop _ q = q

  unfoldable pub step : ℕ → Op A → Queue A → Queue A
  step n (push x) q = begin_push n x q.producer q
  step n pop q = begin_pop q.consumer q
  step n produces q = push_step q.producer q
  step n consumes q = pop_step n q.consumer q

  unfoldable pub runs : ℕ → List (Op A) → Queue A → Queue A
  runs n [] q = q
  runs n (op ∷ ops) q = runs n ops (step n op q)
