-- ===== src/Timers/Defs.antt =====
-- timer.h, timerqueue.h and timerqueue.cpp. A callback and its argument are handles. The clock's
-- reading is an argument of each operation that calls `now()`, and so is the address of the local
-- `Timer` of `addTimer`, from which the source takes the timer's id.
use pqnet.Common.{
  ℕ, zero, suc, ◌/◌, ◌%◌, ◌-◌, Bool, true, false, Option, none, some, List, [], ◌∷◌, ltb, leb, ◌==◌,
  ◌&&◌, ◌||◌, not, if◌then◌else◌,
}
use pqnet.Common.Words.{uint_mod, add_size, mul_uint}
use pqnet.TimeStamp.{TimeStamp, int13, int16}

pub record Timer : Type 0 where
  pub timercb : ℕ
  pub arg : ℕ
  pub id : ℕ
  pub interval : ℕ

unfoldable pub is_periodic : Timer → Bool
is_periodic tm = ltb 0 tm.interval

-- `std::pair<std::uint64_t, Timer>`
abbrev pub Entry : Type 0
Entry = ℕ × Timer

-- `std::pair`'s `<`, over `<` on timers, which compares their ids.
unfoldable pub before : Entry → Entry → Bool
before (t, tm) (u, un) = ltb t u || (not (ltb u t) && ltb tm.id un.id)

pub record TimerQueue : Type 0 where
  pub rh_timer_id : ℕ
  -- the set's elements from `begin()` on
  pub tmqueue : List Entry

unfoldable pub init : TimerQueue
init = record { rh_timer_id = 0; tmqueue = [] }

-- `std::set::insert`, which keeps an equivalent element.
unfoldable pub insert : Entry → List Entry → List Entry
insert e [] = e ∷ []
insert e (x ∷ xs) =
    let rest = x ∷ insert e xs in
    if before e x then e ∷ x ∷ xs else if before x e then rest else x ∷ xs

-- 0.1 ms where no expiration is asked for
unfoldable pub wait_of : ℕ → ℕ
wait_of expiration = if ltb 0 expiration then mul_uint expiration 1000 else 100

unfoldable pub add_timer : ℕ → TimeStamp → ℕ → ℕ → ℕ → ℕ → TimerQueue → ℕ × TimerQueue
add_timer address ts cb arg expiration interval q =
    let timer : Timer = record { timercb = cb; arg = arg; id = address; interval = interval } in
    let endtime = add_size (int16 ts) (wait_of expiration) in
    (timer.id, record q { tmqueue = insert (endtime, timer) q.tmqueue })

-- `tmqueue.erase(it)` at the first timer of the id
unfoldable pub erase_id : ℕ → List Entry → List Entry
erase_id id [] = []
erase_id id (e ∷ es) = let rest = e ∷ erase_id id es in if e.1.id == id then es else rest

-- `it == tmqueue.begin()` where the timer is found
unfoldable pub is_head : ℕ → List Entry → Bool
is_head id [] = false
is_head id (e ∷ es) = e.1.id == id

unfoldable pub del_timer : ℕ → TimerQueue → TimerQueue
del_timer id q = record {
  rh_timer_id = if is_head id q.tmqueue then id else q.rh_timer_id;
  tmqueue = erase_id id q.tmqueue;
}

-- The state that `handle` and the callbacks share: the queue, and the timers run, latest first.
pub record World : Type 0 where
  pub queue : TimerQueue
  pub ran : List Timer

-- What the callback of a timer does to the queue, given the timers run up to it.
abbrev pub User : Type 0
User = List Timer → TimerQueue → TimerQueue

-- An iterator of the set: the element it stands at, `none` being `end()`.
abbrev pub Iterator : Type 0
Iterator = Option Entry

unfoldable pub begin : List Entry → Iterator
begin [] = none
begin (e ∷ es) = some e

-- `std::next` of the position of an element
unfoldable pub next : Entry → List Entry → Iterator
next e [] = none
next e (x ∷ xs) = let rest = next e xs in if before e x then some x else rest

-- Whether an iterator still stands at an element of the set.
unfoldable pub is_live : Entry → List Entry → Bool
is_live e [] = false
is_live e (x ∷ xs) = let rest = is_live e xs in if before e x || before x e then rest else true

unfoldable pub erase : Entry → List Entry → List Entry
erase e [] = []
erase e (x ∷ xs) = let rest = x ∷ erase e xs in if before e x || before x e then rest else xs

pub data Outcome : Type 0 where
  done : World → Outcome
  -- an iterator used after its element was erased
  dangling : Outcome
  -- fuel that ran out
  unfinished : Outcome

-- What one turn of the loop in `handle` leads to.
pub data Turn : Type 0 where
  leaves : World → Turn
  breaks : Turn
  goes_on : Iterator → World → Turn

abbrev with_entries : World → List Entry → World
with_entries w es = record w { queue = record (w.queue) { tmqueue = es } }

-- After `timer.run()`, the timer being a copy of the one at `it`.
unfoldable pub settle : ℕ → Entry → Iterator → World → Turn
settle currtime e tmp_it w =
    let tm = e.1 in
    let es = w.queue.tmqueue in
    let left = erase e es in
    let endtime = add_size currtime (mul_uint tm.interval 1000) in
    let renewed = if is_periodic tm then insert (endtime, tm) left else left in
    if w.queue.rh_timer_id == tm.id
    then goes_on tmp_it (record w { queue = record (w.queue) { rh_timer_id = 0 } })
    else if is_live e es
    then goes_on (next e left) (with_entries w renewed)
    else breaks

-- `timer.run()`
unfoldable pub run : User → Timer → World → World
run user tm w = let ran = tm ∷ w.ran in record { queue = user ran w.queue; ran = ran }

unfoldable pub turn : User → ℕ → Iterator → World → Turn
turn user currtime none w = leaves w
turn user currtime (some e) w =
    let settled = settle currtime e (next e w.queue.tmqueue) (run user e.1 w) in
    if is_live e w.queue.tmqueue then if leb e.0 currtime then settled else leaves w else breaks

abbrev pub resume : (Iterator → World → Outcome) → Turn → Outcome
resume again (leaves w) = done w
resume again breaks = dangling
resume again (goes_on it w) = again it w

unfoldable pub handle_loop : User → ℕ → ℕ → Iterator → World → Outcome
handle_loop user currtime zero it w = unfinished
handle_loop user currtime (suc fuel) it w =
    resume (handle_loop user currtime fuel) (turn user currtime it w)

unfoldable pub handle : User → ℕ → TimeStamp → World → Outcome
handle user fuel ts w = handle_loop user (int16 ts) fuel (begin w.queue.tmqueue) w

-- 50 Hz
abbrev pub expire : ℕ
expire = 20

unfoldable pub get_expire : TimeStamp → TimerQueue → ℕ
get_expire ts q = elim q.tmqueue [
  | [] ↦ expire
  | head ∷ _ ↦
      let endtime = head.0 / 1000 in
      let currtime = int13 ts in
      if leb currtime endtime then (endtime - currtime) % uint_mod else expire
]
