-- ===== src/Timers/Expiry.antt =====
-- How long the event loop may sleep, and timers that fire at the wrong time.
use pqnet.Common.{
  ℕ, suc, ◌+◌, ◌*◌, ◌/◌, ◌^◌, ◌≤◌, ◌<◌, ◌≡◌, ◌≢◌, ◌∙◌, refl, ◌⊎◌, List, [], ◌∷◌, arith, All, ◌==◌,
  ==_iff, true, false,
}
use pqnet.TimeStamp.{TimeStamp, int13, int16}
use pqnet.Timers.Defs.{
  Entry, Timer, World, User, done, get_expire, wait_of, handle, handle_loop, turn, settle, run,
  begin, next, is_live, is_periodic, TimerQueue, del_timer, erase_id, is_head,
}
use pqnet.Timers.Order.{before_irrefl}
use pqnet.Timers.Handling.{IsDue, IsLater, IsPassive, handle_lem, is_live_head, due_before}

-- With a timer in the queue that ends less than 2^32 ms from now, getExpire makes the loop sleep up
-- to the millisecond that the first timer ends in, or, where that millisecond is over, for 20 ms.
get_expire_lem :
    (ts : TimeStamp) (rh : ℕ) (e : Entry) (es : List Entry)
    → e.0 / 1000 < int13 ts + 2 ^ 32
    → let wait = get_expire ts (record { rh_timer_id = rh; tmqueue = e ∷ es }) in
      (int13 ts + wait ≡ e.0 / 1000) ⊎ ((e.0 / 1000 < int13 ts) × (wait ≡ 20))
unfolding get_expire
get_expire_lem ts rh e es h = ground arith

-- An expiration of more than 4294967 ms is multiplied by 1000 in 32 bits: the timer is set to end
-- at least 2^32 microseconds early.
wait_of_early :
    (expiration : ℕ) → 4294967 < expiration → wait_of expiration + 2 ^ 32 ≤ expiration * 1000
unfolding wait_of
wait_of_early expiration h = ground arith

-- Up to there the wait is the expiration asked for, or 100 microseconds for none.
pub wait_of_lem :
    (expiration : ℕ)
    → expiration ≤ 4294967
    → ((expiration ≡ 0) × (wait_of expiration ≡ 100)) ⊎ (wait_of expiration ≡ expiration * 1000)
unfolding wait_of
wait_of_lem expiration h = ground arith

next_later :
    (c : ℕ) (e : Entry) (rs : List Entry)
    → IsDue c e
    → All (IsLater c) rs
    → next e (e ∷ rs) ≡ begin rs
unfolding next begin
next_later c e [] d l = rw (before_irrefl e) refl
next_later c e (x ∷ rs) d (l, ls) = rw (before_irrefl e) (rw ((due_before c e x d l).0) refl)

-- Past the ended timer `e`, the loop leaves.
loop_leaves :
    (user : User) (c fuel : ℕ) (e : Entry) (rs : List Entry) (w : World)
    → w.queue.tmqueue ≡ e ∷ rs
    → IsDue c e
    → All (IsLater c) rs
    → handle_loop user c (suc fuel) (begin rs) w ≡ done w
unfolding handle_loop turn begin is_live
loop_leaves user c fuel e [] w q d l = refl
loop_leaves user c fuel e (x ∷ rs) w q d (l, ls) = rw q (
    rw ((due_before c e x d l).0)
      (rw ((due_before c e x d l).1) (rw (before_irrefl x) (rw l refl))))

-- An ended timer whose id `rhTimerId` holds is run and not taken out.
handle_marked :
    (user : User) (fuel : ℕ) (ts : TimeStamp) (e : Entry) (rs : List Entry) (ran : List Timer)
    → IsPassive user
    → IsDue (int16 ts) e
    → All (IsLater (int16 ts)) rs
    → handle user
        (suc (suc fuel))
        ts
        (record { queue = record { rh_timer_id = e.1.id; tmqueue = e ∷ rs }; ran = ran })
      ≡ done (record { queue = record { rh_timer_id = 0; tmqueue = e ∷ rs }; ran = e.1 ∷ ran })
unfolding handle handle_loop turn settle run begin
handle_marked user fuel ts e rs ran passive d l =
    let c = int16 ts in
    let marked : (e.1.id == e.1.id) ≡ true = (==_iff e.1.id e.1.id).1 refl in
    let w : World = record {
      queue = record { rh_timer_id = 0; tmqueue = e ∷ rs };
      ran = e.1 ∷ ran;
    } in
    rw (is_live_head e rs) (
      rw d (
        rw (passive (e.1 ∷ ran) (record { rh_timer_id = e.1.id; tmqueue = e ∷ rs }))
          (rw marked (rw (next_later c e rs d l) (loop_leaves user c fuel e rs w refl d l)))))

one_shot : (tm : Timer) → tm.interval ≡ 0 → is_periodic tm ≡ false
unfolding is_periodic
one_shot tm z = ground (arith, z)

-- Two timers of one id stand first in the queue, and delTimer of that id, outside of `handle`, takes
-- out the first. If the other one is to run once, and has ended, alone, then `handle` runs it and
-- leaves it in the queue, and the next `handle`, at the same time, runs it again and takes it out; the
-- callbacks touch no timer, the id is not 0, the time is at most 2^64 - 2^32, and fuel for two turns is
-- enough.
pub runs_twice :
    (user : User) (fuel : ℕ) (ts : TimeStamp) (rh : ℕ) (d e : Entry) (rs : List Entry)
    (ran : List Timer)
    → IsPassive user
    → int16 ts + 2 ^ 32 ≤ 2 ^ 64
    → d.1.id ≡ e.1.id
    → e.1.id ≢ 0
    → e.1.interval ≡ 0
    → IsDue (int16 ts) e
    → All (IsLater (int16 ts)) rs
    → let q : TimerQueue = record { rh_timer_id = rh; tmqueue = d ∷ e ∷ rs } in
      let w : World = record {
        queue = record { rh_timer_id = 0; tmqueue = e ∷ rs };
        ran = e.1 ∷ ran;
      } in
      (handle user (suc (suc fuel)) ts (record { queue = del_timer d.1.id q; ran = ran }) ≡ done w)
      × (handle user (suc (suc fuel)) ts w
          ≡ done
              (record { queue = record { rh_timer_id = 0; tmqueue = rs }; ran = e.1 ∷ e.1 ∷ ran }))
unfolding del_timer erase_id is_head
runs_twice user fuel ts rh d e rs ran passive h i n z u l =
    let same : (d.1.id == d.1.id) ≡ true = ground arith in
    let once : is_periodic e.1 ≡ false = one_shot e.1 z in
    let unmarked : (0 == e.1.id) ≡ false = ground (arith, n) in
    let (again, back) =
      handle_lem user (suc (suc fuel)) ts 0 (e ∷ []) rs (e.1 ∷ ran) passive (omega arith) h (tt, tt)
        (u, tt) l (unmarked, tt) (ground (arith, z), tt) in
    (rw same (rw i (handle_marked user fuel ts e rs ran passive u l)), again ∙ rw once refl)
