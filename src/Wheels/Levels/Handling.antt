-- ===== src/Wheels/Levels/Handling.antt =====
-- All turns of a call of `handle`.
use pqnet.Common.{ℕ, ◌+◌, ◌^◌, ◌<◌, ◌≡◌, refl, arith}
use pqnet.Common.Words.{add_size, mul_uint}
use pqnet.Wheels.Levels.Defs.{TimerNode, TimerManager, slot_of, add_timer_node, new, add_timer}
use pqnet.Wheels.Levels.Placing.{Waits, Stands, slot_of-Placed, push_back-All}
use pqnet.Wheels.Levels.Cascading.{Has, Kept, Kept-push_back, Has-push_back}
use pqnet.Wheels.Levels.Chain.{from}
use pqnet.Wheels.Levels.Ticking.{IsSound}

pub new-IsSound : (clock : ℕ) → clock + 2 ^ 32 < 2 ^ 63 → IsSound (new clock)
unfolding new
new-IsSound clock b = record { unmarked = refl; soon = b; stands = λ w i. tt }

-- addTimer keeps a sound manager sound, and its timers; it adds one, to end after the expiration
-- asked for, in milliseconds and in 32 bits. A periodic timer's interval must not come to no time in
-- 32 bits.
pub add_timer-IsSound :
    (hash : ℕ → ℕ) (address sid cb arg expiration interval : ℕ) (m : TimerManager)
    → IsSound m
    → Waits interval
    → let m' = add_timer hash address sid cb arg expiration interval m in
      let node : TimerNode = record {
        address = address;
        sid = sid;
        timercb = cb;
        arg = arg;
        interval = interval;
        endtime = m.jiffies + mul_uint expiration 1000;
      } in
      IsSound m' × Has node m'.slots × Kept m.slots m'.slots × (m'.jiffies ≡ m.jiffies)
unfolding add_timer add_timer_node
add_timer-IsSound hash address sid cb arg expiration interval m s v =
    let j = m.jiffies in
    let e = j + mul_uint expiration 1000 in
    let node : TimerNode = record {
      address = address;
      sid = sid;
      timercb = cb;
      arg = arg;
      interval = interval;
      endtime = e;
    } in
    let f : add_size j (mul_uint expiration 1000) ≡ e = omega (arith, s.soon) in
    let (w, i) = slot_of j e in
    let p =
      slot_of-Placed (from j) j e (omega arith) (omega (arith, s.soon)) (omega (arith, s.soon))
        (omega arith) (λ w'. omega arith) in
    rw f (
      record {
        unmarked = s.unmarked;
        soon = s.soon;
        stands = push_back-All (Stands (from j) j) w i node m.slots s.stands (p, v);
      },
      Has-push_back w i node m.slots,
      Kept-push_back w i node m.slots,
      refl,
    )
