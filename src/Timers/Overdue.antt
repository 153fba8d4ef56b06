-- ===== src/Timers/Overdue.antt =====
-- A deletion after which the first timer has ended already.
use pqnet.Common.{ℕ, ◌+◌, ◌-◌, ◌*◌, ◌%◌, ◌^◌, ◌<◌, ◌≡◌, refl, true, List, ◌∷◌, ◌==◌, arith}
use pqnet.Common.Words.{uint_mod, sub_size}
use pqnet.TimeStamp.Laws.{us2_sec_and_nsec_lem}
use pqnet.Timers.Defs.{Entry}
use pqnet.Timers.Fd.{FdQueue, setting_for, rearmed, del_timer}
use pqnet.Timers.Arming.{Latest, wait_ns}

-- A deletion of the first timer, where the next one ended d microseconds ago, d below 2^32, sets the
-- kernel's timer to expire 2^32 - d microseconds later, about 71 minutes for a small d, and disarms it
-- for d = 0. The time is below 2^64.
pub overdue :
    (t d : ℕ) (e f : Entry) (es : List Entry) (q : FdQueue)
    → q.queue.tmqueue ≡ e ∷ f ∷ es
    → f.0 + d ≡ t
    → d < 2 ^ 32
    → t < 2 ^ 64
    → Latest
        (λ its. (its.at ≡ t) × (wait_ns its ≡ ((2 ^ 32 - d) % 2 ^ 32) * 1000))
        (del_timer e.1.id t q).settings
unfolding del_timer rearmed setting_for
overdue t d e f es q h g a b =
    let same : (e.1.id == e.1.id) ≡ true = ground arith in
    let wait : sub_size f.0 t % uint_mod ≡ (2 ^ 32 - d) % 2 ^ 32 = omega (arith, g, a, b) in
    let (c, n) = us2_sec_and_nsec_lem (sub_size f.0 t % uint_mod) (omega arith) in
    rw h (rw same (refl, omega (arith, c, wait)))
