-- ===== src/Timers/Arming.antt =====
-- When the kernel's timer expires.
use pqnet.Common.{
  ℕ, ◌+◌, ◌*◌, ◌^◌, ◌%◌, ◌-◌, ◌<◌, ◌≡◌, refl, sym, some, ◌>>=◌, true, false, Bool-cases,
  if◌then◌else◌, ◌==◌, List, [], ◌∷◌, arith, inl, inr, ltb,
}
use mathlib.Core.Path.{subst}
use pqnet.Common.Words.{uint_mod, sub_size, add_size}
use pqnet.TimeStamp.{ms2_sec_and_nsec, us2_sec_and_nsec}
use pqnet.TimeStamp.Laws.{ms2_sec_and_nsec_lem, us2_sec_and_nsec_lem}
use pqnet.Timers.Defs.{
  Timer, Entry, insert, before, erase_id, Outcome, done, dangling, unfinished, wait_of,
}
use pqnet.Timers.Defs
use pqnet.Timers.Fd.{
  Op, adds, deletes, handles, step, handle, del_timer, reset, Itimerspec, FdQueue, add_timer,
  goes_first, setting_for, rearmed,
}

-- The nanoseconds from the reading of the clock to the expiry.
abbrev pub wait_ns : Itimerspec → ℕ
wait_ns its = its.it_value.0 * 1000000000 + its.it_value.1

-- Set to expire at an end, in microseconds.
abbrev pub Expires : Itimerspec → ℕ → Type 0
Expires its endtime = (0 < wait_ns its) × (its.at * 1000 + wait_ns its ≡ endtime * 1000)

abbrev pub Latest : (Itimerspec → Type 0) → List Itimerspec → Type 0
Latest P [] = ⊥
Latest P (its ∷ ss) = P its

-- The timer is set for the first timer of the queue, where there is one.
abbrev pub IsArmed : List Entry → List Itimerspec → Type 0
IsArmed [] ss = Unit
IsArmed (e ∷ es) ss = Latest (λ its. Expires its e.0) ss

-- The first timer ends after the reading of the clock, and less than 2^32 microseconds after it.
abbrev pub IsSoon : ℕ → List Entry → Type 0
IsSoon t [] = Unit
IsSoon t (e ∷ es) = (t < e.0) × (e.0 < t + 2 ^ 32)

setting_for-IsArmed :
    (t : ℕ) (es : List Entry) (ss : List Itimerspec)
    → IsSoon t es
    → IsArmed es (setting_for t es ∷ ss)
unfolding setting_for
setting_for-IsArmed t [] ss h = tt
setting_for-IsArmed t (e ∷ es) ss (a, b) =
    let wait : sub_size e.0 t % uint_mod ≡ e.0 - t = omega arith in
    let (c, d) = us2_sec_and_nsec_lem (sub_size e.0 t % uint_mod) (omega arith) in
    (omega (arith, c, wait), omega (arith, c, wait))

before_same : (e x : Entry) → ltb e.0 x.0 ≡ false → before e x ≡ true → x.0 ≡ e.0
unfolding before
before_same e x n b = ground (arith, n, b)

-- An insertion that does not go first leaves the first end.
insert-IsArmed :
    (e x : Entry) (xs : List Entry) (ss : List Itimerspec)
    → ltb e.0 x.0 ≡ false
    → IsArmed (x ∷ xs) ss
    → IsArmed (insert e (x ∷ xs)) ss
unfolding insert
insert-IsArmed e x xs ss n a = elim (Bool-cases (before e x)) [
  | inl b ↦
      let same : x.0 ≡ e.0 = before_same e x n b in
      rw b (subst (λ end. Latest (λ its. Expires its end) ss) same a)
  | inr b ↦ elim (Bool-cases (before x e)) [ inl c ↦ rw b (rw c a) | inr c ↦ rw b (rw c a) ]
]

-- One that goes first is what the timer is set for.
goes_first-insert :
    (e : Entry) (es : List Entry) (its : Itimerspec) (ss : List Itimerspec)
    → goes_first e.0 es ≡ true
    → Expires its e.0
    → IsArmed (insert e es) (its ∷ ss)
unfolding insert before
goes_first-insert e [] its ss f x = x
goes_first-insert e (y ∷ ys) its ss f x = rw f x

kept_first :
    (e : Entry) (es : List Entry) (ss : List Itimerspec)
    → goes_first e.0 es ≡ false
    → IsArmed es ss
    → IsArmed (insert e es) ss
kept_first e [] ss f a = absurd (cc)
kept_first e (y ∷ ys) ss f a = insert-IsArmed e y ys ss f a

-- The wait that addTimer sets.
added-Expires :
    (t expiration : ℕ) (interval : ℕ × ℕ)
    → t + 2 ^ 32 < 2 ^ 64
    → expiration * 1000 < 2 ^ 32
    → Expires
        (record {
          at = t;
          it_value = if ltb 0 expiration then ms2_sec_and_nsec expiration else us2_sec_and_nsec 100;
          it_interval = interval;
        })
        (add_size t (wait_of expiration))
unfolding wait_of
added-Expires t expiration interval c d =
    let (p, q) = ms2_sec_and_nsec_lem expiration (omega arith) in
    let (r, s) = us2_sec_and_nsec_lem 100 (omega arith) in ground (arith, p, r, c, d)

add_timer-IsArmed :
    (address t cb arg expiration interval : ℕ) (q : FdQueue)
    → t + 2 ^ 32 < 2 ^ 64
    → expiration * 1000 < 2 ^ 32
    → IsArmed q.queue.tmqueue q.settings
    → IsArmed
        (add_timer address t cb arg expiration interval q).queue.tmqueue
        (add_timer address t cb arg expiration interval q).settings
unfolding add_timer
add_timer-IsArmed address t cb arg expiration interval q c d a =
    let endtime = add_size t (wait_of expiration) in
    let timer : Timer = record { timercb = cb; arg = arg; id = address; interval = interval } in
    let x = added-Expires t expiration (ms2_sec_and_nsec interval) c d in
    elim (Bool-cases (goes_first endtime q.queue.tmqueue)) [
      | inl f ↦ rw f (goes_first-insert (endtime, timer) q.queue.tmqueue _ q.settings f x)
      | inr f ↦ rw f (kept_first (endtime, timer) q.queue.tmqueue q.settings f a)
    ]

del_timer-IsArmed :
    (id t : ℕ) (es : List Entry) (ss : List Itimerspec)
    → IsSoon t (erase_id id es)
    → IsArmed es ss
    → IsArmed (erase_id id es) (rearmed id t es ss)
unfolding erase_id rearmed
del_timer-IsArmed id t [] ss h a = tt
del_timer-IsArmed id t (e ∷ es) ss h a = elim (Bool-cases (e.1.id == id)) [
  | inl b ↦
      let c : erase_id id (e ∷ es) ≡ es = rw b refl in
      rw b (setting_for-IsArmed t es ss (subst (IsSoon t) c h))
  | inr b ↦ rw b a
]

-- What an operation may meet: an addition, a wait of less than 2^32 microseconds; the others, a queue
-- whose first timer, once they are done, ends soon.
abbrev pub Fits : Op → FdQueue → Type 0
Fits (adds address t cb arg expiration interval) q =
    (t + 2 ^ 32 < 2 ^ 64) × (expiration * 1000 < 2 ^ 32)
Fits (deletes id t) q = IsSoon t q.queue.tmqueue
Fits (handles user fuel t ran) q = IsSoon t q.queue.tmqueue

Armed : FdQueue → Type 0
Armed q = IsArmed q.queue.tmqueue q.settings

handled :
    (t : ℕ) (ss : List Itimerspec) (o : Outcome) (q : FdQueue)
    → (reset t ss o >>= λ (w, ss'). some (record { queue = w.queue; settings = ss' })) ≡ some q
    → IsSoon t q.queue.tmqueue
    → Armed q
unfolding Armed
handled t ss (done w) q e h =
    let made : FdQueue = record {
      queue = w.queue;
      settings = setting_for t w.queue.tmqueue ∷ ss;
    } in
    let c : made ≡ q = cc in
    subst Armed c
      (setting_for-IsArmed t w.queue.tmqueue ss (subst (λ r. IsSoon t r.queue.tmqueue) (sym c) h))
handled t ss dangling q e h = absurd (cc)
handled t ss unfinished q e h = absurd (cc)

-- Every operation that returns leaves the kernel's timer set to expire just when the first timer of the
-- queue ends, counted from the operation's reading of the clock, whatever the callbacks do, where it
-- was so before: an addition with a wait of less than 2^32 microseconds does, and a deletion or a turn
-- of handle after which the first timer ends later than the reading, by less than 2^32 microseconds.
pub step-IsArmed :
    (op : Op) (q q' : FdQueue)
    → step op q ≡ some q'
    → Fits op q'
    → IsArmed q.queue.tmqueue q.settings
    → IsArmed q'.queue.tmqueue q'.settings
unfolding step handle del_timer Defs.del_timer Armed
step-IsArmed (adds address t cb arg expiration interval) q q' e (c, d) a =
    let made : add_timer address t cb arg expiration interval q ≡ q' = cc in
    subst Armed made (add_timer-IsArmed address t cb arg expiration interval q c d a)
step-IsArmed (deletes id t) q q' e h a =
    let made : del_timer id t q ≡ q' = cc in
    let soon : IsSoon t (erase_id id q.queue.tmqueue) =
      subst (λ r. IsSoon t r.queue.tmqueue) (sym made) h in
    subst Armed made (del_timer-IsArmed id t q.queue.tmqueue q.settings soon a)
step-IsArmed (handles user fuel t ran) q q' e h a = handled t q.settings _ q' e h
