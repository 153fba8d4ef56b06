-- ===== src/Timers/Handling.antt =====
-- One round of `handle`, where the callbacks leave the queue alone.
use pqnet.Common.{
  ℕ, zero, suc, ◌+◌, ◌^◌, ◌≤◌, ◌<◌, ◌≡◌, refl, ◌⊎◌, inl, inr, true, false, none, some, List, [],
  ◌∷◌, ◌++◌, arith, All, All-map, length, Bool-cases, ltb, leb, if◌then◌else◌, ap, ◌==◌, ◌||◌,
}
use pqnet.TimeStamp.{TimeStamp, int16}
use pqnet.Common.Words.{add_size, mul_uint}
use pqnet.Timers.Defs.{
  Entry, Timer, TimerQueue, World, User, Iterator, done, goes_on, before, insert, is_live, erase,
  next, begin, is_periodic, settle, run, turn, handle_loop, handle,
}
use pqnet.Timers.Order.{insert-All, IsSorted, Precedes, before_irrefl}

-- A timer that has ended by the time `c`, and one that has not.
abbrev pub IsDue : ℕ → Entry → Type 0
IsDue c e = leb e.0 c ≡ true

abbrev pub IsLater : ℕ → Entry → Type 0
IsLater c e = leb e.0 c ≡ false

-- Callbacks that touch no timer.
abbrev pub IsPassive : User → Type 0
IsPassive user = (ran : List Timer) (q : TimerQueue) → user ran q ≡ q

-- No timer of the list carries the id that `rh_timer_id` holds.
abbrev pub IsUnmarked : ℕ → Entry → Type 0
IsUnmarked rh e = (rh == e.1.id) ≡ false

-- The next end of a periodic timer is after the time `c`: its interval in microseconds is no
-- multiple of 2^32.
abbrev pub IsRenewable : Entry → Type 0
IsRenewable e = ltb 0 e.1.interval ≡ ltb 0 (mul_uint e.1.interval 1000)

-- What is left once the timers of a list have run at the time `c`: each periodic one goes back in.
abbrev pub renew : ℕ → List Entry → List Entry → List Entry
renew c [] rest = rest
renew c (e ∷ es) rest =
    renew c es
      (if is_periodic e.1 then insert (add_size c (mul_uint e.1.interval 1000), e.1) rest else rest)

abbrev pub runs : List Entry → List Timer → List Timer
runs [] ran = ran
runs (e ∷ es) ran = runs es (e.1 ∷ ran)

pub due_before :
    (c : ℕ) (x y : Entry) → IsDue c x → IsLater c y → Precedes x y × (before y x ≡ false)
unfolding before
due_before c (t, tm) (u, un) p q = (ground arith, ground arith)

insert_later :
    (c : ℕ) (e : Entry) (es rs : List Entry)
    → All (IsDue c) es
    → IsLater c e
    → insert e (es ++ rs) ≡ es ++ insert e rs
unfolding insert
insert_later c e [] rs d l = refl
insert_later c e (x ∷ xs) rs (d, ds) l =
    let (p, q) = due_before c x e d l in rw q (rw p (ap (◌∷◌ x) (insert_later c e xs rs ds l)))

pub is_live_head : (e : Entry) (es : List Entry) → is_live e (e ∷ es) ≡ true
unfolding is_live
is_live_head e es = rw (before_irrefl e) refl

erase_head : (e : Entry) (es : List Entry) → erase e (e ∷ es) ≡ es
unfolding erase
erase_head e es = rw (before_irrefl e) refl

pub next-begin : (e : Entry) (es : List Entry) → All (Precedes e) es → next e es ≡ begin es
unfolding next begin
next-begin e [] a = refl
next-begin e (x ∷ xs) (p, a) = rw p refl

is_live-insert :
    (e x : Entry) (es : List Entry) → is_live e es ≡ true → is_live e (insert x es) ≡ true
unfolding is_live insert
is_live-insert e x [] l = absurd (cc)
is_live-insert e x (y ∷ ys) l = elim (Bool-cases (before e y || before y e)) [
  | inl b ↦ let l' : is_live e ys ≡ true = ground arith in ground (arith, is_live-insert e x ys l')
  | inr b ↦ ground arith
]

All-append : (P : Entry → Type 0) (xs ys : List Entry) → All P xs → All P ys → All P (xs ++ ys)
All-append P [] ys a b = b
All-append P (x ∷ xs) ys (p, a) b = (p, All-append P xs ys a b)

abbrev world : ℕ → List Entry → List Timer → World
world rh es ran = record { queue = record { rh_timer_id = rh; tmqueue = es }; ran = ran }

abbrev renewal : ℕ → Entry → Entry
renewal c e = (add_size c (mul_uint e.1.interval 1000), e.1)

abbrev kept : ℕ → Entry → List Entry → List Entry
kept c e rs = if is_periodic e.1 then insert (renewal c e) rs else rs

-- Where the iterator stands when the timers `es` are still to run and `rs` end later.
At : ℕ → List Entry → List Entry → Iterator → Type 0
At c [] rs it = (it ≡ none) ⊎ ((e : Entry) × (it ≡ some e) × (is_live e rs ≡ true) × IsLater c e)
At c (e ∷ es) rs it = it ≡ some e

begin-At : (c : ℕ) (es rs : List Entry) → All (IsLater c) rs → At c es rs (begin (es ++ rs))
unfolding At begin
begin-At c [] [] l = inl refl
begin-At c [] (x ∷ rs) (p, l) = inr (x, refl, is_live_head x rs, p)
begin-At c (e ∷ es) rs l = refl

kept-At :
    (c : ℕ) (x : Entry) (es rs : List Entry) (it : Iterator)
    → At c es rs it
    → At c es (kept c x rs) it
unfolding At
kept-At c x [] rs it (inl p) = inl p
kept-At c x [] rs it (inr (e, p, q, l)) = elim (Bool-cases (is_periodic x.1)) [
  | inl b ↦ rw b (inr (e, p, is_live-insert e (renewal c x) rs q, l))
  | inr b ↦ rw b (inr (e, p, q, l))
]
kept-At c x (y ∷ ys) rs it p = p

-- A timer that goes back in ends later than `c`.
renewal-IsLater :
    (c : ℕ) (x : Entry)
    → IsRenewable x
    → c + 2 ^ 32 ≤ 2 ^ 64
    → IsLater c (renewal c x) ⊎ (is_periodic x.1 ≡ false)
unfolding is_periodic
renewal-IsLater c (t, tm) r h = ground arith

kept-append :
    (c : ℕ) (x : Entry) (es rs : List Entry)
    → All (IsDue c) es
    → IsLater c (renewal c x) ⊎ (is_periodic x.1 ≡ false)
    → kept c x (es ++ rs) ≡ es ++ kept c x rs
kept-append c x es rs d (inr p) = rw p refl
kept-append c x es rs d (inl l) = elim (Bool-cases (is_periodic x.1)) [
  | inl b ↦ rw b (insert_later c (renewal c x) es rs d l)
  | inr b ↦ rw b refl
]

kept-All :
    (c : ℕ) (x : Entry) (rs : List Entry)
    → All (IsLater c) rs
    → IsLater c (renewal c x) ⊎ (is_periodic x.1 ≡ false)
    → All (IsLater c) (kept c x rs)
kept-All c x rs l (inr p) = rw p l
kept-All c x rs l (inl q) = elim (Bool-cases (is_periodic x.1)) [
  | inl b ↦ rw b (insert-All (IsLater c) (renewal c x) rs q l)
  | inr b ↦ rw b l
]

module _ (user : User) (passive : IsPassive user) (c : ℕ) where
  -- A timer that is due runs, and goes back in if it is periodic.
  turn_due :
      (rh : ℕ) (x : Entry) (xs rs : List Entry) (ran : List Timer)
      → All (Precedes x) (xs ++ rs)
      → All (IsDue c) xs
      → IsDue c x
      → IsUnmarked rh x
      → IsLater c (renewal c x) ⊎ (is_periodic x.1 ≡ false)
      → turn user c (some x) (world rh (x ∷ (xs ++ rs)) ran)
        ≡ goes_on (begin (xs ++ rs)) (world rh (xs ++ kept c x rs) (x.1 ∷ ran))
  unfolding turn settle run
  turn_due rh x xs rs ran a ds d u r = rw (is_live_head x (xs ++ rs)) (
      rw d (
        rw (passive (x.1 ∷ ran) (record { rh_timer_id = rh; tmqueue = x ∷ (xs ++ rs) })) (
          rw u (
            rw (is_live_head x (xs ++ rs)) (
              rw (erase_head x (xs ++ rs))
                (rw (next-begin x (xs ++ rs) a) (rw (kept-append c x xs rs ds r) refl)))))))

  handle_loop_lem :
      (fuel rh : ℕ) (es rs : List Entry) (ran : List Timer) (it : Iterator)
      → length es < fuel
      → c + 2 ^ 32 ≤ 2 ^ 64
      → IsSorted es
      → All (IsDue c) es
      → All (IsLater c) rs
      → All (IsUnmarked rh) es
      → All IsRenewable es
      → At c es rs it
      → handle_loop user c fuel it (world rh (es ++ rs) ran)
        ≡ done (world rh (renew c es rs) (runs es ran))
  unfolding handle_loop turn At
  handle_loop_lem zero rh es rs ran it f h s d l u r p = absurd (omega arith)
  handle_loop_lem (suc fuel) rh [] rs ran it f h s d l u r (inl p) = rw p refl
  handle_loop_lem (suc fuel) rh [] rs ran it f h s d l u r (inr (e, p, q, m)) =
      rw p (rw q (rw m refl))
  handle_loop_lem (suc fuel) rh (x ∷ xs) rs ran it f h (a, s) (d, ds) l (u, us) (r, rr) p =
      let q = renewal-IsLater c x r h in
      let before_all =
        All-append (Precedes x) xs rs a (All-map (λ y m. (due_before c x y d m).0) rs l) in
      let at = kept-At c x xs rs (begin (xs ++ rs)) (begin-At c xs rs l) in
      rw p (
        rw (turn_due rh x xs rs ran before_all ds d u q) (
          handle_loop_lem fuel rh xs (kept c x rs) (x.1 ∷ ran) (begin (xs ++ rs)) (omega arith) h s
            ds (kept-All c x rs l q) us rr at))

is_live_inserted : (x : Entry) (es : List Entry) → is_live x (insert x es) ≡ true
unfolding is_live insert
is_live_inserted x [] = is_live_head x []
is_live_inserted x (y ∷ ys) = elim (Bool-cases (before x y)) [
  | inl b ↦ rw b (is_live_head x (y ∷ ys))
  | inr b ↦ elim (Bool-cases (before y x)) [
    | inl c ↦ rw b (rw c (rw b (rw c (is_live_inserted x ys))))
    | inr c ↦ rw b (rw c (rw b (rw c refl)))
  ]
]

is_live-renew :
    (c : ℕ) (y : Entry) (es rs : List Entry)
    → is_live y rs ≡ true
    → is_live y (renew c es rs) ≡ true
is_live-renew c y [] rs l = l
is_live-renew c y (x ∷ xs) rs l = elim (Bool-cases (is_periodic x.1)) [
  | inl b ↦ rw b (is_live-renew c y xs _ (is_live-insert y (renewal c x) rs l))
  | inr b ↦ rw b (is_live-renew c y xs rs l)
]

-- A periodic timer has an entry of its new end and its id.
abbrev pub IsBack : ℕ → List Entry → Entry → Type 0
IsBack c left e = (is_periodic e.1 ≡ false) ⊎ (is_live (renewal c e) left ≡ true)

renew-IsBack : (c : ℕ) (es rs : List Entry) → All (IsBack c (renew c es rs)) es
renew-IsBack c [] rs = tt
renew-IsBack c (x ∷ xs) rs = (
  elim (Bool-cases (is_periodic x.1)) [
    | inl b ↦
        inr (
          is_live-renew c (renewal c x) xs (kept c x rs) (rw b (is_live_inserted (renewal c x) rs)))
    | inr b ↦ inl b
  ],
  renew-IsBack c xs (kept c x rs),
)

-- Where the callbacks touch no timer, `handle` ends and runs each timer that has ended, in the order
-- of their ends, once; it leaves the others, into which std::set::insert has put each periodic timer
-- that ran, in that order, to end its interval after the time of the call: for each of these the queue
-- then has an entry of that end and that id, one alone where timers share both. The queue is the
-- ended timers `es`, in order, and the others `rs`, fuel beyond the number of ended timers is enough,
-- the time is at most 2^64 - 2^32, no ended timer has the id that `rhTimerId` holds, and no interval
-- of a periodic one, in microseconds, is a multiple of 2^32.
pub handle_lem :
    (user : User) (fuel : ℕ) (ts : TimeStamp) (rh : ℕ) (es rs : List Entry) (ran : List Timer)
    → IsPassive user
    → length es < fuel
    → int16 ts + 2 ^ 32 ≤ 2 ^ 64
    → IsSorted es
    → All (IsDue (int16 ts)) es
    → All (IsLater (int16 ts)) rs
    → All (IsUnmarked rh) es
    → All IsRenewable es
    → (handle user fuel ts
          (record { queue = record { rh_timer_id = rh; tmqueue = es ++ rs }; ran = ran })
        ≡ done (record {
          queue = record { rh_timer_id = rh; tmqueue = renew (int16 ts) es rs };
          ran = runs es ran;
        }))
      × All (IsBack (int16 ts) (renew (int16 ts) es rs)) es
unfolding handle
handle_lem user fuel ts rh es rs ran passive f h s d l u r = (
  handle_loop_lem user passive (int16 ts) fuel rh es rs ran (begin (es ++ rs)) f h s d l u r
      (begin-At (int16 ts) es rs l),
  renew-IsBack (int16 ts) es rs,
)
