-- ===== src/Timers/Order.antt =====
-- The queue's order: by the time a timer ends at, then by id.
use pqnet.Common.{
  ℕ, ◌≡◌, refl, ◌⊎◌, inl, inr, true, false, List, [], ◌∷◌, ◌++◌, arith, All, All-map, Bool-cases,
  ◌==◌, ==_iff, ap, ◌+◌, ◌*◌, ◌%◌, ◌^◌, if◌then◌else◌,
}
use pqnet.TimeStamp.{TimeStamp, int16}
use pqnet.Timers.Defs.{
  Entry, TimerQueue, before, insert, is_live, add_timer, del_timer, wait_of, erase_id,
}

abbrev pub Precedes : Entry → Entry → Type 0
Precedes x y = before x y ≡ true

abbrev pub IsSorted : List Entry → Type 0
IsSorted [] = Unit
IsSorted (x ∷ xs) = All (Precedes x) xs × IsSorted xs

pub before_irrefl : (x : Entry) → before x x ≡ false
unfolding before
before_irrefl (t, tm) = ground arith

pub before_trans : (x y z : Entry) → Precedes x y → Precedes y z → Precedes x z
unfolding before
before_trans (t, tm) (u, un) (v, vn) p q = ground arith

pub insert-All :
    (P : Entry → Type 0) (e : Entry) (es : List Entry) → P e → All P es → All P (insert e es)
unfolding insert
insert-All P e [] p ps = (p, ps)
insert-All P e (x ∷ xs) p (q, qs) = elim (Bool-cases (before e x)) [
  | inl b ↦ rw b ((p, (q, qs)))
  | inr b ↦ elim (Bool-cases (before x e)) [
    | inl c ↦ rw b (rw c ((q, insert-All P e xs p qs)))
    | inr c ↦ rw b (rw c ((q, qs)))
  ]
]

pub insert-IsSorted : (e : Entry) (es : List Entry) → IsSorted es → IsSorted (insert e es)
unfolding insert
insert-IsSorted e [] s = (tt, tt)
insert-IsSorted e (x ∷ xs) (a, s) = elim (Bool-cases (before e x)) [
  | inl b ↦ rw b (((b, All-map (λ y p. before_trans e x y b p) xs a), (a, s)))
  | inr b ↦ elim (Bool-cases (before x e)) [
    | inl c ↦ rw b (rw c ((insert-All (Precedes x) e xs c a, insert-IsSorted e xs s)))
    | inr c ↦ rw b (rw c ((a, s)))
  ]
]

-- Either an entry of the same time and id is there and nothing changes, or the entry goes in at one
-- place.
pub insert_lem :
    (e : Entry) (es : List Entry)
    → ((is_live e es ≡ true) × (insert e es ≡ es))
      ⊎ ((xs ys : List Entry) × (es ≡ xs ++ ys) × (insert e es ≡ xs ++ e ∷ ys))
unfolding insert is_live
insert_lem e [] = inr ([], [], refl, refl)
insert_lem e (x ∷ xs) = elim (Bool-cases (before e x)) [
  | inl b ↦ rw b (inr ([], x ∷ xs, refl, refl))
  | inr b ↦ elim (Bool-cases (before x e)) [
    | inl c ↦ elim (insert_lem e xs) [
      | inl (l, u) ↦ rw b (rw c (inl (l, ap (◌∷◌ x) u)))
      | inr (ys, zs, u, v) ↦ rw b (rw c (inr (x ∷ ys, zs, ap (◌∷◌ x) u, ap (◌∷◌ x) v)))
    ]
    | inr c ↦ rw b (rw c (inl (refl, refl)))
  ]
]

-- The microseconds to wait for an expiration in milliseconds.
abbrev pub micros : ℕ → ℕ
micros expiration = if expiration == 0 then 100 else (expiration * 1000) % 2 ^ 32

wait_of_lem : (expiration : ℕ) → wait_of expiration ≡ micros expiration
unfolding wait_of
wait_of_lem expiration = ground arith

-- addTimer keeps the queue in order, and puts in one timer, with the callback, argument and interval
-- given and the address as its id, which it returns; the timer ends after the milliseconds asked for,
-- their microseconds cut to 32 bits, or 100 microseconds where none are asked for, the end being cut
-- to 64 bits. If a timer of that end and id is in the queue already, the queue stays as it is.
pub add_timer_lem :
    (address : ℕ) (ts : TimeStamp) (cb arg expiration interval : ℕ) (q : TimerQueue)
    → IsSorted q.tmqueue
    → let e : Entry = (
      (int16 ts + micros expiration) % 2 ^ 64,
      record { timercb = cb; arg = arg; id = address; interval = interval },
    ) in
      let (id, q') = add_timer address ts cb arg expiration interval q in
      (id ≡ address)
      × (q'.rh_timer_id ≡ q.rh_timer_id)
      × IsSorted (q'.tmqueue)
      × (((is_live e q.tmqueue ≡ true) × (q'.tmqueue ≡ q.tmqueue))
          ⊎ ((xs ys : List Entry) × (q.tmqueue ≡ xs ++ ys) × (q'.tmqueue ≡ xs ++ e ∷ ys)))
unfolding add_timer
add_timer_lem address ts cb arg expiration interval q s =
    rw (wait_of_lem expiration) (refl, refl, insert-IsSorted _ q.tmqueue s, insert_lem _ q.tmqueue)

erase_id-All : (P : Entry → Type 0) (id : ℕ) (es : List Entry) → All P es → All P (erase_id id es)
unfolding erase_id
erase_id-All P id [] ps = tt
erase_id-All P id (x ∷ xs) (p, ps) = elim (Bool-cases (x.1.id == id)) [
  | inl b ↦ rw b ps
  | inr b ↦ rw b ((p, erase_id-All P id xs ps))
]

erase_id-IsSorted : (id : ℕ) (es : List Entry) → IsSorted es → IsSorted (erase_id id es)
unfolding erase_id
erase_id-IsSorted id [] s = tt
erase_id-IsSorted id (x ∷ xs) (a, s) = elim (Bool-cases (x.1.id == id)) [
  | inl b ↦ rw b s
  | inr b ↦ rw b ((erase_id-All (Precedes x) id xs a, erase_id-IsSorted id xs s))
]

-- The timer has another id.
abbrev pub IsOther : ℕ → Entry → Type 0
IsOther id e = (e.1.id == id) ≡ false

erase_id_lem :
    (id : ℕ) (es : List Entry)
    → (All (IsOther id) es × (erase_id id es ≡ es))
      ⊎ ((xs : List Entry) × (d : Entry) × (ys : List Entry) × (es ≡ xs ++ d ∷ ys)
          × All (IsOther id) xs
          × (d.1.id ≡ id)
          × (erase_id id es ≡ xs ++ ys))
unfolding erase_id
erase_id_lem id [] = inl (tt, refl)
erase_id_lem id (x ∷ xs) = elim (Bool-cases (x.1.id == id)) [
  | inl b ↦ rw b (inr ([], x, xs, refl, tt, (==_iff x.1.id id).0 b, refl))
  | inr b ↦ elim (erase_id_lem id xs) [
    | inl (a, u) ↦ rw b (inl ((refl, a), ap (◌∷◌ x) u))
    | inr (ys, d, zs, u, a, v, w) ↦
        rw b (inr (x ∷ ys, d, zs, ap (◌∷◌ x) u, (b, a), v, ap (◌∷◌ x) w))
  ]
]

-- delTimer keeps the queue in order, and takes out the first timer of the id, if there is one.
pub del_timer_lem :
    (id : ℕ) (q : TimerQueue)
    → IsSorted q.tmqueue
    → IsSorted ((del_timer id q).tmqueue)
      × ((All (IsOther id) q.tmqueue × ((del_timer id q).tmqueue ≡ q.tmqueue))
          ⊎ ((xs : List Entry) × (d : Entry) × (ys : List Entry) × (q.tmqueue ≡ xs ++ d ∷ ys)
              × All (IsOther id) xs
              × (d.1.id ≡ id)
              × ((del_timer id q).tmqueue ≡ xs ++ ys)))
unfolding del_timer
del_timer_lem id q s = (erase_id-IsSorted id q.tmqueue s, erase_id_lem id q.tmqueue)
