-- ===== src/Wheels/Levels/Placing.antt =====
-- Where a node stands, and for how long.
use pqnet.Common.{
  ℕ, suc, ◌+◌, ◌-◌, ◌*◌, ◌/◌, ◌%◌, ◌^◌, ◌≤◌, ◌<◌, ◌≡◌, ◌≢◌, ◌⊎◌, refl, ap, Bool, true, false, ◌&&◌,
  List, [], ◌∷◌, ◌++◌, ltb, ◌==◌, if◌then◌else◌, Bool-cases, inl, inr, All, All-map, arith,
}
use mathlib.Core.Path.{subst}
use pqnet.Common.Words.{sub_size, mul_uint, uint_mod}
use pqnet.Wheels.Levels.Defs.{
  TimerNode, Wheel, tw1, tw2, tw3, tw4, tw5, same_wheel, Slots, push_back, clear, slot_in, slot_of,
}

-- The times of a slot: how many each holds, when it is emptied, and how far the wheel reaches.
abbrev pub unit : Wheel → ℕ
unit tw1 = 1
unit tw2 = 2 ^ 8
unit tw3 = 2 ^ 14
unit tw4 = 2 ^ 20
unit tw5 = 2 ^ 26

abbrev pub slot_time : Wheel → ℕ → ℕ
slot_time tw1 e = e
slot_time tw2 e = e / 2 ^ 8 * 2 ^ 8
slot_time tw3 e = e / 2 ^ 14 * 2 ^ 14
slot_time tw4 e = e / 2 ^ 20 * 2 ^ 20
slot_time tw5 e = e / 2 ^ 26 * 2 ^ 26

abbrev pub span : Wheel → ℕ
span tw1 = 2 ^ 8
span tw2 = 2 ^ 14
span tw3 = 2 ^ 20
span tw4 = 2 ^ 26
span tw5 = 2 ^ 32

abbrev pub index_of : Wheel → ℕ → ℕ
index_of tw1 e = e % 256
index_of tw2 e = (e / 2 ^ 8) % 64
index_of tw3 e = (e / 2 ^ 14) % 64
index_of tw4 e = (e / 2 ^ 20) % 64
index_of tw5 e = (e / 2 ^ 26) % 64

-- At time `j`, a node to end at `e` stands in its slot of a wheel, which is emptied from `lo` on, and
-- within the wheel's reach.
abbrev pub Placed : (Wheel → ℕ) → ℕ → Wheel → ℕ → ℕ → Type 0
Placed lo j w i e =
    (index_of w e ≡ i) × (lo w ≤ slot_time w e) × (slot_time w e < j + span w) × (e < 2 ^ 63)

-- A periodic node waits between two runs.
abbrev pub Waits : ℕ → Type 0
Waits interval = (interval ≡ 0) ⊎ (0 < mul_uint interval 1000)

abbrev pub Stands : (Wheel → ℕ) → ℕ → Wheel → ℕ → TimerNode → Type 0
Stands lo j w i node = Placed lo j w i node.endtime × Waits node.interval

abbrev pub AllStand : (Wheel → ℕ) → ℕ → Slots → Type 0
AllStand lo j s = (w : Wheel) (i : ℕ) → All (Stands lo j w i) (s w i)

-- The slot that is chosen fits.
slot_in-Placed :
    (lo : Wheel → ℕ) (j e d : ℕ)
    → d ≡ e - j
    → j ≤ e
    → e < j + 2 ^ 32
    → e < 2 ^ 63
    → lo tw1 ≤ e
    → ((w : Wheel) → lo w ≤ suc j)
    → Placed lo j (slot_in d e).0 (slot_in d e).1 e
slot_in-Placed lo j e d p h r m a b = elim (Bool-cases (ltb d 256)) [
  | inl t ↦ rw t (refl, omega arith, ground (arith, t, p), m)
  | inr t ↦ rw t (elim (Bool-cases (ltb d (2 ^ 14))) [
    | inl u ↦ rw u (refl, ground (arith, t, p, b tw2), ground (arith, u, p), m)
    | inr u ↦ rw u (elim (Bool-cases (ltb d (2 ^ 20))) [
      | inl v ↦ rw v (refl, ground (arith, u, p, b tw3), ground (arith, v, p), m)
      | inr v ↦ rw v (elim (Bool-cases (ltb d (2 ^ 26))) [
        | inl x ↦ rw x (refl, ground (arith, v, p, b tw4), ground (arith, x, p), m)
        | inr x ↦ rw x (refl, ground (arith, x, p, b tw5), ground (arith, r), m)
      ])
    ])
  ])
]

expiration_lem : (j e : ℕ) → j ≤ e → e < j + 2 ^ 32 → e < 2 ^ 63 → sub_size e j % uint_mod ≡ e - j
expiration_lem j e h r m = omega arith

pub slot_of-Placed :
    (lo : Wheel → ℕ) (j e : ℕ)
    → j ≤ e
    → e < j + 2 ^ 32
    → e < 2 ^ 63
    → lo tw1 ≤ e
    → ((w : Wheel) → lo w ≤ suc j)
    → Placed lo j (slot_of j e).0 (slot_of j e).1 e
unfolding slot_of
slot_of-Placed lo j e h r m a b =
    slot_in-Placed lo j e (sub_size e j % uint_mod) (expiration_lem j e h r m) h r m a b

pub same_wheel_eq : (w w' : Wheel) → same_wheel w w' ≡ true → w ≡ w'
same_wheel_eq tw1 tw1 h = refl
same_wheel_eq tw2 tw2 h = refl
same_wheel_eq tw3 tw3 h = refl
same_wheel_eq tw4 tw4 h = refl
same_wheel_eq tw5 tw5 h = refl
same_wheel_eq _ _ h = absurd (cc)

pub same_wheel_refl : (w : Wheel) → same_wheel w w ≡ true
same_wheel_refl tw1 = refl
same_wheel_refl tw2 = refl
same_wheel_refl tw3 = refl
same_wheel_refl tw4 = refl
same_wheel_refl tw5 = refl

All-append_one :
    (P : TimerNode → Type 0) (x : TimerNode) (xs : List TimerNode)
    → All P xs
    → P x
    → All P (xs ++ x ∷ [])
All-append_one P x [] a p = (p, tt)
All-append_one P x (y ∷ xs) (q, a) p = (q, All-append_one P x xs a p)

-- A predicate of nodes that depends on their slot is kept by a push that satisfies it.
pub push_back-All :
    (P : Wheel → ℕ → TimerNode → Type 0) (w : Wheel) (i : ℕ) (x : TimerNode) (s : Slots)
    → ((w' : Wheel) (i' : ℕ) → All (P w' i') (s w' i'))
    → P w i x
    → (w' : Wheel) (i' : ℕ) → All (P w' i') (push_back w i x s w' i')
unfolding push_back
push_back-All P w i x s a p w' i' = elim (Bool-cases (same_wheel w w' && i == i')) [
  | inl e ↦
      let f : same_wheel w w' ≡ true = ground (arith, e) in
      let g : i ≡ i' = ground (arith, e) in
      let q = subst (λ v. P v i' x) (same_wheel_eq w w' f) (subst (λ k. P w k x) g p) in
      rw e (All-append_one (P w' i') x (s w' i') (a w' i') q)
  | inr e ↦ rw e (a w' i')
]

-- A bound that is raised for one wheel.
abbrev pub raise : Wheel → ℕ → (Wheel → ℕ) → Wheel → ℕ
raise w j lo w' = if same_wheel w w' then suc j else lo w'

raise-Placed :
    (lo : Wheel → ℕ) (j i e : ℕ) (w : Wheel)
    → j ≤ lo w
    → i ≢ index_of w j
    → Placed lo j w i e
    → Placed (raise w j lo) j w i e
raise-Placed lo j i e tw1 b n (p, q, r, m) = (p, omega arith, r, m)
raise-Placed lo j i e tw2 b n (p, q, r, m) = (p, omega arith, r, m)
raise-Placed lo j i e tw3 b n (p, q, r, m) = (p, omega arith, r, m)
raise-Placed lo j i e tw4 b n (p, q, r, m) = (p, omega arith, r, m)
raise-Placed lo j i e tw5 b n (p, q, r, m) = (p, omega arith, r, m)

raise-Placed_other :
    (lo : Wheel → ℕ) (j i e : ℕ) (w w' : Wheel)
    → same_wheel w w' ≡ false
    → Placed lo j w' i e
    → Placed (raise w j lo) j w' i e
raise-Placed_other lo j i e w w' d (p, q, r, m) =
    let f : raise w j lo w' ≡ lo w' = ap (λ b. if b then suc j else lo w') d in
    (p, omega (arith, f), r, m)

All-cleared :
    (P : TimerNode → Type 0) (b : Bool) (xs : List TimerNode)
    → (b ≡ false → All P xs)
    → All P (if b then [] else xs)
All-cleared P true xs f = tt
All-cleared P false xs f = f refl

-- A slot that is emptied at its time, or at another, leaves later ones only.
pub clear-AllStand :
    (lo : Wheel → ℕ) (j : ℕ) (w : Wheel) (s : Slots)
    → j ≤ lo w
    → AllStand lo j s
    → AllStand (raise w j lo) j (clear w (index_of w j) s)
unfolding clear
clear-AllStand lo j w s b a w' i' =
    All-cleared (Stands (raise w j lo) j w' i') (same_wheel w w' && index_of w j == i') (s w' i')
      (λ e. elim (Bool-cases (same_wheel w w')) [
        | inl f ↦
            let n : i' ≢ index_of w j = ground (arith, e, f) in
            subst (λ v. All (Stands (raise w j lo) j v i') (s v i')) (same_wheel_eq w w' f)
              (All-map (λ x (p, v). (raise-Placed lo j i' x.endtime w b n p, v)) (s w i') (a w i'))
        | inr f ↦
            All-map (λ x (p, v). (raise-Placed_other lo j i' x.endtime w w' f p, v)) (s w' i')
              (a w' i')
      ])

-- What is emptied at its time falls into a lower wheel.
pub slot_of-ne :
    (lo : Wheel → ℕ) (j e : ℕ) (w : Wheel)
    → w ≢ tw1
    → j % unit w ≡ 0
    → j ≤ lo w
    → Placed lo j w (index_of w j) e
    → (same_wheel w (slot_of j e).0 ≡ false) × (j ≤ e) × (e < j + unit w)
unfolding slot_of
slot_of-ne lo j e tw1 n z b (p, q, r, m) = absurd (n refl)
slot_of-ne lo j e tw2 n z b (p, q, r, m) =
    (ground (arith, p, q, r, m, z, b), omega arith, omega arith)
slot_of-ne lo j e tw3 n z b (p, q, r, m) =
    (ground (arith, p, q, r, m, z, b), omega arith, omega arith)
slot_of-ne lo j e tw4 n z b (p, q, r, m) =
    (ground (arith, p, q, r, m, z, b), omega arith, omega arith)
slot_of-ne lo j e tw5 n z b (p, q, r, m) =
    (ground (arith, p, q, r, m, z, b), omega arith, omega arith)

pub reach : (j e : ℕ) (w : Wheel) → e < j + unit w → e < j + 2 ^ 32
reach j e tw1 h = omega arith
reach j e tw2 h = omega arith
reach j e tw3 h = omega arith
reach j e tw4 h = omega arith
reach j e tw5 h = omega arith
