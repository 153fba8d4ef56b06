-- ===== src/Wheels/Levels/Chain.antt =====
-- The cascades of a time at which the first wheel has come round.
use pqnet.Common.{
  ℕ, suc, ◌+◌, ◌*◌, ◌/◌, ◌%◌, ◌^◌, ◌≤◌, ◌≡◌, ◌≢◌, ◌⊎◌, inl, inr, refl, Option, some, List, [], ◌∷◌,
  ◌==◌, Bool-cases, All-map, arith,
}
use pqnet.Wheels.Levels.Defs.{
  TimerNode, Wheel, tw1, tw2, tw3, tw4, tw5, same_wheel, Slots, TimerManager, clear, cascade,
  cascades, wheels,
}
use pqnet.Wheels.Levels.Placing.{unit, index_of, Stands, AllStand, raise, clear-AllStand}
use pqnet.Wheels.Levels.Cascading.{Kept, Has-clear, move_each_lem}

-- What a part of the cascade leaves: the nodes stand, past a bound, and none is lost.
abbrev pub Leaves : (Wheel → ℕ) → TimerManager → Option TimerManager → Type 0
Leaves lo m r =
    (s : Slots) × (r ≡ some (record m { slots = s })) × AllStand lo m.jiffies s × Kept m.slots s

cascade_lem :
    (lo : Wheel → ℕ) (w : Wheel) (n : ℕ) (m : TimerManager)
    → w ≢ tw1
    → (m.jiffies / 2 ^ (8 + n * 6)) % 64 ≡ index_of w m.jiffies
    → m.jiffies % unit w ≡ 0
    → m.jiffies ≤ lo w
    → raise w m.jiffies lo tw1 ≤ m.jiffies
    → ((v : Wheel) → raise w m.jiffies lo v ≤ suc m.jiffies)
    → AllStand lo m.jiffies m.slots
    → (s : Slots) × (cascade w n m ≡ some (index_of w m.jiffies, record m { slots = s }))
      × AllStand (raise w m.jiffies lo) m.jiffies s
      × Kept m.slots s
unfolding cascade
cascade_lem lo w n m ne e z b b1 b2 a =
    let j = m.jiffies in
    let i = index_of w j in
    let m0 = record m { slots = clear w i m.slots } in
    let a0 = clear-AllStand lo j w m.slots b a in
    let (s, f, a1, k, h) =
      move_each_lem lo (raise w j lo) w (m.slots w i) m0 ne z b b1 b2 (a w i) a0 in
    (
      s,
      rw e (rw f refl),
      a1,
      (λ x y. elim (Has-clear w i m.slots x y) [ inl p ↦ h x p | inr p ↦ k x p ]),
    )

-- One cascade, and the next where the index was 0.
chain :
    (lo lo' : Wheel → ℕ) (w : Wheel) (n : ℕ) (ws : List (Wheel × ℕ)) (m : TimerManager)
    → w ≢ tw1
    → (m.jiffies / 2 ^ (8 + n * 6)) % 64 ≡ index_of w m.jiffies
    → m.jiffies % unit w ≡ 0
    → m.jiffies ≤ lo w
    → raise w m.jiffies lo tw1 ≤ m.jiffies
    → ((v : Wheel) → raise w m.jiffies lo v ≤ suc m.jiffies)
    → AllStand lo m.jiffies m.slots
    → ((s : Slots)
        → index_of w m.jiffies ≡ 0
        → AllStand (raise w m.jiffies lo) m.jiffies s
        → Leaves lo' (record m { slots = s }) (cascades ws (record m { slots = s })))
    → ((s : Slots)
        → index_of w m.jiffies ≢ 0
        → AllStand (raise w m.jiffies lo) m.jiffies s
        → AllStand lo' m.jiffies s)
    → Leaves lo' m (cascades ((w, n) ∷ ws) m)
unfolding cascades
chain lo lo' w n ws m ne e z b b1 b2 a next stop =
    let (s, f, a1, k) = cascade_lem lo w n m ne e z b b1 b2 a in
    elim (Bool-cases (index_of w m.jiffies == 0)) [
      | inl t ↦
          let (s', g, a2, k') = next s (ground (arith, t)) a1 in
          (s', rw f (rw t g), a2, (λ x h. k' x (k x h)))
      | inr t ↦ (s, rw f (rw t refl), stop s (ground (arith, t)) a1, k)
    ]

-- The bounds of a tick: all nodes, and those of the upper wheels past the time.
abbrev pub from : ℕ → Wheel → ℕ
from j w = j

abbrev pub past : ℕ → Wheel → ℕ
past j tw1 = j
past j tw2 = suc j
past j tw3 = suc j
past j tw4 = suc j
past j tw5 = suc j

-- A slot of a wheel is emptied at a multiple of the wheel's unit.
later :
    (lo lo' : Wheel → ℕ) (j i : ℕ) (w : Wheel) (x : TimerNode)
    → lo' w ≤ suc j
    → j ≤ lo w
    → ((j % unit w ≢ 0) ⊎ (lo' w ≤ lo w))
    → Stands lo j w i x
    → Stands lo' j w i x
later lo lo' j i w x b c (inr d) ((p, q, r, m), v) = ((p, omega arith, r, m), v)
later lo lo' j i tw1 x b c (inl d) ((p, q, r, m), v) = ((p, omega arith, r, m), v)
later lo lo' j i tw2 x b c (inl d) ((p, q, r, m), v) = ((p, omega arith, r, m), v)
later lo lo' j i tw3 x b c (inl d) ((p, q, r, m), v) = ((p, omega arith, r, m), v)
later lo lo' j i tw4 x b c (inl d) ((p, q, r, m), v) = ((p, omega arith, r, m), v)
later lo lo' j i tw5 x b c (inl d) ((p, q, r, m), v) = ((p, omega arith, r, m), v)

pub all_later :
    (lo lo' : Wheel → ℕ) (j : ℕ) (s : Slots)
    → ((w : Wheel) → (lo' w ≤ suc j) × (j ≤ lo w) × ((j % unit w ≢ 0) ⊎ (lo' w ≤ lo w)))
    → AllStand lo j s
    → AllStand lo' j s
all_later lo lo' j s h a w i =
    let (b, c, d) = h w in All-map (λ x. later lo lo' j i w x b c d) (s w i) (a w i)

raise-le :
    (w : Wheel) (j : ℕ) (lo : Wheel → ℕ)
    → ((v : Wheel) → lo v ≤ suc j)
    → (v : Wheel) → raise w j lo v ≤ suc j
raise-le w j lo h v = elim (Bool-cases (same_wheel w v)) [
  | inl e ↦ rw e (omega arith)
  | inr e ↦ rw e (h v)
]

module _ (j : ℕ) where
  abbrev r2 : Wheel → ℕ
  r2 = raise tw2 j (from j)

  abbrev r3 : Wheel → ℕ
  r3 = raise tw3 j r2

  abbrev r4 : Wheel → ℕ
  r4 = raise tw4 j r3

  abbrev r5 : Wheel → ℕ
  r5 = raise tw5 j r4

  r2-le : (v : Wheel) → r2 v ≤ suc j
  r2-le = raise-le tw2 j (from j) (λ v. omega arith)

  r3-le : (v : Wheel) → r3 v ≤ suc j
  r3-le = raise-le tw3 j r2 r2-le

  r4-le : (v : Wheel) → r4 v ≤ suc j
  r4-le = raise-le tw4 j r3 r3-le

  -- Whether a wheel's nodes are past the time: its slot was emptied, or is not due.
  abbrev IsPast : (Wheel → ℕ) → Wheel → Type 0
  IsPast lo w = (past j w ≤ suc j) × (j ≤ lo w) × ((j % unit w ≢ 0) ⊎ (past j w ≤ lo w))

  Past-r2 : j % 2 ^ 8 ≡ 0 → index_of tw2 j ≢ 0 → (w : Wheel) → IsPast r2 w
  Past-r2 z n tw1 = (omega arith, omega arith, inr (omega arith))
  Past-r2 z n tw2 = (omega arith, omega arith, inr (omega arith))
  Past-r2 z n tw3 = (omega arith, omega arith, inl (λ e. n (omega arith)))
  Past-r2 z n tw4 = (omega arith, omega arith, inl (λ e. n (omega arith)))
  Past-r2 z n tw5 = (omega arith, omega arith, inl (λ e. n (omega arith)))

  Past-r3 : j % 2 ^ 14 ≡ 0 → index_of tw3 j ≢ 0 → (w : Wheel) → IsPast r3 w
  Past-r3 z n tw1 = (omega arith, omega arith, inr (omega arith))
  Past-r3 z n tw2 = (omega arith, omega arith, inr (omega arith))
  Past-r3 z n tw3 = (omega arith, omega arith, inr (omega arith))
  Past-r3 z n tw4 = (omega arith, omega arith, inl (λ e. n (omega arith)))
  Past-r3 z n tw5 = (omega arith, omega arith, inl (λ e. n (omega arith)))

  Past-r4 : j % 2 ^ 20 ≡ 0 → index_of tw4 j ≢ 0 → (w : Wheel) → IsPast r4 w
  Past-r4 z n tw1 = (omega arith, omega arith, inr (omega arith))
  Past-r4 z n tw2 = (omega arith, omega arith, inr (omega arith))
  Past-r4 z n tw3 = (omega arith, omega arith, inr (omega arith))
  Past-r4 z n tw4 = (omega arith, omega arith, inr (omega arith))
  Past-r4 z n tw5 = (omega arith, omega arith, inl (λ e. n (omega arith)))

  Past-r5 : (w : Wheel) → IsPast r5 w
  Past-r5 tw1 = (omega arith, omega arith, inr (omega arith))
  Past-r5 tw2 = (omega arith, omega arith, inr (omega arith))
  Past-r5 tw3 = (omega arith, omega arith, inr (omega arith))
  Past-r5 tw4 = (omega arith, omega arith, inr (omega arith))
  Past-r5 tw5 = (omega arith, omega arith, inr (omega arith))

  -- No time is due yet where the first wheel has not come round.
  pub Past-from : j % 2 ^ 8 ≢ 0 → (w : Wheel) → IsPast (from j) w
  Past-from n tw1 = (omega arith, omega arith, inr (omega arith))
  Past-from n tw2 = (omega arith, omega arith, inl n)
  Past-from n tw3 = (omega arith, omega arith, inl (λ e. n (omega arith)))
  Past-from n tw4 = (omega arith, omega arith, inl (λ e. n (omega arith)))
  Past-from n tw5 = (omega arith, omega arith, inl (λ e. n (omega arith)))

pub cascades_lem :
    (m : TimerManager)
    → m.jiffies % 2 ^ 8 ≡ 0
    → AllStand (from m.jiffies) m.jiffies m.slots
    → Leaves (past m.jiffies) m (cascades wheels m)
unfolding cascades
cascades_lem m z a =
    let j = m.jiffies in
    chain (from j) (past j) tw2 0 ((tw3, 1) ∷ (tw4, 2) ∷ (tw5, 3) ∷ []) m (cc) refl z (omega arith)
      (omega arith) (r2-le j) a
      (λ s2 z2 a2.
        let d2 : j % 2 ^ 14 ≡ 0 = omega arith in
        chain (r2 j) (past j) tw3 1 ((tw4, 2) ∷ (tw5, 3) ∷ []) (record m { slots = s2 }) (cc) refl
          d2 (omega arith) (omega arith) (r3-le j) a2
          (λ s3 z3 a3.
            let d3 : j % 2 ^ 20 ≡ 0 = omega arith in
            chain (r3 j) (past j) tw4 2 ((tw5, 3) ∷ []) (record m { slots = s3 }) (cc) refl d3
              (omega arith) (omega arith) (r4-le j) a3
              (λ s4 z4 a4.
                let d4 : j % 2 ^ 26 ≡ 0 = omega arith in
                chain (r4 j) (past j) tw5 3 [] (record m { slots = s4 }) (cc) refl d4 (omega arith)
                  (omega arith) (raise-le tw5 j (r4 j) (r4-le j)) a4
                  (λ s5 z5 a5.
                    (s5, refl, all_later (r5 j) (past j) j s5 (Past-r5 j) a5, (λ x h. h)))
                  (λ s5 n5 a5. all_later (r5 j) (past j) j s5 (Past-r5 j) a5))
              (λ s4 n4 a4. all_later (r4 j) (past j) j s4 (Past-r4 j d3 n4) a4))
          (λ s3 n3 a3. all_later (r3 j) (past j) j s3 (Past-r3 j d2 n3) a3))
      (λ s2 n2 a2. all_later (r2 j) (past j) j s2 (Past-r2 j z n2) a2)
