-- ===== src/Random/Laws.antt =====
-- The ranges.
use pqnet.Common.{
  ℕ, ◌-◌, ◌%◌, ◌^◌, ◌≡◌, ◌≤◌, ◌<◌, ◌⊎◌, min, max, inl, inr, arith, compare_cases, refl,
}
use pqnet.Common.Words.{add_uint, sub_uint, add_size, sub_size}
use pqnet.Random.Defs.{uint32, uint64}
use native.Mathlib.Nat.{mod-lt}

-- The sum of the source where nothing wraps.
no_wrap32 : (a b d : ℕ) → a < b → b < 2 ^ 32 → d < b - a → (a ≤ add_uint d a) × (add_uint d a < b)
no_wrap32 a b d l h e = (omega arith, omega arith)

range32 :
    (draw a b : ℕ)
    → a < b
    → b < 2 ^ 32
    → (a ≤ add_uint (draw % sub_uint b a) a) × (add_uint (draw % sub_uint b a) a < b)
range32 draw a b l h =
    let e : sub_uint b a ≡ b - a = omega arith in
    rw e (no_wrap32 a b (draw % (b - a)) l h (mod-lt draw (omega arith)))

no_wrap64 : (a b d : ℕ) → a < b → b < 2 ^ 64 → d < b - a → (a ≤ add_size d a) × (add_size d a < b)
no_wrap64 a b d l h e = (omega arith, omega arith)

range64 :
    (draw a b : ℕ)
    → a < b
    → b < 2 ^ 64
    → (a ≤ add_size (draw % sub_size b a) a) × (add_size (draw % sub_size b a) a < b)
range64 draw a b l h =
    let e : sub_size b a ≡ b - a = omega arith in
    rw e (no_wrap64 a b (draw % (b - a)) l h (mod-lt draw (omega arith)))

-- Of two 32-bit ends in either order, a number from the lower one up to but not including the other,
-- whatever the engine draws; and the end itself where both are the same.
uint32_lem :
    (draw left right : ℕ)
    → left < 2 ^ 32
    → right < 2 ^ 32
    → ((left ≡ right) × (uint32 draw left right ≡ left))
      ⊎ ((min left right ≤ uint32 draw left right) × (uint32 draw left right < max left right))
unfolding uint32
uint32_lem draw left right l r = elim (compare_cases left right) [
  | inl (a, e) ↦ let (p, q) = range32 draw left right a r in rw e (inr (omega arith, omega arith))
  | inr (inl (a, e, f)) ↦ rw e (rw f (inl (a, refl)))
  | inr (inr (a, e, f)) ↦
      let (p, q) = range32 draw right left a l in rw e (rw f (inr (omega arith, omega arith)))
]

-- The same of 64-bit ends.
pub uint64_lem :
    (draw left right : ℕ)
    → left < 2 ^ 64
    → right < 2 ^ 64
    → ((left ≡ right) × (uint64 draw left right ≡ left))
      ⊎ ((min left right ≤ uint64 draw left right) × (uint64 draw left right < max left right))
unfolding uint64
uint64_lem draw left right l r = elim (compare_cases left right) [
  | inl (a, e) ↦ let (p, q) = range64 draw left right a r in rw e (inr (omega arith, omega arith))
  | inr (inl (a, e, f)) ↦ rw e (rw f (inl (a, refl)))
  | inr (inr (a, e, f)) ↦
      let (p, q) = range64 draw right left a l in rw e (rw f (inr (omega arith, omega arith)))
]
