-- ===== src/Common/Overwrite.antt =====
-- An array written from an index on.
use Prim.Native.Nat.{ℕ, ◌+◌, ◌-◌, ◌≤◌}
use mathlib.Core.Path.{◌≡◌, ap, sym, ◌∙◌}
use mathlib.Core.List.{List, ◌++◌, append_assoc}
use native.Mathlib.Omega.{arith}
use pqnet.Common.Lists.{
  length, take, drop, length-append, length-take, length-drop, take-append, drop-append,
  drop-append_le, take-drop, drop-drop,
}

unfoldable pub overwrite : List ℕ → ℕ → List ℕ → List ℕ
overwrite xs at bs = take at xs ++ (bs ++ drop (at + length bs) xs)

-- After a copy of `bs` to the front, the first bytes are `bs`.
pub take-overwrite : (xs bs : List ℕ) (n : ℕ) → n ≡ length bs → take n (overwrite xs 0 bs) ≡ bs
unfolding overwrite
take-overwrite xs bs n h = take-append n bs (drop (0 + length bs) xs) h

-- A window that ends where `bs` is written grows by `bs`.
pub window-overwrite :
    (xs bs : List ℕ) (r w : ℕ)
    → r ≤ w
    → w + length bs ≤ length xs
    → take (w + length bs - r) (drop r (overwrite xs w bs)) ≡ take (w - r) (drop r xs) ++ bs
unfolding overwrite
window-overwrite xs bs r w h k =
    rw
      (
        drop-append_le r (take w xs) _ (omega (arith, length-take w xs)),
        ← take-drop (w - r) r w xs (omega arith),
        ← append_assoc (take (w - r) (drop r xs)) bs _,
      )
      (take-append (w + length bs - r) (take (w - r) (drop r xs) ++ bs) _ sizes)
  where
    sizes : w + length bs - r ≡ length (take (w - r) (drop r xs) ++ bs)
    sizes = omega (
      arith,
      length-append (take (w - r) (drop r xs)) bs,
      length-take (w - r) (drop r xs),
      length-drop r xs,
    )

pub length-overwrite :
    (xs : List ℕ) (at : ℕ) (bs : List ℕ)
    → at + length bs ≤ length xs
    → length (overwrite xs at bs) ≡ length xs
unfolding overwrite
length-overwrite xs at bs h = omega (
  arith,
  length-append (take at xs) (bs ++ drop (at + length bs) xs),
  length-append bs (drop (at + length bs) xs),
  length-take at xs,
  length-drop (at + length bs) xs,
)

-- Right behind what is written.
drop-overwrite_end :
    (xs bs : List ℕ) (at : ℕ)
    → at + length bs ≤ length xs
    → drop (at + length bs) (overwrite xs at bs) ≡ drop (at + length bs) xs
unfolding overwrite
drop-overwrite_end xs bs at h =
    ap (λ t. drop (at + length bs) t)
      (sym (append_assoc (take at xs) bs (drop (at + length bs) xs)))
    ∙ drop-append (at + length bs) (take at xs ++ bs) (drop (at + length bs) xs)
        (omega (arith, length-append (take at xs) bs, length-take at xs))

-- Behind what is written the array is as it was.
pub drop-overwrite :
    (xs bs : List ℕ) (at n : ℕ)
    → at + length bs ≤ n
    → n ≤ length xs
    → drop n (overwrite xs at bs) ≡ drop n xs
drop-overwrite xs bs at n h k =
    let m = at + length bs in
    sym (drop-drop (n - m) m n (overwrite xs at bs) (omega arith))
    ∙ ap (λ t. drop (n - m) t) (drop-overwrite_end xs bs at (omega arith))
    ∙ drop-drop (n - m) m n xs (omega arith)

-- Up to its end the array is as it was, then what is written.
pub take-overwrite_end :
    (xs bs : List ℕ) (at n : ℕ)
    → n ≡ at + length bs
    → n ≤ length xs
    → take n (overwrite xs at bs) ≡ take at xs ++ bs
unfolding overwrite
take-overwrite_end xs bs at n h k =
    ap (λ t. take n t) (sym (append_assoc (take at xs) bs (drop (at + length bs) xs)))
    ∙ take-append n (take at xs ++ bs) (drop (at + length bs) xs)
        (omega (arith, length-append (take at xs) bs, length-take at xs))
