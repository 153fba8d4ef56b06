-- ===== src/Endian/Laws.antt =====
-- Integers survive the way through memory, and network order is undone by its inverse.
use mathlib.Core.List.{reverse-reverse, reverse-cons}
use pqnet.Common.{
  ℕ, zero, suc, ◌*◌, ◌/◌, ◌^◌, ◌<◌, ◌≡◌, refl, ap, ◌∙◌, List, [], ◌∷◌, reverse, arith, length,
  length-append, ◌⊎◌, inl, inr,
}
use pqnet.Endian.Defs.{
  ByteOrder, little, big, le_bytes, of_le_bytes, object_bytes, of_bytes, endian, swap_on, h2n16,
  h2n32, n2h16, n2h32,
}

length-reverse : (xs : List ℕ) → length (reverse xs) ≡ length xs
length-reverse [] = refl
length-reverse (x ∷ xs) =
    omega
      (arith, ap length (reverse-cons x xs), length-append (reverse xs) (x ∷ []), length-reverse xs)

length-le_bytes : (k x : ℕ) → length (le_bytes k x) ≡ k
unfolding le_bytes
length-le_bytes zero x = refl
length-le_bytes (suc k) x = ap suc (length-le_bytes k (x / 256))

pub length-object_bytes : (o : ByteOrder) (k x : ℕ) → length (object_bytes o k x) ≡ k
unfolding object_bytes
length-object_bytes little k x = length-le_bytes k x
length-object_bytes big k x = length-reverse (le_bytes k x) ∙ length-le_bytes k x

-- 256 ^ k without the powers, so that a bound at a numeral k computes.
abbrev pub byte_span : ℕ → ℕ
byte_span zero = 1
byte_span (suc k) = 256 * byte_span k

of_le_bytes-le_bytes : (k x : ℕ) → x < byte_span k → of_le_bytes (le_bytes k x) ≡ x
unfolding le_bytes of_le_bytes
of_le_bytes-le_bytes zero x h = omega arith
of_le_bytes-le_bytes (suc k) x h = omega (arith, of_le_bytes-le_bytes k (x / 256) (omega arith))

-- An integer of `k` bytes is read back from its object representation.
pub of_bytes-object_bytes :
    (o : ByteOrder) (k x : ℕ) → x < byte_span k → of_bytes o (object_bytes o k x) ≡ x
unfolding object_bytes of_bytes
of_bytes-object_bytes little k x h = of_le_bytes-le_bytes k x h
of_bytes-object_bytes big k x h =
    ap of_le_bytes (reverse-reverse (le_bytes k x)) ∙ of_le_bytes-le_bytes k x h

-- Network order is undone on either host, for every 16-bit and every 32-bit value.
n2h-h2n :
    (o : ByteOrder) (x y : ℕ)
    → x < 2 ^ 16
    → y < 2 ^ 32
    → (n2h16 o (h2n16 o x) ≡ x) × (n2h32 o (h2n32 o y) ≡ y)
unfolding n2h16 h2n16 n2h32 h2n32 swap_on object_bytes of_bytes le_bytes of_le_bytes
n2h-h2n little x y h k = omega arith
n2h-h2n big x y h k = omega arith

-- `Endian()` tells the two byte orders apart.
endian_lem : (o : ByteOrder) → (endian o ≡ 1 × (o ≡ little)) ⊎ (endian o ≡ 2 × (o ≡ big))
unfolding endian of_bytes of_le_bytes
endian_lem little = inl (refl, refl)
endian_lem big = inr (refl, refl)
