-- ===== src/Endian/Defs.antt =====
-- endian.cpp: byte order, and the conversions to and from network order.
use pqnet.Common.{ℕ, zero, suc, ◌+◌, ◌*◌, ◌/◌, ◌%◌, List, [], ◌∷◌, reverse, ◌==◌, if◌then◌else◌}

pub data ByteOrder : Type 0 where
  little big : ByteOrder

-- The `k` low bytes of `x`, least significant first.
unfoldable pub le_bytes : ℕ → ℕ → List ℕ
le_bytes zero x = []
le_bytes (suc k) x = (x % 256) ∷ le_bytes k (x / 256)

unfoldable pub of_le_bytes : List ℕ → ℕ
of_le_bytes [] = 0
of_le_bytes (b ∷ bs) = b + 256 * of_le_bytes bs

-- The bytes of a `k`-byte integer in the host's memory.
unfoldable pub object_bytes : ByteOrder → ℕ → ℕ → List ℕ
object_bytes little k x = le_bytes k x
object_bytes big k x = reverse (le_bytes k x)

-- The integer that such bytes stand for.
unfoldable pub of_bytes : ByteOrder → List ℕ → ℕ
of_bytes little bs = of_le_bytes bs
of_bytes big bs = of_le_bytes (reverse bs)

abbrev pub l_endian : ℕ
l_endian = 1

abbrev pub b_endian : ℕ
b_endian = 2

abbrev pub u_endian : ℕ
u_endian = 3

-- `Endian()`: the union holds 'L', '?', '?', 'B', and the test reads the low byte of the integer.
unfoldable pub endian : ByteOrder → ℕ
unfolding of_bytes of_le_bytes
endian o =
    let c = of_bytes o (b'L' ∷ b'?' ∷ b'?' ∷ b'B' ∷ []) % 256 in
    if c == b'L' then l_endian else if c == b'B' then b_endian else u_endian

-- `htons`, `htonl` and their inverses store the value in network order, most significant byte first.
unfoldable pub swap_on : ByteOrder → ℕ → ℕ → ℕ
unfolding of_bytes object_bytes
swap_on o k x = of_bytes o (object_bytes big k x)

unfoldable pub h2n16 : ByteOrder → ℕ → ℕ
h2n16 o x = swap_on o 2 x

unfoldable pub h2n32 : ByteOrder → ℕ → ℕ
h2n32 o x = swap_on o 4 x

-- Back: the bytes in memory, read in network order.
unfoldable pub n2h16 : ByteOrder → ℕ → ℕ
unfolding of_bytes object_bytes
n2h16 o x = of_bytes big (object_bytes o 2 x)

unfoldable pub n2h32 : ByteOrder → ℕ → ℕ
unfolding of_bytes object_bytes
n2h32 o x = of_bytes big (object_bytes o 4 x)
