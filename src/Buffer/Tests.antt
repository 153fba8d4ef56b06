-- ===== src/Buffer/Tests.antt =====
-- The buffer's theorems at concrete buffers, and runs that follow the code.
use pqnet.Common.Overwrite.{overwrite}
use pqnet.Common.{
  ℕ, ◌^◌, ◌≤◌, ◌<◌, ◌≡◌, refl, inr, ◌⊎◌, length-replicate, none, some, List, [], ◌∷◌, arith,
  replicate, length,
}
use pqnet.Buffer.Defs
use pqnet.Endian.{little, object_bytes, le_bytes}
use pqnet.Kernel.Sample.{sample_kernel}
use pqnet.Buffer.Defs.{
  Buffer, init, double_size, vacate, append, append_int32, get, get_int, get_int16, get_int32,
  unread,
}
use pqnet.Buffer.Net.{buffer_size_maximum, read_from}
use pqnet.Buffer.Valid.{IsValid, length-unread}
use pqnet.Buffer.Append.{Fits, append_in_bounds}
use pqnet.Buffer.Ints.{get_int_lem, package_roundtrip}
use pqnet.Buffer.Read.{Reads, read_from-Reads, read_from_stuck}

-- Two unread bytes in the middle of four.
abbrev middle : Buffer
middle = record { buf = 1 ∷ 2 ∷ 3 ∷ 4 ∷ []; capacity = 4; reader_index = 1; writer_index = 3 }

middle-IsValid : IsValid middle
middle-IsValid = omega arith

-- Two bytes more make the code move the unread ones to the front.
abbrev moved : Buffer
moved = record { buf = 2 ∷ 3 ∷ 8 ∷ 9 ∷ []; capacity = 4; reader_index = 0; writer_index = 4 }

append_moves : append middle (8 ∷ 9 ∷ []) ≡ some moved
unfolding append Defs.has_writable Defs.writable_bytes Defs.make_space Defs.front_bytes vacate
    Defs.readable_bytes unread overwrite Defs.put
append_moves = refl

-- Five bytes more fit after one doubling; six do not.
append_doubles : Fits middle 5
append_doubles = inr (omega arith)

append_in_bounds_example :
    (Fits middle 6 × (b' : Buffer) × (append middle (1 ∷ 2 ∷ 3 ∷ 4 ∷ 5 ∷ 6 ∷ []) ≡ some b'))
    ⊎ ((¬ Fits middle 6) × (append middle (1 ∷ 2 ∷ 3 ∷ 4 ∷ 5 ∷ 6 ∷ []) ≡ none))
append_in_bounds_example = append_in_bounds (1 ∷ 2 ∷ 3 ∷ 4 ∷ 5 ∷ 6 ∷ []) middle-IsValid

-- The int16 0x0302 on a little-endian host.
get_int_lem_example :
    ((get_int little 2 middle).0 ≡ some 0x302) × (unread (get_int little 2 middle).1 ≡ [])
unfolding unread object_bytes le_bytes
get_int_lem_example = get_int_lem little 2 0x302 [] middle-IsValid (omega arith) refl

abbrev blank : Buffer
blank = record { buf = replicate 16 0; capacity = 16; reader_index = 0; writer_index = 0 }

-- Protocol 0x64 and the data 65, 66.
abbrev framed : ℕ → List ℕ → Buffer
framed n bs = record blank { buf = bs; writer_index = n }

package_roundtrip_example :
    let b3 = framed 10 (0x64 ∷ 0 ∷ 0 ∷ 0 ∷ 2 ∷ 0 ∷ 0 ∷ 0 ∷ 65 ∷ 66 ∷ replicate 6 0) in
    let (p, c1) = get_int32 little b3 in
    let (n, c2) = get_int32 little c1 in
    let (d, c3) = get c2 2 in (p ≡ some 0x64) × (n ≡ some 2) × (d ≡ 65 ∷ 66 ∷ []) × (unread c3 ≡ [])
unfolding append append_int32 Defs.has_writable Defs.writable_bytes overwrite Defs.put unread
    object_bytes le_bytes
package_roundtrip_example =
    package_roundtrip little 0x64 (65 ∷ 66 ∷ []) {b = blank} {b1 = framed 4 (0x64 ∷ replicate 15 0)}
      {b2 = framed 8 (0x64 ∷ 0 ∷ 0 ∷ 0 ∷ 2 ∷ replicate 11 0)}
      {b3 = framed 10 (0x64 ∷ 0 ∷ 0 ∷ 0 ∷ 2 ∷ 0 ∷ 0 ∷ 0 ∷ 65 ∷ 66 ∷ replicate 6 0)} (omega arith)
      refl (omega arith) (omega arith) refl refl refl

read_from-Reads_example : Reads 5 middle [] (read_from sample_kernel 5 middle [])
read_from-Reads_example = read_from-Reads sample_kernel 5 [] middle-IsValid

-- A buffer of `n` unread bytes and no room.
packed : ℕ → Buffer
packed n = record { buf = replicate n 0; capacity = n; reader_index = 0; writer_index = n }

packed-IsValid : (n : ℕ) → n < 2 ^ 32 → IsValid (packed n)
unfolding packed
packed-IsValid n h = omega (arith, length-replicate {A = ℕ} n 0)

capacity-packed : (n : ℕ) → (packed n).capacity ≡ n
unfolding packed
capacity-packed n = refl

length-unread-packed : (n : ℕ) → n < 2 ^ 32 → length (unread (packed n)) ≡ length (packed n).buf
unfolding packed
length-unread-packed n h =
    omega (arith, length-unread (packed-IsValid n h), length-replicate {A = ℕ} n 0)

read_from_stuck_example :
    (b' : Buffer) × (read_from sample_kernel 5 (packed 8192) []
      ≡ some (buffer_size_maximum, b', []))
    × IsValid b'
    × (unread b' ≡ unread (packed 8192))
    × (8192 ≤ b'.capacity)
    × (length (unread b') ≡ length b'.buf)
read_from_stuck_example =
    read_from_stuck sample_kernel 5 [] (packed-IsValid 8192 (omega arith))
      (omega (arith, capacity-packed 8192)) (length-unread-packed 8192 (omega arith))
