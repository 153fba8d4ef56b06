-- ===== src/Buffer/Append.antt =====
-- When `append` stays inside the vector.
use pqnet.Common.Overwrite.{overwrite}
use pqnet.Common.{
  ℕ, ◌+◌, ◌-◌, ◌*◌, ◌%◌, ◌^◌, ◌≤◌, ◌<◌, ◌≡◌, ◌⊎◌, ◌↔◌, inl, inr, true, false, none, some, List,
  arith, length, Bool-cases,
}
use pqnet.Buffer.Defs.{Buffer, max_size, front_bytes, has_writable, make_space, put, append}
use pqnet.Buffer.Valid.{
  vacate_room, IsValid, writable_bytes_lem, double_size_lem, double_size_refuses,
  indices-double_size,
}

-- The room for `len` bytes behind the unread ones: as it is, after moving these to the front, or
-- after one doubling, which the code does only below `max_size`.
abbrev pub Fits : Buffer → ℕ → Type 0
Fits b len =
    (b.writer_index - b.reader_index + len ≤ length b.buf)
    ⊎ ((b.capacity < max_size) × (b.writer_index + len ≤ 2 * length b.buf))

abbrev Inside : Buffer → ℕ → Type 0
Inside b len = b.writer_index + len ≤ length b.buf

put-Inside :
    (b : Buffer) (bs : List ℕ) → Inside b (length bs) → (b' : Buffer) × (put b bs ≡ some b')
unfolding put
put-Inside b bs h = (
  record b {
    buf = overwrite b.buf b.writer_index bs;
    writer_index = (b.writer_index + length bs) % 2 ^ 64;
  },
  ground arith,
)

put_outside : (b : Buffer) (bs : List ℕ) → ¬ Inside b (length bs) → put b bs ≡ none
unfolding put
put_outside b bs h = ground arith

has_writable-Inside :
    {b : Buffer} (len : ℕ) → IsValid b → (has_writable b len ≡ true) ↔ Inside b len
unfolding has_writable
has_writable-Inside len v = ground (arith, writable_bytes_lem v)

make_space-Inside :
    {b : Buffer} (len : ℕ) → IsValid b → ¬ Inside b len → Inside (make_space b len) len ↔ Fits b len
unfolding make_space front_bytes
make_space-Inside {b} len v h = ground (
  arith,
  writable_bytes_lem v,
  vacate_room v,
  double_size_lem v,
  double_size_refuses b,
  indices-double_size b,
)

append_parts :
    {b : Buffer} (bs : List ℕ)
    → IsValid b
    → (Fits b (length bs) → (b' : Buffer) × (append b bs ≡ some b'))
      × (¬ Fits b (length bs) → append b bs ≡ none)
unfolding append
append_parts {b} bs v = elim (Bool-cases (has_writable b (length bs))) [
  | inl room ↦
      let fit : Inside b (length bs) = (has_writable-Inside (length bs) v).0 room in
      (λ _. rw room (put-Inside b bs fit), λ no_fit. absurd (no_fit (inl (omega arith))))
  | inr tight ↦
      let spaced = make_space-Inside (length bs) v (not_inside tight) in
      let m = make_space b (length bs) in
      (
        λ fit. rw tight (put-Inside m bs (spaced.1 fit)),
        λ no_fit. rw tight (put_outside m bs (λ i. no_fit (spaced.0 i))),
      )
]
  where
    not_inside : has_writable b (length bs) ≡ false → ¬ Inside b (length bs)
    not_inside e i = ground (arith, (has_writable-Inside (length bs) v).1 i)

Fits-cases : (b : Buffer) (len : ℕ) → Fits b len ⊎ (¬ Fits b len)
Fits-cases b len = ground arith

-- On a valid buffer `append` stays inside the vector exactly when the bytes fit behind the unread
-- ones, once these are moved to the front, or fit behind the write index after one doubling of a
-- capacity below 8192. If they do not fit, it copies past the end.
pub append_in_bounds :
    {b : Buffer} (bs : List ℕ)
    → IsValid b
    → (Fits b (length bs) × (b' : Buffer) × (append b bs ≡ some b'))
      ⊎ ((¬ Fits b (length bs)) × (append b bs ≡ none))
append_in_bounds {b} bs v = elim (Fits-cases b (length bs)) [
  | inl fit ↦ let (b', e) = (append_parts bs v).0 fit in inl (fit, b', e)
  | inr no_fit ↦ inr (no_fit, (append_parts bs v).1 no_fit)
]

pub append-Fits :
    {b : Buffer} (bs : List ℕ)
    → IsValid b
    → Fits b (length bs)
    → (b' : Buffer) × (append b bs ≡ some b')
append-Fits bs v fit = (append_parts bs v).0 fit
