-- ===== src/RingBuffer/Contents.antt =====
-- The queue of bytes that a ring stands for.
use pqnet.Common.{
  ℕ, ◌+◌, ◌-◌, ◌≤◌, ◌<◌, ◌≡◌, refl, ap, sym, ◌∙◌, ◌⊎◌, inl, inr, true, false, List, [], ◌++◌,
  length, take, drop, ltb, if◌then◌else◌, arith, length-append, length-take, length-drop, lt→ltb,
}
use native.Mathlib.Decide.{dec_lt}
use pqnet.RingBuffer.Defs.{RingBuffer, readable_bytes, writable_bytes}

-- The unread bytes, oldest first.
unfoldable pub contents : RingBuffer → List ℕ
contents r =
    if ltb r.r_idx r.w_idx
    then take (r.w_idx - r.r_idx) (drop r.r_idx r.buf)
    else if ltb r.w_idx r.r_idx
    then drop r.r_idx r.buf ++ take r.w_idx r.buf
    else if r.full
    then drop r.r_idx r.buf ++ take r.w_idx r.buf
    else []

-- The indices stand in the array or at its end, and only a ring whose indices meet is marked full.
pub record IsValid (r : RingBuffer) : Type 0 where
  pub sized : length r.buf ≡ 1024
  pub reads : r.r_idx ≤ 1024
  pub writes : r.w_idx ≤ 1024
  pub meets : (r.full ≡ false) ⊎ (r.r_idx ≡ r.w_idx)

-- The window between the indices, and the two ends of the array that go round.
abbrev pub window : RingBuffer → List ℕ
window r = take (r.w_idx - r.r_idx) (drop r.r_idx r.buf)

abbrev pub ends : RingBuffer → List ℕ
ends r = drop r.r_idx r.buf ++ take r.w_idx r.buf

pub contents_inside : (r : RingBuffer) → r.r_idx < r.w_idx → contents r ≡ window r
unfolding contents
contents_inside r a = rw (lt→ltb r.r_idx r.w_idx a) refl

pub contents_around : (r : RingBuffer) → r.w_idx < r.r_idx → contents r ≡ ends r
unfolding contents
contents_around r a =
    let b : ltb r.r_idx r.w_idx ≡ false = ground arith in rw b (rw (lt→ltb r.w_idx r.r_idx a) refl)

pub contents_full : (r : RingBuffer) → r.r_idx ≡ r.w_idx → r.full ≡ true → contents r ≡ ends r
unfolding contents
contents_full r e f =
    let a : ltb r.r_idx r.w_idx ≡ false = ground arith in
    let b : ltb r.w_idx r.r_idx ≡ false = ground arith in rw a (rw b (rw f refl))

pub contents_empty : (r : RingBuffer) → r.r_idx ≡ r.w_idx → r.full ≡ false → contents r ≡ []
unfolding contents
contents_empty r e f =
    let a : ltb r.r_idx r.w_idx ≡ false = ground arith in
    let b : ltb r.w_idx r.r_idx ≡ false = ground arith in rw a (rw b (rw f refl))

-- Where the write index is not behind and the ring not full, and where it is behind or the ring full.
pub contents-window : (r : RingBuffer) → r.r_idx ≤ r.w_idx → r.full ≡ false → contents r ≡ window r
contents-window r a f = elim (dec_lt r.r_idx r.w_idx) [
  | yes b ↦ contents_inside r b
  | no b ↦
      let e : r.r_idx ≡ r.w_idx = omega arith in
      let z : r.w_idx - r.r_idx ≡ 0 = omega arith in
      contents_empty r e f ∙ sym (ap (λ n. take n (drop r.r_idx r.buf)) z)
]

pub contents-ends :
    (r : RingBuffer)
    → (r.w_idx < r.r_idx) ⊎ ((r.r_idx ≡ r.w_idx) × (r.full ≡ true))
    → contents r ≡ ends r
contents-ends r (inl a) = contents_around r a
contents-ends r (inr (e, f)) = contents_full r e f

pub length-window : {r : RingBuffer} → IsValid r → length (window r) ≡ r.w_idx - r.r_idx
length-window {r} v = omega (
  arith,
  length-take (r.w_idx - r.r_idx) (drop r.r_idx r.buf),
  length-drop r.r_idx r.buf,
  v.sized,
  v.reads,
  v.writes,
)

pub length-ends : {r : RingBuffer} → IsValid r → length (ends r) ≡ 1024 - r.r_idx + r.w_idx
length-ends {r} v = omega (
  arith,
  length-append (drop r.r_idx r.buf) (take r.w_idx r.buf),
  length-take r.w_idx r.buf,
  length-drop r.r_idx r.buf,
  v.sized,
  v.reads,
  v.writes,
)

-- `readableBytes` counts the unread bytes.
pub readable_bytes_lem : {r : RingBuffer} → IsValid r → readable_bytes r ≡ length (contents r)
unfolding readable_bytes contents
readable_bytes_lem {r} v =
    ground (arith, length-window v, length-ends v, v.reads, v.writes, v.meets)

-- `writableBytes` counts the rest of the 1024.
pub writable_bytes_lem :
    {r : RingBuffer} → IsValid r → writable_bytes r + length (contents r) ≡ 1024
unfolding writable_bytes contents
writable_bytes_lem {r} v =
    ground (arith, length-window v, length-ends v, v.reads, v.writes, v.meets)

pub contents-le : {r : RingBuffer} → IsValid r → length (contents r) ≤ 1024
contents-le v = omega (arith, writable_bytes_lem v)
