-- ===== src/Buffer/Contents.antt =====
-- What each operation does to the unread bytes, the ones between the two indices.
use pqnet.Common.Overwrite.{overwrite, take-overwrite, window-overwrite}
use pqnet.Common.{
  ℕ, ◌+◌, ◌-◌, ◌*◌, ◌%◌, ◌^◌, ◌≤◌, ◌≡◌, refl, sym, ap, ◌∙◌, some, List, ◌++◌, arith, length, take,
  drop, replicate, length-drop, take-append_le, drop-append_le, take_all, drop_all, take-take,
  drop-drop, take-drop,
}
use pqnet.Buffer.Defs.{
  Buffer, resize, double_size, vacate, make_space, put, append, get, unread, peek,
}
use pqnet.Buffer.Valid.{IsValid, readable_bytes_lem, length-unread, make_space-IsValid}

-- Bytes inside the old vector are where they were.
window-append :
    (r n : ℕ) (xs ys : List ℕ) → r + n ≤ length xs → take n (drop r (xs ++ ys)) ≡ take n (drop r xs)
window-append r n xs ys h =
    ap (take n) (drop-append_le r xs ys (omega arith))
    ∙ take-append_le n (drop r xs) ys (omega (arith, length-drop r xs))

unread-resize : {b : Buffer} (n : ℕ) → IsValid b → length b.buf ≤ n → unread (resize b n) ≡ unread b
unfolding unread resize
unread-resize {b} n v h = ground (
  arith,
  take_all n b.buf h,
  window-append b.reader_index (b.writer_index - b.reader_index) b.buf
      (replicate (n - length b.buf) 0),
)

pub unread-double_size : {b : Buffer} → IsValid b → unread (double_size b).1 ≡ unread b
unfolding double_size
unread-double_size {b} v = ground (arith, unread-resize (2 * b.capacity % 2 ^ 64) v)

-- `vacate` moves the unread bytes to the front and changes none.
pub unread-vacate : {b : Buffer} → IsValid b → unread (vacate b) ≡ unread b
unfolding unread vacate
unread-vacate {b} v =
    take-overwrite b.buf (unread b) _ (omega (arith, readable_bytes_lem v, length-unread v))

-- `std::copy` to the write index, in bounds, adds its bytes at the end.
pub unread-overwrite :
    {b : Buffer} (bs : List ℕ)
    → IsValid b
    → b.writer_index + length bs ≤ length b.buf
    → unread (record b {
      buf = overwrite b.buf b.writer_index bs;
      writer_index = (b.writer_index + length bs) % 2 ^ 64;
    })
      ≡ unread b ++ bs
unfolding unread
unread-overwrite {b} bs v h =
    let e : (b.writer_index + length bs) % 2 ^ 64 ≡ b.writer_index + length bs = omega arith in
    rw e (window-overwrite b.buf bs b.reader_index b.writer_index v.ordered h)

pub unread-put :
    (b : Buffer) (bs : List ℕ) (b' : Buffer)
    → IsValid b
    → put b bs ≡ some b'
    → unread b' ≡ unread b ++ bs
unfolding put
unread-put b bs b' v e = ground (arith, unread-overwrite bs v)

pub unread-make_space : {b : Buffer} (len : ℕ) → IsValid b → unread (make_space b len) ≡ unread b
unfolding make_space
unread-make_space len v = ground (arith, unread-double_size v, unread-vacate v)

-- On a valid buffer, an `append` that stays inside the vector adds its bytes at the end of the
-- unread ones, whether it found room, made room by moving the bytes, or made room by doubling.
pub unread-append :
    (b : Buffer) (bs : List ℕ) {b' : Buffer}
    → IsValid b
    → append b bs ≡ some b'
    → unread b' ≡ unread b ++ bs
unfolding append
unread-append b bs {b'} v e = ground (
  arith,
  unread-put b bs b' v,
  unread-put (make_space b (length bs)) bs b' (make_space-IsValid (length bs) v),
  unread-make_space (length bs) v,
)

pub peek_lem :
    (b : Buffer) (n : ℕ) → n ≤ b.writer_index - b.reader_index → peek b n ≡ take n (unread b)
unfolding unread
peek_lem b n h = sym (take-take n (b.writer_index - b.reader_index) (drop b.reader_index b.buf) h)

-- Moving the read index drops bytes from the front.
pub unread-advance :
    {b : Buffer} (n : ℕ)
    → IsValid b
    → n ≤ b.writer_index - b.reader_index
    → unread (record b { reader_index = (b.reader_index + n) % 2 ^ 64 }) ≡ drop n (unread b)
unfolding unread
unread-advance {b} n v h =
    let e : (b.reader_index + n) % 2 ^ 64 ≡ b.reader_index + n = omega arith in
    rw e (
      ap (take (b.writer_index - (b.reader_index + n)))
        (sym (drop-drop n b.reader_index (b.reader_index + n) b.buf refl))
      ∙ take-drop _ n (b.writer_index - b.reader_index) (drop b.reader_index b.buf) (omega arith))

-- `get(len)` hands out the first `len` unread bytes, or all there are, and removes just those.
pub get_lem :
    {b : Buffer} (len : ℕ)
    → IsValid b
    → ((get b len).0 ≡ take len (unread b)) × (unread (get b len).1 ≡ drop len (unread b))
unfolding get
get_lem {b} len v =
    let n = b.writer_index - b.reader_index in
    ground (
      arith,
      readable_bytes_lem v,
      length-unread v,
      peek_lem b len,
      peek_lem b n,
      unread-advance len v,
      unread-advance n v,
      take_all len (unread b),
      take_all n (unread b),
      drop_all len (unread b),
      drop_all n (unread b),
    )
