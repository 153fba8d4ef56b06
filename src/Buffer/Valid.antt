-- ===== src/Buffer/Valid.antt =====
-- The invariant of the indices, and that every operation on memory keeps it.
use pqnet.Common.Overwrite.{length-overwrite}
use pqnet.Common.{
  ℕ, ◌+◌, ◌-◌, ◌*◌, ◌%◌, ◌^◌, ◌≤◌, ◌<◌, ◌≡◌, true, false, some, List, arith, ◌⊎◌, inl, inr, length,
  drop, replicate, length-append, length-take, length-drop, length-replicate,
}
use pqnet.Buffer.Defs.{
  Buffer, init, max_size, readable_bytes, writable_bytes, has_readable, resize, double_size, vacate,
  make_space, put, append, get, get_int, unread,
}
use pqnet.Endian.{ByteOrder}

-- The vector is as long as its capacity, and no `std::size_t` comes near its end.
pub record IsValid (b : Buffer) : Type 0 where
  pub ordered : b.reader_index ≤ b.writer_index
  pub inside : b.writer_index ≤ length b.buf
  pub full : b.capacity ≡ length b.buf
  pub small : b.capacity < 2 ^ 32

pub init-IsValid : (size : ℕ) → size < 2 ^ 32 → IsValid (init size)
unfolding init
init-IsValid size h = omega (arith, length-replicate {A = ℕ} size 0)

-- On a valid buffer the three sizes do not wrap.
pub readable_bytes_lem :
    {b : Buffer} → IsValid b → readable_bytes b ≡ b.writer_index - b.reader_index
unfolding readable_bytes
readable_bytes_lem v = omega arith

pub writable_bytes_lem : {b : Buffer} → IsValid b → writable_bytes b ≡ length b.buf - b.writer_index
unfolding writable_bytes
writable_bytes_lem v = omega arith

pub length-unread : {b : Buffer} → IsValid b → length (unread b) ≡ b.writer_index - b.reader_index
unfolding unread
length-unread {b} v = omega (
  arith,
  length-take (b.writer_index - b.reader_index) (drop b.reader_index b.buf),
  length-drop b.reader_index b.buf,
)

length-buf-resize : (b : Buffer) (n : ℕ) → length b.buf ≤ n → length (resize b n).buf ≡ n
unfolding resize
length-buf-resize b n h = ground (
  arith,
  length-take n b.buf,
  length-append b.buf (replicate (n - length b.buf) 0),
  length-replicate {A = ℕ} (n - length b.buf) 0,
)

capacity-resize :
    (b : Buffer) (n : ℕ)
    → b.capacity ≡ length b.buf
    → n ≡ length b.buf + length b.buf
    → (resize b n).capacity ≡ n
unfolding resize
capacity-resize b n h k = ground arith

-- A doubled vector is twice as long, its indices are where they were.
pub double_size_lem :
    {b : Buffer}
    → IsValid b
    → b.capacity < max_size
    → (length (double_size b).1.buf ≡ 2 * length b.buf)
      × ((double_size b).1.capacity ≡ 2 * length b.buf)
      × ((double_size b).0 ≡ true)
unfolding double_size
double_size_lem {b} v h =
    let n : ℕ = 2 * b.capacity % 2 ^ 64 in
    let e : n ≡ length b.buf + length b.buf = omega arith in
    ground (arith, length-buf-resize b n (omega arith), capacity-resize b n v.full e)

pub indices-double_size :
    (b : Buffer)
    → ((double_size b).1.reader_index ≡ b.reader_index)
      × ((double_size b).1.writer_index ≡ b.writer_index)
unfolding double_size resize
indices-double_size b = ground arith

pub double_size_refuses : (b : Buffer) → max_size ≤ b.capacity → double_size b ≡ (false, b)
unfolding double_size
double_size_refuses b h = ground arith

pub double_size-IsValid : {b : Buffer} → IsValid b → IsValid (double_size b).1
double_size-IsValid {b} v = elim (Nat-cases b.capacity) [
  | inl h ↦ ground (arith, double_size_lem v h, indices-double_size b)
  | inr h ↦ ground (arith, double_size_refuses b h)
]
  where
    Nat-cases : (n : ℕ) → (n < max_size) ⊎ (max_size ≤ n)
    Nat-cases n = ground arith

pub vacate-IsValid : {b : Buffer} → IsValid b → IsValid (vacate b)
unfolding vacate
vacate-IsValid {b} v =
    omega (arith, readable_bytes_lem v, length-unread v, length-overwrite b.buf 0 (unread b))

pub make_space-IsValid : {b : Buffer} (len : ℕ) → IsValid b → IsValid (make_space b len)
unfolding make_space
make_space-IsValid len v = ground (arith, double_size-IsValid v, vacate-IsValid v)

pub put-IsValid :
    (b : Buffer) (bs : List ℕ) (b' : Buffer) → IsValid b → put b bs ≡ some b' → IsValid b'
unfolding put
put-IsValid b bs b' v e = ground (arith, length-overwrite b.buf b.writer_index bs)

-- Whatever `append` returns is valid.
pub append-IsValid :
    (b : Buffer) (bs : List ℕ) {b' : Buffer} → IsValid b → append b bs ≡ some b' → IsValid b'
unfolding append
append-IsValid b bs {b'} v e = ground (
  arith,
  put-IsValid b bs b' v,
  put-IsValid (make_space b (length bs)) bs b' (make_space-IsValid (length bs) v),
)

pub get-IsValid : {b : Buffer} (len : ℕ) → IsValid b → IsValid (get b len).1
unfolding get
get-IsValid len v = ground (arith, readable_bytes_lem v)

pub get_int-IsValid : {b : Buffer} (o : ByteOrder) (k : ℕ) → IsValid b → IsValid (get_int o k b).1
unfolding get_int has_readable
get_int-IsValid o k v = ground (arith, readable_bytes_lem v)

pub capacity-vacate : (b : Buffer) → (vacate b).capacity ≡ b.capacity
unfolding vacate
capacity-vacate b = ground arith

-- After a `vacate` the unread bytes stand at the front.
pub vacate_room :
    {b : Buffer}
    → IsValid b
    → ((vacate b).writer_index ≡ b.writer_index - b.reader_index)
      × (length (vacate b).buf ≡ length b.buf)
unfolding vacate
vacate_room {b} v =
    ground (arith, readable_bytes_lem v, length-unread v, length-overwrite b.buf 0 (unread b))
