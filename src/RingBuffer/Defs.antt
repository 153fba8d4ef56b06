-- ===== src/RingBuffer/Defs.antt =====
-- ringbuffer.h. The two kinds of copy into the array are an argument of `store`: std::strncpy, which
-- stops at a zero byte and fills up with zeros, and std::memcpy.
use pqnet.Common.{
  ℕ, zero, suc, Bool, true, false, not, ◌&&◌, Option, none, some, List, [], ◌∷◌, ◌++◌, length, take,
  drop, replicate, ltb, leb, ◌==◌, if◌then◌else◌,
}
use pqnet.Common.Overwrite.{overwrite}
use pqnet.Common.Words.{add_size, sub_size}
use pqnet.Endian.{ByteOrder, object_bytes, of_bytes}

abbrev pub size : ℕ
size = 1024

pub record RingBuffer : Type 0 where
  pub buf : List ℕ
  pub full : Bool
  pub r_idx : ℕ
  pub w_idx : ℕ

unfoldable pub new : RingBuffer
new = record { buf = replicate size 0; full = false; r_idx = 0; w_idx = 0 }

unfoldable pub readable_bytes : RingBuffer → ℕ
readable_bytes r =
    if ltb r.r_idx r.w_idx
    then sub_size r.w_idx r.r_idx
    else if ltb r.w_idx r.r_idx
    then add_size (sub_size size r.r_idx) r.w_idx
    else if r.full
    then size
    else 0

unfoldable pub writable_bytes : RingBuffer → ℕ
writable_bytes r =
    if ltb r.w_idx r.r_idx
    then sub_size r.r_idx r.w_idx
    else if ltb r.r_idx r.w_idx
    then add_size (sub_size size r.w_idx) r.r_idx
    else if r.full
    then 0
    else size

unfoldable pub is_readable : RingBuffer → Bool
is_readable r = ltb 0 (readable_bytes r)

unfoldable pub is_writable : RingBuffer → Bool
is_writable r = ltb 0 (writable_bytes r)

unfoldable pub has_readable : RingBuffer → ℕ → Bool
has_readable r len = leb len (readable_bytes r)

unfoldable pub has_writable : RingBuffer → ℕ → Bool
has_writable r len = leb len (writable_bytes r)

-- `len` bytes of the array from an index on
abbrev pub piece : List ℕ → ℕ → ℕ → List ℕ
piece xs at len = take len (drop at xs)

-- `std::strncpy(_, data, n)`
unfoldable pub strncpy : ℕ → List ℕ → List ℕ
strncpy zero bytes = []
strncpy (suc n) [] = 0 ∷ strncpy n []
strncpy (suc n) (c ∷ bytes) =
    let rest = c ∷ strncpy n bytes in if c == 0 then 0 ∷ strncpy n [] else rest

-- `std::memcpy(_, data, n)`
unfoldable pub memcpy : ℕ → List ℕ → List ℕ
memcpy n bytes = take n bytes

-- `get` past its guard
unfoldable pub take_out : RingBuffer → ℕ → List ℕ × RingBuffer
take_out r len =
    let r1 = if r.r_idx == r.w_idx then record r { full = false } else r in
    let len1 = sub_size size r.r_idx in
    let len2 = sub_size len len1 in
    if ltb r.r_idx r.w_idx
    then (piece r.buf r.r_idx len, record r { r_idx = add_size r.r_idx len })
    else if leb len len1
    then (piece r.buf r.r_idx len, record r1 { r_idx = add_size r.r_idx len })
    else (piece r.buf r.r_idx len1 ++ piece r.buf 0 len2, record r1 { r_idx = len2 })

unfoldable pub get : RingBuffer → ℕ → List ℕ × RingBuffer
get r len = if not (has_readable r len) then ([], r) else take_out r len

-- `append` and `appendIntN` past their guard, before the test for the full ring
unfoldable pub put_in : (ℕ → List ℕ → List ℕ) → RingBuffer → List ℕ → ℕ → RingBuffer
put_in copy r bytes len =
    let len1 = sub_size size r.w_idx in
    let len2 = sub_size len len1 in
    if ltb r.w_idx r.r_idx
    then record r { buf = overwrite r.buf r.w_idx (copy len bytes); w_idx = add_size r.w_idx len }
    else if leb len len1
    then record r { buf = overwrite r.buf r.w_idx (copy len bytes); w_idx = add_size r.w_idx len }
    else record r {
      buf = overwrite (overwrite r.buf r.w_idx (copy len1 bytes)) 0 (copy len2 (drop len1 bytes));
      w_idx = len2;
    }

unfoldable pub store : (ℕ → List ℕ → List ℕ) → RingBuffer → List ℕ → ℕ → Bool × RingBuffer
store copy r bytes len =
    let r1 = put_in copy r bytes len in
    let r2 = if r1.r_idx == r1.w_idx then record r1 { full = true } else r1 in
    if not (has_writable r len) then (false, r) else (true, r2)

-- `append(data, len)`, the list being `data[0 .. len)`
unfoldable pub append : RingBuffer → List ℕ → Bool × RingBuffer
append r bytes = store strncpy r bytes (length bytes)

-- `appendIntN`, for integers of `k` bytes
unfoldable pub append_int : ByteOrder → ℕ → RingBuffer → ℕ → Bool × RingBuffer
append_int o k r x = store memcpy r (object_bytes o k x) k

-- `getIntN`. `none` is a copy to `&result + len1`, which lies outside of `result` unless `len1` is 0:
-- the pointer counts in integers, not in bytes.
unfoldable pub get_int : ByteOrder → ℕ → RingBuffer → Option (ℕ × RingBuffer)
get_int o k r =
    let (read, r') = take_out r k in
    let len1 = sub_size size r.r_idx in
    let goes_round = not (ltb r.r_idx r.w_idx) && not (leb k len1) in
    if not (has_readable r k)
    then some (0, r)
    else if goes_round && ltb 0 len1
    then none
    else some (of_bytes o read, r')

module _ (o : ByteOrder) (r : RingBuffer) where
  unfoldable pub get_int8 : Option (ℕ × RingBuffer)
  get_int8 = get_int o 1 r

  unfoldable pub get_int16 : Option (ℕ × RingBuffer)
  get_int16 = get_int o 2 r

  unfoldable pub get_int32 : Option (ℕ × RingBuffer)
  get_int32 = get_int o 4 r

  unfoldable pub get_int64 : Option (ℕ × RingBuffer)
  get_int64 = get_int o 8 r

  unfoldable pub append_int8 : ℕ → Bool × RingBuffer
  append_int8 x = append_int o 1 r x

  unfoldable pub append_int16 : ℕ → Bool × RingBuffer
  append_int16 x = append_int o 2 r x

  unfoldable pub append_int32 : ℕ → Bool × RingBuffer
  append_int32 x = append_int o 4 r x

  unfoldable pub append_int64 : ℕ → Bool × RingBuffer
  append_int64 x = append_int o 8 r x
