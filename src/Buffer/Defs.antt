-- ===== src/Buffer/Defs.antt =====
-- Buffer's operations on memory. `none` stands for a copy past the end of the vector, which C++
-- leaves undefined.
use pqnet.Common.Overwrite.{overwrite}
use pqnet.Common.{
  ℕ, ◌+◌, ◌-◌, Bool, true, false, Option, none, some, List, ◌++◌, length, take, drop, replicate,
  ltb, leb, if◌then◌else◌,
}
use pqnet.Common.Words.{add_size, sub_size, mul_size}
use pqnet.Endian.{ByteOrder, object_bytes, of_bytes}

-- `capacity` is that of the vector `buf`.
pub record Buffer : Type 0 where
  pub buf : List ℕ
  pub capacity : ℕ
  pub reader_index : ℕ
  pub writer_index : ℕ

abbrev pub max_size : ℕ
max_size = 8192

-- `Buffer(size)`: a vector of `size` zeros, which allocates just that.
unfoldable pub init : ℕ → Buffer
init size = record { buf = replicate size 0; capacity = size; reader_index = 0; writer_index = 0 }

unfoldable pub front_bytes : Buffer → ℕ
front_bytes b = b.reader_index

unfoldable pub readable_bytes : Buffer → ℕ
readable_bytes b = sub_size b.writer_index b.reader_index

unfoldable pub writable_bytes : Buffer → ℕ
writable_bytes b = sub_size (length b.buf) b.writer_index

unfoldable pub is_readable : Buffer → Bool
is_readable b = ltb 0 (readable_bytes b)

unfoldable pub is_writable : Buffer → Bool
is_writable b = ltb 0 (writable_bytes b)

-- `isReadable(len)` and `isWritable(len)`
unfoldable pub has_readable : Buffer → ℕ → Bool
has_readable b len = leb len (readable_bytes b)

unfoldable pub has_writable : Buffer → ℕ → Bool
has_writable b len = leb len (writable_bytes b)

-- `vector::resize(n)`: cuts, or appends zeros; beyond the capacity it allocates what is needed, and
-- at least twice the old size.
unfoldable pub resize : Buffer → ℕ → Buffer
resize b n = record b {
  buf = if leb n (length b.buf) then take n b.buf else b.buf ++ replicate (n - length b.buf) 0;
  capacity =
      if leb n b.capacity
      then b.capacity
      else if leb n (length b.buf + length b.buf)
      then length b.buf + length b.buf
      else n;
}

unfoldable pub double_size : Buffer → Bool × Buffer
double_size b =
    if ltb b.capacity max_size then (true, resize b (mul_size 2 b.capacity)) else (false, b)

-- The bytes of [beginRead(), beginWrite()).
unfoldable pub unread : Buffer → List ℕ
unread b = take (b.writer_index - b.reader_index) (drop b.reader_index b.buf)

unfoldable pub vacate : Buffer → Buffer
vacate b = record b {
  buf = overwrite b.buf 0 (unread b);
  reader_index = 0;
  writer_index = add_size 0 (readable_bytes b);
}

unfoldable pub make_space : Buffer → ℕ → Buffer
make_space b len =
    if ltb (add_size (writable_bytes b) (front_bytes b)) len then (double_size b).1 else vacate b

-- `std::copy(s, s + len, beginWrite()); writerIndex += len;`
unfoldable pub put : Buffer → List ℕ → Option Buffer
put b bs =
    if leb (b.writer_index + length bs) (length b.buf)
    then some (record b {
      buf = overwrite b.buf b.writer_index bs;
      writer_index = add_size b.writer_index (length bs);
    })
    else none

-- `append(data, len)`, the list being `data[0 .. len)`
unfoldable pub append : Buffer → List ℕ → Option Buffer
append b bs = if has_writable b (length bs) then put b bs else put (make_space b (length bs)) bs

-- `appendInt8` to `appendInt64` repeat the body of `append` on the bytes of their argument.
module _ (o : ByteOrder) (b : Buffer) (x : ℕ) where
  unfoldable pub append_int8 : Option Buffer
  append_int8 = append b (object_bytes o 1 x)

  unfoldable pub append_int16 : Option Buffer
  append_int16 = append b (object_bytes o 2 x)

  unfoldable pub append_int32 : Option Buffer
  append_int32 = append b (object_bytes o 4 x)

  unfoldable pub append_int64 : Option Buffer
  append_int64 = append b (object_bytes o 8 x)

-- What `assign(beginRead(), beginRead() + n)` and `memcpy` of `n` bytes read.
abbrev pub peek : Buffer → ℕ → List ℕ
peek b n = take n (drop b.reader_index b.buf)

unfoldable pub get : Buffer → ℕ → List ℕ × Buffer
get b len =
    let rbs = readable_bytes b in
    if leb len rbs
    then (peek b len, record b { reader_index = add_size b.reader_index len })
    else (peek b rbs, record b { reader_index = add_size b.reader_index rbs })

-- The body of `getInt8` to `getInt64`. `none` is the value of a variable that nothing has set: with
-- too few bytes the code returns `result` without a value.
unfoldable pub get_int : ByteOrder → ℕ → Buffer → Option ℕ × Buffer
get_int o k b =
    if has_readable b k
    then (some (of_bytes o (peek b k)), record b { reader_index = add_size b.reader_index k })
    else (none, b)

module _ (o : ByteOrder) (b : Buffer) where
  unfoldable pub get_int8 : Option ℕ × Buffer
  get_int8 = get_int o 1 b

  unfoldable pub get_int16 : Option ℕ × Buffer
  get_int16 = get_int o 2 b

  unfoldable pub get_int32 : Option ℕ × Buffer
  get_int32 = get_int o 4 b

  unfoldable pub get_int64 : Option ℕ × Buffer
  get_int64 = get_int o 8 b
