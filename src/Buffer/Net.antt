-- ===== src/Buffer/Net.antt =====
-- Buffer's operations on a descriptor: `writeTo` and `readFrom`.
use pqnet.Common.Overwrite.{overwrite}
use pqnet.Common.{
  ℕ, zero, suc, ◌+◌, Bool, true, Option, none, some, List, [], ◌∷◌, length, ltb, leb, if◌then◌else◌,
}
use pqnet.Common.Words.{add_size}
use pqnet.Kernel.{
  ReadResult, got, read_failed, WriteResult, accepted, write_failed, History, Kernel, sys_read,
  sys_write,
}
use pqnet.Buffer.Defs.{
  Buffer, max_size, readable_bytes, writable_bytes, is_writable, double_size, vacate, peek,
}

-- `ssize_t` results: a count, -1, and `BUFFER_SIZE_MAXIMUM` (-2).
pub data Ssize : Type 0 where
  count : ℕ → Ssize
  sys_error buffer_size_maximum : Ssize

-- `writeTo` after write(2).
abbrev pub wrote : Buffer → WriteResult × History → Ssize × Buffer × History
wrote b (accepted n, h) =
    (count n, (if ltb 0 n then record b { reader_index = add_size b.reader_index n } else b), h)
wrote b (write_failed, h) = (sys_error, b, h)

unfoldable pub write_to : Kernel → ℕ → Buffer → ℕ → History → Ssize × Buffer × History
write_to k fd b len h =
    let rbs = readable_bytes b in
    if leb len rbs
    then wrote b (sys_write k fd (peek b len) h)
    else wrote b (sys_write k fd (peek b rbs) h)

-- `if (n > 0) num += n;`
abbrev pub added : ℕ → Ssize → Ssize
added num (count n) = count (num + n)
added num _ = count num

-- `writerIndex += num`, the kernel having stored the bytes at beginWrite().
unfoldable pub stored : Buffer → List ℕ → Buffer
stored b bs = record b {
  buf = overwrite b.buf b.writer_index bs;
  writer_index = add_size b.writer_index (length bs);
}

-- `none` is fuel that ran out.
abbrev pub Outcome : Type 0
Outcome = Option (Ssize × Buffer × History)

-- The inner call `readFrom(fd)` adds to the count.
abbrev pub add_count : ℕ → Outcome → Outcome
add_count num none = none
add_count num (some (n, b, h)) = some (added num n, b, h)

-- `if (!isWritable()) { if (!doubleSize()) return BUFFER_SIZE_MAXIMUM; else ... readFrom(fd) ... }`
-- after `num` bytes were stored, with the recursive call as a function.
unfoldable pub go_on : (Buffer → History → Outcome) → ℕ → Buffer → History → Outcome
go_on again num b h =
    if is_writable b
    then some (count num, b, h)
    else let (grown, b') = double_size b in
      let rest = add_count num (again b' h) in
      if grown then rest else some (buffer_size_maximum, b', h)

-- After read(2).
abbrev pub after_read : (Buffer → History → Outcome) → Buffer → ReadResult × History → Outcome
after_read again b (read_failed, h) = some (sys_error, b, h)
after_read again b (got [], h) = some (count 0, b, h)
after_read again b (got (c ∷ cs), h) = go_on again (length (c ∷ cs)) (stored b (c ∷ cs)) h

-- After the vacate: `if (!isWritable()) { if (!doubleSize()) return BUFFER_SIZE_MAXIMUM; }`
unfoldable pub before_read : Buffer → Bool × Buffer
before_read b = if is_writable b then (true, b) else double_size b

-- `readFrom(fd)`, whose recursion takes fuel.
unfoldable pub read_loop : Kernel → ℕ → ℕ → Buffer → History → Outcome
read_loop k fd zero b h = none
read_loop k fd (suc fuel) b h =
    let (room, b') = before_read (vacate b) in
    let r = after_read (read_loop k fd fuel) b' (sys_read k fd (writable_bytes b') h) in
    if room then r else some (buffer_size_maximum, b', h)

-- Each round but the last doubles a capacity below `max_size`.
unfoldable pub read_from : Kernel → ℕ → Buffer → History → Outcome
read_from k fd b h = read_loop k fd (suc max_size) b h
