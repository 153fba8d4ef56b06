-- ===== src/Buffer/Ints.antt =====
-- Fixed-width integers in a buffer: what goes in comes out, and what happens when bytes are missing.
use pqnet.Common.{
  ℕ, ◌^◌, ◌<◌, ◌≡◌, ap, ◌∙◌, none, some, List, [], ◌++◌, append_assoc, arith, length, take, drop,
  take-append, drop-append, length-append, take_all, drop_all,
}
use pqnet.Endian.{ByteOrder, object_bytes, length-object_bytes, of_bytes-object_bytes, byte_span}
use pqnet.Buffer.Defs.{Buffer, append, append_int32, get, get_int, get_int32, has_readable, unread}
use pqnet.Buffer.Valid.{IsValid, readable_bytes_lem, length-unread, append-IsValid, get_int-IsValid}
use pqnet.Buffer.Contents.{unread-append, unread-advance, peek_lem, get_lem}

-- A `k`-byte integer in front of the unread bytes is what `getInt` returns, and it is removed.
pub get_int_lem :
    (o : ByteOrder) (k x : ℕ) (rest : List ℕ) {b : Buffer}
    → IsValid b
    → x < byte_span k
    → unread b ≡ object_bytes o k x ++ rest
    → ((get_int o k b).0 ≡ some x) × (unread (get_int o k b).1 ≡ rest)
unfolding get_int has_readable
get_int_lem o k x rest {b} v h e = ground (
  arith,
  readable_bytes_lem v,
  length-unread v,
  length-object_bytes o k x,
  length-append (object_bytes o k x) rest,
  peek_lem b k,
  unread-advance k v,
  take-append k (object_bytes o k x) rest,
  drop-append k (object_bytes o k x) rest,
  of_bytes-object_bytes o k x h,
)

-- With fewer than `k` bytes `getInt` hands out a variable that was never set, and removes nothing.
get_int_short :
    (o : ByteOrder) (k : ℕ) {b : Buffer}
    → IsValid b
    → length (unread b) < k
    → get_int o k b ≡ (none, b)
unfolding get_int has_readable
get_int_short o k v h = ground (arith, readable_bytes_lem v, length-unread v)

-- The framing of the examples: a protocol number, the length of the data, the data. On a buffer with
-- nothing unread, three appends that stay in bounds are undone by three reads, where the number and
-- the length are below 2^32.
pub package_roundtrip :
    (o : ByteOrder) (protocol : ℕ) (bytes : List ℕ) {b b1 b2 b3 : Buffer}
    → IsValid b
    → unread b ≡ []
    → protocol < 2 ^ 32
    → length bytes < 2 ^ 32
    → append_int32 o b protocol ≡ some b1
    → append_int32 o b1 (length bytes) ≡ some b2
    → append b2 bytes ≡ some b3
    → let (p, c1) = get_int32 o b3 in
      let (n, c2) = get_int32 o c1 in
      let (d, c3) = get c2 (length bytes) in
      (p ≡ some protocol) × (n ≡ some (length bytes)) × (d ≡ bytes) × (unread c3 ≡ [])
unfolding append_int32 get_int32
package_roundtrip o protocol bytes {b} {b1} {b2} {b3} v e hp hn e1 e2 e3 = (
  first.0,
  second.0,
  third.0 ∙ ap (take (length bytes)) second.1 ∙ take_all (length bytes) bytes (omega arith),
  third.1 ∙ ap (drop (length bytes)) second.1 ∙ drop_all (length bytes) bytes (omega arith),
)
  where
    v1 : IsValid b1
    v1 = append-IsValid b (object_bytes o 4 protocol) v e1

    v2 : IsValid b2
    v2 = append-IsValid b1 (object_bytes o 4 (length bytes)) v1 e2

    v3 : IsValid b3
    v3 = append-IsValid b2 bytes v2 e3

    all : unread b3 ≡ object_bytes o 4 protocol ++ (object_bytes o 4 (length bytes) ++ bytes)
    all =
        unread-append b2 bytes v2 e3
        ∙ ap (λ xs. xs ++ bytes)
            (unread-append b1 (object_bytes o 4 (length bytes)) v1 e2
              ∙ ap (λ xs. xs ++ object_bytes o 4 (length bytes))
                  (unread-append b (object_bytes o 4 protocol) v e1
                    ∙ ap (λ xs. xs ++ object_bytes o 4 protocol) e))
        ∙ append_assoc (object_bytes o 4 protocol) _ bytes

    first :
        ((get_int o 4 b3).0 ≡ some protocol)
        × (unread (get_int o 4 b3).1 ≡ object_bytes o 4 (length bytes) ++ bytes)
    first = get_int_lem o 4 protocol _ v3 hp all

    c1 : Buffer
    c1 = (get_int o 4 b3).1

    second : ((get_int o 4 c1).0 ≡ some (length bytes)) × (unread (get_int o 4 c1).1 ≡ bytes)
    second = get_int_lem o 4 (length bytes) bytes (get_int-IsValid o 4 v3) hn first.1

    third :
        ((get (get_int o 4 c1).1 (length bytes)).0
          ≡ take (length bytes) (unread (get_int o 4 c1).1))
        × (unread (get (get_int o 4 c1).1 (length bytes)).1
            ≡ drop (length bytes) (unread (get_int o 4 c1).1))
    third = get_lem (length bytes) (get_int-IsValid o 4 (get_int-IsValid o 4 v3))
