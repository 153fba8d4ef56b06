-- ===== src/Buffer/Read.antt =====
-- `readFrom`: it ends, it keeps every byte that the kernel delivered, and where it gets stuck.
use pqnet.Common.Overwrite.{length-overwrite}
use pqnet.Common.{
  ℕ, zero, suc, ◌+◌, ◌≤◌, ◌<◌, ◌≡◌, refl, sym, ap, ◌∙◌, ◌⊎◌, inl, inr, false, none, some, List, [],
  ◌∷◌, ◌++◌, append-nil, append_assoc, arith, length, Bool-cases, length-append, if◌then◌else◌,
}
use pqnet.Kernel.{
  ReadResult, got, read_failed, History, Kernel, sys_read, received_on, bytes_of, sys_read-le,
  received_on-sys_read, OnlyReads, no_read, OnlyReads-trans, sys_read-OnlyReads,
}
use pqnet.Buffer.Defs.{Buffer, max_size, writable_bytes, is_writable, double_size, vacate, unread}
use pqnet.Buffer.Net.{
  Ssize, count, sys_error, buffer_size_maximum, stored, added, add_count, go_on, Outcome,
  after_read, before_read, read_loop, read_from,
}
use pqnet.Buffer.Valid.{
  IsValid, writable_bytes_lem, double_size_lem, double_size_refuses, double_size-IsValid,
  vacate-IsValid, capacity-vacate, vacate_room, length-unread,
}
use pqnet.Buffer.Contents.{unread-double_size, unread-vacate, unread-overwrite}

-- A call that returns 0 stored no byte, one that returns a larger count stored at least that many,
-- and one that returns -1 stored none.
abbrev pub Counts : Ssize → List ℕ → Type 0
Counts (count n) xs = ((n ≡ 0) × (xs ≡ [])) ⊎ ((0 < n) × (n ≤ length xs))
Counts sys_error xs = xs ≡ []
Counts buffer_size_maximum xs = Unit {0}

-- The call returns, what came in on the descriptor meanwhile is what joined the unread bytes, and
-- nothing but read(2) was called.
abbrev pub Reads : ℕ → Buffer → History → Outcome → Type 0
Reads fd b h none = ⊥
Reads fd b h (some (n, b', h')) =
    (xs : List ℕ) × (unread b' ≡ unread b ++ xs)
    × (received_on fd h' ≡ received_on fd h ++ xs)
    × IsValid b'
    × Counts n xs
    × OnlyReads h h'

before_read_lem :
    {b : Buffer}
    → IsValid b
    → IsValid (before_read b).1
      × (unread (before_read b).1 ≡ unread b)
      × (b.capacity ≤ (before_read b).1.capacity)
unfolding before_read
before_read_lem {b} v =
    ground
      (arith, double_size-IsValid v, unread-double_size v, double_size_lem v, double_size_refuses b)

stored_lem :
    {b : Buffer} (bs : List ℕ)
    → IsValid b
    → length bs ≤ writable_bytes b
    → IsValid (stored b bs)
      × (unread (stored b bs) ≡ unread b ++ bs)
      × ((stored b bs).writer_index ≡ b.writer_index + length bs)
unfolding stored
stored_lem {b} bs v h =
    let room : b.writer_index + length bs ≤ length b.buf = omega (arith, writable_bytes_lem v) in
    let here : b.reader_index ≤ b.writer_index + length bs = omega arith in
    (
      record {
        ordered = omega arith;
        inside = omega (arith, length-overwrite b.buf b.writer_index bs);
        full = omega (arith, length-overwrite b.buf b.writer_index bs);
        small = v.small;
      },
      unread-overwrite bs v room,
      omega arith,
    )

-- Bytes stored before a recursive call come before those that it stores.
add_count-Reads :
    (fd num : ℕ) (xs : List ℕ) (b0 b : Buffer) (h0 h : History) (r : Outcome)
    → unread b ≡ unread b0 ++ xs
    → received_on fd h ≡ received_on fd h0 ++ xs
    → OnlyReads h0 h
    → num ≡ length xs
    → 0 < num
    → Reads fd b h r
    → Reads fd b0 h0 (add_count num r)
add_count-Reads fd num xs b0 b h0 h none e1 e2 eo en pos r = r
add_count-Reads fd num xs b0 b h0 h (some (n, b', h')) e1 e2 eo en pos (ys, f1, f2, v, c, o) = (
  xs ++ ys,
  f1 ∙ ap (λ z. z ++ ys) e1 ∙ append_assoc (unread b0) xs ys,
  f2 ∙ ap (λ z. z ++ ys) e2 ∙ append_assoc (received_on fd h0) xs ys,
  v,
  counts n c,
  OnlyReads-trans eo o,
)
  where
    counts : (n : Ssize) → Counts n ys → Counts (added num n) (xs ++ ys)
    counts (count n) c = inr (omega arith, omega (arith, length-append xs ys, c))
    counts sys_error c = inr (omega arith, omega (arith, length-append xs ys))
    counts buffer_size_maximum c = inr (omega arith, omega (arith, length-append xs ys))

go_on-Reads :
    (fd num : ℕ) (xs : List ℕ) (b0 b : Buffer) (h0 h : History) (again : Buffer → History → Outcome)
    → unread b ≡ unread b0 ++ xs
    → received_on fd h ≡ received_on fd h0 ++ xs
    → OnlyReads h0 h
    → num ≡ length xs
    → 0 < num
    → IsValid b
    → 0 < b.capacity
    → ((c : Buffer) (g : History)
        → IsValid c
        → b.capacity < max_size
        → b.capacity < c.capacity
        → Reads fd c g (again c g))
    → Reads fd b0 h0 (go_on again num b h)
unfolding go_on
go_on-Reads fd num xs b0 b h0 h again e1 e2 eo en pos v filled ih =
    elim (Bool-cases (is_writable b)) [
      | inl room ↦ rw room ((xs, e1, e2, v, inr (omega arith, omega arith), eo))
      | inr tight ↦ rw tight (grow (lt-or-le b.capacity max_size))
    ]
  where
    lt-or-le : (m n : ℕ) → (m < n) ⊎ (n ≤ m)
    lt-or-le m n = ground arith

    c : Buffer
    c = (double_size b).1

    grow :
        (b.capacity < max_size) ⊎ (max_size ≤ b.capacity)
        → Reads fd b0 h0 (
            let (grown, b') = double_size b in
            let rest = add_count num (again b' h) in
            if grown then rest else some (buffer_size_maximum, b', h))
    grow (inl small) =
        let d = double_size_lem v small in
        rw (d.2) (
          add_count-Reads fd num xs b0 c h0 h (again c h) (unread-double_size v ∙ e1) e2 eo en pos
            (ih c h (double_size-IsValid v) small (omega arith)))
    grow (inr large) = rw (double_size_refuses b large) ((xs, e1, e2, v, tt, eo))

after_read-Reads :
    (k : Kernel) (fd : ℕ) (b0 b : Buffer) (h : History) (again : Buffer → History → Outcome)
    → unread b ≡ unread b0
    → IsValid b
    → ((c : Buffer) (g : History)
        → IsValid c
        → b.capacity < max_size
        → b.capacity < c.capacity
        → Reads fd c g (again c g))
    → Reads fd b0 h (after_read again b (sys_read k fd (writable_bytes b) h))
unfolding stored
after_read-Reads k fd b0 b h again e v ih =
    go (sys_read k fd (writable_bytes b) h) (sys_read-le k fd (writable_bytes b) h)
      (received_on-sys_read k fd (writable_bytes b) h)
      (sys_read-OnlyReads k fd (writable_bytes b) h)
  where
    go :
        (r : ReadResult × History)
        → length (bytes_of r.0) ≤ writable_bytes b
        → received_on fd r.1 ≡ received_on fd h ++ bytes_of r.0
        → OnlyReads h r.1
        → Reads fd b0 h (after_read again b r)
    go (read_failed, g) le eq eo = ([], e ∙ sym (append-nil _), eq, v, refl, eo)
    go (got [], g) le eq eo = ([], e ∙ sym (append-nil _), eq, v, inl (refl, refl), eo)
    go (got (x ∷ xs), g) le eq eo =
        let s = stored_lem (x ∷ xs) v le in
        go_on-Reads fd (length (x ∷ xs)) (x ∷ xs) b0 (stored b (x ∷ xs)) h g again
          (s.1 ∙ ap (λ z. z ++ x ∷ xs) e) eq eo refl (omega arith) s.0
          (omega (arith, writable_bytes_lem v)) ih

-- Within the fuel, each call of `readFrom` returns.
read_loop-Reads :
    (k : Kernel) (fd fuel : ℕ) (b : Buffer) (h : History)
    → IsValid b
    → 0 < fuel
    → max_size < fuel + b.capacity
    → Reads fd b h (read_loop k fd fuel b h)
unfolding read_loop
read_loop-Reads k fd zero b h v pos enough = absurd (omega arith)
read_loop-Reads k fd (suc fuel) b h v pos enough = elim (Bool-cases (before_read (vacate b)).0) [
  | inl room ↦ rw room (
      after_read-Reads k fd b b' h (read_loop k fd fuel) same p.0 (λ c g w small grown.
        read_loop-Reads k fd fuel c g w (omega (arith, p.2, capacity-vacate b))
          (omega (arith, p.2, capacity-vacate b))))
  | inr stuck ↦ rw stuck (([], same ∙ sym (append-nil _), sym (append-nil _), p.0, tt, no_read))
]
  where
    b' : Buffer
    b' = (before_read (vacate b)).1

    p : IsValid b' × (unread b' ≡ unread (vacate b)) × ((vacate b).capacity ≤ b'.capacity)
    p = before_read_lem (vacate-IsValid v)

    same : unread b' ≡ unread b
    same = p.1 ∙ unread-vacate v

-- `readFrom` on a valid buffer returns, for every kernel. What the kernel delivered on the descriptor
-- is what joined the end of the unread bytes, on every branch; the buffer is valid again; a count
-- is at most the bytes stored, and is 0 only if none were; -1 means that none were; no other
-- system call is made.
pub read_from-Reads :
    (k : Kernel) (fd : ℕ) {b : Buffer} (h : History) → IsValid b → Reads fd b h (read_from k fd b h)
unfolding read_from
read_from-Reads k fd {b} h v = read_loop-Reads k fd (suc max_size) b h v (omega arith) (omega arith)

full_vacated :
    {b : Buffer}
    → IsValid b
    → max_size ≤ b.capacity
    → length (unread b) ≡ length b.buf
    → before_read (vacate b) ≡ (false, vacate b)
unfolding before_read is_writable
full_vacated {b} v large packed =
    let room = vacate_room v in
    ground (
      arith,
      length-unread v,
      capacity-vacate b,
      writable_bytes_lem (vacate-IsValid v),
      double_size_refuses (vacate b),
    )

read_loop_stuck :
    (k : Kernel) (fd fuel : ℕ) (b : Buffer) (h : History)
    → before_read (vacate b) ≡ (false, vacate b)
    → read_loop k fd (suc fuel) b h ≡ some (buffer_size_maximum, vacate b, h)
unfolding read_loop
read_loop_stuck k fd fuel b h e = rw e

-- A buffer of at least 8192 bytes that is full of unread bytes stays as it is: `readFrom` reports
-- BUFFER_SIZE_MAXIMUM and does not read, whatever the peer sends, and the buffer is full again.
pub read_from_stuck :
    (k : Kernel) (fd : ℕ) {b : Buffer} (h : History)
    → IsValid b
    → max_size ≤ b.capacity
    → length (unread b) ≡ length b.buf
    → (b' : Buffer) × (read_from k fd b h ≡ some (buffer_size_maximum, b', h))
      × IsValid b'
      × (unread b' ≡ unread b)
      × (max_size ≤ b'.capacity)
      × (length (unread b') ≡ length b'.buf)
unfolding read_from
read_from_stuck k fd {b} h v large packed = (
  vacate b,
  read_loop_stuck k fd max_size b h (full_vacated v large packed),
  vacate-IsValid v,
  unread-vacate v,
  omega (arith, capacity-vacate b),
  ap length (unread-vacate v) ∙ packed ∙ sym (vacate_room v).1,
)
