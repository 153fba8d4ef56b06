-- ===== src/Kernel/Streams.antt =====
-- What one call adds to the byte streams of a descriptor.
use pqnet.Common.{ℕ, ◌≤◌, ◌≡◌, refl, List, [], ◌∷◌, ◌++◌, append-nil, arith, length, take}
use pqnet.Kernel.Calls.{
  ReadResult, got, read_failed, WriteResult, accepted, write_failed, History, Kernel, received,
  read_error, received_on, sent_on, sys_read, sys_write,
}

abbrev pub bytes_of : ReadResult → List ℕ
bytes_of (got bs) = bs
bytes_of read_failed = []

abbrev pub count_of : WriteResult → ℕ
count_of (accepted n) = n
count_of write_failed = 0

module _ (k : Kernel) (fd : ℕ) where
  pub received_on-sys_read :
      (n : ℕ) (h : History)
      → received_on fd (sys_read k fd n h).1 ≡ received_on fd h ++ bytes_of (sys_read k fd n h).0
  unfolding received_on sys_read
  received_on-sys_read n h = ground (arith, append-nil (received_on fd h))

  pub sys_read-le : (n : ℕ) (h : History) → length (bytes_of (sys_read k fd n h).0) ≤ n
  unfolding sys_read
  sys_read-le n h = go (k.read h fd n) refl
    where
      go : (r : ReadResult) → k.read h fd n ≡ r → length (bytes_of (sys_read k fd n h).0) ≤ n
      go (got bs) e = rw (e, sys_read) (k.read-le h fd n bs e)
      go read_failed e = rw (e, sys_read) (omega arith)

  pub sent_on-sys_write :
      (bs : List ℕ) (h : History)
      → sent_on fd (sys_write k fd bs h).1
        ≡ sent_on fd h ++ take (count_of (sys_write k fd bs h).0) bs
  unfolding sent_on sys_write
  sent_on-sys_write bs h = ground (arith, append-nil (sent_on fd h))

  pub sys_write-le : (bs : List ℕ) (h : History) → count_of (sys_write k fd bs h).0 ≤ length bs
  unfolding sys_write
  sys_write-le bs h = go (k.write h fd bs) refl
    where
      go : (r : WriteResult) → k.write h fd bs ≡ r → count_of (sys_write k fd bs h).0 ≤ length bs
      go (accepted n) e = rw (e, sys_write) (k.write-le h fd n bs e)
      go write_failed e = rw (e, sys_write) (omega arith)

  -- A write receives nothing.
  pub received_on-sys_write :
      (bs : List ℕ) (e : ℕ) (h : History) → received_on e (sys_write k fd bs h).1 ≡ received_on e h
  unfolding received_on sys_write
  received_on-sys_write bs e h = ground arith

-- `g` is `h` after some read(2) calls, and nothing else.
pub data OnlyReads (h : History) : History → Type 0 where
  no_read : OnlyReads h h
  one_read :
      {g : History} (fd n : ℕ) (bs : List ℕ) → OnlyReads h g → OnlyReads h (received fd n bs ∷ g)
  one_failed : {g : History} (fd n : ℕ) → OnlyReads h g → OnlyReads h (read_error fd n ∷ g)

pub OnlyReads-trans : {h g f : History} → OnlyReads h g → OnlyReads g f → OnlyReads h f
OnlyReads-trans p no_read = p
OnlyReads-trans p (one_read fd n bs q) = one_read fd n bs (OnlyReads-trans p q)
OnlyReads-trans p (one_failed fd n q) = one_failed fd n (OnlyReads-trans p q)

pub sys_read-OnlyReads : (k : Kernel) (fd n : ℕ) (h : History) → OnlyReads h (sys_read k fd n h).1
unfolding sys_read
sys_read-OnlyReads k fd n h = go (k.read h fd n)
  where
    go :
        (r : ReadResult)
        → OnlyReads h (
            (elim r as (λ _. ReadResult × History) [
              | got bs ↦ (got bs, received fd n bs ∷ h)
              | read_failed ↦ (read_failed, read_error fd n ∷ h)
            ]).1)
    go (got bs) = one_read fd n bs no_read
    go read_failed = one_failed fd n no_read

-- Reading sends nothing.
pub sent_on-OnlyReads : (e : ℕ) {h g : History} → OnlyReads h g → sent_on e g ≡ sent_on e h
unfolding sent_on
sent_on-OnlyReads e no_read = refl
sent_on-OnlyReads e (one_read fd n bs p) = sent_on-OnlyReads e p
sent_on-OnlyReads e (one_failed fd n p) = sent_on-OnlyReads e p
