-- ===== src/Kernel/Sample.antt =====
-- A kernel for the tests: the first read(2) finds the bytes 7, 8, 9, a later one nothing;
-- write(2) takes two bytes at most, and fails once 30 events have passed.
use pqnet.Common.{
  ℕ, ◌≤◌, ◌≡◌, true, List, [], ◌∷◌, arith, length, take, min, length-take, ltb, if◌then◌else◌,
}
use pqnet.Kernel.Calls.{
  ReadResult, got, read_failed, WriteResult, accepted, write_failed, History, Kernel,
}

abbrev pub first_read : History → ℕ → ReadResult
first_read [] n = got (take n (7 ∷ 8 ∷ 9 ∷ []))
first_read (e ∷ []) n = got (take n (7 ∷ 8 ∷ 9 ∷ []))
first_read (e ∷ f ∷ h) n = read_failed

pub first_read-le : (h : History) (fd n : ℕ) (bs : List ℕ) → first_read h n ≡ got bs → length bs ≤ n
first_read-le [] fd n bs e = ground (arith, length-take {A = ℕ} n (7 ∷ 8 ∷ 9 ∷ []))
first_read-le (x ∷ []) fd n bs e = ground (arith, length-take {A = ℕ} n (7 ∷ 8 ∷ 9 ∷ []))
first_read-le (x ∷ y ∷ h) fd n bs e = absurd (cc)

abbrev pub two_taken : History → List ℕ → WriteResult
two_taken h bs = if ltb (length h) 30 then accepted (min 2 (length bs)) else write_failed

pub two_taken-le :
    (h : History) (fd n : ℕ) (bs : List ℕ) → two_taken h bs ≡ accepted n → n ≤ length bs
two_taken-le h fd n bs e = ground arith

abbrev pub sample_kernel : Kernel
sample_kernel = record {
  read = λ h fd n. first_read h n;
  read-le = first_read-le;
  write = λ h fd bs. two_taken h bs;
  write-le = two_taken-le;
  permits = λ h fd. true;
}

pub never_taken-le :
    (h : History) (fd n : ℕ) (bs : List ℕ) → write_failed ≡ accepted n → n ≤ length bs
never_taken-le h fd n bs e = absurd (cc)

-- The same, but a write(2) always fails, as it does with EAGAIN while the peer does not read.
abbrev pub blocked_kernel : Kernel
blocked_kernel = record sample_kernel { write = λ h fd bs. write_failed; write-le = never_taken-le }
