-- ===== src/Buffer/Write.antt =====
-- `writeTo`: what the kernel takes is what leaves the front of the unread bytes.
use pqnet.Common.{
  ℕ, ◌-◌, ◌≤◌, ◌≡◌, refl, ap, ◌∙◌, ◌⊎◌, inl, inr, ◌++◌, append-nil, append_assoc, arith, length,
  take, drop, ltb, take-append-drop, take_all, take-take, length-take, if◌then◌else◌,
}
use pqnet.Kernel.{
  WriteResult, accepted, write_failed, History, Kernel, sys_write, sent_on, count_of, sys_write-le,
  sent_on-sys_write,
}
use pqnet.Common.Words.{add_size}
use pqnet.Buffer.Defs.{Buffer, unread}
use pqnet.Buffer.Net.{count, sys_error, wrote, write_to}
use pqnet.Buffer.Valid.{IsValid, readable_bytes_lem, length-unread}
use pqnet.Buffer.Contents.{unread-advance, peek_lem}

-- The bytes that `writeTo(fd, len)` offers: the first `len` unread ones, or all there are.
write_to_offer :
    (k : Kernel) (fd len : ℕ) {b : Buffer} (h : History)
    → IsValid b
    → write_to k fd b len h ≡ wrote b (sys_write k fd (take len (unread b)) h)
unfolding write_to
write_to_offer k fd len {b} h v =
    let n = b.writer_index - b.reader_index in
    ground (
      arith,
      readable_bytes_lem v,
      length-unread v,
      peek_lem b len,
      peek_lem b n,
      take_all len (unread b),
      take_all n (unread b),
    )

-- `if (num > 0) { readerIndex += num; }`
advanced :
    {b : Buffer} (n : ℕ)
    → IsValid b
    → n ≤ length (unread b)
    → let b' = if ltb 0 n then record b { reader_index = add_size b.reader_index n } else b in
      IsValid b' × (unread b' ≡ drop n (unread b))
advanced {b} n v h = ground (arith, length-unread v, unread-advance n v)

-- `writeTo(fd, len)` on a valid buffer, for every kernel: the bytes taken for the descriptor, with
-- those still unread, are the bytes that were unread; the buffer is valid; the result is the count
-- taken, or -1 with nothing taken.
pub write_to_lem :
    (k : Kernel) (fd len : ℕ) {b : Buffer} (h : History)
    → IsValid b
    → let (n, b', h') = write_to k fd b len h in
      (sent_on fd h' ++ unread b' ≡ sent_on fd h ++ unread b)
      × IsValid b'
      × (((n ≡ sys_error) × (unread b' ≡ unread b))
          ⊎ ((m : ℕ) × (n ≡ count m) × (unread b' ≡ drop m (unread b))))
write_to_lem k fd len {b} h v =
    let u = unread b in
    rw (write_to_offer k fd len h v) (
      go (sys_write k fd (take len u) h) (sys_write-le k fd (take len u) h)
        (sent_on-sys_write k fd (take len u) h))
  where
    go :
        (r : WriteResult × History)
        → count_of r.0 ≤ length (take len (unread b))
        → sent_on fd r.1 ≡ sent_on fd h ++ take (count_of r.0) (take len (unread b))
        → let (n, b', h') = wrote b r in
          (sent_on fd h' ++ unread b' ≡ sent_on fd h ++ unread b)
          × IsValid b'
          × (((n ≡ sys_error) × (unread b' ≡ unread b))
              ⊎ ((m : ℕ) × (n ≡ count m) × (unread b' ≡ drop m (unread b))))
    go (write_failed, g) le eq = (ap (λ z. z ++ unread b) (eq ∙ append-nil _), v, inl (refl, refl))
    go (accepted n, g) le eq =
        let u = unread b in
        let a = advanced n v (omega (arith, length-take len u)) in
        (
          rw (eq, a.1, take-take n len u (omega (arith, length-take len u)))
              (append_assoc (sent_on fd h) (take n u) (drop n u)
                ∙ ap (λ z. sent_on fd h ++ z) (take-append-drop n u)),
          a.0,
          inr (n, refl, a.1),
        )
