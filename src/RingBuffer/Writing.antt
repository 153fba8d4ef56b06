-- ===== src/RingBuffer/Writing.antt =====
-- Bytes that enter the ring.
use pqnet.Common.{
  ℕ, ◌+◌, ◌-◌, ◌≤◌, ◌<◌, ◌≡◌, refl, sym, ap, ◌∙◌, inl, inr, true, false, List, ◌++◌, length, take,
  drop, ◌==◌, ==_iff, if◌then◌else◌, arith, append_assoc, length-drop, take_all,
}
use native.Mathlib.Decide.{ℕ_discrete}
use pqnet.Common.Overwrite.{
  overwrite, length-overwrite, window-overwrite, drop-overwrite, take-overwrite, take-overwrite_end,
}
use pqnet.RingBuffer.Defs.{RingBuffer}
use pqnet.RingBuffer.Contents.{
  contents, IsValid, window, ends, contents_around, contents-window, contents-ends,
}

-- `if (rIdx == wIdx) { full = true; }`
abbrev pub flagged : RingBuffer → RingBuffer
flagged r = if r.r_idx == r.w_idx then record r { full = true } else r

-- The ring has taken the bytes behind its own.
abbrev pub Takes : RingBuffer → List ℕ → RingBuffer → Type 0
Takes r bs r' = (contents r' ≡ contents r ++ bs) × IsValid r'

flagged-ends :
    (r : RingBuffer)
    → length r.buf ≡ 1024
    → r.r_idx ≤ 1024
    → r.w_idx ≤ r.r_idx
    → r.full ≡ false
    → (contents (flagged r) ≡ ends r) × IsValid (flagged r)
flagged-ends r s b a f = elim (ℕ_discrete r.r_idx r.w_idx) [
  | yes e ↦ rw ((==_iff r.r_idx r.w_idx).1 e) (
      (
        contents-ends (record r { full = true }) (inr (e, refl)),
        record { sized = s; reads = b; writes = omega arith; meets = inr e },
      ))
  | no n ↦
      let m : (r.r_idx == r.w_idx) ≡ false = ground arith in
      rw m (
        (
          contents-ends r (inl (omega arith)),
          record { sized = s; reads = b; writes = omega arith; meets = inl f },
        ))
]

-- Between the write index and the read index.
pub write_between :
    (r : RingBuffer) (bs : List ℕ)
    → IsValid r
    → r.full ≡ false
    → r.w_idx < r.r_idx
    → r.w_idx + length bs ≤ r.r_idx
    → Takes r bs
        (flagged (record r { buf = overwrite r.buf r.w_idx bs; w_idx = r.w_idx + length bs }))
write_between r bs v f a k =
    let buf' = overwrite r.buf r.w_idx bs in
    let r' : RingBuffer = record r { buf = buf'; w_idx = r.w_idx + length bs } in
    let s = length-overwrite r.buf r.w_idx bs (omega (arith, v.sized, v.reads)) in
    let (c, w) = flagged-ends r' (s ∙ v.sized) v.reads k f in
    let d = drop-overwrite r.buf bs r.w_idx r.r_idx k (omega (arith, v.sized, v.reads)) in
    let t =
      take-overwrite_end r.buf bs r.w_idx (r.w_idx + length bs) refl
        (omega (arith, v.sized, v.reads)) in
    (
      c
          ∙ ap (λ x. x ++ take (r.w_idx + length bs) buf') d
          ∙ ap (λ x. drop r.r_idx r.buf ++ x) t
          ∙ sym (append_assoc (drop r.r_idx r.buf) (take r.w_idx r.buf) bs)
          ∙ ap (λ x. x ++ bs) (sym (contents_around r a)),
      w,
    )

-- Up to the end of the array.
pub write_end :
    (r : RingBuffer) (bs : List ℕ)
    → IsValid r
    → r.full ≡ false
    → r.r_idx ≤ r.w_idx
    → 0 < length bs
    → r.w_idx + length bs ≤ 1024
    → Takes r bs
        (flagged (record r { buf = overwrite r.buf r.w_idx bs; w_idx = r.w_idx + length bs }))
write_end r bs v f a p k =
    let buf' = overwrite r.buf r.w_idx bs in
    let r' : RingBuffer = record r { buf = buf'; w_idx = r.w_idx + length bs } in
    let s = length-overwrite r.buf r.w_idx bs (omega (arith, v.sized)) in
    let m : (r.r_idx == r.w_idx + length bs) ≡ false = ground arith in
    rw m (
      (
        contents-window r' (omega arith) f
            ∙ window-overwrite r.buf bs r.r_idx r.w_idx a (omega (arith, v.sized))
            ∙ ap (λ x. x ++ bs) (sym (contents-window r a f)),
        record { sized = s ∙ v.sized; reads = v.reads; writes = k; meets = inl f },
      ))

-- To both ends of the array.
pub write_round :
    (r : RingBuffer) (bs1 bs2 : List ℕ)
    → IsValid r
    → r.full ≡ false
    → r.r_idx ≤ r.w_idx
    → r.w_idx + length bs1 ≡ 1024
    → length bs2 ≤ r.r_idx
    → Takes r (bs1 ++ bs2) (
        flagged
          (record r { buf = overwrite (overwrite r.buf r.w_idx bs1) 0 bs2; w_idx = length bs2 }))
write_round r bs1 bs2 v f a k h =
    let buf1 = overwrite r.buf r.w_idx bs1 in
    let buf2 = overwrite buf1 0 bs2 in
    let r' : RingBuffer = record r { buf = buf2; w_idx = length bs2 } in
    let s1 = length-overwrite r.buf r.w_idx bs1 (omega (arith, v.sized)) ∙ v.sized in
    let s2 = length-overwrite buf1 0 bs2 (omega (arith, s1, v.reads)) ∙ s1 in
    let (c, w) = flagged-ends r' s2 v.reads h f in
    let d2 = drop-overwrite buf1 bs2 0 r.r_idx (omega arith) (omega (arith, s1, v.reads)) in
    let d1 =
      sym (
        take_all (r.w_idx + length bs1 - r.r_idx) (drop r.r_idx buf1)
          (omega (arith, length-drop r.r_idx buf1, s1)))
      ∙ window-overwrite r.buf bs1 r.r_idx r.w_idx a (omega (arith, v.sized)) in
    (
      c
          ∙ ap (λ x. x ++ take (length bs2) buf2) (d2 ∙ d1)
          ∙ ap (λ x. (window r ++ bs1) ++ x) (take-overwrite buf1 bs2 (length bs2) refl)
          ∙ append_assoc (window r) bs1 bs2
          ∙ ap (λ x. x ++ (bs1 ++ bs2)) (sym (contents-window r a f)),
      w,
    )
