-- ===== src/RingBuffer/Reading.antt =====
-- Bytes that leave the ring.
use pqnet.Common.{
  ℕ, ◌+◌, ◌-◌, ◌≤◌, ◌<◌, ◌^◌, ◌≡◌, refl, sym, ap, ◌∙◌, ◌⊎◌, inl, inr, true, false, List, [], ◌++◌,
  length, take, drop, ltb, leb, leb→le, ltb→lt, Bool-cases, ◌==◌, ==_iff, if◌then◌else◌, arith,
  append_assoc, length-append, length-take, length-drop, take_split, take-append-drop, drop-drop,
  take_all,
}
use native.Mathlib.Decide.{dec_lt}
use pqnet.Common.Words.{add_size, sub_size}
use pqnet.RingBuffer.Defs.{RingBuffer, readable_bytes, has_readable, piece, take_out, get}
use pqnet.RingBuffer.Contents.{
  contents, IsValid, window, contents_inside, contents-window, contents-ends, contents_empty,
  length-window, length-ends, contents-le, readable_bytes_lem,
}

-- What is read, and the ring after it.
abbrev pub Reads : RingBuffer → ℕ → List ℕ × RingBuffer → Type 0
Reads r len (xs, r') = (contents r ≡ xs ++ contents r') × (length xs ≡ len) × IsValid r'

-- The window is the piece and then the rest of it.
window_split :
    (xs : List ℕ) (i w len : ℕ)
    → i + len ≤ w
    → take (w - i) (drop i xs) ≡ piece xs i len ++ take (w - (i + len)) (drop (i + len) xs)
window_split xs i w len h =
    let e : w - i - len ≡ w - (i + len) = omega arith in
    take_split len (w - i) (drop i xs) (omega arith)
    ∙ ap (λ t. piece xs i len ++ t)
        (ap (λ m. take m (drop len (drop i xs))) e
          ∙ ap (λ t. take (w - (i + len)) t) (drop-drop len i (i + len) xs refl))

read_window :
    (r : RingBuffer) (len : ℕ)
    → IsValid r
    → r.r_idx + len ≤ r.w_idx
    → r.full ≡ false
    → Reads r len (piece r.buf r.r_idx len, record r { r_idx = r.r_idx + len })
read_window r len v k f =
    let r' : RingBuffer = record r { r_idx = r.r_idx + len } in
    (
      contents-window r (omega arith) f
          ∙ window_split r.buf r.r_idx r.w_idx len k
          ∙ ap (λ t. piece r.buf r.r_idx len ++ t) (sym (contents-window r' k f)),
      omega (
        arith,
        length-take len (drop r.r_idx r.buf),
        length-drop r.r_idx r.buf,
        v.sized,
        v.writes,
      ),
      record { sized = v.sized; reads = omega (arith, v.writes); writes = v.writes; meets = inl f },
    )

-- Bytes up to the end of the array.
read_end :
    (r : RingBuffer) (len : ℕ)
    → IsValid r
    → 0 < len
    → r.r_idx + len ≤ 1024
    → (r.w_idx < r.r_idx) ⊎ ((r.r_idx ≡ r.w_idx) × (r.full ≡ true))
    → Reads r len (piece r.buf r.r_idx len, record r { full = false; r_idx = r.r_idx + len })
read_end r len v p k a =
    let r' : RingBuffer = record r { full = false; r_idx = r.r_idx + len } in
    let b : r.w_idx < r.r_idx + len = ground arith in
    let d : drop r.r_idx r.buf ≡ piece r.buf r.r_idx len ++ drop (r.r_idx + len) r.buf =
      sym (take-append-drop len (drop r.r_idx r.buf))
      ∙ ap (λ t. piece r.buf r.r_idx len ++ t) (drop-drop len r.r_idx (r.r_idx + len) r.buf refl) in
    (
      contents-ends r a
          ∙ ap (λ t. t ++ take r.w_idx r.buf) d
          ∙ append_assoc (piece r.buf r.r_idx len) (drop (r.r_idx + len) r.buf) (take r.w_idx r.buf)
          ∙ ap (λ t. piece r.buf r.r_idx len ++ t) (sym (contents-ends r' (inl b))),
      omega (arith, length-take len (drop r.r_idx r.buf), length-drop r.r_idx r.buf, v.sized),
      record { sized = v.sized; reads = k; writes = v.writes; meets = inl refl },
    )

-- Bytes from both ends of the array.
read_round :
    (r : RingBuffer) (len1 len2 : ℕ)
    → IsValid r
    → r.r_idx + len1 ≡ 1024
    → len2 ≤ r.w_idx
    → (r.w_idx < r.r_idx) ⊎ ((r.r_idx ≡ r.w_idx) × (r.full ≡ true))
    → Reads r
        (len1 + len2)
        (piece r.buf r.r_idx len1 ++ piece r.buf 0 len2, record r { full = false; r_idx = len2 })
read_round r len1 len2 v k h a =
    let r' : RingBuffer = record r { full = false; r_idx = len2 } in
    let l1 = length-take len1 (drop r.r_idx r.buf) in
    let l2 = length-drop r.r_idx r.buf in
    let d : drop r.r_idx r.buf ≡ piece r.buf r.r_idx len1 =
      sym (take_all len1 (drop r.r_idx r.buf) (omega (arith, l2, v.sized))) in
    (
      contents-ends r a
          ∙ ap (λ t. t ++ take r.w_idx r.buf) d
          ∙ ap (λ t. piece r.buf r.r_idx len1 ++ t) (take_split len2 r.w_idx r.buf h)
          ∙ sym (append_assoc (piece r.buf r.r_idx len1) (piece r.buf 0 len2) (window r'))
          ∙ ap (λ t. (piece r.buf r.r_idx len1 ++ piece r.buf 0 len2) ++ t)
              (sym (contents-window r' h refl)),
      omega (
        arith,
        length-append (piece r.buf r.r_idx len1) (piece r.buf 0 len2),
        l1,
        l2,
        length-take len2 (drop 0 r.buf),
        v.sized,
        v.writes,
      ),
      record {
        sized = v.sized;
        reads = omega (arith, v.writes);
        writes = v.writes;
        meets = inl refl;
      },
    )

-- The flag after `if (rIdx == wIdx) full = false`.
unflagged :
    (r : RingBuffer)
    → IsValid r
    → (if r.r_idx == r.w_idx then record r { full = false } else r) ≡ record r { full = false }
unflagged r v = elim (Bool-cases (r.r_idx == r.w_idx)) [
  | inl e ↦ rw e refl
  | inr e ↦ rw e (elim v.meets [
    | inl f ↦ ap (λ b. record r { full = b }) f
    | inr m ↦ absurd (let n = (==_iff r.r_idx r.w_idx).1 m in cc)
  ])
]

-- A ring with unread bytes and the write index not ahead holds both ends of the array.
not_ahead :
    (r : RingBuffer)
    → IsValid r
    → 0 < length (contents r)
    → ltb r.r_idx r.w_idx ≡ false
    → (r.w_idx < r.r_idx) ⊎ ((r.r_idx ≡ r.w_idx) × (r.full ≡ true))
not_ahead r v h c = elim (dec_lt r.w_idx r.r_idx) [
  | yes a ↦ inl a
  | no a ↦
      let e : r.r_idx ≡ r.w_idx = ground arith in
      elim (Bool-cases r.full) [
        | inl f ↦ inr (e, f)
        | inr f ↦ absurd (let n = ap length (contents_empty r e f) in omega (arith, n))
      ]
]

-- Past its guard, reading takes the oldest bytes out.
pub take_out-Reads :
    (r : RingBuffer) (len : ℕ)
    → IsValid r
    → 0 < len
    → len ≤ length (contents r)
    → Reads r len (take_out r len)
unfolding take_out
take_out-Reads r len v p h =
    let n : r.r_idx + len < 2 ^ 64 → add_size r.r_idx len ≡ r.r_idx + len = λ q. omega arith in
    let n1 : sub_size 1024 r.r_idx ≡ 1024 - r.r_idx = omega (arith, v.reads) in
    let most : length (contents r) ≤ 1024 = contents-le v in
    elim (Bool-cases (ltb r.r_idx r.w_idx)) [
      | inl c ↦
          let a = ltb→lt r.r_idx r.w_idx c in
          let f : r.full ≡ false = ground (arith, v.meets) in
          let l = ap length (contents_inside r a) in
          let k : r.r_idx + len ≤ r.w_idx = omega (arith, l, length-window v) in
          rw c (rw (n (omega (arith, v.writes))) (read_window r len v k f))
      | inr c ↦
          let a = not_ahead r v (omega arith) c in
          let l = ap length (contents-ends r a) in
          elim (Bool-cases (leb len (1024 - r.r_idx))) [
            | inl d ↦
                let k : r.r_idx + len ≤ 1024 =
                  omega (arith, leb→le len (1024 - r.r_idx) d, v.reads) in
                rw c (
                  rw (unflagged r v) (rw n1 (rw d (rw (n (omega arith)) (read_end r len v p k a)))))
            | inr d ↦
                let len1 = 1024 - r.r_idx in
                let len2 = len - len1 in
                let g : len1 < len = ground arith in
                let n2 : sub_size len len1 ≡ len2 = omega arith in
                let (x, y, z) =
                  read_round r len1 len2 v (omega (arith, v.reads))
                    (omega (arith, l, length-ends v, v.reads)) a in
                rw c (rw (unflagged r v) (rw n1 (rw d (rw n2 ((x, y ∙ omega arith, z))))))
          ]
    ]

-- `get` gives the oldest bytes, or nothing where there are too few.
pub get_lem :
    (r : RingBuffer) (len : ℕ)
    → IsValid r
    → 0 < len
    → ((len ≤ length (contents r)) × Reads r len (get r len))
      ⊎ ((length (contents r) < len) × (get r len ≡ ([], r)))
unfolding get has_readable
get_lem r len v p =
    let e = readable_bytes_lem v in
    elim (Bool-cases (leb len (readable_bytes r))) [
      | inl b ↦
          let h : len ≤ length (contents r) = omega (arith, leb→le len (readable_bytes r) b, e) in
          inl (h, rw b (take_out-Reads r len v p h))
      | inr b ↦ inr (ground (arith, e), rw b refl)
    ]
