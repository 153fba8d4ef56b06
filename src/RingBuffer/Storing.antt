-- ===== src/RingBuffer/Storing.antt =====
-- Copies into the ring, whole and by its interface.
use pqnet.Common.{
  ℕ, zero, suc, ◌+◌, ◌-◌, ◌≤◌, ◌<◌, ◌≡◌, refl, sym, ap, ◌∙◌, ◌⊎◌, inl, inr, true, false, List, [],
  ◌∷◌, ◌++◌, length, take, drop, ltb, leb, leb→le, ltb→lt, Bool-cases, ◌==◌, arith, length-take,
  length-drop, take-append-drop, take_all, All,
}
use pqnet.Common.Words.{add_size, sub_size}
use pqnet.RingBuffer.Defs.{RingBuffer, writable_bytes, has_writable, put_in, store, strncpy, memcpy}
use pqnet.RingBuffer.Contents.{
  contents, IsValid, contents_around, contents_full, contents-window, length-window, length-ends,
  writable_bytes_lem,
}
use pqnet.RingBuffer.Writing.{flagged, Takes, write_between, write_end, write_round}

-- A copy function that takes over the bytes of a sequence, piece by piece.
abbrev pub Copies : (ℕ → List ℕ → List ℕ) → List ℕ → Type 0
Copies copy bytes = (m n : ℕ) → m + n ≤ length bytes → copy n (drop m bytes) ≡ take n (drop m bytes)

pub memcpy-Copies : (bytes : List ℕ) → Copies memcpy bytes
unfolding memcpy
memcpy-Copies bytes m n h = refl

strncpy_lem :
    (n : ℕ) (bytes : List ℕ)
    → All (λ c. (c == 0) ≡ false) bytes
    → n ≤ length bytes
    → strncpy n bytes ≡ take n bytes
unfolding strncpy
strncpy_lem zero bytes a h = refl
strncpy_lem (suc n) [] a h = absurd (omega arith)
strncpy_lem (suc n) (c ∷ bytes) (p, a) h =
    rw p (ap (λ t. c ∷ t) (strncpy_lem n bytes a (omega arith)))

All-drop : (P : ℕ → Type 0) (m : ℕ) (xs : List ℕ) → All P xs → All P (drop m xs)
All-drop P zero xs a = a
All-drop P (suc m) [] a = tt
All-drop P (suc m) (x ∷ xs) (p, a) = All-drop P m xs a

-- `std::strncpy` does, where no byte is zero.
pub strncpy-Copies : (bytes : List ℕ) → All (λ c. (c == 0) ≡ false) bytes → Copies strncpy bytes
strncpy-Copies bytes a m n h =
    strncpy_lem n (drop m bytes) (All-drop (λ c. (c == 0) ≡ false) m bytes a)
      (omega (arith, length-drop m bytes))

-- A ring with room is not marked full.
not_full : {r : RingBuffer} → IsValid r → length (contents r) < 1024 → r.full ≡ false
not_full {r} v h = elim (Bool-cases r.full) [
  | inr f ↦ f
  | inl f ↦ elim v.meets [
    | inl g ↦ absurd (cc)
    | inr m ↦
        let l = ap length (contents_full r m f) in absurd (omega (arith, l, length-ends v, v.reads))
  ]
]

module _ (copy : ℕ → List ℕ → List ℕ) (r : RingBuffer) (bytes : List ℕ) where
  -- Past its guard, writing puts the bytes in.
  pub put_in-Takes :
      IsValid r
      → Copies copy bytes
      → 0 < length bytes
      → length (contents r) + length bytes ≤ 1024
      → Takes r bytes (flagged (put_in copy r bytes (length bytes)))
  unfolding put_in
  put_in-Takes v k p h =
      let len = length bytes in
      let whole : copy len bytes ≡ bytes =
        k 0 len (omega arith) ∙ take_all len bytes (omega arith) in
      let f : r.full ≡ false = not_full v (omega arith) in
      let n1 : sub_size 1024 r.w_idx ≡ 1024 - r.w_idx = omega (arith, v.writes) in
      elim (Bool-cases (ltb r.w_idx r.r_idx)) [
        | inl c ↦
            let a = ltb→lt r.w_idx r.r_idx c in
            let l = ap length (contents_around r a) in
            let n : add_size r.w_idx len ≡ r.w_idx + len =
              omega (arith, l, length-ends v, v.reads) in
            rw c (
              rw whole
                (rw n (write_between r bytes v f a (omega (arith, l, length-ends v, v.reads)))))
        | inr c ↦
            let a : r.r_idx ≤ r.w_idx = ground arith in
            let l = ap length (contents-window r a f) in
            let len1 = 1024 - r.w_idx in
            elim (Bool-cases (leb len len1)) [
              | inl d ↦
                  let e : r.w_idx + len ≤ 1024 = omega (arith, leb→le len len1 d, v.writes) in
                  let n : add_size r.w_idx len ≡ r.w_idx + len = omega arith in
                  rw c (rw n1 (rw d (rw whole (rw n (write_end r bytes v f a p e)))))
              | inr d ↦
                  let g : len1 < len = ground arith in
                  let n2 : sub_size len len1 ≡ len - len1 = omega (arith, l, length-window v) in
                  let c1 : copy len1 bytes ≡ take len1 bytes = k 0 len1 (omega arith) in
                  let l1 = length-take len1 bytes in
                  let l2 = length-drop len1 bytes in
                  let c2 : copy (len - len1) (drop len1 bytes) ≡ drop len1 bytes =
                    k len1 (len - len1) (omega arith)
                    ∙ take_all (len - len1) (drop len1 bytes) (omega (arith, l2)) in
                  let (x, y) =
                    write_round r (take len1 bytes) (drop len1 bytes) v f a
                      (omega (arith, l1, v.writes))
                      (omega (arith, l2, l, length-window v, v.writes)) in
                  rw c (
                    rw n1 (
                      rw d (
                        rw n2 (
                          rw c1 (
                            rw c2 (
                              rw (sym l2) (
                                (
                                  x ∙ ap (λ t. contents r ++ t) (take-append-drop len1 bytes),
                                  y,
                                ))))))))
            ]
      ]

  -- Writing takes all the bytes if there is room for them, and none if there is not.
  pub store_lem :
      IsValid r
      → Copies copy bytes
      → 0 < length bytes
      → ((length (contents r) + length bytes ≤ 1024)
          × (r' : RingBuffer) × (store copy r bytes (length bytes) ≡ (true, r'))
          × Takes r bytes r')
        ⊎ ((1024 < length (contents r) + length bytes)
            × (store copy r bytes (length bytes) ≡ (false, r)))
  unfolding store has_writable
  store_lem v k p =
      let e = writable_bytes_lem v in
      elim (Bool-cases (leb (length bytes) (writable_bytes r))) [
        | inl b ↦
            let h : length (contents r) + length bytes ≤ 1024 =
              omega (arith, leb→le (length bytes) (writable_bytes r) b, e) in
            inl (h, flagged (put_in copy r bytes (length bytes)), rw b refl, put_in-Takes v k p h)
        | inr b ↦ inr (ground (arith, e), rw b refl)
      ]
