-- ===== src/RingBuffer/Queue.antt =====
-- The ring against a queue of at most 1024 bytes.
use pqnet.Common.Words.{sub_size}
use pqnet.Common.{
  not, ◌&&◌, ltb, Option, none, some, Bool-cases, ℕ, ◌+◌, ◌≤◌, ◌<◌, ◌≡◌, refl, sym, ap, ◌∙◌, ◌⊎◌,
  inl, inr, Bool, true, false, List, [], ◌∷◌, ◌++◌, length, take, drop, leb, le→leb, ◌==◌,
  if◌then◌else◌, arith, All, take-append, drop-append, length-replicate,
}
use mathlib.Core.Path.{subst}
use pqnet.Endian.{ByteOrder, little, big, object_bytes, of_bytes, of_le_bytes}
use pqnet.Endian.Laws.{length-object_bytes}
use pqnet.RingBuffer.Defs.{
  RingBuffer, new, get, append, append_int, get_int, has_readable, readable_bytes, size, store,
  strncpy, memcpy,
}
use pqnet.RingBuffer.Contents.{contents, IsValid, contents_empty, readable_bytes_lem}
use pqnet.RingBuffer.Reading.{get_lem}
use pqnet.RingBuffer.Writing.{Takes}
use pqnet.RingBuffer.Storing.{memcpy-Copies, strncpy-Copies, store_lem}

pub data Op : Type 0 where
  puts : List ℕ → Op
  puts_int : ByteOrder → ℕ → ℕ → Op
  gets : ℕ → Op
  gets_int : ByteOrder → ℕ → Op

pub data Out : Type 0 where
  taken : Bool → Out
  given : List ℕ → Out
  number : ℕ → Out

abbrev pub numbered : Option (ℕ × RingBuffer) → Option (Out × RingBuffer)
numbered none = none
numbered (some (x, r)) = some (number x, r)

-- `none` is a copy outside of the integer to give.
abbrev pub ring_step : Op → RingBuffer → Option (Out × RingBuffer)
ring_step (puts bytes) r = let (b, r') = append r bytes in some (taken b, r')
ring_step (puts_int o k x) r = let (b, r') = append_int o k r x in some (taken b, r')
ring_step (gets n) r = let (bs, r') = get r n in some (given bs, r')
ring_step (gets_int o k) r = numbered (get_int o k r)

-- The queue: bytes enter whole or not at all, and leave whole or not at all.
abbrev pub enter : List ℕ → List ℕ → Out × List ℕ
enter bytes q =
    if leb (length q + length bytes) 1024 then (taken true, q ++ bytes) else (taken false, q)

abbrev pub queue_step : Op → List ℕ → Out × List ℕ
queue_step (puts bytes) q = enter bytes q
queue_step (puts_int o k x) q = enter (object_bytes o k x) q
queue_step (gets n) q = if leb n (length q) then (given (take n q), drop n q) else (given [], q)
queue_step (gets_int o k) q =
    if leb k (length q) then (number (of_bytes o (take k q)), drop k q) else (number 0, q)

-- One byte or more; and for `append`, whose copy stops at a zero byte, no zero.
abbrev pub IsUsual : Op → Type 0
IsUsual (puts bytes) = (0 < length bytes) × All (λ c. (c == 0) ≡ false) bytes
IsUsual (puts_int o k x) = 0 < k
IsUsual (gets n) = 0 < n
IsUsual (gets_int o k) = 0 < k

-- The operation is for an integer that goes over the end of the array, one byte of it or more before
-- the end.
abbrev pub GoesRound : Op → RingBuffer → Type 0
GoesRound (gets_int o k) r = (k ≤ length (contents r)) × (r.r_idx < 1024) × (1024 < r.r_idx + k)
GoesRound _ r = ⊥

-- An answer of the ring that is the queue's, and what holds of the two after it.
abbrev pub Next :
    Op → (RingBuffer → List ℕ → Type 0) → RingBuffer → List ℕ → Option (Out × RingBuffer) → Type 0
Next op Rest r q none = GoesRound op r
Next op Rest r q (some (out, r')) = (out ≡ (queue_step op q).0) × Rest r' (queue_step op q).1

-- The ring answers as the queue does, up to a copy outside of an integer that goes round.
abbrev pub Follows : List Op → RingBuffer → List ℕ → Type 0
Follows [] r q = Unit
Follows (op ∷ ops) r q = Next op (Follows ops) r q (ring_step op r)

-- A step of the ring is that of the queue.
abbrev Agrees : Out × RingBuffer → Out × List ℕ → Type 0
Agrees (out, r) (out', q) = (out ≡ out') × (contents r ≡ q) × IsValid r

enter-Agrees :
    (copy : ℕ → List ℕ → List ℕ) (r : RingBuffer) (bytes : List ℕ)
    → IsValid r
    → ((length (contents r) + length bytes ≤ 1024)
        × (r1 : RingBuffer) × (store copy r bytes (length bytes) ≡ (true, r1))
        × Takes r bytes r1)
      ⊎ ((1024 < length (contents r) + length bytes)
          × (store copy r bytes (length bytes) ≡ (false, r)))
    → let (b, r') = store copy r bytes (length bytes) in
      Agrees (taken b, r') (enter bytes (contents r))
enter-Agrees copy r bytes v (inl (h, r1, f, (c, w))) =
    rw f (rw (le→leb (length (contents r) + length bytes) 1024 h) ((refl, c, w)))
enter-Agrees copy r bytes v (inr (h, f)) =
    let g : leb (length (contents r) + length bytes) 1024 ≡ false = ground arith in
    rw f (rw g ((refl, refl, v)))

-- The ring answers and the queue too, or the ring fails.
abbrev Answers : Op → Option (Out × RingBuffer) → RingBuffer → Type 0
Answers op none r = GoesRound op r
Answers op (some a) r = Agrees a (queue_step op (contents r))

gets-Agrees :
    (n : ℕ) (r : RingBuffer)
    → IsValid r
    → 0 < n
    → let (bs, r') = get r n in Agrees (given bs, r') (queue_step (gets n) (contents r))
gets-Agrees n r v p = elim (get_lem r n v p) [
  | inl (h, (c, l, w)) ↦
      let (xs, r') = get r n in
      rw (le→leb n (length (contents r)) h) (
        (
          ap given (sym (ap (λ t. take n t) c ∙ take-append n xs (contents r') (sym l))),
          sym (ap (λ t. drop n t) c ∙ drop-append n xs (contents r') (sym l)),
          w,
        ))
  | inr (h, e) ↦
      let g : leb n (length (contents r)) ≡ false = ground arith in rw g (rw e ((refl, refl, v)))
]

passes :
    (r : RingBuffer) (k : ℕ)
    → IsValid r
    → ((not (ltb r.r_idx r.w_idx) && not (leb k (sub_size size r.r_idx)))
        && ltb 0 (sub_size size r.r_idx))
      ≡ true
    → (r.r_idx < 1024) × (1024 < r.r_idx + k)
passes r k v e = ground (arith, e, v.reads)

of_bytes_nil : (o : ByteOrder) → of_bytes o [] ≡ 0
unfolding of_bytes of_le_bytes
of_bytes_nil little = refl
of_bytes_nil big = refl

-- What an integer is read from is what `get` gives.
get_int_cases :
    (o : ByteOrder) (k : ℕ) (r : RingBuffer)
    → IsValid r
    → ((get_int o k r ≡ none) × GoesRound (gets_int o k) r)
      ⊎ (get_int o k r ≡ some (of_bytes o (get r k).0, (get r k).1))
unfolding get_int get has_readable
get_int_cases o k r v =
    let len1 = sub_size size r.r_idx in
    let bad = (not (ltb r.r_idx r.w_idx) && not (leb k len1)) && ltb 0 len1 in
    elim (Bool-cases (leb k (readable_bytes r))) [
      | inl b ↦ elim (Bool-cases bad) [
        | inl e ↦
            let (x, y) = passes r k v e in
            inl (rw b (rw e refl), (ground (arith, readable_bytes_lem v, b), x, y))
        | inr e ↦ inr (rw b (rw e refl))
      ]
      | inr b ↦ inr (rw b (ap (λ x. some (x, r)) (sym (of_bytes_nil o))))
    ]

decode : ByteOrder → Out → Out
decode o (given bs) = number (of_bytes o bs)
decode o out = out

number_agrees :
    (o : ByteOrder) (k : ℕ) (r : RingBuffer) {out : Out}
    → given (get r k).0 ≡ out
    → number (of_bytes o (get r k).0) ≡ decode o out
unfolding decode
number_agrees o k r e = ap (decode o) e

decode-queue :
    (o : ByteOrder) (k : ℕ) (q : List ℕ)
    → (decode o (queue_step (gets k) q).0 ≡ (queue_step (gets_int o k) q).0)
      × ((queue_step (gets k) q).1 ≡ (queue_step (gets_int o k) q).1)
unfolding decode
decode-queue o k q = elim (Bool-cases (leb k (length q))) [
  | inl e ↦ rw e (refl, refl)
  | inr e ↦ rw e (ap number (of_bytes_nil o), refl)
]

step-Answers : (op : Op) (r : RingBuffer) → IsValid r → IsUsual op → Answers op (ring_step op r) r
unfolding append append_int
step-Answers (puts bytes) r v (p, a) =
    enter-Agrees strncpy r bytes v (store_lem strncpy r bytes v (strncpy-Copies bytes a) p)
step-Answers (puts_int o k x) r v p =
    let bytes = object_bytes o k x in
    let l : length bytes ≡ k = length-object_bytes o k x in
    subst
      (λ n. let (b, r') = store memcpy r bytes n in Agrees (taken b, r') (enter bytes (contents r)))
      l
      (enter-Agrees memcpy r bytes v
        (store_lem memcpy r bytes v (memcpy-Copies bytes) (omega (arith, l))))
step-Answers (gets n) r v p = gets-Agrees n r v p
step-Answers (gets_int o k) r v p = elim (get_int_cases o k r v) [
  | inl (e, g) ↦ rw e g
  | inr e ↦
      let (a, b, w) = gets-Agrees k r v p in
      let (x, y) = decode-queue o k (contents r) in
      subst (λ a. Answers (gets_int o k) (numbered a) r) (sym e)
        (number_agrees o k r a ∙ x, b ∙ y, w)
]

Follows-ring :
    (ops : List Op) (r : RingBuffer) → IsValid r → All IsUsual ops → Follows ops r (contents r)
Follows-ring [] r v u = tt
Follows-ring (op ∷ ops) r v (u, us) =
    go (ring_step op r) (step-Answers op r v u) (λ r' w. Follows-ring ops r' w us)
  where
    go :
        (a : Option (Out × RingBuffer))
        → Answers op a r
        → ((r' : RingBuffer) → IsValid r' → Follows ops r' (contents r'))
        → Next op (Follows ops) r (contents r) a
    go none g next = g
    go (some (out, r')) (e, c, w) next = (e, subst (λ q. Follows ops r' q) c (next r' w))

new-IsValid : IsValid new
unfolding new
new-IsValid = record {
  sized = length-replicate {A = ℕ} 1024 0;
  reads = omega arith;
  writes = omega arith;
  meets = inl refl;
}

new_empty : contents new ≡ []
unfolding new
new_empty = contents_empty _ refl refl

-- Over any sequence of `append`, `appendIntN`, `get` and `getIntN`, a new ring answers as a queue of at
-- most 1024 bytes does, where bytes and integers enter whole or are refused whole, and leave whole,
-- oldest first; if every operation is for one byte or more, and the bytes of `append` have no zero
-- among them. It does so to the end, or up to a `getIntN` that copies outside of its result, and that
-- is one of an integer that is there and goes over the end of the array, with a byte before the end.
pub ring-refines : (ops : List Op) → All IsUsual ops → Follows ops new []
ring-refines ops u =
    let e : contents new ≡ [] = new_empty in
    subst (λ q. Follows ops new q) e (Follows-ring ops new new-IsValid u)
