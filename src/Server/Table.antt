-- ===== src/Server/Table.antt =====
-- The map from descriptors to connections: a list of pairs in the order of the keys.
use pqnet.Common.{
  ℕ, ◌≡◌, ◌≤◌, ◌<◌, refl, sym, ap, ◌∙◌, none, some, List, [], ◌∷◌, ◌++◌, length, get_elem?,
  elem-append, elem-append_end, ◌==◌, if◌then◌else◌, ltb, Bool-cases, inl, inr, arith,
}
use pqnet.Connection.{Conn}
use pqnet.LoopPool
use pqnet.Server.Defs.{Server, put_conn, erase_conn, find_conn}

-- Descriptors above a number, and in ascending order.
abbrev pub Above : ℕ → List (ℕ × ℕ) → Type 0
Above k [] = Unit
Above k ((j, d) ∷ kvs) = (k < j) × Above k kvs

abbrev pub Ascends : List (ℕ × ℕ) → Type 0
Ascends [] = Unit
Ascends ((k, d) ∷ kvs) = Above k kvs × Ascends kvs

Above-less : (j k : ℕ) (kvs : List (ℕ × ℕ)) → j < k → Above k kvs → Above j kvs
Above-less j k [] h a = a
Above-less j k ((i, d) ∷ kvs) h (b, a) = (omega arith, Above-less j k kvs h a)

Above-put_conn :
    (k fd c : ℕ) (kvs : List (ℕ × ℕ)) → k < fd → Above k kvs → Above k (put_conn fd c kvs)
unfolding put_conn
Above-put_conn k fd c [] h a = (h, a)
Above-put_conn k fd c ((j, d) ∷ kvs) h (b, a) =
    let ih = Above-put_conn k fd c kvs h a in
    elim (Bool-cases (ltb fd j)) [
      | inl e ↦ rw e (h, (b, a))
      | inr e ↦ rw e (elim (Bool-cases (ltb j fd)) [ inl f ↦ rw f (b, ih) | inr f ↦ rw f (b, a) ])
    ]

pub put_conn-Ascends : (fd c : ℕ) (kvs : List (ℕ × ℕ)) → Ascends kvs → Ascends (put_conn fd c kvs)
unfolding put_conn
put_conn-Ascends fd c [] a = (a, a)
put_conn-Ascends fd c ((j, d) ∷ kvs) (b, a) =
    let ih = put_conn-Ascends fd c kvs a in
    elim (Bool-cases (ltb fd j)) [
      | inl e ↦ let h : fd < j = ground (arith, e) in rw e ((h, Above-less fd j kvs h b), (b, a))
      | inr e ↦ rw e (elim (Bool-cases (ltb j fd)) [
        | inl f ↦ let h : j < fd = ground (arith, f) in rw f (Above-put_conn j fd c kvs h b, ih)
        | inr f ↦ rw f (b, a)
      ])
    ]

Above-erase_conn : (k fd : ℕ) (kvs : List (ℕ × ℕ)) → Above k kvs → Above k (erase_conn fd kvs)
unfolding erase_conn
Above-erase_conn k fd [] a = a
Above-erase_conn k fd ((j, d) ∷ kvs) (b, a) =
    let ih = Above-erase_conn k fd kvs a in
    elim (Bool-cases (j == fd)) [ inl e ↦ rw e a | inr e ↦ rw e (b, ih) ]

pub erase_conn-Ascends : (fd : ℕ) (kvs : List (ℕ × ℕ)) → Ascends kvs → Ascends (erase_conn fd kvs)
unfolding erase_conn
erase_conn-Ascends fd [] a = a
erase_conn-Ascends fd ((j, d) ∷ kvs) (b, a) =
    let ih = erase_conn-Ascends fd kvs a in
    elim (Bool-cases (j == fd)) [ inl e ↦ rw e a | inr e ↦ rw e (Above-erase_conn j fd kvs b, ih) ]

find_conn-Above : (k x : ℕ) (kvs : List (ℕ × ℕ)) → x ≤ k → Above k kvs → find_conn x kvs ≡ none
unfolding find_conn
find_conn-Above k x [] h a = refl
find_conn-Above k x ((j, d) ∷ kvs) h (b, a) =
    let ih = find_conn-Above k x kvs h a in ground (arith, ih, b, h)

pub find_conn-erase_conn :
    (x fd : ℕ) (kvs : List (ℕ × ℕ))
    → Ascends kvs
    → find_conn x (erase_conn fd kvs) ≡ (if x == fd then none else find_conn x kvs)
unfolding find_conn erase_conn
find_conn-erase_conn x fd [] a = ground arith
find_conn-erase_conn x fd ((j, d) ∷ kvs) (b, a) =
    let ih = find_conn-erase_conn x fd kvs a in
    elim (Bool-cases (j == fd)) [
      | inl e ↦ rw e (elim (Bool-cases (x == fd)) [
        | inl f ↦ let h : x ≤ j = ground (arith, e, f) in rw f (find_conn-Above j x kvs h b)
        | inr f ↦ ground (arith, e, f)
      ])
      | inr e ↦ rw e (ground (arith, ih, e))
    ]

pub find_conn-put_conn :
    (fd x c : ℕ) (kvs : List (ℕ × ℕ))
    → find_conn fd (put_conn x c kvs) ≡ (if x == fd then some c else find_conn fd kvs)
unfolding find_conn put_conn
find_conn-put_conn fd x c [] = refl
find_conn-put_conn fd x c ((k, d) ∷ kvs) =
    let ih = find_conn-put_conn fd x c kvs in ground (arith, ih)

-- Each entry's connection is on the heap, and has the entry's descriptor.
abbrev pub Lives : List Conn → List (ℕ × ℕ) → Type 0
Lives heap kvs =
    (fd c : ℕ)
    → find_conn fd kvs ≡ some c
    → (conn : Conn) × (get_elem? heap c ≡ some conn) × (conn.tg.fd ≡ fd)

pub Lives-put_conn :
    (heap : List Conn) (kvs : List (ℕ × ℕ)) (conn : Conn)
    → Lives heap kvs
    → Lives (heap ++ conn ∷ []) (put_conn conn.tg.fd (length heap) kvs)
Lives-put_conn heap kvs conn v fd c e =
    let f = sym (find_conn-put_conn fd conn.tg.fd (length heap) kvs) ∙ e in
    elim (Bool-cases (conn.tg.fd == fd)) [
      | inl g ↦
          let h : conn.tg.fd ≡ fd = ground (arith, g) in
          let i : length heap ≡ c = ground (arith, f, g) in
          (conn, ap (get_elem? (heap ++ conn ∷ [])) (sym i) ∙ elem-append_end heap conn, h)
      | inr g ↦
          let h : find_conn fd kvs ≡ some c = ground (arith, f, g) in
          let (old, i, j) = v fd c h in (old, elem-append heap (conn ∷ []) c old i, j)
    ]

pub Lives-erase_conn :
    (heap : List Conn) (kvs : List (ℕ × ℕ)) (gone : ℕ)
    → Ascends kvs
    → Lives heap kvs
    → Lives heap (erase_conn gone kvs)
Lives-erase_conn heap kvs gone a v fd c e =
    let f = sym (find_conn-erase_conn fd gone kvs a) ∙ e in
    let h : find_conn fd kvs ≡ some c = ground (arith, f) in v fd c h

pub Lives-rest :
    (heap : List Conn) (k d : ℕ) (kvs : List (ℕ × ℕ))
    → Above k kvs
    → Lives heap ((k, d) ∷ kvs)
    → Lives heap kvs
unfolding find_conn
Lives-rest heap k d kvs a v fd c e = elim (Bool-cases (k == fd)) [
  | inl g ↦
      let h : fd ≤ k = ground (arith, g) in let f = find_conn-Above k fd kvs h a in absurd (cc)
  | inr g ↦ let f : find_conn fd ((k, d) ∷ kvs) ≡ some c = ground (arith, e, g) in v fd c f
]

pub Lives-head :
    (heap : List Conn) (k d : ℕ) (kvs : List (ℕ × ℕ))
    → Lives heap ((k, d) ∷ kvs)
    → (conn : Conn) × (get_elem? heap d ≡ some conn)
unfolding find_conn
Lives-head heap k d kvs v =
    let e : find_conn k ((k, d) ∷ kvs) ≡ some d = ground arith in
    let (conn, f, g) = v k d e in (conn, f)

-- The pool of loops stands inside its vector, and the table is in order and knows its connections.
pub record IsSound (s : Server) : Type 0 where
  pub turns : LoopPool.Laws.IsSound s.followers
  pub ordered : Ascends s.connpool
  pub lives : Lives s.heap s.connpool
