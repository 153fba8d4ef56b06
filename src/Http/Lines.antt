-- ===== src/Http/Lines.antt =====
-- The request line.
use pqnet.Common.{
  ℕ, zero, suc, ◌+◌, ◌^◌, ◌≡◌, ◌≤◌, ◌<◌, refl, sym, ap, ◌∙◌, false, some, [], ◌∷◌, ◌++◌, length,
  drop, length-append, drop-drop, take-append, take_all, arith, le→leb, ◌==◌, ==_iff, All,
}
use pqnet.Common.Words.{add_size, sub_size}
use pqnet.Http.Strings.{String, npos, substr, find, find_from}
use pqnet.Http.Request.{HttpRequest, parse_request_line}

-- A string without a byte.
abbrev pub Lacks : ℕ → String → Type 0
Lacks c s = All (λ a. (a == c) ≡ false) s

drop_past : (c : ℕ) (xs ys : String) (n : ℕ) → n ≡ length xs → drop (suc n) (xs ++ c ∷ ys) ≡ ys
drop_past c [] ys zero e = refl
drop_past c [] ys (suc n) e = absurd (omega arith)
drop_past c (x ∷ xs) ys zero e = absurd (omega arith)
drop_past c (x ∷ xs) ys (suc n) e = drop_past c xs ys n (omega arith)

pub find_from_lem :
    (c pos : ℕ) (xs ys : String) → Lacks c xs → find_from c pos (xs ++ c ∷ ys) ≡ pos + length xs
unfolding find_from
find_from_lem c pos [] ys l = rw ((==_iff c c).1 refl) (omega arith)
find_from_lem c pos (x ∷ xs) ys (p, l) = rw p (find_from_lem c (suc pos) xs ys l ∙ omega arith)

-- A piece in the middle of a string, by its start and its length.
pub substr_lem :
    (s : String) (pos n : ℕ) (xs ys : String)
    → pos ≤ length s
    → drop pos s ≡ xs ++ ys
    → n ≡ length xs
    → substr s pos n ≡ some xs
unfolding substr
substr_lem s pos n xs ys h e l =
    rw (le→leb pos (length s) h) (rw e (rw (take-append n xs ys l) refl))

substr_rest :
    (s : String) (pos n : ℕ) (xs : String)
    → pos ≤ length s
    → drop pos s ≡ xs
    → length xs ≤ n
    → substr s pos n ≡ some xs
unfolding substr
substr_rest s pos n xs h e l = rw (le→leb pos (length s) h) (rw e (rw (take_all n xs l) refl))

-- A request line of a method, a URI and a version, joined by spaces, gives back the three, if the
-- first two have no space in them and the line is shorter than 2^64 - 1 bytes.
pub parse_request_line_lem :
    (m u v : String) (r : HttpRequest)
    → Lacks 32 m
    → Lacks 32 u
    → length m + length u + length v + 3 < 2 ^ 64
    → parse_request_line (m ++ 32 ∷ (u ++ 32 ∷ v)) r
      ≡ some (record r { method = m; uri = u; version = v })
unfolding parse_request_line find
parse_request_line_lem m u v r a b h =
    let tail = u ++ 32 ∷ v in
    let line = m ++ 32 ∷ tail in
    let lt : length tail ≡ length u + (length v + 1) = omega (arith, length-append u (32 ∷ v)) in
    let ll : length line ≡ length m + (length u + (length v + 2)) =
      omega (arith, length-append m (32 ∷ tail)) in
    let f1 : find_from 32 0 line ≡ length m = find_from_lem 32 0 m tail a ∙ omega arith in
    let p1 : add_size (length m) 1 ≡ suc (length m) = omega arith in
    let d1 : drop (suc (length m)) line ≡ tail = drop_past 32 m tail (length m) refl in
    let f2 : find_from 32 (suc (length m)) tail ≡ suc (length m) + length u =
      find_from_lem 32 (suc (length m)) u v b in
    let p2 : sub_size (suc (length m) + length u) (suc (length m)) ≡ length u = omega arith in
    let p3 : add_size (suc (length m) + length u) 1 ≡ suc (length u) + suc (length m) =
      omega arith in
    let d2 : drop (suc (length u) + suc (length m)) line ≡ v =
      sym (drop-drop (suc (length u)) (suc (length m)) _ line (omega arith))
      ∙ ap (λ t. drop (suc (length u)) t) d1
      ∙ drop_past 32 u v (length u) refl in
    let s1 = substr_lem line 0 (length m) m (32 ∷ tail) (omega arith) refl refl in
    let s2 = substr_lem line (suc (length m)) (length u) u (32 ∷ v) (omega arith) d1 refl in
    let s3 =
      substr_rest line (suc (length u) + suc (length m)) npos v (omega arith) d2 (omega arith) in
    rw f1 (rw p1 (rw d1 (rw f2 (rw s1 (rw p2 (rw s2 (rw p3 (rw s3 refl))))))))
