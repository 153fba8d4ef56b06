-- ===== src/Http/Strings.antt =====
-- What the HTTP layer uses of `std::string` and `std::map`: a string is the list of its bytes, a map
-- the list of its pairs in the order of the keys. `none` is std::out_of_range.
use pqnet.Common.{
  ℕ, suc, ◌-◌, Bool, true, false, ◌&&◌, Option, none, some, List, [], ◌∷◌, ◌++◌, length, take, drop,
  ltb, leb, ◌==◌, if◌then◌else◌,
}
use pqnet.Common.Words.{size_mod}

abbrev pub String : Type 0
String = List ℕ

-- `std::string::npos`
abbrev pub npos : ℕ
npos = size_mod - 1

abbrev pub crlf : String
crlf = 13 ∷ 10 ∷ []

-- `s.substr(pos, n)`
unfoldable pub substr : String → ℕ → ℕ → Option String
substr s pos n = if leb pos (length s) then some (take n (drop pos s)) else none

unfoldable pub same : String → String → Bool
same [] [] = true
same (a ∷ s) (b ∷ t) = (a == b) && same s t
same _ _ = false

-- `s.compare(pos, n, t) == 0`
unfoldable pub equals_at : String → ℕ → ℕ → String → Option Bool
equals_at s pos n t = if leb pos (length s) then some (same (take n (drop pos s)) t) else none

-- The first position of a byte in a string that starts at position `pos` of the whole.
unfoldable pub find_from : ℕ → ℕ → String → ℕ
find_from c pos [] = npos
find_from c pos (a ∷ s) = let rest = find_from c (suc pos) s in if a == c then pos else rest

-- `s.find(c, pos)`
unfoldable pub find : String → ℕ → ℕ → ℕ
find s c pos = find_from c pos (drop pos s)

-- `std::string`'s `<`
unfoldable pub less : String → String → Bool
less s [] = false
less [] (b ∷ t) = true
less (a ∷ s) (b ∷ t) =
    let rest = less s t in if ltb a b then true else if ltb b a then false else rest

abbrev pub Headers : Type 0
Headers = List (String × String)

-- `headers[key] = value`
unfoldable pub assign : String → String → Headers → Headers
assign key value [] = (key, value) ∷ []
assign key value ((k, v) ∷ hs) =
    let rest = (k, v) ∷ assign key value hs in
    if less key k then (key, value) ∷ (k, v) ∷ hs else if less k key then rest else (k, value) ∷ hs

-- `out.append(key).append(": ").append(value).append(CRLF)` for each header
unfoldable pub header_lines : Headers → String
header_lines [] = []
header_lines ((k, v) ∷ hs) = (k ++ 58 ∷ 32 ∷ v) ++ (crlf ++ header_lines hs)
