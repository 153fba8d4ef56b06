-- ===== src/Http/Parsing.antt =====
-- The parser's loop ends.
use pqnet.Common.{
  ℕ, zero, suc, ◌+◌, ◌^◌, ◌≡◌, ◌<◌, refl, ◌⊎◌, inl, inr, Option, none, some, length, Option-cases,
  Bool-cases, arith, ltb, ltb→lt,
}
use pqnet.Common.Words.{add_size}
use pqnet.Http.Strings.{String, crlf, equals_at}
use pqnet.Http.Request.{
  HttpRequest, State, Parsed, parsed, out_of_range, take_line, end_line, turn, parse_loop, parse,
}

-- The end that a step moves on to, if it does not throw.
abbrev Advances : State → Option State → Type 0
Advances st r = (r ≡ none) ⊎ ((st' : State) × (r ≡ some st') × (st.end < st'.end))

end_line-Advances : (s : String) (st : State) → st.end + 4 < 2 ^ 64 → Advances st (end_line s st)
unfolding end_line
end_line-Advances s st h = elim (Option-cases (take_line s st)) [
  | inl e ↦ rw e (inl refl)
  | inr ((part, r), e) ↦ elim (Option-cases (equals_at s (add_size st.end 2) 2 crlf)) [
    | inl f ↦ rw e (rw f (inl refl))
    | inr (blank, f) ↦ elim (Bool-cases blank) [
      | inl b ↦ rw e (rw f (rw b (inr (_, refl, omega arith))))
      | inr b ↦ rw e (rw f (rw b (inr (_, refl, omega arith))))
    ]
  ]
]

turn-Advances : (s : String) (st : State) → st.end + 4 < 2 ^ 64 → Advances st (turn s st)
unfolding turn
turn-Advances s st h = elim (Option-cases (equals_at s st.end 2 crlf)) [
  | inl e ↦ rw e (inl refl)
  | inr (at_crlf, e) ↦ elim (Bool-cases at_crlf) [
    | inl b ↦ rw e (rw b (end_line-Advances s st h))
    | inr b ↦ rw e (rw b (inr (_, refl, omega arith)))
  ]
]

abbrev Ends : Parsed → Type 0
Ends p = ((r : HttpRequest) × (p ≡ parsed r)) ⊎ (p ≡ out_of_range)

parse_loop-Ends :
    (s : String) (fuel : ℕ) (st : State)
    → length s + 4 < 2 ^ 64
    → length s < fuel + st.end
    → 0 < fuel
    → Ends (parse_loop s fuel st)
unfolding parse_loop
parse_loop-Ends s zero st h f p = absurd (omega arith)
parse_loop-Ends s (suc fuel) st h f p = elim (Bool-cases (ltb st.end (length s))) [
  | inr b ↦ rw b (inl (st.request, refl))
  | inl b ↦
      let l = ltb→lt st.end (length s) b in
      elim (turn-Advances s st (omega arith)) [
        | inl e ↦ rw b (rw e (inr refl))
        | inr (st', e, g) ↦ rw b (rw e (parse_loop-Ends s fuel st' h (omega arith) (omega arith)))
      ]
]

-- The parser ends on every text that is shorter than 2^64 - 4 bytes: it makes a request of it, or
-- throws std::out_of_range.
pub parse-Ends :
    (s : String)
    → length s + 4 < 2 ^ 64
    → ((r : HttpRequest) × (parse s ≡ parsed r)) ⊎ (parse s ≡ out_of_range)
unfolding parse
parse-Ends s h = parse_loop-Ends s (suc (length s)) _ h (omega arith) (omega arith)
