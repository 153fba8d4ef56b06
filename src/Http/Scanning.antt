-- ===== src/Http/Scanning.antt =====
-- The parser's loop over a text, line by line.
use pqnet.Common.{
  ℕ, zero, suc, ◌+◌, ◌^◌, ◌≡◌, ◌<◌, refl, sym, ap, ◌∙◌, false, some, [], ◌∷◌, ◌++◌, length, drop,
  drop-drop, drop-append, length-drop, arith, ltb, lt→ltb, le→leb, ◌==◌,
}
use pqnet.Common.Words.{add_size}
use pqnet.Http.Strings.{String, same, equals_at}
use pqnet.Http.Request.{
  HttpRequest, Part, State, parsed, goto, after_blank, take_line, end_line, turn, parse_loop,
}
use pqnet.Http.Lines.{Lacks}

-- The loop gets from one state to another, with fuel to spare.
abbrev pub Leads : String → State → State → Type 0
Leads s st st' =
    (f : ℕ)
    → length s < f + st.end
    → (f' : ℕ) × (length s < f' + st'.end) × (parse_loop s f st ≡ parse_loop s f' st')

pub Leads-refl : (s : String) (st : State) → Leads s st st
Leads-refl s st f h = (f, h, refl)

pub Leads-trans : (s : String) (a b c : State) → Leads s a b → Leads s b c → Leads s a c
Leads-trans s a b c p q f h = let (g, i, e) = p f h in let (g', i', e') = q g i in (g', i', e ∙ e')

step_Leads :
    (s : String) (st st' : State)
    → st.end < length s
    → turn s st ≡ some st'
    → st.end < st'.end
    → Leads s st st'
unfolding parse_loop
step_Leads s st st' l e g zero h = absurd (omega arith)
step_Leads s st st' l e g (suc f) h = (f, omega arith, rw (lt→ltb st.end (length s) l) (rw e refl))

-- Text from a position on, and one byte or two further.
room :
    (s : String) (pos : ℕ) (t : String) → drop pos s ≡ t → 0 < length t → pos + length t ≡ length s
room s pos t e h =
    let k : length t ≡ length (drop pos s) = ap length (sym e) in omega (arith, length-drop pos s)

pub drop_on :
    (s : String) (pos : ℕ) (xs ys : String) → drop pos s ≡ xs ++ ys → drop (pos + length xs) s ≡ ys
drop_on s pos xs ys e =
    sym (drop-drop (length xs) pos (pos + length xs) s refl)
    ∙ ap (λ t. drop (length xs) t) e
    ∙ drop-append (length xs) xs ys refl

skip_one :
    (s : String) (st : State) (a : ℕ) (t : String)
    → drop st.end s ≡ a ∷ t
    → (a == 13) ≡ false
    → length s + 4 < 2 ^ 64
    → Leads s st (record st { end = suc st.end })
unfolding turn equals_at same
skip_one s st a t e p h =
    let r = room s st.end (a ∷ t) e (omega arith) in
    let n : add_size st.end 1 ≡ suc st.end = omega arith in
    step_Leads s st (record st { end = suc st.end }) (omega arith)
      (rw (le→leb st.end (length s) (omega arith)) (rw e (rw p (rw n refl)))) (omega arith)

-- Over text without a carriage return.
pub skip :
    (s : String) (st : State) (w rest : String)
    → drop st.end s ≡ w ++ rest
    → Lacks 13 w
    → length s + 4 < 2 ^ 64
    → Leads s st (record st { end = st.end + length w })
skip s st [] rest e l h = let n : st.end + 0 ≡ st.end = omega arith in rw n (Leads-refl s st)
skip s st (a ∷ w) rest e (p, l) h =
    let st' : State = record st { end = suc st.end } in
    let d : drop (suc st.end) s ≡ w ++ rest =
      sym (drop-drop 1 st.end (suc st.end) s (omega arith)) ∙ ap (λ t. drop 1 t) e in
    let n : st.end + suc (length w) ≡ suc st.end + length w = omega arith in
    rw n (
      Leads-trans s st st' (record st { end = suc st.end + length w })
        (skip_one s st a (w ++ rest) e p h) (skip s st' w rest d l h))

-- A line's end that another line follows.
pub end_more :
    (s : String) (st : State) (part : Part) (r : HttpRequest) (a : ℕ) (t : String)
    → drop st.end s ≡ 13 ∷ 10 ∷ a ∷ t
    → (a == 13) ≡ false
    → take_line s st ≡ some (part, r)
    → length s + 4 < 2 ^ 64
    → Leads s st (goto (st.end + 2) part r)
unfolding turn end_line equals_at same
end_more s st part r a t e p q h =
    let k = room s st.end (13 ∷ 10 ∷ a ∷ t) e (omega arith) in
    let n : add_size st.end 2 ≡ st.end + 2 = omega arith in
    let d = drop_on s st.end (13 ∷ 10 ∷ []) (a ∷ t) e in
    step_Leads s st (goto (st.end + 2) part r) (omega arith)
      (rw (le→leb st.end (length s) (omega arith))
        (rw e (rw q (rw n (rw (le→leb (st.end + 2) (length s) (omega arith)) (rw d (rw p refl)))))))
      (omega arith)

-- A line's end that an empty line follows.
pub end_blank :
    (s : String) (st : State) (part : Part) (r : HttpRequest) (t : String)
    → drop st.end s ≡ 13 ∷ 10 ∷ 13 ∷ 10 ∷ t
    → take_line s st ≡ some (part, r)
    → length s + 4 < 2 ^ 64
    → Leads s st (goto (st.end + 4) (after_blank part) r)
unfolding turn end_line equals_at same
end_blank s st part r t e q h =
    let k = room s st.end (13 ∷ 10 ∷ 13 ∷ 10 ∷ t) e (omega arith) in
    let n : add_size st.end 2 ≡ st.end + 2 = omega arith in
    let m : add_size st.end 4 ≡ st.end + 4 = omega arith in
    let d = drop_on s st.end (13 ∷ 10 ∷ []) (13 ∷ 10 ∷ t) e in
    step_Leads s st (goto (st.end + 4) (after_blank part) r) (omega arith)
      (rw (le→leb st.end (length s) (omega arith))
        (rw e (rw q (rw n (rw (le→leb (st.end + 2) (length s) (omega arith)) (rw d (rw m refl)))))))
      (omega arith)

at_end :
    (s : String) (f : ℕ) (st : State)
    → length s < f + st.end
    → st.end ≡ length s
    → parse_loop s f st ≡ parsed st.request
unfolding parse_loop
at_end s zero st l e = absurd (omega arith)
at_end s (suc f) st l e = let n : ltb st.end (length s) ≡ false = ground arith in rw n refl

-- At the end of the text the loop gives the request.
pub Leads-end :
    (s : String) (f : ℕ) (st st' : State)
    → Leads s st st'
    → length s < f + st.end
    → st'.end ≡ length s
    → parse_loop s f st ≡ parsed st'.request
unfolding parse_loop
Leads-end s f st st' p h e = let (f', l, q) = p f h in q ∙ at_end s f' st' l e
