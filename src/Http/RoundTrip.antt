-- ===== src/Http/RoundTrip.antt =====
-- A printed request, read back.
use pqnet.Common.{
  ℕ, suc, ◌+◌, ◌^◌, ◌≡◌, ◌≤◌, ◌<◌, refl, sym, ap, ◌∙◌, false, some, [], ◌∷◌, ◌++◌, length, drop,
  append-nil, append_assoc, length-append, length-drop, arith, ◌==◌, All,
}
use pqnet.Common.Words.{add_size, sub_size}
use pqnet.Http.Strings.{String, Headers, crlf, find, find_from, header_lines}
use pqnet.Http.Request.{
  HttpRequest, Part, request_line, headers_part, body_part, State, parsed, goto, empty, add_header,
  after_blank, parse_header, take_line, parse, get_request,
}
use pqnet.Http.Ordered.{add_all, add_all_lem, IsOrdered}
use pqnet.Http.Lines.{Lacks, find_from_lem, substr_lem, parse_request_line_lem}
use pqnet.Http.Scanning.{Leads, Leads-trans, drop_on, skip, end_more, end_blank, Leads-end}

-- A header whose line can be read back.
abbrev pub IsPlain : String × String → Type 0
IsPlain (k, v) = Lacks 58 k × Lacks 13 k × Lacks 13 v

Lacks-append : (c : ℕ) (xs ys : String) → Lacks c xs → Lacks c ys → Lacks c (xs ++ ys)
Lacks-append c [] ys a b = b
Lacks-append c (x ∷ xs) ys (p, a) b = (p, Lacks-append c xs ys a b)

abbrev at_end_of : ℕ → String → HttpRequest → Part → State
at_end_of b w r part = record { part = part; begin = b; end = b + length w; request = r }

header_taken :
    (s : String) (b : ℕ) (k v t : String) (r : HttpRequest)
    → drop b s ≡ (k ++ 58 ∷ 32 ∷ v) ++ t
    → b ≤ length s
    → length s + 4 < 2 ^ 64
    → Lacks 58 k
    → take_line s (at_end_of b (k ++ 58 ∷ 32 ∷ v) r headers_part)
      ≡ some (headers_part, add_header k v r)
unfolding take_line parse_header find
header_taken s b k v t r e h l c =
    let e1 : drop b s ≡ k ++ 58 ∷ (32 ∷ (v ++ t)) = e ∙ append_assoc k (58 ∷ 32 ∷ v) t in
    let f1 : find_from 58 b (drop b s) ≡ b + length k =
      ap (λ x. find_from 58 b x) e1 ∙ find_from_lem 58 b k (32 ∷ (v ++ t)) c in
    let e2 = drop_on s b k (58 ∷ (32 ∷ (v ++ t))) e1 in
    let e3 = drop_on s (b + length k) (58 ∷ 32 ∷ []) (v ++ t) e2 in
    let lw : length (k ++ 58 ∷ 32 ∷ v) ≡ length k + (length v + 2) =
      omega (arith, length-append k (58 ∷ 32 ∷ v)) in
    let ls : length (drop b s) ≡ length k + (length (v ++ t) + 2) =
      ap length e1 ∙ omega (arith, length-append k (58 ∷ (32 ∷ (v ++ t)))) in
    let bound : b + length k + 2 + length v ≤ length s =
      omega (arith, length-drop b s, length-append v t) in
    let n1 : sub_size (b + length k) b ≡ length k = omega arith in
    let n2 : add_size (b + length k) 2 ≡ b + length k + 2 = omega arith in
    let n3 : sub_size (b + length (k ++ 58 ∷ 32 ∷ v)) (b + length k + 2) ≡ length v = omega arith in
    let s1 = substr_lem s b (length k) k (58 ∷ (32 ∷ (v ++ t))) h e1 refl in
    let s2 = substr_lem s (b + length k + 2) (length v) v t (omega arith) e3 refl in
    rw f1 (rw n1 (rw s1 (rw n2 (rw n3 (rw s2 refl)))))

-- The text of a header, or of the empty line, starts with no carriage return, or with one.
header_starts :
    (k v t : String)
    → Lacks 13 k
    → (a : ℕ) × (u : String) × ((k ++ 58 ∷ 32 ∷ v) ++ t ≡ a ∷ u) × ((a == 13) ≡ false)
header_starts [] v t l = (58, 32 ∷ (v ++ t), refl, refl)
header_starts (a ∷ k) v t (p, l) = (a, (k ++ 58 ∷ 32 ∷ v) ++ t, refl, p)

header_Lacks : (k v : String) → Lacks 13 k → Lacks 13 v → Lacks 13 (k ++ 58 ∷ 32 ∷ v)
header_Lacks k v a b = Lacks-append 13 k (58 ∷ 32 ∷ v) a (refl, (refl, b))

-- Where the body starts, and that the loop gets there with the headers put in.
abbrev ReachesBody : String → String → State → HttpRequest → Type 0
ReachesBody s body st r =
    (p : ℕ) × (p + length body ≡ length s) × (drop p s ≡ body) × Leads s st (goto p body_part r)

bound_of :
    (s : String) (b : ℕ) (w t : String)
    → drop b s ≡ w ++ t
    → b ≤ length s
    → b + length w + length t ≡ length s
bound_of s b w t e h = let k = ap length e in omega (arith, k, length-drop b s, length-append w t)

headers_run :
    (s body : String) (k v : String) (hs : Headers) (b : ℕ) (r : HttpRequest)
    → length s + 4 < 2 ^ 64
    → b ≤ length s
    → drop b s ≡ header_lines ((k, v) ∷ hs) ++ (crlf ++ body)
    → IsPlain (k, v)
    → All IsPlain hs
    → ReachesBody s body (goto b headers_part r) (add_all ((k, v) ∷ hs) r)
unfolding header_lines after_blank
headers_run s body k v [] b r h l e (c, p, q) plain =
    let w = k ++ 58 ∷ 32 ∷ v in
    let e1 : drop b s ≡ w ++ (13 ∷ 10 ∷ 13 ∷ 10 ∷ body) = e ∙ append_assoc w crlf (crlf ++ body) in
    let taken = header_taken s b k v (13 ∷ 10 ∷ 13 ∷ 10 ∷ body) r e1 l h c in
    let st = at_end_of b w r headers_part in
    let e2 = drop_on s b w (13 ∷ 10 ∷ 13 ∷ 10 ∷ body) e1 in
    let e3 = drop_on s (b + length w) (13 ∷ 10 ∷ 13 ∷ 10 ∷ []) body e2 in
    let n = bound_of s b w (13 ∷ 10 ∷ 13 ∷ 10 ∷ body) e1 l in
    (
      b + length w + 4,
      omega arith,
      e3,
      Leads-trans s _ st _ (skip s (goto b headers_part r) w _ e1 (header_Lacks k v p q) h)
          (end_blank s st headers_part (add_header k v r) body e2 taken h),
    )
headers_run s body k v ((k', v') ∷ hs) b r h l e (c, p, q) ((c', p', q'), plain) =
    let w = k ++ 58 ∷ 32 ∷ v in
    let more = header_lines ((k', v') ∷ hs) in
    let e1 : drop b s ≡ w ++ (13 ∷ 10 ∷ (more ++ (crlf ++ body))) =
      e ∙ append_assoc w (crlf ++ more) (crlf ++ body) in
    let (a, u, f, g) = header_starts k' v' ((crlf ++ header_lines hs) ++ (crlf ++ body)) p' in
    let f' : more ++ (crlf ++ body) ≡ a ∷ u =
      append_assoc (k' ++ 58 ∷ 32 ∷ v') (crlf ++ header_lines hs) (crlf ++ body) ∙ f in
    let taken = header_taken s b k v (13 ∷ 10 ∷ (more ++ (crlf ++ body))) r e1 l h c in
    let st = at_end_of b w r headers_part in
    let e2 = drop_on s b w (13 ∷ 10 ∷ (more ++ (crlf ++ body))) e1 in
    let e3 = drop_on s (b + length w) (13 ∷ 10 ∷ []) (more ++ (crlf ++ body)) e2 in
    let n = bound_of s b w (13 ∷ 10 ∷ (more ++ (crlf ++ body))) e1 l in
    let (pos, i, d, rest) =
      headers_run s body k' v' hs (b + length w + 2) (add_header k v r) h (omega arith) e3
        (c', p', q') plain in
    (
      pos,
      i,
      d,
      Leads-trans s _ st _ (skip s (goto b headers_part r) w _ e1 (header_Lacks k v p q) h) (
          Leads-trans s st (goto (b + length w + 2) headers_part (add_header k v r)) _
            (end_more s st headers_part (add_header k v r) a u (e2 ∙ ap (λ x. 13 ∷ 10 ∷ x) f') g
              taken h)
            rest),
    )

-- From the end of the request line on.
after_line :
    (s : String) (st : State) (hs : Headers) (body : String) (r : HttpRequest)
    → length s + 4 < 2 ^ 64
    → st.end ≤ length s
    → drop st.end s ≡ crlf ++ (header_lines hs ++ (crlf ++ body))
    → take_line s st ≡ some (headers_part, r)
    → All IsPlain hs
    → ReachesBody s body st (add_all hs r)
unfolding header_lines after_blank
after_line s st [] body r h l e t plain =
    let n = bound_of s st.end (13 ∷ 10 ∷ 13 ∷ 10 ∷ []) body e l in
    (
      st.end + 4,
      omega arith,
      drop_on s st.end (13 ∷ 10 ∷ 13 ∷ 10 ∷ []) body e,
      end_blank s st headers_part r body e t h,
    )
after_line s st ((k, v) ∷ hs) body r h l e t ((c, p, q), plain) =
    let text = header_lines ((k, v) ∷ hs) ++ (crlf ++ body) in
    let (a, u, f, g) = header_starts k v ((crlf ++ header_lines hs) ++ (crlf ++ body)) p in
    let f' : text ≡ a ∷ u =
      append_assoc (k ++ 58 ∷ 32 ∷ v) (crlf ++ header_lines hs) (crlf ++ body) ∙ f in
    let n = bound_of s st.end (13 ∷ 10 ∷ []) text e l in
    let (pos, i, d, rest) =
      headers_run s body k v hs (st.end + 2) r h (omega arith)
        (drop_on s st.end (13 ∷ 10 ∷ []) text e) (c, p, q) plain in
    (
      pos,
      i,
      d,
      Leads-trans s st (goto (st.end + 2) headers_part r) _
          (end_more s st headers_part r a u (e ∙ ap (λ x. 13 ∷ 10 ∷ x) f') g t h) rest,
    )

line_taken :
    (m u v t : String)
    → Lacks 32 m
    → Lacks 32 u
    → length (m ++ 32 ∷ (u ++ 32 ∷ v)) + 4 < 2 ^ 64
    → take_line
        ((m ++ 32 ∷ (u ++ 32 ∷ v)) ++ t)
        (at_end_of 0 (m ++ 32 ∷ (u ++ 32 ∷ v)) empty request_line)
      ≡ some (headers_part, record { method = m; uri = u; version = v; headers = []; body = [] })
unfolding take_line empty
line_taken m u v t a b h =
    let line = m ++ 32 ∷ (u ++ 32 ∷ v) in
    let n : sub_size (0 + length line) 0 ≡ length line = omega arith in
    let ll : length line ≡ length m + (length u + (length v + 2)) =
      omega (arith, length-append m (32 ∷ (u ++ 32 ∷ v)), length-append u (32 ∷ v)) in
    rw n (
      rw (substr_lem (line ++ t) 0 (length line) line t (omega arith) refl refl)
        (rw (parse_request_line_lem m u v empty a b (omega arith)) refl))

-- A request that is printed and parsed again comes back, all but its body: the method and the URI
-- have no space, the keys no colon, none of them nor the version, the values and the body a carriage
-- return, the headers are in the order of their keys, and the text is shorter than 2^64 - 4 bytes.
pub parse-get_request :
    (m u v : String) (hs : Headers) (body : String)
    → Lacks 32 m
    → Lacks 32 u
    → Lacks 13 (m ++ 32 ∷ (u ++ 32 ∷ v))
    → All IsPlain hs
    → IsOrdered hs
    → Lacks 13 body
    → length (get_request (record { method = m; uri = u; version = v; headers = hs; body = body }))
        + 4
      < 2 ^ 64
    → parse (get_request (record { method = m; uri = u; version = v; headers = hs; body = body }))
      ≡ parsed (record { method = m; uri = u; version = v; headers = hs; body = [] })
unfolding get_request parse empty
parse-get_request m u v hs body a b c plain o d h =
    let line = m ++ 32 ∷ (u ++ 32 ∷ v) in
    let rest = crlf ++ (header_lines hs ++ (crlf ++ body)) in
    let s = line ++ rest in
    let n = length-append line rest in
    let st0 = goto 0 request_line empty in
    let st1 = at_end_of 0 line empty request_line in
    let r : HttpRequest = record { method = m; uri = u; version = v; headers = []; body = [] } in
    let taken = line_taken m u v rest a b (omega arith) in
    let (pos, i, e, lead) =
      after_line s st1 hs body r h (omega arith) (drop_on s 0 line rest refl) taken plain in
    let st2 = goto pos body_part (add_all hs r) in
    let st3 : State = record st2 { end = pos + length body } in
    let leads =
      Leads-trans s st0 st1 st3 (skip s st0 line rest refl c h)
        (Leads-trans s st1 st2 st3 lead (skip s st2 body [] (e ∙ sym (append-nil body)) d h)) in
    Leads-end s (suc (length s)) st0 st3 leads (omega arith) i
    ∙ ap parsed (add_all_lem hs [] r refl o)
