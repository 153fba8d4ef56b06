-- ===== src/Http/Request.antt =====
-- request.h and request.cpp.
use pqnet.Common.{
  ℕ, zero, suc, Option, none, some, [], ◌∷◌, ◌++◌, length, ltb, if◌then◌else◌, ◌>>=◌,
}
use pqnet.Common.Words.{add_size, sub_size}
use pqnet.Http.Strings.{String, Headers, npos, crlf, substr, equals_at, find, assign, header_lines}

pub record HttpRequest : Type 0 where
  pub method : String
  pub uri : String
  pub version : String
  pub headers : Headers
  pub body : String

pub data Part : Type 0 where
  request_line headers_part body_part : Part

unfoldable pub empty : HttpRequest
empty = record { method = []; uri = []; version = []; headers = []; body = [] }

unfoldable pub add_header : String → String → HttpRequest → HttpRequest
add_header key value r = record r { headers = assign key value r.headers }

unfoldable pub parse_request_line : String → HttpRequest → Option HttpRequest
parse_request_line line r = do
  let pos1 = find line 32 0
  let pos2 = find line 32 (add_size pos1 1)
  m ← substr line 0 pos1
  u ← substr line (add_size pos1 1) (sub_size pos2 (add_size pos1 1))
  v ← substr line (add_size pos2 1) npos
  some (record r { method = m; uri = u; version = v })

-- A header line from `begin` to `end`.
unfoldable pub parse_header : String → ℕ → ℕ → HttpRequest → Option HttpRequest
parse_header s begin end r = do
  let pos = find s 58 begin
  key ← substr s begin (sub_size pos begin)
  value ← substr s (add_size pos 2) (sub_size end (add_size pos 2))
  some (add_header key value r)

-- The parser's variables.
pub record State : Type 0 where
  pub part : Part
  pub begin : ℕ
  pub end : ℕ
  pub request : HttpRequest

-- A line by its part, with the part that follows.
unfoldable pub take_line : String → State → Option (Part × HttpRequest)
take_line s st = elim st.part [
  | request_line ↦ do
    line ← substr s st.begin (sub_size st.end st.begin)
    r ← parse_request_line line st.request
    some (headers_part, r)
  | headers_part ↦ do r ← parse_header s st.begin st.end st.request; some (headers_part, r)
  | body_part ↦ do
    text ← substr s st.begin (sub_size st.end st.begin)
    some (body_part, record (st.request) { body = text })
]

-- An empty line ends the headers.
unfoldable pub after_blank : Part → Part
after_blank headers_part = body_part
after_blank request_line = request_line
after_blank body_part = body_part

abbrev pub goto : ℕ → Part → HttpRequest → State
goto pos part r = record { part = part; begin = pos; end = pos; request = r }

-- Past a line at whose end the text has CRLF; `blank` is whether another follows.
unfoldable pub end_line : String → State → Option State
end_line s st = do
  (part, r) ← take_line s st
  blank ← equals_at s (add_size st.end 2) 2 crlf
  some (
      if blank
      then goto (add_size st.end 4) (after_blank part) r
      else goto (add_size st.end 2) part r)

-- One turn of the loop, `end < sReq.length()`.
unfoldable pub turn : String → State → Option State
turn s st = do
  at_crlf ← equals_at s st.end 2 crlf
  if at_crlf then end_line s st else some (record st { end = add_size st.end 1 })

pub data Parsed : Type 0 where
  parsed : HttpRequest → Parsed
  -- std::out_of_range
  out_of_range : Parsed
  -- fuel that ran out
  unfinished : Parsed

abbrev pub resume : (State → Parsed) → Option State → Parsed
resume again none = out_of_range
resume again (some st) = again st

unfoldable pub parse_loop : String → ℕ → State → Parsed
parse_loop s zero st = unfinished
parse_loop s (suc fuel) st =
    let rest = resume (parse_loop s fuel) (turn s st) in
    if ltb st.end (length s) then rest else parsed st.request

-- The constructor. Each turn moves `end` on, so one turn more than there are bytes is enough.
unfoldable pub parse : String → Parsed
parse s = parse_loop s (suc (length s)) (goto 0 request_line empty)

unfoldable pub get_request : HttpRequest → String
get_request r =
    (r.method ++ 32 ∷ (r.uri ++ 32 ∷ r.version))
    ++ (crlf ++ (header_lines r.headers ++ (crlf ++ r.body)))
