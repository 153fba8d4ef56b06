-- ===== src/Http/Tests.antt =====
-- A small request, and the theorems at it.
use pqnet.Common.{◌≡◌, ◌⊎◌, refl, some, [], ◌∷◌, ◌++◌, arith}
use pqnet.Http.Strings.{String, Headers, less, header_lines, substr, find, find_from}
use pqnet.Http.Request.{
  HttpRequest, parsed, out_of_range, empty, parse_request_line, parse, get_request,
}
use pqnet.Http.Parsing.{parse-Ends}
use pqnet.Http.RoundTrip.{parse-get_request}

-- "GET", "/a", "H1"
abbrev get : String
get = 71 ∷ 69 ∷ 84 ∷ []

abbrev path : String
path = 47 ∷ 97 ∷ []

abbrev protocol : String
protocol = 72 ∷ 49 ∷ []

-- "A: b" and "B: c"
abbrev two_headers : Headers
two_headers = (65 ∷ [], 98 ∷ []) ∷ (66 ∷ [], 99 ∷ []) ∷ []

abbrev hello : String
hello = 104 ∷ 105 ∷ []

abbrev request : String → HttpRequest
request body = record {
  method = get;
  uri = path;
  version = protocol;
  headers = two_headers;
  body = body;
}

parse-Ends_example :
    ((r : HttpRequest) × (parse (get ++ path) ≡ parsed r)) ⊎ (parse (get ++ path) ≡ out_of_range)
parse-Ends_example = parse-Ends (get ++ path) (omega arith)

-- A line without spaces throws nothing.
one_word :
    parse_request_line get empty
    ≡ some (record { method = get; uri = get; version = get; headers = []; body = [] })
unfolding parse_request_line find find_from substr empty
one_word = refl

-- The body is gone.
parse-get_request_example : parse (get_request (request hello)) ≡ parsed (request [])
unfolding less get_request header_lines
parse-get_request_example =
    parse-get_request get path protocol two_headers hello (refl, (refl, (refl, tt)))
      (refl, (refl, tt)) (refl, (refl, (refl, (refl, (refl, (refl, (refl, (refl, (refl, tt)))))))))
      (((refl, tt), (refl, tt), (refl, tt)), (((refl, tt), (refl, tt), (refl, tt)), tt))
      (((refl, refl), tt), (tt, tt)) (refl, (refl, tt)) (omega arith)
