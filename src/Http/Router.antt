-- ===== src/Http/Router.antt =====
-- router.h and router.cpp. A std::map is the function that finds a key's value. A handler is a function
-- that may fail; `none` is also the call of an empty std::function.
use pqnet.Common.{
  ℕ, zero, suc, ◌/◌, ◌%◌, ◌+◌, Option, none, some, [], ◌∷◌, ◌++◌, length, ltb, ◌==◌, if◌then◌else◌,
  ◌>>=◌,
}
use pqnet.Http.Strings.{String, same}
use pqnet.Http.Request.{HttpRequest}
use pqnet.Http.Response.{HttpResponse, reset_status_code, add_header, append_to_body}

abbrev pub Handler : Type 0
Handler = HttpRequest → HttpResponse → Option HttpResponse

pub record HttpRouter : Type 0 where
  pub routing_table : String → Option Handler
  pub sc_table : ℕ → Option Handler

-- "Content-Length"
abbrev pub content_length : String
content_length = 67 ∷ 111 ∷ 110 ∷ 116 ∷ 101 ∷ 110 ∷ 116 ∷ 45 ∷ 76 ∷ 101 ∷ 110 ∷ 103 ∷ 116 ∷ 104 ∷ []

-- "Content-Type"
abbrev pub content_type : String
content_type = 67 ∷ 111 ∷ 110 ∷ 116 ∷ 101 ∷ 110 ∷ 116 ∷ 45 ∷ 84 ∷ 121 ∷ 112 ∷ 101 ∷ []

-- "text/html; charset=utf-8"
abbrev pub text_html : String
text_html =
    116 ∷ 101 ∷ 120 ∷ 116 ∷ 47 ∷ 104 ∷ 116 ∷ 109 ∷ 108 ∷ 59 ∷ 32 ∷ 99 ∷ 104 ∷ 97 ∷ 114 ∷ 115 ∷ 101
    ∷ 116 ∷ 61 ∷ 117 ∷ 116 ∷ 102 ∷ 45 ∷ 56 ∷ []

-- The page of router.cpp, byte by byte.
abbrev pub not_found_page : String
not_found_page =
    60 ∷ 33 ∷ 68 ∷ 79 ∷ 67 ∷ 84 ∷ 89 ∷ 80 ∷ 69 ∷ 32 ∷ 104 ∷ 116 ∷ 109 ∷ 108 ∷ 62 ∷ 10 ∷ 60 ∷ 104
    ∷ 116 ∷ 109 ∷ 108 ∷ 62 ∷ 10 ∷ 60 ∷ 104 ∷ 101 ∷ 97 ∷ 100 ∷ 62 ∷ 10 ∷ 32 ∷ 32 ∷ 32 ∷ 32 ∷ 60 ∷ 116
    ∷ 105 ∷ 116 ∷ 108 ∷ 101 ∷ 62 ∷ 52 ∷ 48 ∷ 52 ∷ 32 ∷ 78 ∷ 111 ∷ 116 ∷ 32 ∷ 70 ∷ 111 ∷ 117 ∷ 110
    ∷ 100 ∷ 60 ∷ 47 ∷ 116 ∷ 105 ∷ 116 ∷ 108 ∷ 101 ∷ 62 ∷ 10 ∷ 60 ∷ 47 ∷ 104 ∷ 101 ∷ 97 ∷ 100 ∷ 62
    ∷ 10 ∷ 60 ∷ 98 ∷ 111 ∷ 100 ∷ 121 ∷ 62 ∷ 10 ∷ 32 ∷ 32 ∷ 32 ∷ 32 ∷ 60 ∷ 99 ∷ 101 ∷ 110 ∷ 116 ∷ 101
    ∷ 114 ∷ 62 ∷ 60 ∷ 104 ∷ 49 ∷ 62 ∷ 52 ∷ 48 ∷ 52 ∷ 32 ∷ 78 ∷ 111 ∷ 116 ∷ 32 ∷ 70 ∷ 111 ∷ 117 ∷ 110
    ∷ 100 ∷ 60 ∷ 47 ∷ 104 ∷ 49 ∷ 62 ∷ 60 ∷ 47 ∷ 99 ∷ 101 ∷ 110 ∷ 116 ∷ 101 ∷ 114 ∷ 62 ∷ 10 ∷ 32 ∷ 32
    ∷ 32 ∷ 32 ∷ 60 ∷ 104 ∷ 114 ∷ 62 ∷ 10 ∷ 32 ∷ 32 ∷ 32 ∷ 32 ∷ 60 ∷ 99 ∷ 101 ∷ 110 ∷ 116 ∷ 101 ∷ 114
    ∷ 62 ∷ 104 ∷ 116 ∷ 116 ∷ 112 ∷ 115 ∷ 101 ∷ 114 ∷ 118 ∷ 101 ∷ 114 ∷ 47 ∷ 48 ∷ 46 ∷ 49 ∷ 46 ∷ 48
    ∷ 60 ∷ 47 ∷ 99 ∷ 101 ∷ 110 ∷ 116 ∷ 101 ∷ 114 ∷ 62 ∷ 10 ∷ 60 ∷ 47 ∷ 98 ∷ 111 ∷ 100 ∷ 121 ∷ 62
    ∷ 10 ∷ 60 ∷ 47 ∷ 104 ∷ 116 ∷ 109 ∷ 108 ∷ 62 ∷ 10 ∷ []

-- `std::to_string`, up to a number of digits
unfoldable pub digits : ℕ → ℕ → String
digits zero n = []
digits (suc k) n =
    let front = digits k (n / 10) in if ltb n 10 then (48 + n) ∷ [] else front ++ (48 + n % 10) ∷ []

-- The handler of 404 that the constructor sets; a size_t has at most 20 digits.
unfoldable pub not_found : Handler
not_found req resp = do
  r ← reset_status_code 404 resp
  let r1 = add_header content_length (digits 20 (length not_found_page)) r
  some (append_to_body not_found_page (add_header content_type text_html r1))

unfoldable pub new : HttpRouter
new = record {
  routing_table = λ uri. none;
  sc_table = λ code. if code == 404 then some not_found else none;
}

unfoldable pub add_handler : String → Handler → HttpRouter → HttpRouter
add_handler uri hd r = record r {
  routing_table = λ key. if same key uri then some hd else r.routing_table key;
}

unfoldable pub add_status_code_handler : ℕ → Handler → HttpRouter → HttpRouter
add_status_code_handler code hd r = record r {
  sc_table = λ key. if key == code then some hd else r.sc_table key;
}

-- A handler that was found, or what is done without one.
abbrev pub run_or : (HttpResponse → Option HttpResponse) → Option Handler → Handler
run_or other none req resp = other resp
run_or other (some hd) req resp = hd req resp

unfoldable pub serve : HttpRouter → Handler
serve r req resp =
    let otherwise = run_or (λ resp'. none) (r.sc_table 404) req in
    run_or otherwise (r.routing_table req.uri) req resp
