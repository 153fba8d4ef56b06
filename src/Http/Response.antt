-- ===== src/Http/Response.antt =====
-- response.h and response.cpp. `none` is a string made from a null pointer.
use pqnet.Common.{ℕ, Option, none, some, [], ◌∷◌, ◌++◌, ◌==◌, if◌then◌else◌, ◌>>=◌}
use pqnet.Http.Strings.{String, Headers, crlf, assign, header_lines}

-- "200 OK" and "404 Not Found"
abbrev pub status_code_200 : String
status_code_200 = 50 ∷ 48 ∷ 48 ∷ 32 ∷ 79 ∷ 75 ∷ []

abbrev pub status_code_404 : String
status_code_404 = 52 ∷ 48 ∷ 52 ∷ 32 ∷ 78 ∷ 111 ∷ 116 ∷ 32 ∷ 70 ∷ 111 ∷ 117 ∷ 110 ∷ 100 ∷ []

-- "HTTP/1.1"
abbrev pub version_1_1 : String
version_1_1 = 72 ∷ 84 ∷ 84 ∷ 80 ∷ 47 ∷ 49 ∷ 46 ∷ 49 ∷ []

pub record HttpResponse : Type 0 where
  pub version : String
  pub status_info : String
  pub headers : Headers
  pub body : String

unfoldable pub get_status_info : ℕ → Option String
get_status_info code =
    if code == 200 then some status_code_200 else if code == 404 then some status_code_404 else none

unfoldable pub new : ℕ → Option HttpResponse
new code = do
  info ← get_status_info code
  some (record { version = version_1_1; status_info = info; headers = []; body = [] })

unfoldable pub reset_status_code : ℕ → HttpResponse → Option HttpResponse
reset_status_code code r = do info ← get_status_info code; some (record r { status_info = info })

unfoldable pub add_header : String → String → HttpResponse → HttpResponse
add_header key value r = record r { headers = assign key value r.headers }

unfoldable pub append_to_body : String → HttpResponse → HttpResponse
append_to_body text r = record r { body = r.body ++ text }

unfoldable pub get_response : HttpResponse → String
get_response r =
    (r.version ++ 32 ∷ r.status_info) ++ (crlf ++ (header_lines r.headers ++ (crlf ++ r.body)))
