-- ===== src/Http/RouterTests.antt =====
-- A router with one page, and a request for another.
use pqnet.Common.{◌≡◌, ◌⊎◌, refl, none, some, List, [], ◌∷◌, length}
use pqnet.Http.Request.{HttpRequest}
use pqnet.Http.Response.{HttpResponse, version_1_1, status_code_200}
use pqnet.Http.Router.{Handler, new, digits, not_found, not_found_page, serve}
use pqnet.Http.Serving.{Entry, route, on_status, enter, last_route, last_status, serve_lem}

abbrev asked : HttpRequest
asked = record { method = []; uri = 47 ∷ 98 ∷ []; version = []; headers = []; body = [] }

abbrev blank : HttpResponse
blank = record { version = version_1_1; status_info = status_code_200; headers = []; body = [] }

abbrev refuse : Handler
refuse req resp = some resp

-- "/a", and a handler of 404
abbrev entries : List Entry
entries = route (47 ∷ 97 ∷ []) refuse ∷ on_status 404 refuse ∷ []

-- "185"
page_length : digits 20 (length not_found_page) ≡ 49 ∷ 56 ∷ 53 ∷ []
unfolding digits
page_length = refl

serve_lem_example :
    (hd : Handler) × (serve (enter entries new) asked blank ≡ hd asked blank)
    × ((last_route asked.uri entries none ≡ some hd)
        ⊎ ((last_route asked.uri entries none ≡ none) × (hd ≡ last_status 404 entries not_found)))
serve_lem_example = serve_lem entries asked blank
