-- ===== src/Http/Serving.antt =====
-- Which handler a router runs.
use pqnet.Common.{
  ℕ, ◌≡◌, refl, ap, ◌∙◌, Bool, true, false, Option, none, some, List, [], ◌∷◌, ◌==◌, if◌then◌else◌,
  ◌⊎◌, inl, inr,
}
use pqnet.Http.Strings.{String, same}
use pqnet.Http.Request.{HttpRequest}
use pqnet.Http.Response.{HttpResponse}
use pqnet.Http.Router.{
  Handler, HttpRouter, new, not_found, add_handler, add_status_code_handler, run_or, serve,
}

-- A call of addHandler or of addStatusCodeHandler.
pub data Entry : Type 0 where
  route : String → Handler → Entry
  on_status : ℕ → Handler → Entry

abbrev pub enter : List Entry → HttpRouter → HttpRouter
enter [] r = r
enter (route uri hd ∷ es) r = enter es (add_handler uri hd r)
enter (on_status code hd ∷ es) r = enter es (add_status_code_handler code hd r)

-- The handler of the last entry for a URI, and `d` without one.
abbrev pub last_route : String → List Entry → Option Handler → Option Handler
last_route key [] d = d
last_route key (route uri hd ∷ es) d = last_route key es (if same key uri then some hd else d)
last_route key (on_status code hd ∷ es) d = last_route key es d

-- The handler of the last entry for a status code, and `d` without one.
abbrev pub last_status : ℕ → List Entry → Handler → Handler
last_status key [] d = d
last_status key (route uri hd ∷ es) d = last_status key es d
last_status key (on_status code hd ∷ es) d = last_status key es (if key == code then hd else d)

enter_route :
    (key : String) (es : List Entry) (r : HttpRouter)
    → (enter es r).routing_table key ≡ last_route key es (r.routing_table key)
unfolding add_handler add_status_code_handler
enter_route key [] r = refl
enter_route key (route uri hd ∷ es) r = enter_route key es (add_handler uri hd r)
enter_route key (on_status code hd ∷ es) r = enter_route key es (add_status_code_handler code hd r)

some_if : (b : Bool) (hd d : Handler) → (if b then some hd else some d) ≡ some (if b then hd else d)
some_if true hd d = refl
some_if false hd d = refl

enter_status :
    (key : ℕ) (es : List Entry) (r : HttpRouter) (d : Handler)
    → r.sc_table key ≡ some d
    → (enter es r).sc_table key ≡ some (last_status key es d)
unfolding add_handler add_status_code_handler
enter_status key [] r d e = e
enter_status key (route uri hd ∷ es) r d e = enter_status key es (add_handler uri hd r) d e
enter_status key (on_status code hd ∷ es) r d e =
    enter_status key es (add_status_code_handler code hd r) (if key == code then hd else d)
      (ap (λ x. if key == code then some hd else x) e ∙ some_if (key == code) hd d)

by_route :
    (found : Option Handler) (other : Handler) (req : HttpRequest) (resp : HttpResponse)
    (result : Option HttpResponse)
    → result ≡ run_or (λ resp'. other req resp') found req resp
    → (hd : Handler) × (result ≡ hd req resp)
      × ((found ≡ some hd) ⊎ ((found ≡ none) × (hd ≡ other)))
by_route none other req resp result e = (other, e, inr (refl, refl))
by_route (some hd) other req resp result e = (hd, e, inl refl)

-- After any calls of addHandler and addStatusCodeHandler, serve runs one handler, on the request and
-- the response it was given, and returns what that returns: the one last set for the request's URI,
-- or, where none was set for it, the one last set for 404, or, where none was set for that, the
-- router's own.
pub serve_lem :
    (es : List Entry) (req : HttpRequest) (resp : HttpResponse)
    → (hd : Handler) × (serve (enter es new) req resp ≡ hd req resp)
      × ((last_route req.uri es none ≡ some hd)
          ⊎ ((last_route req.uri es none ≡ none) × (hd ≡ last_status 404 es not_found)))
unfolding serve new
serve_lem es req resp =
    let s : (enter es new).sc_table 404 ≡ some (last_status 404 es not_found) =
      enter_status 404 es new not_found refl in
    let r : (enter es new).routing_table req.uri ≡ last_route req.uri es none =
      enter_route req.uri es new in
    let p =
      ap (λ x. run_or (run_or (λ resp'. none) x req) (last_route req.uri es none) req resp) s in
    let q =
      ap (λ x. run_or (run_or (λ resp'. none) ((enter es new).sc_table 404) req) x req resp) r in
    by_route (last_route req.uri es none) (last_status 404 es not_found) req resp
      (serve (enter es new) req resp) (q ∙ p)
