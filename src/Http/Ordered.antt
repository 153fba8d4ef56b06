-- ===== src/Http/Ordered.antt =====
-- Headers put in one by one, in the order of their keys.
use pqnet.Common.{
  ◌≡◌, refl, ap, ◌∙◌, sym, true, false, [], ◌∷◌, ◌++◌, append-nil, append_assoc, All,
}
use mathlib.Core.Path.{subst}
use pqnet.Http.Strings.{String, Headers, assign, less}
use pqnet.Http.Request.{HttpRequest, add_header}

abbrev pub add_all : Headers → HttpRequest → HttpRequest
add_all [] r = r
add_all ((k, v) ∷ hs) r = add_all hs (add_header k v r)

-- The key of a header comes before another's.
abbrev pub IsBefore : String × String → String × String → Type 0
IsBefore (k, v) (k', v') = (less k' k ≡ false) × (less k k' ≡ true)

-- The keys are in strictly ascending order.
abbrev pub IsOrdered : Headers → Type 0
IsOrdered [] = Unit
IsOrdered (h ∷ hs) = All (IsBefore h) hs × IsOrdered hs

assign_last :
    (k v : String) (hs : Headers)
    → All (λ h. IsBefore h (k, v)) hs
    → assign k v hs ≡ hs ++ (k, v) ∷ []
unfolding assign
assign_last k v [] a = refl
assign_last k v ((k', v') ∷ hs) ((p, q), a) =
    rw p (rw q (ap (λ t. (k', v') ∷ t) (assign_last k v hs a)))

All-middle :
    (P : String × String → Type 0) (xs : Headers) (h : String × String) (ys : Headers)
    → All P (xs ++ h ∷ ys)
    → P h
All-middle P [] h ys (p, a) = p
All-middle P (x ∷ xs) h ys (p, a) = All-middle P xs h ys a

IsBefore-middle :
    (xs : Headers) (h : String × String) (ys : Headers)
    → IsOrdered (xs ++ h ∷ ys)
    → All (λ x. IsBefore x h) xs
IsBefore-middle [] h ys o = tt
IsBefore-middle (x ∷ xs) h ys (a, o) =
    (All-middle (IsBefore x) xs h ys a, IsBefore-middle xs h ys o)

pub add_all_lem :
    (hs acc : Headers) (r : HttpRequest)
    → r.headers ≡ acc
    → IsOrdered (acc ++ hs)
    → add_all hs r ≡ record r { headers = acc ++ hs }
unfolding add_header
add_all_lem [] acc r e o = rw (append-nil acc) (ap (λ t. record r { headers = t }) e)
add_all_lem ((k, v) ∷ hs) acc r e o =
    let step : assign k v r.headers ≡ acc ++ (k, v) ∷ [] =
      ap (λ t. assign k v t) e ∙ assign_last k v acc (IsBefore-middle acc (k, v) hs o) in
    let o' = subst IsOrdered (sym (append_assoc acc ((k, v) ∷ []) hs)) o in
    add_all_lem hs (acc ++ (k, v) ∷ []) (add_header k v r) step o'
    ∙ ap (λ t. record r { headers = t }) (append_assoc acc ((k, v) ∷ []) hs)
