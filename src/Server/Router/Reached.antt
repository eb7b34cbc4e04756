-- ===== src/Server/Router/Reached.antt =====
-- The endpoints that `Routes` of server/server.go documents are reached.
use tgju_api_go.Common.{
  ℕ, zero, suc, Bool, true, false, List, [], ◌∷◌, none, some, Text, ◌≡◌, refl, sym, ap, ◌∙◌,
  if◌then◌else◌, is_nil, text_eq_refl, get_elem?, map, Bool-cases, inl, inr,
}
use tgju_api_go.Server.Guard.{Response}
use tgju_api_go.Server.Handlers.{Service}
use tgju_api_go.Server.Stages.{Visit, State, record_route}
use tgju_api_go.Server.Router.{
  Entry, route_of, routes, registered, segments, is_placeholder, match_segments, is_get, mux,
  first_value, behind_slash,
}
use tgju_api_go.Server.Router.Unique.{find-matched, registered-all_apart}

-- the path of a pattern whose placeholders have these values
abbrev pub filled : List Text → List Text → List Text
filled [] vs = []
filled (p ∷ ps) vs =
    if is_placeholder p then first_value vs ∷ filled ps (behind_slash vs) else p ∷ filled ps vs

-- one value for each placeholder, and none of them empty
abbrev pub Suits : List Text → List Text → Type 0
Suits [] vs = vs ≡ []
Suits (p ∷ ps) vs =
    if is_placeholder p
    then (is_nil (first_value vs) ≡ false) × Suits ps (behind_slash vs)
    else Suits ps vs

split_values :
    (vs : List Text) → is_nil (first_value vs) ≡ false → first_value vs ∷ behind_slash vs ≡ vs
split_values [] h = absurd (cc h)
split_values (a ∷ more) h = refl

match-filled : (ps vs : List Text) → Suits ps vs → match_segments ps (filled ps vs) ≡ some vs
unfolding match_segments
match-filled [] vs h = ap some (sym h)
match-filled (p ∷ ps) vs h = elim (Bool-cases (is_placeholder p)) [
  | inl e ↦
      let k : (is_nil (first_value vs) ≡ false) × Suits ps (behind_slash vs) = rw e at h in
      rw (e, e, k.0, match-filled ps (behind_slash vs) k.1) (ap some (split_values vs k.0))
  | inr e ↦ let k : Suits ps vs = rw e at h in rw (e, e, text_eq_refl p) (match-filled ps vs k)
]

get_elem?-map :
    {A B : Type 0} (f : A → B) (xs : List A) (i : ℕ) {x : A}
    → get_elem? xs i ≡ some x
    → get_elem? (map f xs) i ≡ some (f x)
get_elem?-map f [] i h = cc h
get_elem?-map f (y ∷ ys) zero {x} h = let same : y ≡ x = cc h in ap (λ z. some (f z)) same
get_elem?-map f (y ∷ ys) (suc i) h = get_elem?-map f ys i h

-- A documented endpoint answers a GET, and a HEAD, of its pattern with any values that are not empty in
-- place of the placeholders, if the path is clean: `Routes` has its pattern at the place where it is registered, and the
-- router hands the values to it and notes the pattern, whether /metrics is on or off.
pub mux-filled :
    (s : Service) (metrics : Bool) (i : ℕ) (e : Entry) (vs : List Text) (v : Visit) (w : Response)
    (st : State)
    → get_elem? (registered s metrics) i ≡ some e
    → Suits (segments e.pattern) vs
    → is_get v.request.method ≡ true
    → v.moved ≡ none
    → v.path ≡ filled (segments e.pattern) vs
    → (get_elem? (routes s metrics) i ≡ some (route_of e))
      × (mux s metrics v w st ≡ record_route e.pattern (e.stage vs) v w st)
unfolding mux routes
mux-filled s metrics i e vs v w st g fits m c p = (
  get_elem?-map route_of (registered s metrics) i g,
  (rw
      (
        c,
        m,
        find-matched (registered s metrics) i v.path (registered-all_apart s metrics) g (
            ap (match_segments (segments e.pattern)) p ∙ match-filled (segments e.pattern) vs fits),
      )
      refl),
)
