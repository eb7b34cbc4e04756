-- ===== src/Server/Guard/Methods.antt =====
-- The methods and the origins that server/middleware.go lets through.
use tgju_api_go.Common.{
  Bool, true, false, List, [], ◌∷◌, ◌++◌, Text, codes, any, ◌≡◌, ◌⊎◌, inl, inr, refl, ap, ◌∙◌,
  if◌then◌else◌, is_nil, text_eq,
}
use tgju_api_go.Server.Guard.Headers.{
  values_of, values_of-set, values_of-set_other, values_of-add_other,
}
use tgju_api_go.Server.Guard.{
  Request, Response, Handler, set_header, add_header, chain, is_read, not_allowed, read_only,
  allow_origin, allows_all, negotiate,
}

-- `chain` nests one list of middlewares around what another makes of the handler.
pub chain-append {ℓ} :
    {H : Type ℓ} (h : H) (outer inner : List (H → H))
    → chain h (outer ++ inner) ≡ chain (chain h inner) outer
unfolding chain
chain-append h [] inner = refl
chain-append h (mw ∷ outer) inner = ap mw (chain-append h outer inner)

-- the origin headers of a response
abbrev pub origins_of : List (Text × Text) → List Text
origins_of = values_of allow_origin

vary_apart : text_eq (codes "Vary") allow_origin ≡ false
unfolding text_eq
vary_apart = refl

-- what the switch leaves as the origins of a response that had `before`
abbrev pub Negotiated : List Text → Text → List Text → List Text → Type 0
Negotiated origins origin before after =
    (after ≡ before)
    ⊎ ((allows_all origins ≡ true) × (after ≡ codes "*" ∷ []))
    ⊎ ((any (λ o. text_eq o origin) origins ≡ true) × (after ≡ origin ∷ []))

Negotiated-by :
    (origins : List Text) (origin : Text) (w : Response) (a b c : Bool)
    → allows_all origins ≡ b
    → any (λ o. text_eq o origin) origins ≡ c
    → Negotiated origins origin (origins_of w.headers) (
        origins_of
          (if a
            then w
            else if b
            then set_header allow_origin (codes "*") w
            else if c
            then add_header (codes "Vary") (codes "Origin") (set_header allow_origin origin w)
            else w).headers)
Negotiated-by origins origin w true b c e f = inl refl
Negotiated-by origins origin w false true c e f =
    inr (inl (e, values_of-set allow_origin (codes "*") w))
Negotiated-by origins origin w false false true e f = inr (
    inr (
      f,
      values_of-add_other allow_origin (codes "Vary") vary_apart (codes "Origin")
            (set_header allow_origin origin w)
          ∙ values_of-set allow_origin origin w,
    ))
Negotiated-by origins origin w false false false e f = inl refl

-- The origins that a response allows stay as they were, or become `*` where that is all that the
-- service is given, or the request's own origin where the service is given that.
pub negotiate-Negotiated :
    (origins : List Text) (origin : Text) (w : Response)
    → Negotiated origins origin
        (origins_of w.headers)
        (origins_of (negotiate origins origin w).headers)
unfolding negotiate
negotiate-Negotiated origins origin w =
    Negotiated-by origins origin w (is_nil origin) (allows_all origins)
      (any (λ o. text_eq o origin) origins) refl refl

allow_apart : text_eq (codes "Allow") allow_origin ≡ false
unfolding text_eq
allow_apart = refl

type_apart : text_eq (codes "Content-Type") allow_origin ≡ false
unfolding text_eq
type_apart = refl

options_apart : text_eq (codes "X-Content-Type-Options") allow_origin ≡ false
unfolding text_eq
options_apart = refl

-- a 405 adds no origin
pub origins_of-not_allowed :
    (r : Request) (w : Response) → origins_of (not_allowed r w).headers ≡ origins_of w.headers
origins_of-not_allowed r w =
    let a = set_header (codes "Allow") (codes "GET, HEAD, OPTIONS") w in
    let b = set_header (codes "Content-Type") (codes "application/json; charset=utf-8") a in
    values_of-set_other allow_origin (codes "X-Content-Type-Options") options_apart
      (codes "nosniff") b
    ∙ values_of-set_other allow_origin (codes "Content-Type") type_apart
        (codes "application/json; charset=utf-8") a
    ∙ values_of-set_other allow_origin (codes "Allow") allow_apart (codes "GET, HEAD, OPTIONS") w

-- readOnly answers a request that is no read itself.
pub read_only-write {ℓ} :
    {R : Type ℓ} (finish : Response → R) (next : Handler R) (r : Request) (w : Response)
    → is_read r.method ≡ false
    → read_only finish next r w ≡ finish (not_allowed r w)
unfolding read_only
read_only-write finish next r w h = rw h refl
