-- ===== src/Server/Stages/Named.antt =====
-- The header X-Request-Id, which no middleware of server/middleware.go but requestID touches.
use tgju_api_go.Common.{
  ℕ, Bool, true, false, List, Text, codes, ◌≡◌, refl, ◌∙◌, any, if◌then◌else◌, is_nil, text_eq,
}
use tgju_api_go.Errors.{api}
use tgju_api_go.Server.Render.{Failure, write_error}
use tgju_api_go.Server.Stages.{Visit, write_api_error}
use tgju_api_go.Server.Guard.{
  Request, Response, set_header, write_json, read_only_failure, not_allowed, negotiate, allows_all,
  allow_origin, add_header, preflight,
}
use tgju_api_go.Server.Guard.Headers.{values_of, values_of-set_other, values_of-add_other}

abbrev pub id_header : Text
id_header = codes "X-Request-Id"

-- the ids that a response carries
abbrev pub ids : Response → List Text
ids w = values_of id_header w.headers

set_other :
    (k v : Text) (w : Response) → text_eq k id_header ≡ false → ids (set_header k v w) ≡ ids w
set_other k v w h = values_of-set_other id_header k h v w

pub ids-set_type : (v : Text) (w : Response) → ids (set_header (codes "Content-Type") v w) ≡ ids w
unfolding text_eq
ids-set_type v w = set_other (codes "Content-Type") v w refl

pub ids-set_cache : (v : Text) (w : Response) → ids (set_header (codes "Cache-Control") v w) ≡ ids w
unfolding text_eq
ids-set_cache v w = set_other (codes "Cache-Control") v w refl

pub ids-set_location : (v : Text) (w : Response) → ids (set_header (codes "Location") v w) ≡ ids w
unfolding text_eq
ids-set_location v w = set_other (codes "Location") v w refl

pub ids-set_retry : (v : Text) (w : Response) → ids (set_header (codes "Retry-After") v w) ≡ ids w
unfolding text_eq
ids-set_retry v w = set_other (codes "Retry-After") v w refl

pub ids-set_options :
    (v : Text) (w : Response) → ids (set_header (codes "X-Content-Type-Options") v w) ≡ ids w
unfolding text_eq
ids-set_options v w = set_other (codes "X-Content-Type-Options") v w refl

ids-set_allow : (v : Text) (w : Response) → ids (set_header (codes "Allow") v w) ≡ ids w
unfolding text_eq
ids-set_allow v w = set_other (codes "Allow") v w refl

ids-set_origin : (v : Text) (w : Response) → ids (set_header allow_origin v w) ≡ ids w
unfolding text_eq
ids-set_origin v w = set_other allow_origin v w refl

ids-add_vary : (w : Response) → ids (add_header (codes "Vary") (codes "Origin") w) ≡ ids w
unfolding text_eq
ids-add_vary w = values_of-add_other id_header (codes "Vary") refl (codes "Origin") w

pub ids-write_json : (n : ℕ) (f : Failure) (w : Response) → ids (write_json n f w) ≡ ids w
ids-write_json n f w =
    let typed = set_header (codes "Content-Type") (codes "application/json; charset=utf-8") w in
    ids-set_options (codes "nosniff") typed
    ∙ ids-set_type (codes "application/json; charset=utf-8") w

pub ids-write_api_error :
    (code message : Text) (v : Visit) (w : Response)
    → ids (write_api_error code message v w) ≡ ids w
ids-write_api_error code message v w =
    let e = write_error v.request.request_id (api (record { code = code; message = message })) in
    ids-write_json e.0.0 e.0.1 w

pub ids-not_allowed : (r : Request) (w : Response) → ids (not_allowed r w) ≡ ids w
ids-not_allowed r w =
    ids-write_json 405 (read_only_failure r.request_id)
      (set_header (codes "Allow") (codes "GET, HEAD, OPTIONS") w)
    ∙ ids-set_allow (codes "GET, HEAD, OPTIONS") w

ids-if :
    (b : Bool) (w x y : Response) → ids x ≡ ids w → ids y ≡ ids w → ids (if b then x else y) ≡ ids w
ids-if true w x y h k = h
ids-if false w x y h k = k

pub ids-negotiate :
    (origins : List Text) (origin : Text) (w : Response) → ids (negotiate origins origin w) ≡ ids w
unfolding negotiate
ids-negotiate origins origin w =
    let own = set_header allow_origin origin w in
    ids-if (is_nil origin) w _ _ refl (
      ids-if (allows_all origins) w _ _ (ids-set_origin (codes "*") w) (
        ids-if (any (λ o. text_eq o origin) origins) w _ _
          (ids-add_vary own ∙ ids-set_origin origin w) refl))

pub ids-preflight : (w : Response) → ids (preflight w) ≡ ids w
unfolding text_eq
ids-preflight w =
    let methods =
      set_header (codes "Access-Control-Allow-Methods") (codes "GET, HEAD, OPTIONS") w in
    let headers =
      set_header (codes "Access-Control-Allow-Headers") (codes "Content-Type, X-Request-Id")
        methods in
    set_other (codes "Access-Control-Max-Age") (codes "86400") headers refl
    ∙ set_other (codes "Access-Control-Allow-Headers") (codes "Content-Type, X-Request-Id") methods
        refl
    ∙ set_other (codes "Access-Control-Allow-Methods") (codes "GET, HEAD, OPTIONS") w refl
