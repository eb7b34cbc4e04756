-- ===== src/Server/Guard.antt =====
-- Middlewares of server/middleware.go that decide on a request by itself, and the chain that
-- composes them. A handler maps the request and the state of its response to what serving comes to; a header that is set
-- twice stands there once.
pub mod Headers
pub mod Ids
pub mod Methods
use tgju_api_go.Common.{
  ℕ, Bool, true, false, not, List, [], ◌∷◌, ◌++◌, Option, none, some, Text, codes, ◌&&◌, ◌||◌, ◌==◌,
  ltb, within, any, keep, if◌then◌else◌, is_nil, text_eq, byte_len, length,
}
use tgju_api_go.Strings.{cut_at, trim_space}
use tgju_api_go.Server.Render.{Failure, code_not_found}

unfoldable pub is_alphanumeric : ℕ → Bool
is_alphanumeric r = within 0x30 0x39 r || within 0x61 0x7A r || within 0x41 0x5A r

-- the test of the loop
unfoldable pub is_poison : ℕ → Bool
unfolding is_alphanumeric
is_poison r =
    ltb 0x7A r
    || (not (is_alphanumeric r) && (not (r == 0x2D) && (not (r == 0x5F) && not (r == 0x2E))))

unfoldable pub sanitise_request_id : Text → Text
unfolding is_poison
sanitise_request_id id =
    if is_nil id || ltb 64 (byte_len id) then [] else if any is_poison id then [] else id

-- a request, as far as the middlewares read it
pub record Request : Type 0 where
  pub method : Text
  pub origin : Text
  pub preflight_method : Text
  pub request_id : Text
  pub forwarded : Text
  pub remote : Text

pub record Response : Type 0 where
  pub headers : List (Text × Text)
  pub status : Option ℕ
  pub failure : Option Failure

-- what serving comes to: the response, or a result that a model of the rest adds to it
abbrev pub Handler {ℓ} : Type ℓ → Type ℓ
Handler R = Request → Response → R

abbrev pub set_header : Text → Text → Response → Response
set_header k v w = record w { headers = keep (λ p. not (text_eq p.0 k)) w.headers ++ (k, v) ∷ [] }

abbrev pub add_header : Text → Text → Response → Response
add_header k v w = record w { headers = w.headers ++ (k, v) ∷ [] }

-- the first status counts
abbrev pub or_status : Option ℕ → ℕ → Option ℕ
or_status none n = some n
or_status (some m) n = some m

abbrev pub write_header : ℕ → Response → Response
write_header n w = record w { status = or_status w.status n }

-- `chain`: the first middleware is the outermost
unfoldable pub chain {ℓ} : {H : Type ℓ} → H → List (H → H) → H
chain h [] = h
chain h (mw ∷ mws) = mw (chain h mws)

unfoldable pub is_read : Text → Bool
unfolding text_eq
is_read m = text_eq m (codes "GET") || (text_eq m (codes "HEAD") || text_eq m (codes "OPTIONS"))

abbrev pub read_only_failure : Text → Failure
read_only_failure id = record {
  code = code_not_found;
  message = codes "this API is read only; use GET";
  request_id = id;
}

-- `writeJSON` of a failure, before the encoding
abbrev pub write_json : ℕ → Failure → Response → Response
write_json n f w =
    record (write_header n (
      set_header (codes "X-Content-Type-Options") (codes "nosniff")
        (set_header (codes "Content-Type") (codes "application/json; charset=utf-8") w))) {
          failure = some f;
        }

abbrev pub not_allowed : Request → Response → Response
not_allowed r w =
    write_json 405 (read_only_failure r.request_id)
      (set_header (codes "Allow") (codes "GET, HEAD, OPTIONS") w)

-- `finish` is the return with no call of the next handler
unfoldable pub read_only {ℓ} : {R : Type ℓ} → (Response → R) → Handler R → Handler R
unfolding is_read
read_only finish next r w = if is_read r.method then next r w else finish (not_allowed r w)

abbrev pub allow_origin : Text
allow_origin = codes "Access-Control-Allow-Origin"

abbrev pub allows_all : List Text → Bool
allows_all (o ∷ []) = text_eq o (codes "*")
allows_all _ = false

-- the switch on the origin
unfoldable pub negotiate : List Text → Text → Response → Response
unfolding text_eq
negotiate origins origin w =
    if is_nil origin
    then w
    else if allows_all origins
    then set_header allow_origin (codes "*") w
    else if any (λ o. text_eq o origin) origins
    then add_header (codes "Vary") (codes "Origin") (set_header allow_origin origin w)
    else w

abbrev pub preflight : Response → Response
preflight w = write_header 204 (
    set_header (codes "Access-Control-Max-Age") (codes "86400") (
      set_header (codes "Access-Control-Allow-Headers") (codes "Content-Type, X-Request-Id")
        (set_header (codes "Access-Control-Allow-Methods") (codes "GET, HEAD, OPTIONS") w)))

unfoldable pub cors {ℓ} : {R : Type ℓ} → (Response → R) → List Text → Handler R → Handler R
unfolding negotiate text_eq
cors finish origins next r w =
    let w' = negotiate origins r.origin w in
    if text_eq r.method (codes "OPTIONS") && not (is_nil r.preflight_method)
    then finish (preflight w')
    else next r w'

abbrev pub before_comma : Text → Option (Text × Text) → Text
before_comma s none = s
before_comma s (some (first, rest)) = first

-- `clientOf`; net.SplitHostPort is a parameter
unfoldable pub client_of : (Text → Option Text) → Request → Text
unfolding trim_space cut_at
client_of split_host_port r =
    if is_nil r.forwarded
    then (elim (split_host_port r.remote) [ none ↦ r.remote | some host ↦ host ])
    else trim_space (before_comma r.forwarded (cut_at (λ c. c == 0x2C) r.forwarded))
