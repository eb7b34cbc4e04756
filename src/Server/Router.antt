-- ===== src/Server/Router.antt =====
-- The endpoints that `build` of server/server.go registers,
-- and the http.ServeMux (net/http) that dispatches to them. A pattern is the list of its segments; a
-- path is that of its segments, unescaped, behind the first slash. A path that net/http cleans is
-- redirected to the clean one, whatever the method. Of the bodies of the pages
-- /openapi.yaml, /docs and /metrics nothing is kept.
pub mod Unique
pub mod Reached
pub mod Settles
pub mod Noted
use tgju_api_go.Common.{
  ℕ, zero, suc, Bool, true, false, List, [], ◌∷◌, ◌++◌, Option, none, some, Text, codes, ◌||◌, any,
  if◌then◌else◌, is_nil, text_eq, map, ◌==◌,
}
use tgju_api_go.Strings.{decimal, split, has_prefix}
use tgju_api_go.Market.{currency, gold, coin}
use tgju_api_go.Server.Render.{Failure, code_not_found, write_error}
use tgju_api_go.Server.Guard.{Response, set_header, write_header, or_status}
use tgju_api_go.Server.Legacy.{legacy_flat, legacy_grouped}
use tgju_api_go.Server.Handlers.{
  Service, CacheControl, unset, no_store, public_for, Body, failure, Answer, handle_markets,
  handle_market, handle_market_items, handle_market_item, handle_item, handle_snapshot,
  handle_legacy, handle_health, handle_ready,
}
use tgju_api_go.Server.Pages.{
  answering, handle_openapi, handle_docs, handle_metrics, handle_root, not_found,
}
use tgju_api_go.Server.Stages.{
  Stage, Visit, State, Outcome, answered, record_route, write_api_error,
}

-- what `handle` registers; the stage takes the values of the placeholders
pub record Entry : Type 0 where
  pub pattern : Text
  pub summary : Text
  pub stage : List Text → Stage

pub record Route : Type 0 where
  pub method : Text
  pub pattern : Text
  pub summary : Text

-- PathValue of the first and of the second placeholder
abbrev pub first_value : List Text → Text
first_value [] = []
first_value (a ∷ more) = a

abbrev pub second_value : List Text → Text
second_value [] = []
second_value (a ∷ more) = first_value more

-- `s` is what the client gives during the request
module _ (s : Service) where
  abbrev pub market_stage : List Text → Stage
  market_stage vs v w st = answering (λ id. handle_market s id (first_value vs) v.query) v w st

  abbrev pub items_stage : List Text → Stage
  items_stage vs v w st = answering (λ id. handle_market_items s id (first_value vs) v.query) v w st

  abbrev pub entries : List Entry
  entries =
      record {
        pattern = codes "/v1/markets";
        summary = codes "List the supported markets";
        stage = λ vs. answering (λ id. handle_markets s);
      }
      ∷ record {
        pattern = codes "/v1/markets/{market}";
        summary = codes "Full snapshot of one market, grouped into categories";
        stage = market_stage;
      }
      ∷ record {
        pattern = codes "/v1/markets/{market}/items";
        summary = codes "Flat list of one market's instruments";
        stage = items_stage;
      }
      ∷ record {
        pattern = codes "/v1/markets/{market}/items/{key}";
        summary = codes "One instrument of one market";
        stage = λ vs. answering (λ id. handle_market_item s id (first_value vs) (second_value vs));
      }
      ∷ record {
        pattern = codes "/v1/items/{key}";
        summary = codes "One instrument, looked up across every market";
        stage = λ vs. answering (λ id. handle_item s id (first_value vs));
      }
      ∷ record {
        pattern = codes "/v1/snapshot";
        summary = codes "Every market in one response";
        stage = λ vs. answering (handle_snapshot s);
      }
      ∷ record {
        pattern = codes "/api/price/currency";
        summary = codes "Currency prices in the shape of the original Python API";
        stage = λ vs. answering (handle_legacy s currency legacy_flat);
      }
      ∷ record {
        pattern = codes "/api/price/gold";
        summary = codes "Gold prices in the shape of the original Python API";
        stage = λ vs. answering (handle_legacy s gold legacy_grouped);
      }
      ∷ record {
        pattern = codes "/api/price/coin";
        summary = codes "Coin prices in the shape of the original Python API";
        stage = λ vs. answering (handle_legacy s coin legacy_grouped);
      }
      ∷ record {
        pattern = codes "/healthz";
        summary = codes "Liveness probe";
        stage = λ vs. answering (λ id. handle_health s);
      }
      ∷ record {
        pattern = codes "/readyz";
        summary = codes "Readiness probe; fetches from tgju.org";
        stage = λ vs. answering (λ id. handle_ready s);
      }
      ∷ record {
        pattern = codes "/openapi.yaml";
        summary = codes "The OpenAPI description of this API";
        stage = λ vs. handle_openapi;
      }
      ∷ record {
        pattern = codes "/docs";
        summary = codes "This documentation";
        stage = λ vs. handle_docs;
      }
      ∷ []

  abbrev pub metrics_entry : Entry
  metrics_entry = record {
    pattern = codes "/metrics";
    summary = codes "Prometheus metrics";
    stage = λ vs. handle_metrics;
  }

  -- the calls of `handle`, in their order; `metrics` is the setting
  unfoldable pub registered : Bool → List Entry
  unfolding handle_openapi handle_docs handle_metrics handle_markets handle_market
      handle_market_items handle_market_item handle_item handle_snapshot handle_legacy handle_health
      handle_ready
  registered metrics = entries ++ (if metrics then metrics_entry ∷ [] else [])

abbrev pub route_of : Entry → Route
route_of e = record { method = codes "GET"; pattern = e.pattern; summary = e.summary }

-- `Routes`
unfoldable pub routes : Service → Bool → List Route
unfolding registered
routes s metrics = map route_of (registered s metrics)

-- the segments of a pattern, behind its first slash
abbrev pub behind_slash : List Text → List Text
behind_slash [] = []
behind_slash (a ∷ more) = more

unfoldable pub segments : Text → List Text
unfolding split
segments pattern = behind_slash (split b'/' pattern)

abbrev pub is_placeholder : Text → Bool
is_placeholder [] = false
is_placeholder (c ∷ s) = c == b'{'

abbrev pub with_value : Text → Option (List Text) → Option (List Text)
with_value a none = none
with_value a (some vs) = some (a ∷ vs)

-- The values of the placeholders, if the pattern matches; a placeholder takes one segment that is not
-- empty.
unfoldable pub match_segments : List Text → List Text → Option (List Text)
unfolding text_eq
match_segments [] [] = some []
match_segments (p ∷ ps) (x ∷ xs) =
    let rest = match_segments ps xs in
    if is_placeholder p
    then (if is_nil x then none else with_value x rest)
    else if text_eq p x
    then rest
    else none
match_segments _ _ = none

abbrev pub or_found :
    Entry → Option (List Text) → Option (Entry × List Text) → Option (Entry × List Text)
or_found e none later = later
or_found e (some vs) later = some (e, vs)

-- the entry that matches; Router/Unique.antt shows that there is one at most
unfoldable pub find : List Entry → List Text → Option (Entry × List Text)
unfolding match_segments segments
find [] path = none
find (e ∷ es) path = or_found e (match_segments (segments e.pattern) path) (find es path)

abbrev pub is_root : List Text → Bool
is_root (x ∷ []) = is_nil x
is_root _ = false

abbrev pub dispatched : List Text → Option (Entry × List Text) → Stage
dispatched path (some (e, vs)) = record_route e.pattern (e.stage vs)
dispatched path none = if is_root path then record_route (codes "/") handle_root else not_found

-- a pattern with GET takes HEAD too
abbrev pub is_get : Text → Bool
is_get m = text_eq m (codes "GET") || text_eq m (codes "HEAD")

-- the redirect of net/http to a clean path, with http.Redirect
abbrev pub typed : Text → Response → Response
typed m w =
    if is_get m then set_header (codes "Content-Type") (codes "text/html; charset=utf-8") w else w

unfoldable pub redirect : Text → Stage
unfolding text_eq
redirect to v w st =
    answered (write_header 301 (typed v.request.method (set_header (codes "Location") to w))) st

abbrev pub or_moved : Option Text → Stage → Stage
or_moved none h = h
or_moved (some to) h = redirect to

abbrev pub routed : List Entry → Stage
routed es v w st =
    if is_get v.request.method then dispatched v.path (find es v.path) v w st else not_found v w st

unfoldable pub mux : Service → Bool → Stage
unfolding registered find redirect record_route handle_root not_found text_eq
mux s metrics v w st = or_moved v.moved (routed (registered s metrics)) v w st
