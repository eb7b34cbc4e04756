-- ===== src/Server/Router/Settles.antt =====
-- The router of server/server.go and every handler behind it answer, and leave the metrics and the
-- header X-Request-Id as they are.
use tgju_api_go.Common.{
  Bool, true, false, List, [], ◌∷◌, ◌++◌, Option, none, some, Text, codes, ◌≡◌, refl, ◌∙◌,
  Bool-cases, inl, inr, if◌then◌else◌, All, All-append,
}
use tgju_api_go.Server.Guard.{Response, set_header}
use tgju_api_go.Strings.{decimal}
use tgju_api_go.Market.{currency, gold, coin}
use tgju_api_go.Server.Render.{code_not_found}
use tgju_api_go.Server.Legacy.{legacy_flat, legacy_grouped}
use tgju_api_go.Server.Handlers.{
  Service, CacheControl, unset, no_store, public_for, Answer, handle_markets, handle_market,
  handle_market_items, handle_market_item, handle_item, handle_snapshot, handle_legacy,
  handle_health, handle_ready,
}
use tgju_api_go.Server.Stages.{State, Outcome, Stage, record_route}
use tgju_api_go.Server.Stages.Named.{
  ids, ids-set_type, ids-set_cache, ids-set_location, ids-set_options, ids-write_api_error,
}
use tgju_api_go.Server.Stages.Kept.{Settled, Settles, record_route-Settles}
use tgju_api_go.Server.Pages.{
  set_cache, respond, answering, page, handle_openapi, handle_docs, handle_metrics, handle_root,
  not_found,
}
use tgju_api_go.Server.Router.{
  first_value, second_value, Entry, entries, metrics_entry, registered, find, match_segments,
  segments, or_found, dispatched, is_root, is_get, typed, redirect, or_moved, routed, mux,
}

abbrev EntrySettles : Entry → Type 0
EntrySettles e = (vs : List Text) → Settles (e.stage vs)

ids-set_cache_control : (c : CacheControl) (w : Response) → ids (set_cache c w) ≡ ids w
ids-set_cache_control unset w = refl
ids-set_cache_control no_store w = ids-set_cache (codes "no-store") w
ids-set_cache_control (public_for n) w = ids-set_cache (codes "public, max-age=" ++ decimal n) w

ids-respond : (a : Answer) (w : Response) → ids (respond a w) ≡ ids w
unfolding respond
ids-respond a w =
    let cached = set_cache a.cache_control w in
    let typed =
      set_header (codes "Content-Type") (codes "application/json; charset=utf-8") cached in
    ids-set_options (codes "nosniff") typed
    ∙ ids-set_type (codes "application/json; charset=utf-8") cached
    ∙ ids-set_cache_control a.cache_control w

answering-Settles : (f : Text → Answer) → Settles (answering f)
answering-Settles f v w st =
    let a = f v.request.request_id in
    (respond a w, record st { body = some a.body }, refl, refl, ids-respond a w)

ids-page :
    (content : Text) (w : Response)
    → ids (
        set_header
          (codes "Cache-Control")
          (codes "public, max-age=3600")
          (set_header (codes "Content-Type") content w))
      ≡ ids w
ids-page content w =
    ids-set_cache (codes "public, max-age=3600") (set_header (codes "Content-Type") content w)
    ∙ ids-set_type content w

page-Settles : (content : Text) → Settles (page content)
page-Settles content v w st = (_, st, refl, refl, ids-page content w)

entries-All : (s : Service) → All EntrySettles (entries s)
unfolding handle_openapi handle_docs
entries-All s = (
  λ vs. answering-Settles (λ id. handle_markets s),
  (
    λ vs v. answering-Settles (λ id. handle_market s id (first_value vs) v.query) v,
    (
      λ vs v. answering-Settles (λ id. handle_market_items s id (first_value vs) v.query) v,
      (
        λ vs. answering-Settles (λ id. handle_market_item s id (first_value vs) (second_value vs)),
        (
          λ vs. answering-Settles (λ id. handle_item s id (first_value vs)),
          (
            λ vs. answering-Settles (handle_snapshot s),
            (
              λ vs. answering-Settles (handle_legacy s currency legacy_flat),
              (
                λ vs. answering-Settles (handle_legacy s gold legacy_grouped),
                (
                  λ vs. answering-Settles (handle_legacy s coin legacy_grouped),
                  (
                    λ vs. answering-Settles (λ id. handle_health s),
                    (
                      λ vs. answering-Settles (λ id. handle_ready s),
                      (
                        λ vs. page-Settles (codes "application/yaml; charset=utf-8"),
                        (λ vs. page-Settles (codes "text/html; charset=utf-8"), tt),
                      ),
                    ),
                  ),
                ),
              ),
            ),
          ),
        ),
      ),
    ),
  ),
)

metrics_entry-Settles : (s : Service) → EntrySettles (metrics_entry s)
unfolding handle_metrics
metrics_entry-Settles s vs v w st = (_, st, refl, refl, ids-set_type _ w)

registered-All : (s : Service) (metrics : Bool) → All EntrySettles (registered s metrics)
unfolding registered
registered-All s true =
    All-append EntrySettles (entries s) (metrics_entry s ∷ []) (entries-All s)
      (metrics_entry-Settles s, tt)
registered-All s false = All-append EntrySettles (entries s) [] (entries-All s) tt

handle_root-Settles : Settles handle_root
unfolding handle_root
handle_root-Settles v w st =
    let located = set_header (codes "Location") (codes "/docs") w in
    (
      _,
      st,
      refl,
      refl,
      ids-set_type (codes "text/html; charset=utf-8") located ∙ ids-set_location (codes "/docs") w,
    )

not_found-Settles : Settles not_found
unfolding not_found
not_found-Settles v w st = (
  _,
  st,
  refl,
  refl,
  ids-write_api_error code_not_found (codes "no such endpoint; see GET /docs") v w,
)

if-Settles : (b : Bool) (g h : Stage) → Settles g → Settles h → Settles (if b then g else h)
if-Settles true g h s t = s
if-Settles false g h s t = t

if-Settled :
    (b : Bool) (w : Response) (st : State) (x y : Outcome)
    → Settled w st x
    → Settled w st y
    → Settled w st (if b then x else y)
if-Settled true w st x y h k = h
if-Settled false w st x y h k = k

abbrev Found : Option (Entry × List Text) → Type 0
Found none = Unit
Found (some (e, vs)) = EntrySettles e

or_found-Found :
    (e : Entry) (m : Option (List Text)) (later : Option (Entry × List Text))
    → EntrySettles e
    → Found later
    → Found (or_found e m later)
or_found-Found e none later s t = t
or_found-Found e (some vs) later s t = s

find-Found : (es : List Entry) (path : List Text) → All EntrySettles es → Found (find es path)
unfolding find
find-Found [] path h = tt
find-Found (e ∷ es) path (h, hs) =
    or_found-Found e (match_segments (segments e.pattern) path) (find es path) h
      (find-Found es path hs)

dispatched-Settles :
    (path : List Text) (f : Option (Entry × List Text)) → Found f → Settles (dispatched path f)
dispatched-Settles path none h =
    if-Settles (is_root path) (record_route (codes "/") handle_root) not_found
      (record_route-Settles (codes "/") handle_root handle_root-Settles) not_found-Settles
dispatched-Settles path (some (e, vs)) h = record_route-Settles e.pattern (e.stage vs) (h vs)

ids-typed : (m : Text) (w : Response) → ids (typed m w) ≡ ids w
ids-typed m w = elim (Bool-cases (is_get m)) [
  | inl e ↦ rw e (ids-set_type (codes "text/html; charset=utf-8") w)
  | inr e ↦ rw e refl
]

redirect-Settles : (to : Text) → Settles (redirect to)
unfolding redirect
redirect-Settles to v w st = (
  _,
  st,
  refl,
  refl,
  ids-typed v.request.method (set_header (codes "Location") to w) ∙ ids-set_location to w,
)

or_moved-Settles : (o : Option Text) (h : Stage) → Settles h → Settles (or_moved o h)
or_moved-Settles none h s = s
or_moved-Settles (some to) h s = redirect-Settles to

routed-Settles : (es : List Entry) → All EntrySettles es → Settles (routed es)
routed-Settles es k v w st =
    if-Settled (is_get v.request.method) w st (dispatched v.path (find es v.path) v w st)
      (not_found v w st)
      (dispatched-Settles v.path (find es v.path) (find-Found es v.path k) v w st)
      (not_found-Settles v w st)

pub mux-Settles : (s : Service) (metrics : Bool) → Settles (mux s metrics)
unfolding mux
mux-Settles s metrics v w st =
    or_moved-Settles v.moved (routed (registered s metrics))
      (routed-Settles (registered s metrics) (registered-All s metrics)) v w st
