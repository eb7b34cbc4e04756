-- ===== src/Server/Build/Counted.antt =====
-- The server of server/server.go answers every request, names it, and counts it once.
use tgju_api_go.Common.{
  List, Text, ◌⊎◌, Bool, true, false, [], ◌∷◌, ◌≡◌, ap, ◌∙◌, is_nil, All, All-append,
}
use tgju_api_go.Transport.{signed_ltb}
use tgju_api_go.Server.Guard.{or_status, Response, chain, set_header}
use tgju_api_go.Server.Handlers.{Service}
use tgju_api_go.Server.Metrics.{since, observe}
use tgju_api_go.Server.Stages.{
  State, Visit, answered, Stage, recovered, id_of, with_id, logged, counted, cross_origin, limit,
  timeout, route_or_unmatched, status_or_ok,
}
use tgju_api_go.Server.Guard.Headers.{values_of-set}
use tgju_api_go.Server.Stages.Named.{id_header, ids}
use tgju_api_go.Server.Stages.Kept.{
  Settles, only_reads-Settles, cross_origin-Settles, timeout-Settles, limit-Settles, chain-Settles,
}
use tgju_api_go.Server.Router.{Entry, registered, mux}
use tgju_api_go.Server.Build.Refused.{outer_eq, build_eq}
use tgju_api_go.Server.Router.Noted.{route_for}
use tgju_api_go.Server.Build.Routed.{answered_route}
use tgju_api_go.Server.Router.Settles.{mux-Settles}
use tgju_api_go.Server.Build.{ServerConfig, Platform, when, unless, inner_layers, build}

-- a middleware that keeps what `Settles` says
abbrev Keeps : (Stage → Stage) → Type 0
Keeps mw = (g : Stage) → Settles g → Settles (mw g)

when-All : (b : Bool) (mw : Stage → Stage) → Keeps mw → All Keeps (when b mw)
when-All true mw k = (k, tt)
when-All false mw k = tt

unless-All : (b : Bool) (mw : Stage → Stage) → Keeps mw → All Keeps (unless b mw)
unless-All true mw k = tt
unless-All false mw k = (k, tt)

module _ {Logger Clock : Type 0} (pf : Platform) (cfg : ServerConfig Logger Clock) where
  inner_layers-All : All Keeps (inner_layers pf cfg)
  inner_layers-All = (
    only_reads-Settles,
    All-append Keeps (unless (is_nil cfg.cors_origins) (cross_origin cfg.cors_origins)) _
        (unless-All (is_nil cfg.cors_origins) (cross_origin cfg.cors_origins)
          (cross_origin-Settles cfg.cors_origins))
        (All-append Keeps
          (when (pf.positive cfg.rate_limit) (limit pf.ar pf.split_host_port pf.pause)) _
          (when-All (pf.positive cfg.rate_limit) (limit pf.ar pf.split_host_port pf.pause)
            (limit-Settles pf.ar pf.split_host_port pf.pause))
          (when-All (signed_ltb 0 cfg.request_timeout) (timeout cfg.request_timeout)
            (timeout-Settles cfg.request_timeout))),
  )

  inner-Settles : (s : Service) → Settles (chain (mux s cfg.metrics) (inner_layers pf cfg))
  inner-Settles s =
      chain-Settles (mux s cfg.metrics) (inner_layers pf cfg) (mux-Settles s cfg.metrics)
        inner_layers-All

-- what a request adds to the metrics, by the response that it gets and its route
abbrev pub Counts : Platform → Visit → State → Text → Response → State → Type 0
Counts pf v st route w after =
    after.metrics
    ≡ observe pf.sec
        (record {
          key = record {
            route = route_or_unmatched route;
            method = v.request.method;
            status = status_or_ok w.status;
          };
          elapsed = since v.ended v.started;
        })
        st.metrics

-- The route under which a request is counted: that of the router or, where the limiter is on and has
-- answered with 429, if nothing had a status yet, none.
abbrev pub IsRoute : Bool → List Entry → Visit → Response → Response → Text → Type 0
IsRoute on es v w w' route =
    (route ≡ route_for es v [])
    ⊎ ((on ≡ true) × (route ≡ []) × (w'.status ≡ or_status w.status 429))

-- Whatever the settings, the client and the request, the server answers. The response carries one
-- X-Request-Id, the caller's if it is adopted and the minted one otherwise. The request is added once to
-- the metrics, with the status of the response: under the pattern of the endpoint that the path of a GET
-- or a HEAD matches, the root being one, and as unmatched where there is none, where the method is
-- another, where the path is not clean, and where the limiter, which is on, answers with 429.
pub build-Counts :
    {Logger Clock : Type 0} (pf : Platform) (cfg : ServerConfig Logger Clock) (s : Service)
    (v : Visit) (w : Response) (st : State)
    → (w' : Response) × (after : State) × (route : Text) × (build pf cfg s v w st
        ≡ answered w' after)
      × Counts pf v st route w' after
      × IsRoute (pf.positive cfg.rate_limit) (registered s cfg.metrics) v w w' route
      × (ids w' ≡ id_of v ∷ [])
build-Counts pf cfg s v w st =
    let v' = with_id (id_of v) v in
    let x = set_header id_header (id_of v) w in
    let h = chain (mux s cfg.metrics) (inner_layers pf cfg) in
    let r = inner-Settles pf cfg s v' x (record st { route = [] }) in
    (
      r.0,
      record (r.1) { metrics = counted pf.sec v' r.0 r.1 },
      r.1.route,
      ap (λ (g : Stage). g v w st) (build_eq pf cfg s)
          ∙ outer_eq pf h v w st
          ∙ ap (λ o. recovered v (logged pf.sec v' o)) r.2,
      ap (λ m. counted pf.sec v' r.0 (record (r.1) { metrics = m })) r.3,
      answered_route pf cfg s v' x r.0 (record st { route = [] }) r.1 r.2,
      r.4 ∙ values_of-set id_header (id_of v) w,
    )
