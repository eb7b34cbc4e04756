-- ===== src/Server/Build/Routed.antt =====
-- The route under which accessLog of server/middleware.go counts a request: that of the router, where the
-- request gets there.
use tgju_api_go.Common.{
  ℕ, ◌+◌, arith, Bool, true, false, not, List, [], ◌∷◌, Option, none, some, Text, codes, ◌≡◌, ◌⊎◌,
  inl, inr, refl, sym, ap, ◌∙◌, ◌&&◌, if◌then◌else◌, is_nil, text_eq, Bool-cases, All, All-append,
}
use tgju_api_go.Floats.{Float64}
use tgju_api_go.Errors.{as_api}
use tgju_api_go.Transport.{signed_ltb}
use tgju_api_go.Server.Render.{write_error, classify, status_for_code}
use tgju_api_go.Server.Guard.{Response, chain, or_status, is_read, negotiate, client_of}
use tgju_api_go.Server.Limiter.{Arith, RateLimiter, allow}
use tgju_api_go.Server.Handlers.{Service}
use tgju_api_go.Server.Stages.{
  State, Visit, Outcome, answered, panicked, Stage, only_reads, cross_origin, limit, limited_by,
  timeout, earlier,
}
use tgju_api_go.Server.Stages.Reads.{get_is_read, get_no_options, negotiate_status}
use tgju_api_go.Server.Router.{Entry, registered, find, is_get, mux}
use tgju_api_go.Server.Build.{ServerConfig, Platform, when, unless, optional_layers, inner_layers}
use tgju_api_go.Server.Router.Noted.{route_in, noted, unmoved, route_for, mux_route}

-- the status that an answer leaves
abbrev status_in : Outcome → Option ℕ
status_in (answered w st) = w.status
status_in (panicked p w st) = none

module _ (on : Bool) (es : List Entry) where
  -- What a stage notes: the router's route, or nothing where the limiter is on and answers with 429, or
  -- leaves the status that was sent before.
  abbrev pub Notes : Visit → Response → State → Outcome → Type 0
  Notes v w st o =
      (route_in o ≡ some (route_for es v st.route))
      ⊎ ((on ≡ true) × (route_in o ≡ some st.route) × (status_in o ≡ or_status w.status 429))

  abbrev AlwaysNotes : Stage → Type 0
  AlwaysNotes h = (v : Visit) (w : Response) (st : State) → Notes v w st (h v w st)

  route_for_other :
      (v : Visit) (old : Text) → is_get v.request.method ≡ false → route_for es v old ≡ old
  route_for_other v old h = by_moved v.moved
    where
      by_moved :
          (o : Option Text)
          → unmoved o old
              (if is_get v.request.method then noted v.path old (find es v.path) else old)
            ≡ old
      by_moved none = rw h refl
      by_moved (some to) = refl

  only_reads-Notes : (h : Stage) → AlwaysNotes h → AlwaysNotes (only_reads h)
  unfolding only_reads
  only_reads-Notes h k v w st = elim (Bool-cases (is_read v.request.method)) [
    | inl e ↦ rw e (k v w st)
    | inr e ↦ rw e (inl (ap some (sym (route_for_other v st.route (no_get e)))))
  ]
    where
      no_get : is_read v.request.method ≡ false → is_get v.request.method ≡ false
      no_get e = elim (Bool-cases (is_get v.request.method)) [
        | inl g ↦ absurd (cc (get_is_read v.request.method g, e))
        | inr g ↦ g
      ]

  cross_origin-Notes :
      (origins : List Text) (h : Stage) → AlwaysNotes h → AlwaysNotes (cross_origin origins h)
  unfolding cross_origin
  cross_origin-Notes origins h k v w st =
      elim (Bool-cases
        (text_eq v.request.method (codes "OPTIONS") && not (is_nil v.request.preflight_method))) [
          | inl e ↦ rw e (inl (ap some (sym (route_for_other v st.route (no_get e)))))
          | inr e ↦ rw e (passed (k v (negotiate origins v.request.origin w) st))
        ]
    where
      no_get :
          (text_eq v.request.method (codes "OPTIONS") && not (is_nil v.request.preflight_method))
            ≡ true
          → is_get v.request.method ≡ false
      no_get e = elim (Bool-cases (is_get v.request.method)) [
        | inl g ↦ absurd (ground (arith, get_no_options v.request.method))
        | inr g ↦ g
      ]

      passed :
          Notes v
            (negotiate origins v.request.origin w)
            st
            (h v (negotiate origins v.request.origin w) st)
          → Notes v w st (h v (negotiate origins v.request.origin w) st)
      passed (inl r) = inl r
      passed (inr (o, r, n)) =
          inr (o, r, n ∙ ap (λ x. or_status x 429) (negotiate_status origins v.request.origin w))

  timeout-Notes : (d : ℕ) (h : Stage) → AlwaysNotes h → AlwaysNotes (timeout d h)
  unfolding timeout
  timeout-Notes d h k v w st = k (record v { deadline = earlier (v.admitted + d) v.deadline }) w st

  limit-Notes :
      (ar : Arith) (split_host_port : Text → Option Text) (pause : Float64 → ℕ) (h : Stage)
      → on ≡ true
      → AlwaysNotes h
      → AlwaysNotes (limit ar split_host_port pause h)
  unfolding limit write_error classify as_api status_for_code
  limit-Notes ar split_host_port pause h o k v w st =
      by_answer (allow ar v.admitted (client_of split_host_port v.request) st.limiter)
    where
      by_answer :
          (a : Bool × RateLimiter) → Notes v w st (limited_by ar split_host_port pause h v w st a)
      by_answer (true, l) = k v w (record st { limiter = l })
      by_answer (false, l) = inr (o, refl, refl)

  abbrev Layered : (Stage → Stage) → Type 0
  Layered mw = (h : Stage) → AlwaysNotes h → AlwaysNotes (mw h)

  chain-Notes :
      (h : Stage) (mws : List (Stage → Stage))
      → AlwaysNotes h
      → All Layered mws
      → AlwaysNotes (chain h mws)
  unfolding chain
  chain-Notes h [] s k = s
  chain-Notes h (mw ∷ mws) s (k, ks) = k (chain h mws) (chain-Notes h mws s ks)

module _ {Logger Clock : Type 0} (pf : Platform) (cfg : ServerConfig Logger Clock)
    (s : Service) where
  abbrev limits : Bool
  limits = pf.positive cfg.rate_limit

  abbrev es : List Entry
  es = registered s cfg.metrics

  optional-All : All (Layered limits es) (optional_layers pf cfg)
  optional-All =
      All-append (Layered limits es)
        (unless (is_nil cfg.cors_origins) (cross_origin cfg.cors_origins)) _
        (unless-All (is_nil cfg.cors_origins))
        (All-append (Layered limits es) (when limits (limit pf.ar pf.split_host_port pf.pause)) _
          (limit-All limits refl) (timeout-All (signed_ltb 0 cfg.request_timeout)))
    where
      unless-All : (b : Bool) → All (Layered limits es) (unless b (cross_origin cfg.cors_origins))
      unless-All true = tt
      unless-All false = (cross_origin-Notes limits es cfg.cors_origins, tt)

      timeout-All : (b : Bool) → All (Layered limits es) (when b (timeout cfg.request_timeout))
      timeout-All true = (timeout-Notes limits es cfg.request_timeout, tt)
      timeout-All false = tt

      limit-All :
          (b : Bool)
          → limits ≡ b
          → All (Layered limits es) (when b (limit pf.ar pf.split_host_port pf.pause))
      limit-All true e = (λ h. limit-Notes limits es pf.ar pf.split_host_port pf.pause h e, tt)
      limit-All false e = tt

  -- what stands behind accessLog
  inner-Notes :
      (v : Visit) (w : Response) (st : State)
      → Notes limits es v w st (chain (mux s cfg.metrics) (inner_layers pf cfg) v w st)
  inner-Notes =
      chain-Notes limits es (mux s cfg.metrics) (inner_layers pf cfg)
        (λ v w st. inl (mux_route s cfg.metrics v w st)) (only_reads-Notes limits es, optional-All)

  -- the route and the status of an answer from behind accessLog
  pub answered_route :
      (v : Visit) (w w' : Response) (st after : State)
      → chain (mux s cfg.metrics) (inner_layers pf cfg) v w st ≡ answered w' after
      → (after.route ≡ route_for es v st.route)
        ⊎ ((limits ≡ true) × (after.route ≡ st.route) × (w'.status ≡ or_status w.status 429))
  answered_route v w w' st after h = elim (inner-Notes v w st) [
    | inl r ↦
        let same : some after.route ≡ some (route_for es v st.route) = sym (ap route_in h) ∙ r in
        inl (cc same)
    | inr (on, r, n) ↦
        let same : some after.route ≡ some st.route = sym (ap route_in h) ∙ r in
        inr (on, cc same, sym (ap status_in h) ∙ n)
  ]
