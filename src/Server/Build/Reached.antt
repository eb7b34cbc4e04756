-- ===== src/Server/Build/Reached.antt =====
-- A request through the middlewares of server/server.go to its endpoint.
use tgju_api_go.Common.{
  ℕ, Bool, true, false, List, none, some, Text, ◌≡◌, ◌⊎◌, inl, inr, refl, ap, ◌∙◌, is_nil,
  get_elem?, All, All-append,
}
use tgju_api_go.Transport.{signed_ltb}
use tgju_api_go.Server.Guard.{or_status, Request, Response, chain}
use tgju_api_go.Server.Handlers.{CacheControl, unset, no_store, public_for, Service, Answer}
use tgju_api_go.Server.Stages.{
  State, Visit, answered, Stage, cross_origin, limit, timeout, record_route, id_of, counted,
  recovered, logged,
}
use tgju_api_go.Server.Pages.{set_cache, respond, answering}
use tgju_api_go.Server.Router.{is_get, mux, Entry, registered, segments}
use tgju_api_go.Server.Router.Reached.{Suits, filled, mux-filled}
use tgju_api_go.Server.Stages.Reads.{
  Same, Reaches, Layered, only_reads-Reaches, cross_origin-Reaches, timeout-Reaches, limit-Reaches,
  chain-Reaches,
}
use tgju_api_go.Server.Build.{
  ServerConfig, Platform, when, unless, optional_layers, inner_layers, build,
}
use tgju_api_go.Server.Build.Refused.{inner_visit, inner_response, inner_state, outer_eq, build_eq}

module _ {Logger Clock : Type 0} (pf : Platform) (cfg : ServerConfig Logger Clock)
    (app : Stage) where
  abbrev limits : Bool
  limits = pf.positive cfg.rate_limit

  optional-All : All (Layered limits app) (optional_layers pf cfg)
  optional-All =
      All-append (Layered limits app)
        (unless (is_nil cfg.cors_origins) (cross_origin cfg.cors_origins)) _
        (unless-All (is_nil cfg.cors_origins))
        (All-append (Layered limits app) (when limits (limit pf.ar pf.split_host_port pf.pause)) _
          (limit-All limits refl) (timeout-All (signed_ltb 0 cfg.request_timeout)))
    where
      unless-All : (b : Bool) → All (Layered limits app) (unless b (cross_origin cfg.cors_origins))
      unless-All true = tt
      unless-All false = (cross_origin-Reaches limits app cfg.cors_origins, tt)

      timeout-All : (b : Bool) → All (Layered limits app) (when b (timeout cfg.request_timeout))
      timeout-All true = (timeout-Reaches limits app cfg.request_timeout, tt)
      timeout-All false = tt

      limit-All :
          (b : Bool)
          → limits ≡ b
          → All (Layered limits app) (when b (limit pf.ar pf.split_host_port pf.pause))
      limit-All true e = (λ h. limit-Reaches limits app pf.ar pf.split_host_port pf.pause h e, tt)
      limit-All false e = tt

  inner-Reaches : Reaches limits app (chain app (inner_layers pf cfg))
  inner-Reaches =
      chain-Reaches limits app (inner_layers pf cfg) (only_reads-Reaches limits app, optional-All)

set_cache_status : (c : CacheControl) (w : Response) → (set_cache c w).status ≡ w.status
set_cache_status unset w = refl
set_cache_status no_store w = refl
set_cache_status (public_for n) w = refl

respond_status :
    (a : Answer) (w : Response) → w.status ≡ none → (respond a w).status ≡ some a.status
unfolding respond
respond_status a w n = ap (λ o. or_status o a.status) (set_cache_status a.cache_control w ∙ n)

-- What the server answers with: an answer under a pattern, or 429 where the limiter is on.
abbrev pub AnswersWith : Bool → Text → Answer → Response → State → Type 0
AnswersWith on pattern a w after =
    ((w.status ≡ some a.status) × (after.body ≡ some a.body) × (after.route ≡ pattern))
    ⊎ ((on ≡ true) × (w.status ≡ some 429))

module _ {Logger Clock : Type 0} (pf : Platform) (cfg : ServerConfig Logger Clock)
    (s : Service) where
  endpoint_answers :
      (i : ℕ) (e : Entry) (vs : List Text) (f : Text → Answer) (v u : Visit) (x : Response)
      (su : State)
      → get_elem? (registered s cfg.metrics) i ≡ some e
      → Suits (segments e.pattern) vs
      → ((u : Visit) (x : Response) (su : State)
          → u.query ≡ v.query
          → e.stage vs u x su ≡ answering f u x su)
      → is_get v.request.method ≡ true
      → v.moved ≡ none
      → v.path ≡ filled (segments e.pattern) vs
      → Same v u
      → x.status ≡ none
      → (w' : Response) × (after : State) × (mux s cfg.metrics u x su ≡ answered w' after)
        × (w'.status ≡ some (f v.request.request_id).status)
        × (after.body ≡ some (f v.request.request_id).body)
        × (after.route ≡ e.pattern)
  unfolding record_route respond
  endpoint_answers i e vs f v u x su g fits answers m c p same n =
      let a = f u.request.request_id in
      let named : a ≡ f v.request.request_id = ap (λ (r : Request). f r.request_id) same.request in
      (
        respond a x,
        record su { route = e.pattern; body = some a.body },
        (mux-filled s cfg.metrics i e vs u x su g fits
              (ap (λ (r : Request). is_get r.method) same.request ∙ m) (same.moved ∙ c)
              (same.path ∙ p)).1
            ∙ answers u x (record su { route = e.pattern }) same.query,
        respond_status a x n ∙ ap (λ (b : Answer). some b.status) named,
        ap (λ (b : Answer). some b.body) named,
        refl,
      )

  -- A GET, or a HEAD, of a documented endpoint by a clean path, with nothing sent yet, whose handler answers with a value
  -- `f` of the request's identifier: whatever the settings, the server answers with that value's status
  -- and body, for the identifier that the response carries, and notes the endpoint's pattern;
  -- or it answers with 429, which it does only where the limiter is on.
  pub build-AnswersWith :
      (i : ℕ) (e : Entry) (vs : List Text) (f : Text → Answer) (v : Visit) (w : Response)
      (st : State)
      → get_elem? (registered s cfg.metrics) i ≡ some e
      → Suits (segments e.pattern) vs
      → ((u : Visit) (x : Response) (su : State)
          → u.query ≡ v.query
          → e.stage vs u x su ≡ answering f u x su)
      → is_get v.request.method ≡ true
      → v.moved ≡ none
      → v.path ≡ filled (segments e.pattern) vs
      → w.status ≡ none
      → (w' : Response) × (after : State) × (build pf cfg s v w st ≡ answered w' after)
        × AnswersWith (pf.positive cfg.rate_limit) e.pattern (f (id_of v)) w' after
  build-AnswersWith i e vs f v w st g fits answers m c p n =
      elim (inner-Reaches pf cfg (mux s cfg.metrics) (inner_visit v) (inner_response v w)
        (inner_state st) m n) [
          | inl (u, x, su, same, k, reached) ↦
              let r =
                endpoint_answers i e vs f (inner_visit v) u x su g fits answers m c p same k in
              (r.0, after_log r.0 r.1, through r.0 r.1 (reached ∙ r.2), inl (r.3, r.4, r.5))
          | inr (x, su, reached, on, k) ↦ (x, after_log x su, through x su reached, inr (on, k))
        ]
    where
      h : Stage
      h = chain (mux s cfg.metrics) (inner_layers pf cfg)

      after_log : Response → State → State
      after_log x su = record su { metrics = counted pf.sec (inner_visit v) x su }

      through :
          (x : Response) (su : State)
          → h (inner_visit v) (inner_response v w) (inner_state st) ≡ answered x su
          → build pf cfg s v w st ≡ answered x (after_log x su)
      through x su reached =
          ap (λ (g : Stage). g v w st) (build_eq pf cfg s)
          ∙ outer_eq pf h v w st
          ∙ ap (λ o. recovered v (logged pf.sec (inner_visit v) o)) reached
