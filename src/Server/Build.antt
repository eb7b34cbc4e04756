-- ===== src/Server/Build.antt =====
-- server/options.go, and `New` and `build` of server/server.go: the settings, and the chain of
-- middlewares around the router. The logger and the clock are parameters, durations and the burst are
-- int64 values as bit patterns.
pub mod Counted
pub mod Routed
pub mod Refused
pub mod Reached
use tgju_api_go.Common.{
  ℕ, Bool, true, false, List, [], ◌∷◌, ◌++◌, Option, none, some, Text, codes, if◌then◌else◌, is_nil,
}
use tgju_api_go.Floats.{Float64}
use tgju_api_go.Transport.{signed_ltb}
use tgju_api_go.Options.{or_given}
use tgju_api_go.Server.Guard.{Response, chain}
use tgju_api_go.Server.Handlers.{Service}
use tgju_api_go.Server.Limiter.{Arith, new_rate_limiter}
use tgju_api_go.Server.Metrics.{Seconds, new_metrics}
use tgju_api_go.Server.Stages.{
  State, Visit, Outcome, Stage, recoverer, request_id, access_log, only_reads, cross_origin, limit,
  timeout,
}
use tgju_api_go.Server.Router.{mux}

abbrev pub default_request_timeout : ℕ
default_request_timeout = 30_000_000_000

-- the float64 20
abbrev pub default_rate_limit : Float64
default_rate_limit = 0x4034000000000000

abbrev pub default_rate_burst : ℕ
default_rate_burst = 40

pub record ServerConfig (Logger Clock : Type 0) : Type 0 where
  pub logger : Logger
  pub cors_origins : List Text
  pub request_timeout : ℕ
  pub rate_limit : Float64
  pub rate_burst : ℕ
  pub metrics : Bool
  pub now : Clock

-- the With functions; a logger and a clock may be nil
pub data ServerSetting (Logger Clock : Type 0) : Type 0 where
  with_logger : Option Logger → ServerSetting Logger Clock
  with_cors : List Text → ServerSetting Logger Clock
  with_request_timeout : ℕ → ServerSetting Logger Clock
  with_rate_limit : Float64 → ℕ → ServerSetting Logger Clock
  with_metrics : Bool → ServerSetting Logger Clock
  with_clock : Option Clock → ServerSetting Logger Clock

module _ {Logger Clock : Type 0} where
  unfoldable pub apply :
      ServerSetting Logger Clock → ServerConfig Logger Clock → ServerConfig Logger Clock
  apply (with_logger l) c = record c { logger = or_given c.logger l }
  apply (with_cors origins) c = record c { cors_origins = origins }
  apply (with_request_timeout d) c = record c { request_timeout = d }
  apply (with_rate_limit per_second burst) c = record c {
    rate_limit = per_second;
    rate_burst = if signed_ltb 0 burst then burst else c.rate_burst;
  }
  apply (with_metrics enabled) c = record c { metrics = enabled }
  apply (with_clock now) c = record c { now = or_given c.now now }

  -- the loop over the options; a nil one is passed over
  unfoldable pub apply_all :
      List (Option (ServerSetting Logger Clock))
      → ServerConfig Logger Clock
      → ServerConfig Logger Clock
  unfolding apply
  apply_all [] c = c
  apply_all (none ∷ opts) c = apply_all opts c
  apply_all (some o ∷ opts) c = apply_all opts (apply o c)

  -- `newConfig`, with slog.Default() and time.Now
  unfoldable pub new_config :
      Logger → Clock → List (Option (ServerSetting Logger Clock)) → ServerConfig Logger Clock
  unfolding apply_all
  new_config logger now opts = apply_all opts (record {
    logger = logger;
    cors_origins = codes "*" ∷ [];
    request_timeout = default_request_timeout;
    rate_limit = default_rate_limit;
    rate_burst = default_rate_burst;
    metrics = true;
    now = now;
  })

-- what the chain takes from package time, float64 arithmetic and net
pub record Platform : Type 0 where
  pub sec : Seconds
  pub ar : Arith
  pub split_host_port : Text → Option Text
  -- int(1 / rate)
  pub pause : Float64 → ℕ
  -- rate > 0
  pub positive : Float64 → Bool
  -- latencyBuckets
  pub bounds : List Float64

abbrev pub when {ℓ} : {A : Type ℓ} → Bool → A → List A
when true a = a ∷ []
when false a = []

abbrev pub unless {ℓ} : {A : Type ℓ} → Bool → A → List A
unless true a = []
unless false a = a ∷ []

module _ {Logger Clock : Type 0} (pf : Platform) (cfg : ServerConfig Logger Clock) where
  -- the middlewares that the settings ask for
  abbrev pub optional_layers : List (Stage → Stage)
  optional_layers =
      unless (is_nil cfg.cors_origins) (cross_origin cfg.cors_origins)
      ++ (when (pf.positive cfg.rate_limit) (limit pf.ar pf.split_host_port pf.pause)
          ++ when (signed_ltb 0 cfg.request_timeout) (timeout cfg.request_timeout))

  -- those behind accessLog
  abbrev pub inner_layers : List (Stage → Stage)
  inner_layers = only_reads ∷ optional_layers

  abbrev pub layers : List (Stage → Stage)
  layers = recoverer ∷ request_id ∷ access_log pf.sec ∷ inner_layers

  unfoldable pub build : Service → Stage
  unfolding chain mux recoverer request_id access_log only_reads cross_origin limit timeout
  build s = chain (mux s cfg.metrics) layers

  -- the state of a new server, made at the time `now`
  unfoldable pub new_state : ℕ → State
  unfolding new_metrics new_rate_limiter
  new_state now = record {
    metrics = new_metrics cfg.metrics now pf.bounds;
    limiter = new_rate_limiter pf.ar cfg.rate_limit cfg.rate_burst now;
    route = [];
    body = none;
  }

abbrev pub unsent : Response
unsent = record { headers = []; status = none; failure = none }
