-- ===== src/Command/Serve.antt =====
-- serve of cmd/tgju/serve.go: the defaults of its flags, the server that it runs, and how it ends. What
-- the flags hold behind `parse` is an argument, and so is what `select` receives. Of the logger nothing
-- is kept.
use tgju_api_go.Common.{
  ℕ, Bool, true, List, [], ◌∷◌, Option, none, some, Text, codes, if◌then◌else◌,
}
use tgju_api_go.Floats.{Float64}
use tgju_api_go.Errors.{Err, wrap, cons, nil, Result, ok, err}
use tgju_api_go.Server.Handlers.{Service}
use tgju_api_go.Server.Stages.{Stage}
use tgju_api_go.Server.Build.{
  ServerConfig, ServerSetting, with_logger, with_cors, with_rate_limit, with_request_timeout,
  with_metrics, new_config, Platform, build, default_rate_limit, default_rate_burst,
  default_request_timeout,
}
use tgju_api_go.Command.{Parsed, parse}
use tgju_api_go.Command.Flags.{env_string, env_parsed, split_csv}
use tgju_api_go.Command.Run.{Ran, refused_by}

pub record ServeFlags : Type 0 where
  pub addr : Text
  pub cors_origins : Text
  pub rate_limit : Float64
  pub rate_burst : ℕ
  pub request_timeout : ℕ
  pub metrics : Bool
  pub shutdown_grace : ℕ

-- strconv.ParseFloat, strconv.Atoi, time.ParseDuration and strconv.ParseBool
pub record Parsers : Type 0 where
  pub parse_float : Text → Option Float64
  pub atoi : Text → Option ℕ
  pub parse_duration : Text → Option ℕ
  pub parse_bool : Text → Option Bool

-- what the flags hold where none is given
unfoldable pub serve_defaults : (Text → Option Text) → Parsers → ServeFlags
unfolding env_string env_parsed
serve_defaults lookup_env ps = record {
  addr = env_string lookup_env (codes "ADDR") (codes ":8080");
  cors_origins = env_string lookup_env (codes "CORS") (codes "*");
  rate_limit = env_parsed lookup_env ps.parse_float (codes "RATE_LIMIT") default_rate_limit;
  rate_burst = env_parsed lookup_env ps.atoi (codes "RATE_BURST") default_rate_burst;
  request_timeout =
      env_parsed lookup_env ps.parse_duration (codes "REQUEST_TIMEOUT") default_request_timeout;
  metrics = env_parsed lookup_env ps.parse_bool (codes "METRICS") true;
  shutdown_grace = env_parsed lookup_env ps.parse_duration (codes "SHUTDOWN_GRACE") 15_000_000_000;
}

-- the fields of http.Server that `serve` sets, but BaseContext and ErrorLog; durations in nanoseconds
pub record HttpServer : Type 0 where
  pub addr : Text
  pub handler : Stage
  pub read_header_timeout : ℕ
  pub read_timeout : ℕ
  pub write_timeout : ℕ
  pub idle_timeout : ℕ

module _ {Logger Clock : Type 0} where
  unfoldable pub serve_options : Logger → ServeFlags → List (Option (ServerSetting Logger Clock))
  unfolding split_csv
  serve_options logger f =
      some (with_logger (some logger))
      ∷ some (with_cors (split_csv f.cors_origins))
      ∷ some (with_rate_limit f.rate_limit f.rate_burst)
      ∷ some (with_request_timeout f.request_timeout)
      ∷ some (with_metrics f.metrics)
      ∷ []

  -- the settings of `api`, with slog.Default() and time.Now
  unfoldable pub api_config : Logger → Clock → Logger → ServeFlags → ServerConfig Logger Clock
  unfolding new_config serve_options
  api_config standard now logger f = new_config standard now (serve_options logger f)

  unfoldable pub http_server :
      Platform → Service → ServerConfig Logger Clock → ServeFlags → HttpServer
  unfolding build
  http_server pf s cfg f = record {
    addr = f.addr;
    handler = build pf cfg s;
    read_header_timeout = 10_000_000_000;
    read_timeout = 30_000_000_000;
    write_timeout = 120_000_000_000;
    idle_timeout = 120_000_000_000;
  }

-- What `select` receives: the result of ListenAndServe, or the end of the context, behind which Shutdown
-- has a result.
pub data Ending : Type 0 where
  listened : Option Err → Ending
  drained : Option Err → Ending

-- fmt.Errorf("…: %w", …, e)
abbrev pub wrapping : Err → Err
wrapping e = wrap (cons e nil)

module _ (is_closed : Err → Bool) where
  -- what the goroutine sends on errCh; `is_closed` is errors.Is with http.ErrServerClosed
  abbrev pub sent : Option Err → Option Err
  sent none = none
  sent (some e) = if is_closed e then none else some e

  abbrev pub wrapped : Option Err → Option Err
  wrapped none = none
  wrapped (some e) = some (wrapping e)

  unfoldable pub serve_end : Ending → Option Err
  serve_end (listened o) = wrapped (sent o)
  serve_end (drained o) = wrapped o

  abbrev pub failing {ℓ} : {A : Type ℓ} → Option Err → Ran A
  failing o = record { printed = []; flag_text = []; failure = o }

  -- behind `parse`
  abbrev pub served_until {ℓ} : {A : Type ℓ} → Ending → Option (Result (List Text)) → Option (Ran A)
  served_until x none = none
  served_until x (some (err e)) = some (refused_by e)
  served_until x (some (ok positional)) = some (failing (serve_end x))

  unfoldable pub serve {ℓ} :
      {A : Type ℓ} → (List Text → Parsed) → Ending → List Text → Option (Ran A)
  unfolding parse serve_end
  serve flags x args = served_until x (parse flags args)
