-- ===== src/Options.antt =====
-- options.go: the settings of a client. Durations and sizes are int64 values as bit patterns.
pub mod Valid
use tgju_api_go.Common.{
  ℕ, Bool, true, false, not, List, [], ◌∷◌, ◌++◌, Option, none, some, Text, codes, ◌==◌,
  if◌then◌else◌, is_nil, keep, text_eq,
}
use tgju_api_go.Market.{default_base_url}
use tgju_api_go.Transport.{RetryPolicy, default_retry, signed_ltb}

abbrev pub default_timeout : ℕ
default_timeout = 20_000_000_000

abbrev pub default_max_body_bytes : ℕ
default_max_body_bytes = 16_777_216

abbrev pub default_cache_ttl : ℕ
default_cache_ttl = 30_000_000_000

abbrev pub default_user_agent : Text
default_user_agent =
    codes "Mozilla/5.0 (X11; Linux x86_64) AppleWebKit/537.36 "
    ++ codes "(KHTML, like Gecko) Chrome/138.0.0.0 Safari/537.36 tgju-api-go/"
    ++ codes "1.0.1"

-- What options.go takes from net/http, log/slog and time.
pub record Env : Type 1 where
  pub Doer : Type 0
  pub Logger : Type 0
  pub Clock : Type 0
  -- &http.Client{Timeout: d}
  pub http_client : ℕ → Doer
  pub discard : Logger
  pub system_clock : Clock
  -- http.CanonicalHeaderKey, which Header.Set applies
  pub canonical : Text → Text

module _ (env : Env) where
  pub record Settings : Type 0 where
    pub http : Option env.Doer
    pub base_url : Text
    pub timeout : ℕ
    pub user_agent : Text
    pub header : List (Text × Text)
    pub retry : RetryPolicy
    pub cache_ttl : ℕ
    pub max_body_size : ℕ
    pub logger : env.Logger
    pub now : env.Clock

  -- the With functions; an interface or function argument may be nil
  pub data Setting : Type 0 where
    with_http_client : Option env.Doer → Setting
    with_base_url with_user_agent : Text → Setting
    with_timeout with_cache_ttl with_max_body_bytes : ℕ → Setting
    with_header : Text → Text → Setting
    with_retry : RetryPolicy → Setting
    with_logger : Option env.Logger → Setting
    with_clock : Option env.Clock → Setting

-- `trimTrailingSlash`
unfoldable pub trim_trailing_slash : Text → Text
trim_trailing_slash [] = []
trim_trailing_slash (c ∷ s) =
    let rest = trim_trailing_slash s in
    if is_nil rest then (if c == 0x2F then [] else c ∷ []) else c ∷ rest

abbrev pub or_given {ℓ} : {A : Type ℓ} → A → Option A → A
or_given a none = a
or_given a (some b) = b

abbrev pub given_or {ℓ} : {A : Type ℓ} → Option A → Option A → Option A
given_or o none = o
given_or o (some a) = some a

-- `d` where it is positive, and the default otherwise
abbrev pub positive_or : ℕ → ℕ → ℕ
positive_or default d = if signed_ltb 0 d then d else default

module _ (env : Env) where
  unfoldable pub apply : Setting env → Settings env → Settings env
  unfolding trim_trailing_slash text_eq
  apply (with_http_client d) c = record c { http = given_or c.http d }
  apply (with_base_url u) c = if is_nil u then c else record c { base_url = trim_trailing_slash u }
  apply (with_timeout d) c = record c { timeout = positive_or default_timeout d }
  apply (with_user_agent ua) c = if is_nil ua then c else record c { user_agent = ua }
  apply (with_header name value) c = if is_nil name then c else record c {
    header =
        keep (λ p. not (text_eq p.0 (env.canonical name))) c.header
        ++ (env.canonical name, value) ∷ [];
  }
  apply (with_retry p) c = record c { retry = p }
  apply (with_cache_ttl d) c = record c { cache_ttl = if signed_ltb d 0 then 0 else d }
  apply (with_max_body_bytes n) c = record c {
    max_body_size = positive_or default_max_body_bytes n;
  }
  apply (with_logger l) c = record c { logger = or_given c.logger l }
  apply (with_clock now) c = record c { now = or_given c.now now }

  abbrev pub defaults : Settings env
  defaults = record {
    http = none;
    base_url = default_base_url;
    timeout = default_timeout;
    user_agent = default_user_agent;
    header = [];
    retry = default_retry;
    cache_ttl = default_cache_ttl;
    max_body_size = default_max_body_bytes;
    logger = env.discard;
    now = env.system_clock;
  }

  -- the loop over the options; a nil one is passed over
  unfoldable pub apply_all : List (Option (Setting env)) → Settings env → Settings env
  unfolding apply
  apply_all [] c = c
  apply_all (none ∷ opts) c = apply_all opts c
  apply_all (some o ∷ opts) c = apply_all opts (apply o c)

  abbrev pub with_client : Settings env → Settings env
  with_client c = record c { http = given_or (some (env.http_client c.timeout)) c.http }

  unfoldable pub new_config : List (Option (Setting env)) → Settings env
  unfolding apply_all
  new_config opts = with_client (apply_all opts defaults)
