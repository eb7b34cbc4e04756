-- ===== src/Command/Flags.antt =====
-- cmd/tgju/flags.go: the fallbacks from the environment and the client that the shared flags ask for;
-- splitCSV and displayAddr of serve.go. The environment and the parsers of packages time, strconv and
-- log/slog are parameters. Help texts have no model.

use tgju_api_go.Common.{
  ℕ, ◌-◌, List, [], ◌∷◌, ◌++◌, Option, none, some, Text, codes, ◌==◌, within, if◌then◌else◌, is_nil,
  map,
}
use tgju_api_go.Strings.{trim_space, split, has_prefix}
use tgju_api_go.Market.{default_base_url}
use tgju_api_go.Transport.{default_retry}
use tgju_api_go.Options.{
  Env, Setting, Settings, with_base_url, with_timeout, with_cache_ttl, with_retry, new_config,
  default_timeout, default_cache_ttl,
}

-- strings.ToUpper of a flag's name, which is ASCII, behind strings.ReplaceAll
abbrev pub env_rune : ℕ → ℕ
env_rune r = if r == b'-' then b'_' else if within b'a' b'z' r then r - 32 else r

unfoldable pub env_key : Text → Text
env_key name = codes "TGJU_" ++ map env_rune name

-- os.LookupEnv, where an empty value counts as none
abbrev pub non_empty : Option Text → Option Text
non_empty none = none
non_empty (some []) = none
non_empty (some (c ∷ v)) = some (c ∷ v)

abbrev pub value_or {ℓ} : {A : Type ℓ} → A → Option A → A
value_or fallback none = fallback
value_or fallback (some a) = a

abbrev pub parsed_or {ℓ} : {A : Type ℓ} → (Text → Option A) → A → Option Text → A
parsed_or parser fallback none = fallback
parsed_or parser fallback (some v) = value_or fallback (parser v)

module _ (lookup_env : Text → Option Text) where
  unfoldable pub env_string : Text → Text → Text
  unfolding env_key
  env_string name fallback = value_or fallback (non_empty (lookup_env (env_key name)))

  -- envDuration, envInt, envBool and envFloat, which differ in the parser
  unfoldable pub env_parsed {ℓ} : {A : Type ℓ} → (Text → Option A) → Text → A → A
  unfolding env_key
  env_parsed parser name fallback =
      parsed_or parser fallback (non_empty (lookup_env (env_key name)))

-- Level.UnmarshalText and slog.LevelInfo
unfoldable pub parse_level {ℓ} : {Level : Type ℓ} → (Text → Option Level) → Level → Text → Level
parse_level unmarshal info s = value_or info (unmarshal s)

-- the fields of clientFlags that the client reads; numbers are bit patterns
pub record ClientFlags : Type 0 where
  pub base_url : Text
  pub timeout : ℕ
  pub cache_ttl : ℕ
  pub retries : ℕ

-- the defaults that `register` sets, with time.ParseDuration and strconv.Atoi
unfoldable pub registered :
    (Text → Option Text) → (Text → Option ℕ) → (Text → Option ℕ) → ClientFlags
unfolding env_string env_parsed
registered lookup_env parse_duration atoi = record {
  base_url = env_string lookup_env (codes "BASE_URL") default_base_url;
  timeout = env_parsed lookup_env parse_duration (codes "TIMEOUT") default_timeout;
  cache_ttl = env_parsed lookup_env parse_duration (codes "CACHE_TTL") default_cache_ttl;
  retries = env_parsed lookup_env atoi (codes "RETRIES") default_retry.max_attempts;
}

module _ (env : Env) where
  abbrev pub shared_options : ClientFlags → List (Option (Setting env))
  shared_options f =
      some (with_base_url f.base_url)
      ∷ some (with_timeout f.timeout)
      ∷ some (with_cache_ttl f.cache_ttl)
      ∷ some (with_retry (record default_retry { max_attempts = f.retries }))
      ∷ []

  unfoldable pub client : ClientFlags → List (Option (Setting env)) → Settings env
  unfolding new_config
  client f extra = new_config env (shared_options f ++ extra)

-- the loop of `splitCSV`
unfoldable pub add_parts : List Text → List Text → List Text
unfolding trim_space
add_parts out [] = out
add_parts out (part ∷ parts) =
    if is_nil (trim_space part)
    then add_parts out parts
    else add_parts (out ++ trim_space part ∷ []) parts

unfoldable pub split_csv : Text → List Text
unfolding add_parts split
split_csv raw = add_parts [] (split b',' raw)

unfoldable pub display_addr : Text → Text
unfolding has_prefix
display_addr addr = if has_prefix addr (codes ":") then codes "localhost" ++ addr else addr
