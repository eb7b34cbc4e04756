-- ===== src/Healthcheck.antt =====
-- internal/cmd/healthcheck/main.go, and the address that it shares with cmd/tgju/serve.go. The environment
-- and what the exchange comes to are arguments: the status of the answer, or none where there is none.
use tgju_api_go.Common.{
  ℕ, [], ◌∷◌, ◌++◌, Option, none, some, Text, codes, ◌≡◌, refl, ◌==◌, if◌then◌else◌, is_nil,
  Option-cases, inl, inr,
}
use tgju_api_go.Strings.{has_prefix}
use tgju_api_go.Command.Flags.{env_key, env_string, non_empty, value_or}
use tgju_api_go.Command.Serve.{Parsers, serve_defaults}

-- os.Getenv
abbrev pub getenv : Option Text → Text
getenv none = []
getenv (some v) = v

abbrev pub local_address : Text → Text
local_address addr = if has_prefix addr (codes ":") then codes "127.0.0.1" ++ addr else addr

unfoldable pub probed_address : (Text → Option Text) → Text
unfolding has_prefix
probed_address lookup_env =
    let addr = getenv (lookup_env (codes "TGJU_ADDR")) in
    local_address (if is_nil addr then codes ":8080" else addr)

unfoldable pub probed_url : (Text → Option Text) → Text
unfolding probed_address
probed_url lookup_env = codes "http://" ++ (probed_address lookup_env ++ codes "/healthz")

-- the exit code
unfoldable pub health_code : Option ℕ → ℕ
health_code none = 1
health_code (some status) = if status == 200 then 0 else 1

-- Whatever the environment holds, the address that is probed is the one that `tgju serve` listens on
-- without flags, on this host where it names none.
pub probed_address-serve_defaults :
    (lookup_env : Text → Option Text) (ps : Parsers)
    → probed_address lookup_env ≡ local_address (serve_defaults lookup_env ps).addr
unfolding probed_address serve_defaults env_string env_key
probed_address-serve_defaults lookup_env ps = elim (Option-cases (lookup_env (codes "TGJU_ADDR"))) [
  | inl e ↦ rw e refl
  | inr (v, e) ↦ rw e (same v)
]
  where
    same :
        (v : Text)
        → local_address (if is_nil v then codes ":8080" else v)
          ≡ local_address (value_or (codes ":8080") (non_empty (some v)))
    same [] = refl
    same (c ∷ v) = refl
