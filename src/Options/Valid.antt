-- ===== src/Options/Valid.antt =====
-- What every client of options.go is configured with.
use tgju_api_go.Common.{
  ℕ, Bool, true, false, List, [], ◌∷◌, Option, none, some, Text, ◌≡◌, ◌≢◌, refl, sym, arith, ◌==◌,
  if◌then◌else◌, is_nil, subst,
}
use tgju_api_go.Transport.{signed_ltb}
use tgju_api_go.Options.{
  Env, Settings, Setting, with_http_client, with_base_url, with_timeout, with_user_agent,
  with_header, with_retry, with_cache_ttl, with_max_body_bytes, with_logger, with_clock,
  trim_trailing_slash, given_or, positive_or, default_timeout, default_max_body_bytes, apply,
  defaults, apply_all, with_client, new_config,
}

-- whether a text ends with a slash
abbrev pub ends_slash : Text → Bool
ends_slash [] = false
ends_slash (c ∷ s) = if is_nil s then c == 0x2F else ends_slash s

-- What the client relies on: positive bounds, a TTL that is not negative, and an address that a
-- path can follow.
pub record IsValid (env : Env) (c : Settings env) : Type 0 where
  pub timeout : signed_ltb 0 c.timeout ≡ true
  pub max_body_size : signed_ltb 0 c.max_body_size ≡ true
  pub cache_ttl : signed_ltb c.cache_ttl 0 ≡ false
  pub base_url : ends_slash c.base_url ≡ false
  pub user_agent : c.user_agent ≢ []

ends_slash-trim : (s : Text) → ends_slash (trim_trailing_slash s) ≡ false
unfolding trim_trailing_slash
ends_slash-trim [] = refl
ends_slash-trim (c ∷ s) = ground (arith, ends_slash-trim s)

positive_by :
    (b : Bool) (default d : ℕ)
    → signed_ltb 0 d ≡ b
    → signed_ltb 0 default ≡ true
    → signed_ltb 0 (if b then d else default) ≡ true
positive_by true default d e h = e
positive_by false default d e h = h

positive :
    (default d : ℕ) → signed_ltb 0 default ≡ true → signed_ltb 0 (positive_or default d) ≡ true
positive default d h = positive_by (signed_ltb 0 d) default d refl h

not_negative_by :
    (b : Bool) (d : ℕ) → signed_ltb d 0 ≡ b → signed_ltb (if b then 0 else d) 0 ≡ false
not_negative_by true d e = refl
not_negative_by false d e = e

not_negative : (d : ℕ) → signed_ltb (if signed_ltb d 0 then 0 else d) 0 ≡ false
not_negative d = not_negative_by (signed_ltb d 0) d refl

module _ (env : Env) where
  base-IsValid :
      (u : Text) (c : Settings env) → IsValid env c → IsValid env (apply env (with_base_url u) c)
  unfolding apply
  base-IsValid [] c v = v
  base-IsValid (x ∷ u) c v = record {
    timeout = v.timeout;
    max_body_size = v.max_body_size;
    cache_ttl = v.cache_ttl;
    base_url = ends_slash-trim (x ∷ u);
    user_agent = v.user_agent;
  }

  agent-IsValid :
      (ua : Text) (c : Settings env)
      → IsValid env c
      → IsValid env (apply env (with_user_agent ua) c)
  unfolding apply
  agent-IsValid [] c v = v
  agent-IsValid (x ∷ ua) c v = record {
    timeout = v.timeout;
    max_body_size = v.max_body_size;
    cache_ttl = v.cache_ttl;
    base_url = v.base_url;
    user_agent = λ e. cc;
  }

  header-IsValid :
      (name value : Text) (c : Settings env)
      → IsValid env c
      → IsValid env (apply env (with_header name value) c)
  unfolding apply
  header-IsValid [] value c v = v
  header-IsValid (x ∷ name) value c v = record {
    timeout = v.timeout;
    max_body_size = v.max_body_size;
    cache_ttl = v.cache_ttl;
    base_url = v.base_url;
    user_agent = v.user_agent;
  }

  -- settings with the five fields of others, but for the bounds
  bounded-IsValid :
      (c d : Settings env)
      → IsValid env c
      → signed_ltb 0 d.timeout ≡ true
      → signed_ltb 0 d.max_body_size ≡ true
      → signed_ltb d.cache_ttl 0 ≡ false
      → d.base_url ≡ c.base_url
      → d.user_agent ≡ c.user_agent
      → IsValid env d
  bounded-IsValid c d v t m l b u = record {
    timeout = t;
    max_body_size = m;
    cache_ttl = l;
    base_url = subst (λ s. ends_slash s ≡ false) (sym b) v.base_url;
    user_agent = subst (λ s. s ≢ []) (sym u) v.user_agent;
  }

  apply-IsValid : (o : Setting env) (c : Settings env) → IsValid env c → IsValid env (apply env o c)
  unfolding apply
  apply-IsValid (with_http_client d) c v =
      bounded-IsValid c (apply env (with_http_client d) c) v v.timeout v.max_body_size v.cache_ttl
        refl refl
  apply-IsValid (with_base_url u) c v = base-IsValid u c v
  apply-IsValid (with_timeout d) c v =
      bounded-IsValid c (apply env (with_timeout d) c) v (positive default_timeout d refl)
        v.max_body_size v.cache_ttl refl refl
  apply-IsValid (with_user_agent ua) c v = agent-IsValid ua c v
  apply-IsValid (with_header name value) c v = header-IsValid name value c v
  apply-IsValid (with_retry p) c v =
      bounded-IsValid c (apply env (with_retry p) c) v v.timeout v.max_body_size v.cache_ttl refl
        refl
  apply-IsValid (with_cache_ttl d) c v =
      bounded-IsValid c (apply env (with_cache_ttl d) c) v v.timeout v.max_body_size
        (not_negative d) refl refl
  apply-IsValid (with_max_body_bytes n) c v =
      bounded-IsValid c (apply env (with_max_body_bytes n) c) v v.timeout
        (positive default_max_body_bytes n refl) v.cache_ttl refl refl
  apply-IsValid (with_logger l) c v =
      bounded-IsValid c (apply env (with_logger l) c) v v.timeout v.max_body_size v.cache_ttl refl
        refl
  apply-IsValid (with_clock now) c v =
      bounded-IsValid c (apply env (with_clock now) c) v v.timeout v.max_body_size v.cache_ttl refl
        refl

  apply_all-IsValid :
      (opts : List (Option (Setting env))) (c : Settings env)
      → IsValid env c
      → IsValid env (apply_all env opts c)
  unfolding apply_all
  apply_all-IsValid [] c v = v
  apply_all-IsValid (none ∷ opts) c v = apply_all-IsValid opts c v
  apply_all-IsValid (some o ∷ opts) c v =
      apply_all-IsValid opts (apply env o c) (apply-IsValid o c v)

  defaults-IsValid : IsValid env (defaults env)
  defaults-IsValid = record {
    timeout = refl;
    max_body_size = refl;
    cache_ttl = refl;
    base_url = refl;
    user_agent = λ e. cc;
  }

  given : (d : env.Doer) (o : Option env.Doer) → given_or (some d) o ≢ none
  given d none e = cc
  given d (some b) e = cc

  -- Whatever options a client is built with, nil ones and repeated ones included, its timeout and
  -- its body limit are positive, its TTL is not negative, its address does not end with a slash,
  -- it names a user agent, and it has an HTTP client.
  pub new_config-IsValid :
      (opts : List (Option (Setting env)))
      → IsValid env (new_config env opts) × ((new_config env opts).http ≢ none)
  unfolding new_config
  new_config-IsValid opts =
      let c = apply_all env opts (defaults env) in
      let v = apply_all-IsValid opts (defaults env) defaults-IsValid in
      (
        bounded-IsValid c (with_client env c) v v.timeout v.max_body_size v.cache_ttl refl refl,
        given (env.http_client c.timeout) c.http,
      )
