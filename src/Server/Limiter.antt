-- ===== src/Server/Limiter.antt =====
-- The token buckets of server/middleware.go. Float64 arithmetic and Time.Sub(...).Seconds() are a
-- parameter (`Arith`). Times are nanoseconds. A method that holds the mutex is one step. The map
-- is an association list with one pair for each client.
pub mod Buckets
pub mod Burst
use tgju_api_go.Common.{
  ℕ, ◌+◌, Bool, true, false, not, List, [], ◌∷◌, Option, none, some, Text, ltb, keep, if◌then◌else◌,
  text_eq,
}
use tgju_api_go.Floats.{Float64}

pub record Arith : Type 0 where
  pub from_int : ℕ → Float64
  pub plus : Float64 → Float64 → Float64
  pub minus : Float64 → Float64 → Float64
  pub times : Float64 → Float64 → Float64
  pub least : Float64 → Float64 → Float64
  pub less : Float64 → Float64 → Bool
  -- `now.Sub(seen).Seconds()`
  pub elapsed : ℕ → ℕ → Float64

pub record Bucket : Type 0 where
  pub tokens : Float64
  pub seen : ℕ

pub record RateLimiter : Type 0 where
  pub rate : Float64
  pub burst : Float64
  pub buckets : List (Text × Bucket)
  pub swept : ℕ

unfoldable pub bucket_of : Text → List (Text × Bucket) → Option Bucket
unfolding text_eq
bucket_of k [] = none
bucket_of k ((j, b) ∷ bs) = if text_eq j k then some b else bucket_of k bs

unfoldable pub without : Text → List (Text × Bucket) → List (Text × Bucket)
unfolding text_eq
without k [] = []
without k ((j, b) ∷ bs) = if text_eq j k then without k bs else (j, b) ∷ without k bs

abbrev pub sweep_interval : ℕ
sweep_interval = 600_000_000_000

abbrev pub is_recent : ℕ → Text × Bucket → Bool
is_recent now p = not (ltb (p.1.seen + sweep_interval) now)

unfoldable pub sweep : ℕ → RateLimiter → RateLimiter
sweep now l =
    if ltb now (l.swept + sweep_interval)
    then l
    else record l { swept = now; buckets = keep (is_recent now) l.buckets }

module _ (ar : Arith) where
  unfoldable pub new_rate_limiter : Float64 → ℕ → ℕ → RateLimiter
  new_rate_limiter rate burst now = record {
    rate = rate;
    burst = ar.from_int burst;
    buckets = [];
    swept = now;
  }

  -- the bucket's tokens at `now`
  unfoldable pub refilled : ℕ → RateLimiter → Option Bucket → Float64
  refilled now l none = l.burst
  refilled now l (some b) =
      ar.least l.burst (ar.plus b.tokens (ar.times (ar.elapsed now b.seen) l.rate))

  abbrev pub put_bucket : ℕ → Text → Float64 → RateLimiter → RateLimiter
  put_bucket now client tokens l = record l {
    buckets = (client, record { tokens = tokens; seen = now }) ∷ without client l.buckets;
  }

  unfoldable pub spend : ℕ → Text → Float64 → RateLimiter → Bool × RateLimiter
  spend now client tokens l =
      if ar.less tokens (ar.from_int 1)
      then (false, put_bucket now client tokens l)
      else (true, put_bucket now client (ar.minus tokens (ar.from_int 1)) l)

  -- `allow`, at the time `now`
  unfoldable pub allow : ℕ → Text → RateLimiter → Bool × RateLimiter
  unfolding sweep bucket_of refilled spend
  allow now client l =
      let swept = sweep now l in
      spend now client (refilled now swept (bucket_of client swept.buckets)) swept
