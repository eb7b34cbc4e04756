-- ===== src/Server/Limiter/Burst.antt =====
-- How many requests the buckets of server/middleware.go let through.
use tgju_api_go.Common.{
  ℕ, zero, suc, ◌+◌, ◌≤◌, ◌<◌, min, Bool, true, false, none, some, Text, ◌==◌, ◌≡◌, refl, ap, ◌∙◌,
  arith, if◌then◌else◌, text_eq_refl,
}
use tgju_api_go.Floats.{Float64}
use tgju_api_go.Server.Limiter.{
  Arith, Bucket, RateLimiter, bucket_of, without, sweep, refilled, put_bucket, spend, allow,
}
use tgju_api_go.Server.Limiter.Buckets.{
  bucket_of-cons, IsSwept, sweep-IsSwept, sweep_idle, sweep-none, sweep_burst, allow_eq,
}

-- What float64 arithmetic promises on the whole numbers up to the burst, which it has exactly: no
-- time adds no tokens.
pub record Exact (ar : Arith) (rate : Float64) (burst : ℕ) : Type 0 where
  pub takes : (k : ℕ) → k < burst → ar.minus (ar.from_int (suc k)) (ar.from_int 1) ≡ ar.from_int k
  pub compares : (k : ℕ) → k ≤ burst → ar.less (ar.from_int k) (ar.from_int 1) ≡ (k == 0)
  pub still :
      (k now : ℕ)
      → k ≤ burst
      → ar.least (ar.from_int burst) (ar.plus (ar.from_int k) (ar.times (ar.elapsed now now) rate))
        ≡ ar.from_int k

module _ (ar : Arith) where
  -- how many of a number of requests at one time are allowed
  unfoldable pub granted : ℕ → ℕ → Text → RateLimiter → ℕ
  granted zero now client l = 0
  granted (suc n) now client l =
      (if (allow ar now client l).0 then 1 else 0) + granted n now client (allow ar now client l).1

module _ (ar : Arith) (rate : Float64) (burst : ℕ) (exact : Exact ar rate burst) (now : ℕ)
    (client : Text) where
  -- a limiter of this rate and burst
  abbrev pub IsTuned : RateLimiter → Type 0
  IsTuned l = (l.burst ≡ ar.from_int burst) × (l.rate ≡ rate)

  abbrev bucket_with : ℕ → Bucket
  bucket_with k = record { tokens = ar.from_int k; seen = now }

  -- the client has so many tokens left
  record Holds (k : ℕ) (l : RateLimiter) : Type 0 where
    set : IsTuned l
    swept : IsSwept now l
    bound : k ≤ burst
    bucket : bucket_of client l.buckets ≡ some (bucket_with k)

  put-Holds :
      (k : ℕ) (l : RateLimiter)
      → IsTuned l
      → IsSwept now l
      → k ≤ burst
      → Holds k (put_bucket ar now client (ar.from_int k) l)
  put-Holds k l s w b = record {
    set = s;
    swept = w;
    bound = b;
    bucket =
        bucket_of-cons client client (bucket_with k) (without client l.buckets)
        ∙ (rw (text_eq_refl client));
  }

  spend_zero :
      (l : RateLimiter)
      → spend ar now client (ar.from_int 0) l ≡ (false, put_bucket ar now client (ar.from_int 0) l)
  unfolding spend
  spend_zero l = rw (exact.compares 0 (omega arith)) refl

  spend-suc :
      (k : ℕ) (l : RateLimiter)
      → k < burst
      → spend ar now client (ar.from_int (suc k)) l
        ≡ (true, put_bucket ar now client (ar.from_int k) l)
  unfolding spend
  spend-suc k l b =
      let e : ar.less (ar.from_int (suc k)) (ar.from_int 1) ≡ false =
        exact.compares (suc k) (omega arith) ∙ ground arith in
      rw e (rw (exact.takes k b) refl)

  refilled_eq :
      (k : ℕ) (l : RateLimiter)
      → IsTuned l
      → k ≤ burst
      → refilled ar now l (some (bucket_with k)) ≡ ar.from_int k
  unfolding refilled
  refilled_eq k l (b, r) h = rw (b, r) (exact.still k now h)

  allow_at :
      (k : ℕ) (l : RateLimiter)
      → Holds k l
      → allow ar now client l ≡ spend ar now client (ar.from_int k) l
  allow_at k l h =
      allow_eq ar now client l
      ∙ ap (λ l'. spend ar now client (refilled ar now l' (bucket_of client l'.buckets)) l')
          (sweep_idle now l h.swept)
      ∙ ap (λ o. spend ar now client (refilled ar now l o) l) h.bucket
      ∙ ap (λ t. spend ar now client t l) (refilled_eq k l h.set h.bound)

  counted :
      (n : ℕ) (l l' : RateLimiter) (b : Bool)
      → allow ar now client l ≡ (b, l')
      → granted ar (suc n) now client l ≡ (if b then 1 else 0) + granted ar n now client l'
  unfolding granted
  counted n l l' b e =
      ap (λ (r : Bool × RateLimiter). (if r.0 then 1 else 0) + granted ar n now client r.1) e

  none_granted : (l : RateLimiter) → granted ar 0 now client l ≡ 0
  unfolding granted
  none_granted l = refl

  granted_at : (n k : ℕ) (l : RateLimiter) → Holds k l → granted ar n now client l ≡ min n k
  granted_at zero k l h = none_granted l ∙ omega arith
  granted_at (suc n) zero l h =
      let l' = put_bucket ar now client (ar.from_int 0) l in
      let e = counted n l l' false (allow_at 0 l h ∙ spend_zero l) in
      let r = granted_at n 0 l' (put-Holds 0 l h.set h.swept (omega arith)) in omega arith
  granted_at (suc n) (suc k) l h =
      let b : k < burst = let i = h.bound in omega arith in
      let l' = put_bucket ar now client (ar.from_int k) l in
      let e = counted n l l' true (allow_at (suc k) l h ∙ spend-suc k l b) in
      let r = granted_at n k l' (put-Holds k l h.set h.swept (omega arith)) in omega arith

  refilled-none : (l : RateLimiter) → refilled ar now l none ≡ l.burst
  unfolding refilled
  refilled-none l = refl

  allow_first :
      (l : RateLimiter)
      → IsTuned l
      → bucket_of client l.buckets ≡ none
      → allow ar now client l ≡ spend ar now client (ar.from_int burst) (sweep now l)
  allow_first l (b, r) h =
      let s = sweep now l in
      allow_eq ar now client l
      ∙ ap (λ o. spend ar now client (refilled ar now s o) s) (sweep-none now client l h)
      ∙ ap (λ t. spend ar now client t s) (refilled-none s ∙ (sweep_burst now l).0 ∙ b)

  swept-IsTuned : (l : RateLimiter) → IsTuned l → IsTuned (sweep now l)
  swept-IsTuned l (b, r) = ((sweep_burst now l).0 ∙ b, (sweep_burst now l).1 ∙ r)

  first_burst :
      (n k : ℕ) (l l' : RateLimiter)
      → k ≡ burst
      → IsTuned l'
      → IsSwept now l'
      → allow ar now client l ≡ spend ar now client (ar.from_int k) l'
      → granted ar (suc n) now client l ≡ min (suc n) k
  first_burst n zero l l' e s w a =
      let p = put_bucket ar now client (ar.from_int 0) l' in
      let c = counted n l p false (a ∙ spend_zero l') in
      let r = granted_at n 0 p (put-Holds 0 l' s w (omega arith)) in omega arith
  first_burst n (suc k) l l' e s w a =
      let p = put_bucket ar now client (ar.from_int k) l' in
      let c = counted n l p true (a ∙ spend-suc k l' (omega arith)) in
      let r = granted_at n k p (put-Holds k l' s w (omega arith)) in omega arith

  -- Of any number of requests that a client without a bucket makes at one time, as many are
  -- allowed as the burst, or all, if float64 arithmetic is exact on the whole numbers up to the
  -- burst.
  pub granted-min :
      (n : ℕ) (l : RateLimiter)
      → IsTuned l
      → bucket_of client l.buckets ≡ none
      → granted ar n now client l ≡ min n burst
  granted-min zero l s h = none_granted l ∙ omega arith
  granted-min (suc n) l s h =
      first_burst n burst l (sweep now l) refl (swept-IsTuned l s) (sweep-IsSwept now l)
        (allow_first l s h)
