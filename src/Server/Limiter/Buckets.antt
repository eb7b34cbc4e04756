-- ===== src/Server/Limiter/Buckets.antt =====
-- The buckets that a request and a sweep leave, for server/middleware.go.
use tgju_api_go.Common.{
  ℕ, ◌+◌, Bool, true, false, List, [], ◌∷◌, none, some, Text, ltb, keep, ◌≡◌, ◌≢◌, refl, ap, ◌∙◌,
  arith, if◌then◌else◌, text_eq, text_eq_refl, text_eq_iff, Bool-cases, inl, inr,
}
use tgju_api_go.Floats.{Float64}
use tgju_api_go.Server.Limiter.{
  Arith, Bucket, RateLimiter, bucket_of, without, sweep_interval, is_recent, sweep, refilled,
  put_bucket, spend, allow,
}

bucket_of-without :
    (k j : Text) (bs : List (Text × Bucket))
    → bucket_of k (without j bs) ≡ (if text_eq j k then none else bucket_of k bs)
unfolding bucket_of without
bucket_of-without k j [] = ground arith
bucket_of-without k j ((i, b) ∷ bs) = ground (
  arith,
  text_eq_iff i j,
  text_eq_iff j k,
  text_eq_iff i k,
  text_eq_refl k,
  bucket_of-without k j bs,
)

pub bucket_of-cons :
    (k j : Text) (b : Bucket) (bs : List (Text × Bucket))
    → bucket_of k ((j, b) ∷ bs) ≡ (if text_eq j k then some b else bucket_of k bs)
unfolding bucket_of
bucket_of-cons k j b bs = refl

bucket_of-keep-none :
    (k : Text) (p : Text × Bucket → Bool) (bs : List (Text × Bucket))
    → bucket_of k bs ≡ none
    → bucket_of k (keep p bs) ≡ none
unfolding bucket_of
bucket_of-keep-none k p [] h = refl
bucket_of-keep-none k p ((j, b) ∷ bs) h = ground (arith, bucket_of-keep-none k p bs)

-- no sweep is due
abbrev pub IsSwept : ℕ → RateLimiter → Type 0
IsSwept now l = ltb now (l.swept + sweep_interval) ≡ true

ltb_later : (now : ℕ) → ltb now (now + sweep_interval) ≡ true
ltb_later now = ground arith

pub sweep-IsSwept : (now : ℕ) (l : RateLimiter) → IsSwept now (sweep now l)
unfolding sweep
sweep-IsSwept now l = elim (Bool-cases (ltb now (l.swept + sweep_interval))) [
  | inl e ↦ rw e e
  | inr e ↦ rw e (ltb_later now)
]

pub sweep_idle : (now : ℕ) (l : RateLimiter) → IsSwept now l → sweep now l ≡ l
unfolding sweep
sweep_idle now l h = rw h refl

pub sweep-none :
    (now : ℕ) (k : Text) (l : RateLimiter)
    → bucket_of k l.buckets ≡ none
    → bucket_of k (sweep now l).buckets ≡ none
unfolding sweep
sweep-none now k l h = elim (Bool-cases (ltb now (l.swept + sweep_interval))) [
  | inl e ↦ rw e h
  | inr e ↦ rw e (bucket_of-keep-none k (is_recent now) l.buckets h)
]

pub sweep_burst :
    (now : ℕ) (l : RateLimiter) → ((sweep now l).burst ≡ l.burst) × ((sweep now l).rate ≡ l.rate)
unfolding sweep
sweep_burst now l = elim (Bool-cases (ltb now (l.swept + sweep_interval))) [
  | inl e ↦ rw e (refl, refl)
  | inr e ↦ rw e (refl, refl)
]

module _ (ar : Arith) where
  pub allow_eq :
      (now : ℕ) (client : Text) (l : RateLimiter)
      → allow ar now client l
        ≡ spend ar now client
            (refilled ar now (sweep now l) (bucket_of client (sweep now l).buckets))
            (sweep now l)
  unfolding allow
  allow_eq now client l = refl

  put_other :
      (now : ℕ) (a b : Text) (tokens : Float64) (l : RateLimiter)
      → text_eq a b ≡ false
      → bucket_of b (put_bucket ar now a tokens l).buckets ≡ bucket_of b l.buckets
  put_other now a b tokens l h =
      bucket_of-cons b a _ (without a l.buckets) ∙ (rw h (bucket_of-without b a l.buckets ∙ (rw h)))

  spend_other :
      (now : ℕ) (a b : Text) (tokens : Float64) (l : RateLimiter)
      → text_eq a b ≡ false
      → bucket_of b (spend ar now a tokens l).1.buckets ≡ bucket_of b l.buckets
  unfolding spend
  spend_other now a b tokens l h = elim (Bool-cases (ar.less tokens (ar.from_int 1))) [
    | inl e ↦ rw e (put_other now a b tokens l h)
    | inr e ↦ rw e (put_other now a b (ar.minus tokens (ar.from_int 1)) l h)
  ]

  apart : (a b : Text) → a ≢ b → text_eq a b ≡ false
  apart a b h = elim (Bool-cases (text_eq a b)) [
    | inl e ↦ absurd (h ((text_eq_iff a b).0 e))
    | inr e ↦ e
  ]

  -- One client's request leaves the other clients' buckets as the sweep leaves them.
  pub allow_other :
      (now : ℕ) (a b : Text) (l : RateLimiter)
      → a ≢ b
      → bucket_of b (allow ar now a l).1.buckets ≡ bucket_of b (sweep now l).buckets
  allow_other now a b l h =
      ap (λ (r : Bool × RateLimiter). bucket_of b r.1.buckets) (allow_eq now a l)
      ∙ spend_other now a b (refilled ar now (sweep now l) (bucket_of a (sweep now l).buckets))
          (sweep now l) (apart a b h)
