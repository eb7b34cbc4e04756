-- ===== src/Server/Metrics.antt =====
-- `observe` of server/metrics.go. The operations on seconds, which are float64 values, are a
-- parameter (`Seconds`). A map is an association list with one pair for each key, and counters are
-- uint64.
pub mod Series
pub mod Counts
pub mod Aligned
pub mod Page
use tgju_api_go.Common.{
  ℕ, zero, suc, ◌+◌, ◌-◌, ◌%◌, ◌^◌, Bool, true, false, List, [], ◌∷◌, Option, none, some, Text,
  ◌==◌, ◌&&◌, if◌then◌else◌, text_eq,
}
use tgju_api_go.Floats.{Float64}

pub record Seconds : Type 0 where
  -- Duration.Seconds
  pub of_duration : ℕ → Float64
  pub plus : Float64 → Float64 → Float64
  pub at_most : Float64 → Float64 → Bool

pub record SeriesKey : Type 0 where
  pub route : Text
  pub method : Text
  pub status : ℕ

pub record SeriesValue : Type 0 where
  pub count : ℕ
  pub sum_seconds : Float64
  pub bucket_count : List ℕ

pub record Metrics : Type 0 where
  pub enabled : Bool
  pub started : ℕ
  pub series : List (SeriesKey × SeriesValue)
  pub buckets : List Float64

-- the arguments of a call
pub record Observation : Type 0 where
  pub key : SeriesKey
  pub elapsed : ℕ

-- `t.Sub(u)`, an int64 as a bit pattern
abbrev pub since : ℕ → ℕ → ℕ
since t u = (t + (2 ^ 64 - u % 2 ^ 64)) % 2 ^ 64

-- `n++` of a uint64
abbrev pub increment : ℕ → ℕ
increment n = (n + 1) % 2 ^ 64

unfoldable pub key_eq : SeriesKey → SeriesKey → Bool
unfolding text_eq
key_eq a b = text_eq a.route b.route && (text_eq a.method b.method && a.status == b.status)

unfoldable pub value_of : SeriesKey → List (SeriesKey × SeriesValue) → Option SeriesValue
unfolding key_eq
value_of k [] = none
value_of k ((j, v) ∷ vs) = if key_eq j k then some v else value_of k vs

-- `m.series[key] = value`, in place where the key has a value
unfoldable pub store :
    SeriesKey → SeriesValue → List (SeriesKey × SeriesValue) → List (SeriesKey × SeriesValue)
unfolding key_eq
store k v [] = (k, v) ∷ []
store k v ((j, w) ∷ vs) =
    let rest = store k v vs in if key_eq j k then (j, v) ∷ vs else (j, w) ∷ rest

unfoldable pub new_metrics : Bool → ℕ → List Float64 → Metrics
new_metrics enabled now bounds = record {
  enabled = enabled;
  started = now;
  series = [];
  buckets = bounds;
}

-- make([]uint64, n)
abbrev pub zeros : List Float64 → List ℕ
zeros [] = []
zeros (b ∷ bs) = 0 ∷ zeros bs

abbrev pub value_or_new : List Float64 → Option SeriesValue → SeriesValue
value_or_new bounds none = record { count = 0; sum_seconds = 0; bucket_count = zeros bounds }
value_or_new bounds (some v) = v

module _ (sec : Seconds) where
  -- the loop over the bounds
  unfoldable pub count_in : Float64 → List Float64 → List ℕ → List ℕ
  count_in t (b ∷ bs) (n ∷ ns) =
      let rest = count_in t bs ns in if sec.at_most t b then increment n ∷ rest else n ∷ rest
  count_in t _ ns = ns

  unfoldable pub observed : Float64 → List Float64 → SeriesValue → SeriesValue
  unfolding count_in
  observed t bounds v = record {
    count = increment v.count;
    sum_seconds = sec.plus v.sum_seconds t;
    bucket_count = count_in t bounds v.bucket_count;
  }

  unfoldable pub observe : Observation → Metrics → Metrics
  unfolding observed value_of store
  observe o m =
      if m.enabled
      then record m {
        series =
            store o.key
              (observed (sec.of_duration o.elapsed) m.buckets
                (value_or_new m.buckets (value_of o.key m.series)))
              m.series;
      }
      else m

  unfoldable pub observe_all : List Observation → Metrics → Metrics
  unfolding observe
  observe_all [] m = m
  observe_all (o ∷ os) m = observe_all os (observe o m)
