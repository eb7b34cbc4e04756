-- ===== src/Server/Metrics/Counts.antt =====
-- What the series of server/metrics.go count.
use tgju_api_go.Common.{
  ℕ, zero, suc, ◌+◌, ◌%◌, ◌^◌, Bool, true, false, List, [], ◌∷◌, some, ◌&&◌, if◌then◌else◌, ◌≡◌,
  refl, sym, ap, ◌∙◌, arith, get_elem?, Bool-cases, inl, inr, subst, subst₂,
}
use tgju_api_go.Floats.{Float64}
use tgju_api_go.Server.Metrics.{
  Seconds, SeriesKey, SeriesValue, Metrics, Observation, increment, key_eq, value_of, store,
  new_metrics, zeros, value_or_new, count_in, observed, observe, observe_all,
}
use tgju_api_go.Server.Metrics.Series.{key_eq_sound, value_of-store_same, value_of-store_other}

plus_none : (n : ℕ) → 0 + n ≡ n
plus_none n = omega arith

module _ (sec : Seconds) where
  -- the observations of a key
  abbrev pub of_key : SeriesKey → List Observation → ℕ
  of_key k [] = 0
  of_key k (o ∷ os) = (if key_eq o.key k then 1 else 0) + of_key k os

  -- those of them that took no longer than a bound
  abbrev pub within_bound : SeriesKey → Float64 → List Observation → ℕ
  within_bound k b [] = 0
  within_bound k b (o ∷ os) =
      (if key_eq o.key k && sec.at_most (sec.of_duration o.elapsed) b then 1 else 0)
      + within_bound k b os

  -- what is kept for a key; one without a series has counted nothing
  abbrev pub series_of : Metrics → SeriesKey → SeriesValue
  series_of m k = value_or_new m.buckets (value_of k m.series)

  abbrev stored : Observation → Metrics → Metrics
  stored o m = record m {
    series =
        store o.key (observed sec (sec.of_duration o.elapsed) m.buckets (series_of m o.key))
          m.series;
  }

  observe_eq : (o : Observation) (m : Metrics) → m.enabled ≡ true → observe sec o m ≡ stored o m
  unfolding observe
  observe_eq o m h = simp h refl

  stored_same :
      (k : SeriesKey) (o : Observation) (m : Metrics)
      → key_eq o.key k ≡ true
      → series_of (stored o m) k
        ≡ observed sec (sec.of_duration o.elapsed) m.buckets (series_of m k)
  stored_same k o m e =
      let same : o.key ≡ k = key_eq_sound o.key k e in
      subst
        (λ j.
          series_of (stored o m) j
          ≡ observed sec (sec.of_duration o.elapsed) m.buckets (series_of m j))
        same (ap (value_or_new m.buckets) (value_of-store_same o.key _ m.series))

  stored_other :
      (k : SeriesKey) (o : Observation) (m : Metrics)
      → key_eq o.key k ≡ false
      → series_of (stored o m) k ≡ series_of m k
  stored_other k o m e = ap (value_or_new m.buckets) (value_of-store_other k o.key _ m.series e)

  head_if :
      (c : Bool) (n : ℕ) (rest : List ℕ)
      → get_elem? (if c then increment n ∷ rest else n ∷ rest) 0
        ≡ some (if c then increment n else n)
  head_if true n rest = refl
  head_if false n rest = refl

  count_in_at :
      (t : Float64) (bounds : List Float64) (ns : List ℕ) (i : ℕ) {u : Float64} {x : ℕ}
      → get_elem? bounds i ≡ some u
      → get_elem? ns i ≡ some x
      → get_elem? (count_in sec t bounds ns) i ≡ some (if sec.at_most t u then increment x else x)
  unfolding count_in
  count_in_at t [] ns i h k = cc
  count_in_at t (b ∷ bs) [] i h k = cc
  count_in_at t (b ∷ bs) (n ∷ ns) zero {u} {x} h k =
      let e : b ≡ u = cc in
      let f : n ≡ x = cc in
      head_if (sec.at_most t b) n (count_in sec t bs ns)
      ∙ ap (λ c. some (if sec.at_most t c then increment n else n)) e
      ∙ ap (λ y. some (if sec.at_most t u then increment y else y)) f
  count_in_at t (b ∷ bs) (n ∷ ns) (suc i) h k = elim (Bool-cases (sec.at_most t b)) [
    | inl e ↦ rw e (count_in_at t bs ns i h k)
    | inr e ↦ rw e (count_in_at t bs ns i h k)
  ]

  -- the counts of a key and of its bound at a place, modulo what a uint64 holds
  record Counted (k : SeriesKey) (i : ℕ) (b : Float64) (n l : ℕ) (m : Metrics) : Type 0 where
    on : m.enabled ≡ true
    bound : get_elem? m.buckets i ≡ some b
    count : (series_of m k).count ≡ n % 2 ^ 64
    bucket : get_elem? (series_of m k).bucket_count i ≡ some (l % 2 ^ 64)

  increment_mod : (n : ℕ) → increment (n % 2 ^ 64) ≡ (n + 1) % 2 ^ 64
  increment_mod n = omega arith

  one_more : (n : ℕ) → n + 0 ≡ n
  one_more n = omega arith

  bump :
      (c : Bool) (l : ℕ)
      → (if c then increment (l % 2 ^ 64) else l % 2 ^ 64) ≡ (l + (if c then 1 else 0)) % 2 ^ 64
  bump true l = increment_mod l
  bump false l = omega arith

  stored-Counted :
      (k : SeriesKey) (i : ℕ) (b : Float64) (n l : ℕ) (o : Observation) (m : Metrics) (same : Bool)
      → key_eq o.key k ≡ same
      → Counted k i b n l m
      → Counted k i b
          (n + (if same then 1 else 0))
          (l + (if same && sec.at_most (sec.of_duration o.elapsed) b then 1 else 0))
          (stored o m)
  unfolding observed
  stored-Counted k i b n l o m true e c =
      let s = stored_same k o m e in
      record {
        on = c.on;
        bound = c.bound;
        count = ap (λ (v : SeriesValue). v.count) s ∙ ap increment c.count ∙ increment_mod n;
        bucket =
            ap (λ (v : SeriesValue). get_elem? v.bucket_count i) s
            ∙ count_in_at (sec.of_duration o.elapsed) m.buckets (series_of m k).bucket_count i
                c.bound c.bucket
            ∙ ap some (bump (sec.at_most (sec.of_duration o.elapsed) b) l);
      }
  stored-Counted k i b n l o m false e c =
      let s = stored_other k o m e in
      record {
        on = c.on;
        bound = c.bound;
        count =
            ap (λ (v : SeriesValue). v.count) s ∙ c.count ∙ ap (λ x. x % 2 ^ 64) (sym (one_more n));
        bucket =
            ap (λ (v : SeriesValue). get_elem? v.bucket_count i) s
            ∙ c.bucket
            ∙ ap (λ x. some (x % 2 ^ 64)) (sym (one_more l));
      }

  observe-Counted :
      (k : SeriesKey) (i : ℕ) (b : Float64) (n l : ℕ) (o : Observation) (m : Metrics)
      → Counted k i b n l m
      → Counted k i b
          (n + (if key_eq o.key k then 1 else 0))
          (l + (if key_eq o.key k && sec.at_most (sec.of_duration o.elapsed) b then 1 else 0))
          (observe sec o m)
  observe-Counted k i b n l o m c =
      subst (Counted k i b _ _) (sym (observe_eq o m c.on))
        (stored-Counted k i b n l o m (key_eq o.key k) refl c)

  sum_assoc : (a b c : ℕ) → (a + b) + c ≡ a + (b + c)
  sum_assoc a b c = omega arith

  observe_all-Counted :
      (k : SeriesKey) (i : ℕ) (b : Float64) (os : List Observation) (n l : ℕ) (m : Metrics)
      → Counted k i b n l m
      → Counted k i b (n + of_key k os) (l + within_bound k b os) (observe_all sec os m)
  unfolding observe_all
  observe_all-Counted k i b [] n l m c =
      subst₂ (λ x y. Counted k i b x y m) (sym (one_more n)) (sym (one_more l)) c
  observe_all-Counted k i b (o ∷ os) n l m c =
      subst₂ (λ x y. Counted k i b x y (observe_all sec os (observe sec o m)))
        (sum_assoc n (if key_eq o.key k then 1 else 0) (of_key k os))
        (sum_assoc l (if key_eq o.key k && sec.at_most (sec.of_duration o.elapsed) b then 1 else 0)
          (within_bound k b os))
        (observe_all-Counted k i b os (n + (if key_eq o.key k then 1 else 0))
          (l + (if key_eq o.key k && sec.at_most (sec.of_duration o.elapsed) b then 1 else 0))
          (observe sec o m) (observe-Counted k i b n l o m c))

  zeros_at :
      (bounds : List Float64) (i : ℕ) {b : Float64}
      → get_elem? bounds i ≡ some b
      → get_elem? (zeros bounds) i ≡ some 0
  zeros_at [] i h = cc
  zeros_at (c ∷ bs) zero h = refl
  zeros_at (c ∷ bs) (suc i) h = zeros_at bs i h

  new-Counted :
      (k : SeriesKey) (i : ℕ) (b : Float64) (now : ℕ) (bounds : List Float64)
      → get_elem? bounds i ≡ some b
      → Counted k i b 0 0 (new_metrics true now bounds)
  unfolding new_metrics value_of
  new-Counted k i b now bounds h = record {
    on = refl;
    bound = h;
    count = refl;
    bucket = zeros_at bounds i h;
  }

  -- Whatever requests are observed, in whatever order, the series of a route, method and status
  -- counts those with these, and the bucket of a bound counts those of them that took no longer,
  -- both modulo 2 to the 64.
  pub series_of-observe_all :
      (k : SeriesKey) (i : ℕ) (b : Float64) (now : ℕ) (bounds : List Float64)
      (os : List Observation)
      → get_elem? bounds i ≡ some b
      → ((series_of (observe_all sec os (new_metrics true now bounds)) k).count
          ≡ of_key k os % 2 ^ 64)
        × (get_elem? (series_of (observe_all sec os (new_metrics true now bounds)) k).bucket_count i
            ≡ some (within_bound k b os % 2 ^ 64))
  series_of-observe_all k i b now bounds os h =
      let c =
        observe_all-Counted k i b os 0 0 (new_metrics true now bounds)
          (new-Counted k i b now bounds h) in
      (
        c.count ∙ ap (λ x. x % 2 ^ 64) (plus_none (of_key k os)),
        c.bucket ∙ ap (λ x. some (x % 2 ^ 64)) (plus_none (within_bound k b os)),
      )
