-- ===== src/Server/Metrics/Aligned.antt =====
-- The series of server/metrics.go have one count for each bound, whatever has been observed, and a value
-- for each key.
use tgju_api_go.Common.{
  ℕ, suc, List, [], ◌∷◌, some, ◌≡◌, refl, ap, ◌∙◌, length, map, All, Bool-cases, inl, inr,
}
use tgju_api_go.Floats.{Float64}
use tgju_api_go.Server.Metrics.{
  Seconds, Metrics, SeriesKey, SeriesValue, Observation, key_eq, value_of, store, zeros,
  value_or_new, count_in, observed, observe, observe_all,
}
use tgju_api_go.Server.Metrics.Series.{key_eq_refl}

abbrev pub keys_of : Metrics → List SeriesKey
keys_of m = map (λ p. p.0) m.series

-- one count for each bound
abbrev pub Fits : List Float64 → SeriesValue → Type 0
Fits bounds v = length v.bucket_count ≡ length bounds

abbrev pub FitsAll : List Float64 → List (SeriesKey × SeriesValue) → Type 0
FitsAll bounds = All (λ p. Fits bounds p.1)

-- the map has the key, with one count for each bound
abbrev pub Known : List Float64 → List (SeriesKey × SeriesValue) → SeriesKey → Type 0
Known bounds series k = (v : SeriesValue) × (value_of k series ≡ some v) × Fits bounds v

module _ (bounds : List Float64) where
  value_or_new-Fits :
      (k : SeriesKey) (series : List (SeriesKey × SeriesValue))
      → FitsAll bounds series
      → Fits bounds (value_or_new bounds (value_of k series))
  unfolding value_of
  value_or_new-Fits k [] h = length-zeros bounds
    where
      length-zeros : (bs : List Float64) → length (zeros bs) ≡ length bs
      length-zeros [] = refl
      length-zeros (b ∷ bs) = ap suc (length-zeros bs)
  value_or_new-Fits k ((j, w) ∷ vs) (h, hs) = elim (Bool-cases (key_eq j k)) [
    | inl e ↦ rw e h
    | inr e ↦ rw e (value_or_new-Fits k vs hs)
  ]

  store-FitsAll :
      (k : SeriesKey) (v : SeriesValue) (series : List (SeriesKey × SeriesValue))
      → Fits bounds v
      → FitsAll bounds series
      → FitsAll bounds (store k v series)
  unfolding store
  store-FitsAll k v [] f h = (f, tt)
  store-FitsAll k v ((j, w) ∷ vs) f (h, hs) = elim (Bool-cases (key_eq j k)) [
    | inl e ↦ rw e (f, hs)
    | inr e ↦ rw e (h, store-FitsAll k v vs f hs)
  ]

  Known-cons :
      (j k : SeriesKey) (w : SeriesValue) (vs : List (SeriesKey × SeriesValue))
      → Fits bounds w
      → Known bounds vs k
      → Known bounds ((j, w) ∷ vs) k
  unfolding value_of
  Known-cons j k w vs h known = elim (Bool-cases (key_eq j k)) [
    | inl e ↦ (w, rw e refl, h)
    | inr e ↦ (known.0, rw e known.1, known.2)
  ]

  Known-All :
      (j : SeriesKey) (w : SeriesValue) (vs : List (SeriesKey × SeriesValue)) (ks : List SeriesKey)
      → Fits bounds w
      → All (Known bounds vs) ks
      → All (Known bounds ((j, w) ∷ vs)) ks
  Known-All j w vs [] h known = tt
  Known-All j w vs (k ∷ ks) h (known, more) =
      (Known-cons j k w vs h known, Known-All j w vs ks h more)

  Known-self :
      (j : SeriesKey) (w : SeriesValue) (vs : List (SeriesKey × SeriesValue))
      → Fits bounds w
      → Known bounds ((j, w) ∷ vs) j
  unfolding value_of
  Known-self j w vs h = (w, rw (key_eq_refl j) refl, h)

  pub keys-Known :
      (series : List (SeriesKey × SeriesValue))
      → FitsAll bounds series
      → All (Known bounds series) (map (λ p. p.0) series)
  keys-Known [] h = tt
  keys-Known ((j, w) ∷ vs) (h, hs) =
      (Known-self j w vs h, Known-All j w vs (map (λ p. p.0) vs) h (keys-Known vs hs))

module _ (sec : Seconds) where
  length-count_in :
      (t : Float64) (bs : List Float64) (ns : List ℕ) → length (count_in sec t bs ns) ≡ length ns
  unfolding count_in
  length-count_in t [] ns = refl
  length-count_in t (b ∷ bs) [] = refl
  length-count_in t (b ∷ bs) (n ∷ ns) = elim (Bool-cases (sec.at_most t b)) [
    | inl e ↦ rw e (ap suc (length-count_in t bs ns))
    | inr e ↦ rw e (ap suc (length-count_in t bs ns))
  ]

  abbrev pub IsAligned : List Float64 → Metrics → Type 0
  IsAligned bounds m = (m.buckets ≡ bounds) × FitsAll m.buckets m.series

  observe-IsAligned :
      (bounds : List Float64) (o : Observation) (m : Metrics)
      → IsAligned bounds m
      → IsAligned bounds (observe sec o m)
  unfolding observe observed
  observe-IsAligned bounds o m (e, h) = elim (Bool-cases m.enabled) [
    | inl on ↦ rw on (
      e,
      store-FitsAll m.buckets o.key _ m.series
          (length-count_in (sec.of_duration o.elapsed) m.buckets
              (value_or_new m.buckets (value_of o.key m.series)).bucket_count
            ∙ value_or_new-Fits m.buckets o.key m.series h)
          h,
    )
    | inr off ↦ rw off (e, h)
  ]

  pub observe_all-IsAligned :
      (bounds : List Float64) (os : List Observation) (m : Metrics)
      → IsAligned bounds m
      → IsAligned bounds (observe_all sec os m)
  unfolding observe_all
  observe_all-IsAligned bounds [] m h = h
  observe_all-IsAligned bounds (o ∷ os) m h =
      observe_all-IsAligned bounds os (observe sec o m) (observe-IsAligned bounds o m h)
