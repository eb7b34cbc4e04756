-- ===== src/Server/Metrics/Page/Written.antt =====
-- The text of /metrics, server/metrics.go, is written whatever has been observed.
use mathlib.Core.List.{Perm}
use tgju_api_go.Common.{
  ℕ, Bool, List, [], ◌∷◌, Option, none, some, Text, ◌≡◌, refl, ◌∙◌, arith, length, All, Bool-cases,
  inl, inr, IsSome,
}
use tgju_api_go.Floats.{Float64}
use tgju_api_go.Server.Metrics.{
  Seconds, Metrics, SeriesKey, SeriesValue, Observation, new_metrics, observe_all,
}
use tgju_api_go.Server.Metrics.Page.{
  Verbs, key_lt, insert_key, sort_keys, bucket_line, bucket_lines, with_totals, histogram_lines,
  joined, counter_line, for_keys, then_text, labels, counter_head, histogram_head, page,
}
use tgju_api_go.Server.Metrics.Page.Order.{sort_keys-perm}
use tgju_api_go.Server.Metrics.Aligned.{
  keys_of, Fits, FitsAll, Known, keys-Known, observe_all-IsAligned,
}

module _ (P : SeriesKey → Type 0) where
  insert_key-All : (k : SeriesKey) (ks : List SeriesKey) → P k → All P ks → All P (insert_key k ks)
  unfolding insert_key
  insert_key-All k [] h hs = (h, tt)
  insert_key-All k (j ∷ js) h (hj, hs) = elim (Bool-cases (key_lt j k)) [
    | inl e ↦ rw e (hj, insert_key-All k js h hs)
    | inr e ↦ rw e (h, (hj, hs))
  ]

  sort_keys-All : (ks : List SeriesKey) → All P ks → All P (sort_keys ks)
  unfolding sort_keys
  sort_keys-All [] h = tt
  sort_keys-All (k ∷ ks) (h, hs) = insert_key-All k (sort_keys ks) h (sort_keys-All ks hs)

joined-IsSome : (a b : Option Text) → IsSome a → IsSome b → IsSome (joined a b)
joined-IsSome none b h k = absurd (cc h.1)
joined-IsSome (some s) none h k = absurd (cc k.1)
joined-IsSome (some s) (some t) h k = (_, refl)

module _ (vb : Verbs) where
  bucket_lines-IsSome :
      (inside : Text) (bs : List Float64) (ns : List ℕ)
      → length ns ≡ length bs
      → IsSome (bucket_lines vb inside bs ns)
  unfolding bucket_lines
  bucket_lines-IsSome inside [] ns h = ([], refl)
  bucket_lines-IsSome inside (b ∷ bs) [] h = absurd (omega arith)
  bucket_lines-IsSome inside (b ∷ bs) (n ∷ ns) h =
      joined-IsSome (some (bucket_line vb inside b n)) (bucket_lines vb inside bs ns) (_, refl)
        (bucket_lines-IsSome inside bs ns (omega arith))

  with_totals-IsSome :
      (inside : Text) (v : SeriesValue) (o : Option Text)
      → IsSome o
      → IsSome (with_totals vb inside v o)
  with_totals-IsSome inside v none h = absurd (cc h.1)
  with_totals-IsSome inside v (some t) h = (_, refl)

  histogram_lines-IsSome :
      (bounds : List Float64) (k : SeriesKey) (v : SeriesValue)
      → Fits bounds v
      → IsSome (histogram_lines vb bounds k v)
  unfolding histogram_lines
  histogram_lines-IsSome bounds k v h =
      with_totals-IsSome (labels vb k) v (bucket_lines vb (labels vb k) bounds v.bucket_count)
        (bucket_lines-IsSome (labels vb k) bounds v.bucket_count h)

  for_keys-IsSome :
      (bounds : List Float64) (f : SeriesKey → SeriesValue → Option Text)
      (series : List (SeriesKey × SeriesValue)) (ks : List SeriesKey)
      → ((k : SeriesKey) (v : SeriesValue) → Fits bounds v → IsSome (f k v))
      → All (Known bounds series) ks
      → IsSome (for_keys vb f series ks)
  unfolding for_keys
  for_keys-IsSome bounds f series [] g h = ([], refl)
  for_keys-IsSome bounds f series (k ∷ ks) g ((v, e, fits), h) =
      rw (for_keys, e)
        (joined-IsSome (f k v) (for_keys vb f series ks) (g k v fits)
          (for_keys-IsSome bounds f series ks g h))

  page-IsSome :
      (sec : Seconds) (now : ℕ) (m : Metrics)
      → FitsAll m.buckets m.series
      → IsSome (page vb sec now m (keys_of m))
  unfolding page
  page-IsSome sec now m h =
      let known =
        sort_keys-All (Known m.buckets m.series) (keys_of m) (keys-Known m.buckets m.series h) in
      let sorted = sort_keys (keys_of m) in
      let counters = for_keys vb (λ k v. some (counter_line vb k v)) m.series sorted in
      let histograms = for_keys vb (histogram_lines vb m.buckets) m.series sorted in
      joined-IsSome (some (counter_head vb sec now m))
        (joined counters (then_text (histogram_head vb) histograms)) (_, refl)
        (joined-IsSome counters (then_text (histogram_head vb) histograms)
          (for_keys-IsSome m.buckets (λ k v. some (counter_line vb k v)) m.series sorted
            (λ k v f. (_, refl)) known)
          (joined-IsSome (some (histogram_head vb)) histograms (_, refl)
            (for_keys-IsSome m.buckets (histogram_lines vb m.buckets) m.series sorted
              (histogram_lines-IsSome m.buckets) known)))

page-perm :
    (vb : Verbs) (sec : Seconds) (now : ℕ) (m : Metrics) (ks : List SeriesKey)
    → Perm ks (keys_of m)
    → page vb sec now m ks ≡ page vb sec now m (keys_of m)
unfolding page
page-perm vb sec now m ks p = rw (sort_keys-perm ks (keys_of m) p) refl

-- Whatever has been observed, in whatever order, and in whatever order the map gives its keys, /metrics is
-- written without a panic, with the text that another order of the keys gives too.
pub page_lem :
    (vb : Verbs) (sec : Seconds) (enabled : Bool) (started now : ℕ) (bounds : List Float64)
    (os : List Observation) (ks : List SeriesKey)
    → Perm ks (keys_of (observe_all sec os (new_metrics enabled started bounds)))
    → IsSome (page vb sec now (observe_all sec os (new_metrics enabled started bounds)) ks)
      × (page vb sec now (observe_all sec os (new_metrics enabled started bounds)) ks
          ≡ page vb sec now
              (observe_all sec os (new_metrics enabled started bounds))
              (keys_of (observe_all sec os (new_metrics enabled started bounds))))
page_lem vb sec enabled started now bounds os ks p =
    let m = observe_all sec os (new_metrics enabled started bounds) in
    let r =
      page-IsSome vb sec now m
        (observe_all-IsAligned sec bounds os (new_metrics enabled started bounds)
          (unfold new_metrics in (refl, tt))).1 in
    let e = page-perm vb sec now m ks p in ((r.0, e ∙ r.1), e)
