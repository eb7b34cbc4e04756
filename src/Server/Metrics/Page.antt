-- ===== src/Server/Metrics/Page.antt =====
-- `handler` of server/metrics.go: the text of /metrics. The verbs of package fmt for quoted texts and for
-- floats are a parameter (`Verbs`). The map gives its keys in any order, which is an argument.
pub mod Order
pub mod Written
use tgju_api_go.Common.{
  ℕ, ◌-◌, Bool, true, false, List, [], ◌∷◌, ◌++◌, Option, none, some, Text, codes, ltb,
  if◌then◌else◌, text_eq,
}
use tgju_api_go.Strings.{decimal}
use tgju_api_go.Floats.{Float64}
use tgju_api_go.Market.{text_lt}
use tgju_api_go.Server.Metrics.{since, Seconds, Metrics, SeriesKey, SeriesValue, value_of}

pub record Verbs : Type 0 where
  -- %q
  pub quote : Text → Text
  -- %.3f, %g and %f
  pub fixed3 : Float64 → Text
  pub general : Float64 → Text
  pub plain : Float64 → Text

-- the function that sort.Slice gets
unfoldable pub key_lt : SeriesKey → SeriesKey → Bool
unfolding text_eq text_lt
key_lt a b =
    if text_eq a.route b.route
    then (if text_eq a.method b.method then ltb a.status b.status else text_lt a.method b.method)
    else text_lt a.route b.route

unfoldable pub insert_key : SeriesKey → List SeriesKey → List SeriesKey
unfolding key_lt
insert_key k [] = k ∷ []
insert_key k (j ∷ js) = let rest = insert_key k js in if key_lt j k then j ∷ rest else k ∷ j ∷ js

-- sort.Slice
unfoldable pub sort_keys : List SeriesKey → List SeriesKey
unfolding insert_key
sort_keys [] = []
sort_keys (k ∷ ks) = insert_key k (sort_keys ks)

abbrev pub metric : Text
metric = codes "tgju_http_request_duration_seconds"

abbrev pub joined : Option Text → Option Text → Option Text
joined none o = none
joined (some s) none = none
joined (some s) (some t) = some (s ++ t)

abbrev pub then_text : Text → Option Text → Option Text
then_text t o = joined (some t) o

module _ (vb : Verbs) where
  abbrev pub labels : SeriesKey → Text
  labels k =
      codes "route="
      ++ (vb.quote k.route
          ++ (codes ",method="
              ++ (vb.quote k.method ++ (codes ",status=" ++ vb.quote (decimal k.status)))))

  -- a line of a name, its labels and a value
  abbrev pub line : Text → Text → Text → Text
  line name inside value = name ++ (codes "{" ++ (inside ++ (codes "} " ++ (value ++ b'\n' ∷ []))))

  unfoldable pub counter_line : SeriesKey → SeriesValue → Text
  unfolding decimal
  counter_line k v = line (codes "tgju_http_requests_total") (labels k) (decimal v.count)

  abbrev pub bucket_line : Text → Float64 → ℕ → Text
  bucket_line inside b n =
      line (metric ++ codes "_bucket") (inside ++ (codes ",le=\"" ++ (vb.general b ++ codes "\"")))
        (decimal n)

  -- `value.bucketCount[i]` is out of range where there are fewer counts than bounds
  unfoldable pub bucket_lines : Text → List Float64 → List ℕ → Option Text
  unfolding decimal
  bucket_lines inside [] ns = some []
  bucket_lines inside (b ∷ bs) [] = none
  bucket_lines inside (b ∷ bs) (n ∷ ns) =
      then_text (bucket_line inside b n) (bucket_lines inside bs ns)

  abbrev pub with_totals : Text → SeriesValue → Option Text → Option Text
  with_totals inside v none = none
  with_totals inside v (some t) = some (
      t
      ++ (line (metric ++ codes "_bucket") (inside ++ codes ",le=\"+Inf\"") (decimal v.count)
          ++ (line (metric ++ codes "_sum") inside (vb.plain v.sum_seconds)
              ++ line (metric ++ codes "_count") inside (decimal v.count))))

  unfoldable pub histogram_lines : List Float64 → SeriesKey → SeriesValue → Option Text
  unfolding bucket_lines
  histogram_lines bounds k v =
      with_totals (labels k) v (bucket_lines (labels k) bounds v.bucket_count)

  -- what is written for each key in turn; a key that the map does not have is a nil pointer
  unfoldable pub for_keys :
      (SeriesKey → SeriesValue → Option Text)
      → List (SeriesKey × SeriesValue)
      → List SeriesKey
      → Option Text
  unfolding value_of
  for_keys f series [] = some []
  for_keys f series (k ∷ ks) = elim (value_of k series) [
    | none ↦ none
    | some v ↦ joined (f k v) (for_keys f series ks)
  ]

  abbrev pub header : Text → Text → Text → Text
  header name help kind =
      codes "# HELP "
      ++ (name
          ++ (codes " "
              ++ (help ++ (codes "\n# TYPE " ++ (name ++ (codes " " ++ (kind ++ b'\n' ∷ [])))))))

  abbrev pub preamble : Seconds → ℕ → Metrics → Text
  preamble sec now m =
      header (codes "tgju_build_info") (codes "The version of the running service.") (codes "gauge")
      ++ (codes "tgju_build_info{version="
          ++ (vb.quote (codes "1.0.1")
              ++ (codes "} 1\n"
                  ++ (header (codes "tgju_uptime_seconds")
                        (codes "Seconds since the server started.") (codes "gauge")
                      ++ (codes "tgju_uptime_seconds "
                          ++ (vb.fixed3 (sec.of_duration (since now m.started)) ++ b'\n' ∷ []))))))

  abbrev pub counter_head : Seconds → ℕ → Metrics → Text
  counter_head sec now m =
      preamble sec now m
      ++ header (codes "tgju_http_requests_total")
          (codes "Requests handled, by route, method and status.") (codes "counter")

  abbrev pub histogram_head : Text
  histogram_head = header metric (codes "Request latency.") (codes "histogram")

  -- the text, for the keys of the map in the order `ks`; `none` is a panic
  unfoldable pub page : Seconds → ℕ → Metrics → List SeriesKey → Option Text
  unfolding sort_keys for_keys counter_line histogram_lines
  page sec now m ks =
      let sorted = sort_keys ks in
      then_text (counter_head sec now m) (
        joined (for_keys (λ k v. some (counter_line k v)) m.series sorted)
          (then_text histogram_head (for_keys (histogram_lines m.buckets) m.series sorted)))
