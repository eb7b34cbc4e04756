-- ===== src/Examples/Serving.antt =====
-- Answers of the service and of the command.
use mathlib.Core.List.{Perm}
use mathlib.Core.List.Perm
use tgju_api_go.Common.{
  ℕ, Option, min, List, [], ◌∷◌, none, some, codes, ◌≡◌, ◌≢◌, refl, arith, All, map, keep, leb,
  get_elem?, ◌%◌, ◌^◌, true, IsSome,
}
use tgju_api_go.Strings.{trim_space}
use tgju_api_go.Market.{gold, currency}
use tgju_api_go.Errors.{is, as_api, deadline_exceeded, err, leaf}
use tgju_api_go.Snapshot.{Category, items}
use tgju_api_go.Client.{item, fetch_all}
use tgju_api_go.Server.Render.{classify, write_error, code_timeout}
use tgju_api_go.Server.Render.Codes.{IsFailure, write_error_lem}
use tgju_api_go.Server.Render.Masked.{OnlyRequests, classify-fetch_all}
use tgju_api_go.Server.Filter.{Query, filter_categories, split_keys}
use tgju_api_go.Server.Filter.Kept.{entries, wanted, filter_categories_lem}
use tgju_api_go.Server.Legacy.{legacy_grouped, legacy_body, to_legacy_item}
use tgju_api_go.Server.Legacy.Shapes.{listed_in, listed_in-legacy_body}
use tgju_api_go.Server.Guard.{sanitise_request_id}
use tgju_api_go.Server.Guard.Ids.{IsId, sanitise_request_id_lem}
use tgju_api_go.Server.Limiter.{bucket_of}
use tgju_api_go.Server.Limiter.Burst.{Exact, granted, granted-min}
use tgju_api_go.Server.Recorder.{Call, header_call, write_call, new_recorder, record_calls}
use tgju_api_go.Server.Recorder.Sent.{received, record_calls_lem}
use tgju_api_go.Server.Handlers.{
  Service, snapshot, handle_market_items, handle_market_item, handle_ready,
}
use tgju_api_go.Server.Handlers.Items.{no_query, Together, handle_market_item-Together}
use tgju_api_go.Server.Handlers.Ready.{Probes, handle_ready-Probes}
use tgju_api_go.Server.Metrics.{SeriesKey, Observation, new_metrics, observe_all}
use tgju_api_go.Server.Metrics.Page.{Verbs, page}
use tgju_api_go.Server.Metrics.Page.Written.{page_lem}
use tgju_api_go.Server.Metrics.Aligned.{keys_of}
use tgju_api_go.Server.Metrics.Counts.{of_key, within_bound, series_of, series_of-observe_all}
use tgju_api_go.Options.{Env, Setting, with_base_url, with_timeout, with_http_client, new_config}
use tgju_api_go.Options.Valid.{IsValid, new_config-IsValid}
use tgju_api_go.Command.{exit_code, exit_ok}
use tgju_api_go.Command.Exit.{err_of, exit_code-item}
use tgju_api_go.Examples.{
  some_service, whole_seconds, board, some_category, one_fails, failed_call, two_markets, whole,
  fresh_limiter,
}

write_error_lem_example :
    IsFailure (write_error (codes "a1") failed_call).0.0
    × ((write_error (codes "a1") failed_call).0.1.message ≢ [])
    × ((write_error (codes "a1") failed_call).0.1.request_id ≡ codes "a1")
    × ((write_error (codes "a1") failed_call).1
        ≡ leb 500 (write_error (codes "a1") failed_call).0.0)
write_error_lem_example = write_error_lem (codes "a1") failed_call

only_requests : OnlyRequests one_fails two_markets
unfolding is
only_requests = record {
  unknown_market = refl;
  not_found = refl;
  parse = refl;
  empty = refl;
  deadline_exceeded = refl;
}

classify-fetch_all_example : classify failed_call ≡ (408, code_timeout)
unfolding fetch_all as_api is
classify-fetch_all_example =
    classify-fetch_all one_fails two_markets failed_call refl refl only_requests refl

exit_code-item_example : exit_code (err_of (item one_fails (codes "geram18") two_markets)) ≡ exit_ok
unfolding fetch_all is
exit_code-item_example =
    exit_code-item one_fails (codes "geram18") two_markets failed_call (λ e. cc) refl refl

abbrev two_keys : Query
two_keys = record { category = codes " Gold "; keys = codes "sekee, geram18" }

filter_categories_lem_example :
    (entries (filter_categories (some_category ∷ []) two_keys)
      ≡ keep
          (wanted (trim_space two_keys.category) (split_keys two_keys.keys))
          (entries (some_category ∷ [])))
    × (split_keys two_keys.keys ≢ []
        → All (λ (c : Category). c.items ≢ []) (filter_categories (some_category ∷ []) two_keys))
filter_categories_lem_example = filter_categories_lem (some_category ∷ []) two_keys

listed_in-legacy_body_example :
    listed_in (legacy_body (board gold) legacy_grouped) ≡ map to_legacy_item (items (board gold))
listed_in-legacy_body_example = listed_in-legacy_body (board gold) legacy_grouped

sanitise_request_id_lem_example :
    (IsId (codes "req-1") → sanitise_request_id (codes "req-1") ≡ codes "req-1")
    × ((sanitise_request_id (codes "req-1") ≢ [])
        → IsId (codes "req-1") × (sanitise_request_id (codes "req-1") ≡ codes "req-1"))
sanitise_request_id_lem_example = sanitise_request_id_lem (codes "req-1")

whole-Exact : Exact whole 5 3
whole-Exact = record {
  takes = λ k h. omega arith;
  compares = λ k h. ground arith;
  still = λ k now h. omega arith;
}

granted-min_example : granted whole 10 7 (codes "10.0.0.1") fresh_limiter ≡ min 10 3
unfolding bucket_of
granted-min_example =
    granted-min whole 5 3 whole-Exact 7 (codes "10.0.0.1") 10 fresh_limiter (refl, refl) refl

abbrev some_calls : List Call
some_calls = header_call 404 ∷ write_call 12 ∷ header_call 200 ∷ []

record_calls_lem_example :
    ((record_calls some_calls new_recorder).status
      ≡ received (record_calls some_calls new_recorder).inner)
    × ((record_calls some_calls new_recorder).written ≡ 12)
record_calls_lem_example = record_calls_lem some_calls (refl, (tt, (refl, tt)))

abbrev down_service : Service
down_service = record some_service { fetch = λ m. err (leaf deadline_exceeded) }

handle_market_item-Together_example :
    Together some_service
      (codes "id")
      (codes "geram18")
      (snapshot some_service (codes "gold"))
      (handle_market_items some_service (codes "id") (codes "gold") no_query)
      (handle_market_item some_service (codes "id") (codes "gold") (codes "geram18"))
handle_market_item-Together_example =
    handle_market_item-Together some_service (codes "id") (codes "geram18") (codes "gold")

handle_ready-Probes_example : Probes (down_service.fetch currency) (handle_ready down_service)
handle_ready-Probes_example = handle_ready-Probes down_service

abbrev gold_key : SeriesKey
gold_key = record { route = codes "/v1/markets/{market}"; method = codes "GET"; status = 200 }

abbrev two_requests : List Observation
two_requests = record { key = gold_key; elapsed = 1 } ∷ record { key = gold_key; elapsed = 4 } ∷ []

series_of-observe_all_example :
    ((series_of whole_seconds
        (observe_all whole_seconds two_requests (new_metrics true 0 (2 ∷ 5 ∷ [])))
        gold_key).count
      ≡ of_key whole_seconds gold_key two_requests % 2 ^ 64)
    × (get_elem?
          (series_of whole_seconds
            (observe_all whole_seconds two_requests (new_metrics true 0 (2 ∷ 5 ∷ [])))
            gold_key).bucket_count
          0
        ≡ some (within_bound whole_seconds gold_key 2 two_requests % 2 ^ 64))
series_of-observe_all_example =
    series_of-observe_all whole_seconds gold_key 0 2 0 (2 ∷ 5 ∷ []) two_requests refl

-- HTTP clients that are their timeouts, one logger and one clock
abbrev plain_env : Env
plain_env = record {
  Doer = ℕ;
  Logger = Unit;
  Clock = Unit;
  http_client = λ d. d;
  discard = tt;
  system_clock = tt;
  canonical = λ name. name;
}

abbrev some_options : List (Option (Setting plain_env))
some_options =
    some (with_base_url (codes "http://localhost:8080//"))
    ∷ none
    ∷ some (with_timeout 0)
    ∷ some (with_http_client none)
    ∷ []

new_config-IsValid_example :
    IsValid plain_env (new_config plain_env some_options)
    × ((new_config plain_env some_options).http ≢ none)
new_config-IsValid_example = new_config-IsValid plain_env some_options

-- texts and floats as they are
abbrev plain_verbs : Verbs
plain_verbs = record {
  quote = λ t. t;
  fixed3 = λ v. codes "0.000";
  general = λ v. codes "0";
  plain = λ v. codes "0.0";
}

abbrev odd_key : SeriesKey
odd_key = record { route = codes "unmatched"; method = codes "GET"; status = 404 }

abbrev mixed_requests : List Observation
mixed_requests = record { key = odd_key; elapsed = 1 } ∷ two_requests

swapped_keys :
    Perm
      (gold_key ∷ odd_key ∷ [])
      (keys_of (observe_all whole_seconds mixed_requests (new_metrics true 0 (2 ∷ 5 ∷ []))))
unfolding observe_all new_metrics
swapped_keys = Perm.swap odd_key gold_key []

page_lem_example :
    IsSome (
      page plain_verbs whole_seconds 9
        (observe_all whole_seconds mixed_requests (new_metrics true 0 (2 ∷ 5 ∷ [])))
        (gold_key ∷ odd_key ∷ []))
    × (page plain_verbs whole_seconds 9
          (observe_all whole_seconds mixed_requests (new_metrics true 0 (2 ∷ 5 ∷ [])))
          (gold_key ∷ odd_key ∷ [])
        ≡ page plain_verbs whole_seconds 9
            (observe_all whole_seconds mixed_requests (new_metrics true 0 (2 ∷ 5 ∷ [])))
            (keys_of (observe_all whole_seconds mixed_requests (new_metrics true 0 (2 ∷ 5 ∷ [])))))
page_lem_example =
    page_lem plain_verbs whole_seconds true 0 9 (2 ∷ 5 ∷ []) mixed_requests
      (gold_key ∷ odd_key ∷ []) swapped_keys
