-- ===== src/Examples/Wiring.antt =====
-- The server as a whole, on concrete requests.
use tgju_api_go.Common.{
  true, List, [], ◌∷◌, Option, none, some, Text, codes, ◌≡◌, refl, ap, text_eq,
}
use tgju_api_go.Server.Render.{code_internal}
use tgju_api_go.Server.Guard.{Response, is_read}
use tgju_api_go.Server.Guard.Methods.{origins_of}
use tgju_api_go.Server.Stages.{
  State, Visit, answered, panicked, other_panic, Stage, recoverer, request_id, access_log, id_of,
}
use tgju_api_go.Server.Stages.Named.{ids}
use tgju_api_go.Server.Router.{Entry, registered, segments, items_stage}
use tgju_api_go.Server.Filter.{Query}
use tgju_api_go.Server.Handlers.{Answer, handle_market_items}
use tgju_api_go.Server.Pages.{answering}
use tgju_api_go.Server.Build.Reached.{AnswersWith, build-AnswersWith}
use tgju_api_go.Server.Build.{
  ServerConfig, ServerSetting, with_rate_limit, with_cors, new_config, Platform, build, new_state,
  unsent,
}
use tgju_api_go.Server.Build.Counted.{Counts, IsRoute, build-Counts}
use tgju_api_go.Server.Build.Refused.{build-write, panic-unnamed}
use tgju_api_go.Examples.{whole, whole_seconds, some_service, post}

abbrev some_platform : Platform
some_platform = record {
  sec = whole_seconds;
  ar = whole;
  split_host_port = λ t. none;
  pause = λ rate. 0;
  positive = λ rate. true;
  bounds = 2 ∷ 5 ∷ [];
}

abbrev some_settings : List (Option (ServerSetting (Unit {0}) (Unit {0})))
some_settings =
    none ∷ some (with_rate_limit 1 0) ∷ some (with_cors (codes "https://example.org" ∷ [])) ∷ []

abbrev some_server : ServerConfig (Unit {0}) (Unit {0})
some_server = new_config tt tt some_settings

abbrev some_state : State
some_state = new_state some_platform some_server 0

abbrev posted : Visit
posted = record {
  request = post;
  sent_id = codes "req-1";
  minted = codes "0a1b";
  path = codes "v1" ∷ codes "markets" ∷ codes "gold" ∷ codes "items" ∷ [];
  query = record { category = []; keys = [] };
  started = 1;
  admitted = 2;
  ended = 4;
  moved = none;
  deadline = none;
}

abbrev asked : Visit
asked = record posted { request = record post { method = codes "GET" } }

build-Counts_example :
    (w' : Response) × (after : State) × (route : Text) × (build some_platform some_server
        some_service asked unsent some_state
      ≡ answered w' after)
    × Counts some_platform asked some_state route w' after
    × IsRoute true (registered some_service true) asked unsent w' route
    × (ids w' ≡ id_of asked ∷ [])
unfolding new_config
build-Counts_example = build-Counts some_platform some_server some_service asked unsent some_state

build-write_example :
    (w' : Response) × (after : State) × (build some_platform some_server some_service posted unsent
        some_state
      ≡ answered w' after)
    × (w'.status ≡ some 405)
    × (after.limiter ≡ some_state.limiter)
    × (origins_of w'.headers ≡ origins_of unsent.headers)
unfolding is_read
build-write_example =
    build-write some_platform some_server some_service posted unsent some_state refl refl

abbrev failing : Stage
failing v w st = panicked other_panic w st

panic-unnamed_example :
    (w' : Response) × (recoverer
        (request_id (access_log whole_seconds failing))
        asked
        unsent
        some_state
      ≡ answered w' (record some_state { route = [] }))
    × (w'.status ≡ some 500)
    × (w'.failure
        ≡ some (record { code = code_internal; message = codes "internal error"; request_id = [] }))
panic-unnamed_example = panic-unnamed some_platform failing asked unsent _ some_state _ refl refl

abbrev items_entry : Entry
items_entry = record {
  pattern = codes "/v1/markets/{market}/items";
  summary = codes "Flat list of one market's instruments";
  stage = items_stage some_service;
}

abbrev gold_items : Text → Answer
gold_items id = handle_market_items some_service id (codes "gold") asked.query

build-AnswersWith_example :
    (w' : Response) × (after : State) × (build some_platform some_server some_service asked unsent
        some_state
      ≡ answered w' after)
    × AnswersWith true (codes "/v1/markets/{market}/items") (gold_items (id_of asked)) w' after
unfolding registered segments text_eq new_config
build-AnswersWith_example =
    build-AnswersWith some_platform some_server some_service 2 items_entry (codes "gold" ∷ [])
      gold_items asked unsent some_state refl (refl, refl)
      (λ u x su q.
        ap
          (λ (p : Query).
            answering (λ id. handle_market_items some_service id (codes "gold") p) u x su)
          q)
      refl refl refl refl
