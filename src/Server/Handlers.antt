-- ===== src/Server/Handlers.antt =====
-- server/handlers.go and cacheControl of server/server.go: what each endpoint answers. What the
-- client gives during one request is a parameter (`Service`), and bodies are values before their
-- JSON encoding.
pub mod Items
pub mod Ready
use tgju_api_go.Common.{
  ℕ, ◌/◌, max, Bool, true, false, List, [], ◌∷◌, ◌++◌, Option, none, some, Text, codes, map, length,
  ◌==◌, if◌then◌else◌,
}
use tgju_api_go.Market.{Market, currency, parse_market, markets, label, path}
use tgju_api_go.Errors.{Err, api, unknown_market, Result, ok, err}
use tgju_api_go.Snapshot.{Item, Category, Snapshot}
use tgju_api_go.Snapshot
use tgju_api_go.Client.{wrap_one}
use tgju_api_go.Server.Render.{Failure, write_error, classify, code_not_found}
use tgju_api_go.Server.Legacy.{LegacyShape, LegacyBody, legacy_body}
use tgju_api_go.Server.Filter.{Query, filter_categories}

pub record MarketInfo : Type 0 where
  pub name : Market
  pub label : Text
  pub source : Text
  pub endpoint : Text

-- the client behind the service, and the service's clock; a TTL of no time is 0
pub record Service : Type 0 where
  pub fetch : Market → Result Snapshot
  pub fetch_all : Result (List (Market × Snapshot))
  pub item : Text → Result Item
  pub base_url : Text
  pub cache_ttl : ℕ
  pub now : ℕ

-- the values of Cache-Control; the age is in seconds
pub data CacheControl : Type 0 where
  unset no_store : CacheControl
  public_for : ℕ → CacheControl

pub data Body : Type 0 where
  failure : Failure → Body
  market_list : List MarketInfo → Body
  board : Snapshot → Body
  item_list : Market → ℕ → ℕ → List Item → Body
  one_item : Item → Body
  boards : ℕ → List (Market × Snapshot) → Body
  legacy : LegacyBody → Body
  alive : Body
  ready : Text → ℕ → ℕ → Body
  unready : Text → Body

pub record Answer : Type 0 where
  pub status : ℕ
  pub cache_control : CacheControl
  pub body : Body

-- `writeError`
abbrev pub failed : Text → Err → Answer
failed id e = record {
  status = (write_error id e).0.0;
  cache_control = unset;
  body = failure (write_error id e).0.1;
}

abbrev pub not_published : Market → Text → Err
not_published m key = api (record {
  code = code_not_found;
  message = codes "market " ++ (m ++ (codes " publishes no instrument called " ++ key));
})

module _ (s : Service) where
  unfoldable pub cache_control : CacheControl
  cache_control = if s.cache_ttl == 0 then no_store else public_for (s.cache_ttl / 1_000_000_000)

  -- writeJSON behind cacheControl
  abbrev pub served : Body → Answer
  served b = record { status = 200; cache_control = cache_control; body = b }

  abbrev pub fetched : Option Market → Result Snapshot
  fetched none = err (wrap_one unknown_market)
  fetched (some m) = s.fetch m

  -- the path segment {market}, and its board
  unfoldable pub snapshot : Text → Result Snapshot
  unfolding parse_market
  snapshot name = fetched (parse_market name)

  abbrev pub info : Market → MarketInfo
  info m = record {
    name = m;
    label = label m;
    source = s.base_url ++ path m;
    endpoint = codes "/v1/markets/" ++ m;
  }

  unfoldable pub handle_markets : Answer
  unfolding markets label path
  handle_markets = record {
    status = 200;
    cache_control = public_for 3600;
    body = market_list (map info markets);
  }

  abbrev pub filtered : Snapshot → Query → Snapshot
  filtered snap q = record snap { categories = filter_categories snap.categories q }

  abbrev pub market_by : Text → Query → Result Snapshot → Answer
  market_by id q (err e) = failed id e
  market_by id q (ok snap) = served (board (filtered snap q))

  unfoldable pub handle_market : Text → Text → Query → Answer
  unfolding snapshot cache_control write_error filter_categories
  handle_market id name q = market_by id q (snapshot name)

  abbrev pub market_items_by : Text → Query → Result Snapshot → Answer
  market_items_by id q (err e) = failed id e
  market_items_by id q (ok snap) =
      let items = Snapshot.items (filtered snap q) in
      served (item_list snap.market snap.fetched_at (length items) items)

  unfoldable pub handle_market_items : Text → Text → Query → Answer
  unfolding snapshot cache_control write_error filter_categories Snapshot.items
  handle_market_items id name q = market_items_by id q (snapshot name)

  abbrev pub item_or_missing : Text → Market → Text → Option Item → Answer
  item_or_missing id m key none = failed id (not_published m key)
  item_or_missing id m key (some i) = served (one_item i)

  abbrev pub market_item_by : Text → Text → Result Snapshot → Answer
  market_item_by id key (err e) = failed id e
  market_item_by id key (ok snap) = item_or_missing id snap.market key (Snapshot.lookup snap key)

  unfoldable pub handle_market_item : Text → Text → Text → Answer
  unfolding snapshot cache_control write_error Snapshot.lookup
  handle_market_item id name key = market_item_by id key (snapshot name)

  abbrev pub answer_by {ℓ} : {A : Type ℓ} → Text → (A → Body) → Result A → Answer
  answer_by id b (err e) = failed id e
  answer_by id b (ok a) = served (b a)

  unfoldable pub handle_item : Text → Text → Answer
  unfolding cache_control write_error
  handle_item id key = answer_by id one_item (s.item key)

  unfoldable pub handle_snapshot : Text → Answer
  unfolding cache_control write_error
  handle_snapshot id = answer_by id (boards s.now) s.fetch_all

  unfoldable pub handle_legacy : Market → LegacyShape → Text → Answer
  unfolding cache_control write_error legacy_body
  handle_legacy m shape id = answer_by id (λ snap. legacy (legacy_body snap shape)) (s.fetch m)

  unfoldable pub handle_health : Answer
  handle_health = record { status = 200; cache_control = no_store; body = alive }

  abbrev pub ready_by : Result Snapshot → Answer
  ready_by (err e) = record {
    status = max (classify e).0 503;
    cache_control = no_store;
    body = unready (classify e).1;
  }
  ready_by (ok snap) = record {
    status = 200;
    cache_control = no_store;
    body = ready s.base_url (Snapshot.len snap) snap.fetched_at;
  }

  unfoldable pub handle_ready : Answer
  unfolding classify Snapshot.len
  handle_ready = ready_by (s.fetch currency)
