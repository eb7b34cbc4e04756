-- ===== src/Examples.antt =====
-- Concrete inputs, on which the theorems about the repository's code are applied: a page with one
-- market table, a network that fails and one that answers, and the results of a call for two
-- markets.
pub mod Reading
pub mod Fetching
pub mod Serving
pub mod Wiring
pub mod Commanding
pub mod Documents
use Prim.Native.String.{String}
use tgju_api_go.Common.{
  ℕ, suc, ◌+◌, ◌-◌, ◌*◌, ◌==◌, min, ltb, leb, Bool, true, false, List, [], ◌∷◌, Option, none, some,
  Text, codes, length, if◌then◌else◌, text_eq,
}
use tgju_api_go.Floats.{Floats}
use tgju_api_go.Dom.{Node, Nodes, element, text_node, other, nil, cons, Html}
use tgju_api_go.Scrape.{Row, Table}
use tgju_api_go.Market.{Market, gold, coin}
use tgju_api_go.Errors.{
  request, canceled, Err, leaf, rich, wrap, wrap_both, fetching, Result, ok, err,
}
use tgju_api_go.Errors
use tgju_api_go.Snapshot.{Snapshot, Category, Item, no_amount}
use tgju_api_go.Transport.{World, unanswered, answered, default_retry}
use tgju_api_go.Client.{Config, Round, detail_of}
use tgju_api_go.Server.Limiter.{Arith, RateLimiter}
use tgju_api_go.Server.Guard.{Request}
use tgju_api_go.Server.Handlers.{Service}
use tgju_api_go.Server.Metrics.{Seconds}

-- floats that are the lengths of their texts
abbrev pub some_floats : Floats
some_floats = record {
  parse = λ t. some (length t);
  format = λ v. codes "0";
  format2 = λ v. codes "0.00";
  tenth = λ v. v;
  minus = λ a b. a - b;
}

abbrev pub cell : String → Nodes → Nodes
cell text = cons (element (codes "td") 6 [] (cons (text_node (codes text)) nil))

abbrev pub link : Nodes
link =
    cons
      (element (codes "td") 6 []
        (cons (element (codes "a") 0 ((codes "href", codes "/profile/geram18") ∷ []) nil) nil))
      nil

abbrev pub row : Node
row = element (codes "tr") 4 [] (
    cons (element (codes "th") 5 [] (cons (text_node (codes " Gold  18 ")) nil))
      (cell "1,234" (cell "(1.5%) 300" (cell "1,000" (cell "2,000" (cell "12:30" link))))))

abbrev pub table : Node
table =
    element (codes "table") 1 ((codes "class", codes "data market-table") ∷ [])
      (cons (element (codes "tbody") 3 [] (cons row nil)) nil)

abbrev pub page : Node
page = other (cons table nil)

-- every body is that page, and six names have an atom
abbrev pub some_html : Html
some_html = record { parse = λ body. some page; atom = atom_of_name }
  where
    atom_of_name : Text → ℕ
    atom_of_name s =
        if text_eq s (codes "table")
        then 1
        else if text_eq s (codes "thead")
        then 2
        else if text_eq s (codes "tbody")
        then 3
        else if text_eq s (codes "tr")
        then 4
        else if text_eq s (codes "th")
        then 5
        else if text_eq s (codes "td")
        then 6
        else 0

abbrev pub scraped : List Table
scraped =
    record {
      title = [];
      rows =
          record {
            slug = codes "geram18";
            title = codes "Gold 18";
            price = codes "1,234";
            change = codes "(1.5%) 300";
            status = [];
            low = codes "1,000";
            high = codes "2,000";
            time = codes "12:30";
            profile = codes "/profile/geram18";
          }
          ∷ [];
    }
    ∷ []

abbrev pub some_config : Config
some_config = record {
  base_url = codes "https://www.tgju.org";
  retry = default_retry;
  max_body_size = 100;
}

abbrev pub broken : Err
broken = leaf Errors.other

-- the first attempt fails, and the others are answered
abbrev pub recovering : World
recovering = record {
  exchange = λ k. if k == 1 then unanswered broken else answered 200 (1 ∷ 2 ∷ []) none;
  pause = λ k. none;
  after = λ k. none;
}

-- nothing is answered
abbrev pub silent : World
silent = record { exchange = λ k. unanswered broken; pause = λ k. none; after = λ k. none }

abbrev pub some_item : Item
some_item = record {
  key = codes "geram18";
  title = codes "Gold 18";
  market = gold;
  category = [];
  price = no_amount;
  low = no_amount;
  high = no_amount;
  change = record { status = []; percent = 0; amount = no_amount };
  time = [];
  profile_url = [];
}

abbrev pub some_category : Category
some_category = record { title = codes "Gold"; items = some_item ∷ [] }

abbrev pub board : Market → Snapshot
board m = record { market = m; source = []; fetched_at = 0; categories = some_category ∷ [] }

abbrev pub both_answer : Round
both_answer = record { outcome = λ i m. ok (board m); finished = 1 ∷ 0 ∷ [] }

abbrev pub first_failure : Err
first_failure = rich (detail_of fetching gold []) (wrap_both request broken)

-- the first fetch fails, and the second one is cancelled
abbrev pub one_fails : Round
one_fails = record {
  outcome = λ i m. if i == 0 then err first_failure else err (leaf canceled);
  finished = 0 ∷ 1 ∷ [];
}

abbrev pub failed_call : Err
failed_call = wrap (Errors.cons first_failure (Errors.cons (leaf canceled) Errors.nil))

abbrev pub two_markets : List Market
two_markets = gold ∷ coin ∷ []

-- tokens that are whole numbers
abbrev pub whole : Arith
whole = record {
  from_int = λ k. k;
  plus = λ a b. a + b;
  minus = λ a b. a - b;
  times = λ a b. a * b;
  least = min;
  less = ltb;
  elapsed = λ now seen. now - seen;
}

abbrev pub fresh_limiter : RateLimiter
fresh_limiter = record { rate = 5; burst = 3; buckets = []; swept = 0 }

abbrev pub post : Request
post = record {
  method = codes "POST";
  origin = codes "https://example.org";
  preflight_method = [];
  request_id = [];
  forwarded = [];
  remote = [];
}

-- every board can be had, but not all of them at once
abbrev pub some_service : Service
some_service = record {
  fetch = λ m. ok (board m);
  fetch_all = err failed_call;
  item = λ key. err first_failure;
  base_url = [];
  cache_ttl = 30_000_000_000;
  now = 7;
}

-- seconds that are whole numbers
abbrev pub whole_seconds : Seconds
whole_seconds = record { of_duration = λ d. d; plus = λ a b. a + b; at_most = leb }
