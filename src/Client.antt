-- ===== src/Client.antt =====
-- client.go. What the network does in one fetch is a `World`; what each goroutine of FetchAll
-- comes to, and the order in which they end, is a `Round`. The cached path of `Fetch` is that of a
-- call with no other one beside it; Cache/Flight.antt has the interleavings. Logging has no model.
pub mod Load
pub mod Together
pub mod Lookup
pub mod Cached
use tgju_api_go.Common.{
  ℕ, zero, suc, ◌+◌, Bool, true, false, List, [], ◌∷◌, ◌++◌, Option, none, some, Text,
  if◌then◌else◌, is_nil, get_elem?, text_eq, length, ◌==◌, map,
}
use tgju_api_go.Floats.{Floats}
use tgju_api_go.Dom.{Html}
use tgju_api_go.Scrape.{ScrapeError, bad_html, no_tables, Tables, found, failed, tables, Table}
use tgju_api_go.Scrape
use tgju_api_go.Market.{Market, valid, path, markets}
use tgju_api_go.Errors.{
  Kind, unknown_market, parse, empty, not_found, other, Err, leaf, rich, wrap, cons, nil, wrap_both,
  Op, fetching, parsing, looking_up, Detail, Result, ok, err, join,
}
use tgju_api_go.Errors
use tgju_api_go.Snapshot.{Item, Snapshot, is_empty}
use tgju_api_go.Snapshot
use tgju_api_go.Convert.{snapshot_from}
use tgju_api_go.Transport.{RetryPolicy, World, Fetched, got, lost, get}
use tgju_api_go.Cache.{Cache, Decision, hit, wait, lead, decide, start, settle}

-- the fields of config that the model reads
pub record Config : Type 0 where
  pub base_url : Text
  pub retry : RetryPolicy
  pub max_body_size : ℕ

-- fmt.Errorf("%w: …", k) with nothing more wrapped
abbrev pub wrap_one : Kind → Err
wrap_one k = wrap (cons (leaf k) nil)

abbrev pub scrape_err : ScrapeError → Err
scrape_err bad_html = wrap_one other
scrape_err no_tables = leaf Errors.no_tables

abbrev pub detail_of : Op → Market → Text → Detail
detail_of op m url = record { op = op; market = m; url = url; status_code = 0; attempts = 0 }

abbrev pub unless_empty : Detail → Snapshot → Result Snapshot
unless_empty d s = if is_empty s then err (rich d (leaf empty)) else ok s

module _ (fl : Floats) (html : Html) (cfg : Config) where
  abbrev pub source_of : Market → Text
  source_of m = cfg.base_url ++ path m

  abbrev pub converted : Market → ℕ → Tables → Result Snapshot
  converted m now (failed e) =
      err (rich (detail_of parsing m (source_of m)) (wrap_both parse (scrape_err e)))
  converted m now (found ts) =
      unless_empty (detail_of parsing m (source_of m))
        (snapshot_from fl m cfg.base_url (source_of m) now ts)

  abbrev pub read_page : Market → ℕ → Fetched → Result Snapshot
  read_page m now (lost d e pauses) = err (rich d e)
  read_page m now (got body pauses) = converted m now (tables html body)

  unfoldable pub load : Market → World → ℕ → Result Snapshot
  unfolding get tables snapshot_from is_empty path
  load m w now = read_page m now (get cfg.retry cfg.max_body_size m (source_of m) w)

-- what a call of `do` depends on besides the cache: when it starts and when its fetch ends, what the
-- fetch gives, the context's error, and whether the context's end is what the leader's select receives
pub record Call : Type 0 where
  pub now : ℕ
  pub end : ℕ
  pub loaded : Result Snapshot
  pub ended : Err
  pub gives_up : Bool

-- what the leader returns: its fetch's result, or the context's error
abbrev pub led_result : Call → Result Snapshot
led_result k = if k.gives_up then err k.ended else k.loaded

-- `do` of a call that is alone: one that finds another's fetch, which nobody ends, comes to the
-- context's error. The cache is that behind the leader's fetch, which goes on without the leader.
abbrev pub do_by : Market → Call → Cache → Decision → (Result Snapshot × Bool) × Cache
do_by m k c (hit r) = ((r, true), c)
do_by m k c (wait id) = ((err k.ended, false), c)
do_by m k c lead = ((led_result k, false), settle k.end (length c.cells) k.loaded (start m c))

unfoldable pub do_alone : Market → Call → Cache → (Result Snapshot × Bool) × Cache
unfolding decide start settle
do_alone m k c = if c.ttl == 0 then ((k.loaded, false), c) else do_by m k c (decide k.now m c)

abbrev pub unknown : Market → Err
unknown m = rich (detail_of fetching m []) (wrap_one unknown_market)

-- `Fetch`; Currency, Gold and Coin are calls of it
unfoldable pub fetch : Market → Call → Cache → Result Snapshot × Cache
unfolding valid do_alone
fetch m k c = if valid m then ((do_alone m k c).0.0, (do_alone m k c).1) else (err (unknown m), c)

-- the goroutines of one FetchAll, and the order in which they end
pub record Round : Type 0 where
  pub outcome : ℕ → Market → Result Snapshot
  pub finished : List ℕ

-- a goroutine for each market
abbrev pub launched :
    (ℕ → Market → Result Snapshot) → ℕ → List Market → List (Market × Result Snapshot)
launched f n [] = []
launched f n (m ∷ ms) = (m, f n m) ∷ launched f (suc n) ms

abbrev pub error_of : Market × Result Snapshot → Option Err
error_of (m, ok s) = none
error_of (m, err e) = some e

-- `out[m] = snap` of one goroutine; the entry put last counts
abbrev pub put_result :
    Option (Market × Result Snapshot) → List (Market × Snapshot) → List (Market × Snapshot)
put_result none out = out
put_result (some (m, ok s)) out = (m, s) ∷ out
put_result (some (m, err e)) out = out

abbrev pub put_all :
    List (Market × Result Snapshot) → List ℕ → List (Market × Snapshot) → List (Market × Snapshot)
put_all rs [] out = out
put_all rs (i ∷ is) out = put_all rs is (put_result (get_elem? rs i) out)

abbrev pub asked : List Market → List Market
asked [] = markets
asked (m ∷ ms) = m ∷ ms

abbrev pub joined : Option Err → List (Market × Snapshot) → Result (List (Market × Snapshot))
joined none out = ok out
joined (some e) out = err e

unfoldable pub fetch_all : Round → List Market → Result (List (Market × Snapshot))
unfolding join markets
fetch_all r ms =
    let rs = launched r.outcome 0 (asked ms) in
    joined (join (map error_of rs)) (put_all rs r.finished [])

unfoldable pub snapshot_of : Market → List (Market × Snapshot) → Option Snapshot
unfolding text_eq
snapshot_of m [] = none
snapshot_of m ((k, s) ∷ rest) = if text_eq k m then some s else snapshot_of m rest

-- `snapshots[m].Lookup(key)`, of the zero Snapshot for a missing market
abbrev pub lookup_at : Text → Option Snapshot → Option Item
lookup_at key none = none
lookup_at key (some s) = Snapshot.lookup s key

abbrev pub or_next : Option Item → Option Item → Option Item
or_next none o = o
or_next (some i) o = some i

-- the loop over the markets
unfoldable pub first_item : Text → List (Market × Snapshot) → List Market → Option Item
unfolding snapshot_of Snapshot.lookup
first_item key out [] = none
first_item key out (m ∷ ms) = or_next (lookup_at key (snapshot_of m out)) (first_item key out ms)

abbrev pub missing : Err
missing = rich (detail_of looking_up [] []) (wrap_one not_found)

abbrev pub found_or_missing : Option Item → Result Item
found_or_missing none = err missing
found_or_missing (some i) = ok i

abbrev pub item_among : Text → List Market → Result (List (Market × Snapshot)) → Result Item
item_among key ms (err e) = err e
item_among key ms (ok out) = found_or_missing (first_item key out ms)

unfoldable pub item : Round → Text → List Market → Result Item
unfolding fetch_all first_item
item r key ms =
    if is_nil key then err missing else item_among key (asked ms) (fetch_all r (asked ms))
