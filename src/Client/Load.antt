-- ===== src/Client/Load.antt =====
-- The work behind a cache miss, `load` of client.go.
use tgju_api_go.Common.{
  ℕ, false, List, [], ◌∷◌, ◌++◌, Option, none, some, Text, ◌≡◌, ◌≢◌, inl, inr, refl, sym, arith,
  All, Bool-cases, map, subst,
}
use tgju_api_go.Floats.{Floats}
use tgju_api_go.Dom.{Html, Node}
use tgju_api_go.Scrape.{Row, Table, ScrapeError, bad_html, Tables, found, failed, tables}
use tgju_api_go.Scrape.Rows.{IsRow, IsDirection, tables-found}
use tgju_api_go.Market.{Market}
use tgju_api_go.Errors.{parse, empty, Err, leaf, rich, wrap_both, parsing, Result, ok, err}
use tgju_api_go.Snapshot.{Item, Snapshot, items, is_empty}
use tgju_api_go.Snapshot.Items.{is_empty-nil}
use tgju_api_go.Convert.{item_from, snapshot_from, status_of}
use tgju_api_go.Convert.Boards.{captioned, rows_of, item_at, items-snapshot_from}
use tgju_api_go.Transport.{World, Fetched, got, lost, get}
use tgju_api_go.Client.{Config, scrape_err, detail_of, source_of, converted, read_page, load}

-- What a caller of the client relies on in an item of a market's board.
pub record IsItem (m : Market) (i : Item) : Type 0 where
  pub key : i.key ≢ []
  pub title : i.title ≢ []
  pub market : i.market ≡ m
  pub status : IsDirection i.change.status

-- What it relies on in a snapshot.
pub record IsBoard (m : Market) (page : Text) (now : ℕ) (s : Snapshot) : Type 0 where
  pub market : s.market ≡ m
  pub source : s.source ≡ page
  pub fetched_at : s.fetched_at ≡ now
  pub filled : items s ≢ []
  pub sound : All (IsItem m) (items s)

status_of-IsDirection : (s : Text) → IsDirection (status_of s)
unfolding status_of
status_of-IsDirection s = ground arith

module _ (fl : Floats) (m : Market) (base : Text) where
  item_from-IsItem : (title : Text) (r : Row) → IsRow r → IsItem m (item_from fl m title base r)
  unfolding item_from
  item_from-IsItem title r h = record {
    key = h.slug;
    title = h.title;
    market = refl;
    status = status_of-IsDirection r.status;
  }

  captioned-IsItem :
      (title : Text) (rs : List Row) (rest : List (Text × Row))
      → All IsRow rs
      → All (IsItem m) (map (item_at fl m base) rest)
      → All (IsItem m) (map (item_at fl m base) (captioned title rs ++ rest))
  captioned-IsItem title [] rest h k = k
  captioned-IsItem title (r ∷ rs) rest (h, hs) k =
      (item_from-IsItem title r h, captioned-IsItem title rs rest hs k)

  rows_of-IsItem :
      (ts : List Table)
      → All (λ (t : Table). All IsRow t.rows) ts
      → All (IsItem m) (map (item_at fl m base) (rows_of ts))
  rows_of-IsItem [] h = tt
  rows_of-IsItem (t ∷ ts) (h, hs) =
      captioned-IsItem t.title t.rows (rows_of ts) h (rows_of-IsItem ts hs)

refused :
    (html : Html) (body : List ℕ) → html.parse body ≡ none → tables html body ≡ failed bad_html
unfolding tables
refused html body e = rw (e, tables)

tables_parsed :
    (html : Html) (body : List ℕ) (ts : List Table)
    → tables html body ≡ found ts
    → (o : Option Node) → html.parse body ≡ o
    → All (λ (t : Table). All IsRow t.rows) ts
tables_parsed html body ts h none e = let r = refused html body e in cc
tables_parsed html body ts h (some root) e = (tables-found html body root ts e h).2

module _ (fl : Floats) (html : Html) (cfg : Config) (m : Market) (now : ℕ) where
  -- An error of `load` behind the transport: the page has no board, or a board without rows.
  pub data Unread : Err → Type 0 where
    unparsed :
        (e : ScrapeError)
        → Unread
            (rich (detail_of parsing m (source_of fl html cfg m)) (wrap_both parse (scrape_err e)))
    unfilled : Unread (rich (detail_of parsing m (source_of fl html cfg m)) (leaf empty))

  -- how a load ends: with a sound snapshot, with the error of the transport, or with one of the page
  abbrev pub Ends : Fetched → Result Snapshot → Type 0
  Ends (lost d e pauses) r = r ≡ err (rich d e)
  Ends (got body pauses) (err e) = Unread e
  Ends (got body pauses) (ok s) = IsBoard m (source_of fl html cfg m) now s

  abbrev made : List Table → Snapshot
  made ts = snapshot_from fl m cfg.base_url (source_of fl html cfg m) now ts

  made-IsBoard :
      (ts : List Table)
      → All (λ (t : Table). All IsRow t.rows) ts
      → is_empty (made ts) ≡ false
      → IsBoard m (source_of fl html cfg m) now (made ts)
  made-IsBoard ts h full = record {
    market = unfold snapshot_from in refl;
    source = unfold snapshot_from in refl;
    fetched_at = unfold snapshot_from in refl;
    filled = λ e. let t = (is_empty-nil (made ts)).1 e in cc;
    sound =
        subst (All (IsItem m))
          (sym (items-snapshot_from fl m cfg.base_url (source_of fl html cfg m) now ts))
          (rows_of-IsItem fl m cfg.base_url ts h);
  }

  converted-Ends :
      (body : List ℕ) (pauses : List ℕ) (t : Tables)
      → tables html body ≡ t
      → Ends (got body pauses) (converted fl html cfg m now t)
  converted-Ends body pauses (failed e) h = unparsed e
  converted-Ends body pauses (found ts) h = elim (Bool-cases (is_empty (made ts))) [
    | inl none_left ↦ rw none_left unfilled
    | inr full ↦
        rw full (made-IsBoard ts (tables_parsed html body ts h (html.parse body) refl) full)
  ]

  read_page-Ends : (f : Fetched) → Ends f (read_page fl html cfg m now f)
  read_page-Ends (lost d e pauses) = refl
  read_page-Ends (got body pauses) = converted-Ends body pauses (tables html body) refl

  -- A load ends in one of three ways: where the transport fails, with that failure; where it has a
  -- page without a board or without rows, with an error of parsing that names the market and the
  -- page; and otherwise with a snapshot of the market, its page and the time, which has items,
  -- each of them with a key, a title, the market and a known status.
  pub load_lem :
      (w : World)
      → Ends
          (get cfg.retry cfg.max_body_size m (source_of fl html cfg m) w)
          (load fl html cfg m w now)
  unfolding load
  load_lem w = read_page-Ends (get cfg.retry cfg.max_body_size m (source_of fl html cfg m) w)
