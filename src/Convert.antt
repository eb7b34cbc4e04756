-- ===== src/Convert.antt =====
-- convert.go: from the scraper's rows to the library's values.
pub mod Amounts
pub mod Boards
use tgju_api_go.Common.{
  ℕ, Bool, true, false, List, [], ◌∷◌, ◌++◌, Option, none, some, Text, codes, ◌||◌, if◌then◌else◌,
  is_nil, text_eq, map,
}
use tgju_api_go.Strings.{trim_space, has_prefix}
use tgju_api_go.Floats.{Float64, Floats}
use tgju_api_go.Numfmt.{value}
use tgju_api_go.Numfmt
use tgju_api_go.Scrape.{Row, Table}
use tgju_api_go.Market.{Market}
use tgju_api_go.Snapshot.{
  Status, status_unknown, status_low, status_high, Amount, no_amount, Item, Category, Snapshot,
}

abbrev pub amount_with : Text → Option Float64 → Amount
amount_with text none = no_amount
amount_with text (some v) = record { text = text; value = v }

unfoldable pub status_of : Text → Status
unfolding text_eq
status_of s =
    if text_eq s status_low
    then status_low
    else if text_eq s status_high
    then status_high
    else status_unknown

-- `absoluteURL` on the trimmed link
unfoldable pub resolve_url : Text → Text → Text
resolve_url base href =
    if is_nil href
    then []
    else if has_prefix href (codes "http://") || has_prefix href (codes "https://")
    then href
    else if has_prefix href (codes "//")
    then codes "https:" ++ href
    else if has_prefix href (codes "/")
    then base ++ href
    else base ++ (codes "/" ++ href)

unfoldable pub absolute_url : Text → Text → Text
unfolding trim_space resolve_url has_prefix
absolute_url base href = resolve_url base (trim_space href)

module _ (fl : Floats) where
  unfoldable pub amount_of : Text → Amount
  unfolding trim_space value
  amount_of text = let text' = trim_space text in amount_with text' (value fl text')

  unfoldable pub item_from : Market → Text → Text → Row → Item
  unfolding amount_of status_of absolute_url Numfmt.change
  item_from m category base row =
      let (percent, amount) = Numfmt.change fl row.change in
      record {
        key = row.slug;
        title = row.title;
        market = m;
        category = category;
        price = amount_of row.price;
        low = amount_of row.low;
        high = amount_of row.high;
        change = record {
          status = status_of row.status;
          percent = percent;
          amount = amount_of amount;
        };
        time = row.time;
        profile_url = absolute_url base row.profile;
      }

  -- the loop over the tables
  unfoldable pub categories_from : Market → Text → List Table → List Category
  unfolding item_from
  categories_from m base [] = []
  categories_from m base (t ∷ ts) =
      let rest = categories_from m base ts in
      if is_nil t.rows
      then rest
      else record { title = t.title; items = map (item_from m t.title base) t.rows } ∷ rest

  unfoldable pub snapshot_from : Market → Text → Text → ℕ → List Table → Snapshot
  unfolding categories_from
  snapshot_from m base source at ts = record {
    market = m;
    source = source;
    fetched_at = at;
    categories = categories_from m base ts;
  }
