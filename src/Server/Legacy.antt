-- ===== src/Server/Legacy.antt =====
-- server/legacy.go: the layouts of the original API. The answer is kept as a value, before the
-- JSON encoding.
pub mod Shapes
use tgju_api_go.Common.{Bool, true, false, List, [], ◌∷◌, ◌++◌, Text, map}
use tgju_api_go.Snapshot.{Item, Category, Snapshot, range}

pub record LegacyItem : Type 0 where
  pub title : Text
  pub price : Text
  pub key : Text
  pub status : Text
  pub low_price : Text
  pub high_price : Text

pub record LegacyCategory : Type 0 where
  pub title : Text
  pub prices : List LegacyItem

pub data LegacyShape : Type 0 where
  legacy_flat legacy_grouped : LegacyShape

pub data LegacyBody : Type 0 where
  listed : List LegacyItem → LegacyBody
  grouped : List LegacyCategory → LegacyBody

unfoldable pub to_legacy_item : Item → LegacyItem
to_legacy_item i = record {
  title = i.title;
  price = i.price.text;
  key = i.key;
  status = i.change.status;
  low_price = i.low.text;
  high_price = i.high.text;
}

-- the loop over a category's items, and the one over the categories
unfoldable pub legacy_prices : List Item → List LegacyItem → List LegacyItem
unfolding to_legacy_item
legacy_prices [] prices = prices
legacy_prices (i ∷ is) prices = legacy_prices is (prices ++ to_legacy_item i ∷ [])

unfoldable pub legacy_categories : List Category → List LegacyCategory → List LegacyCategory
unfolding legacy_prices
legacy_categories [] out = out
legacy_categories (c ∷ cs) out =
    legacy_categories cs (out ++ record { title = c.title; prices = legacy_prices c.items [] } ∷ [])

unfoldable pub legacy_body : Snapshot → LegacyShape → LegacyBody
unfolding range to_legacy_item legacy_categories
legacy_body s legacy_flat = listed (range s (λ i out. (out ++ to_legacy_item i ∷ [], true)) [])
legacy_body s legacy_grouped = grouped (legacy_categories s.categories [])
