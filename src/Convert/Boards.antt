-- ===== src/Convert/Boards.antt =====
-- The items of a snapshot of convert.go against the rows that it is made from.
use mathlib.Core.List.{map-append}
use tgju_api_go.Common.{
  ℕ, true, List, [], ◌∷◌, ◌++◌, Text, ◌≡◌, ◌≢◌, ◌↔◌, refl, sym, ap, ◌∙◌, is_nil, map, All,
  if◌then◌else◌,
}
use tgju_api_go.Floats.{Floats}
use tgju_api_go.Scrape.{Row, Table}
use tgju_api_go.Market.{Market}
use tgju_api_go.Snapshot.{Item, Category, items, is_empty}
use tgju_api_go.Snapshot.Items.{flat, items-flat, is_empty-nil}
use tgju_api_go.Convert.{item_from, categories_from, snapshot_from}

-- the rows of the tables with the captions that they stand under, in page order
abbrev pub captioned : Text → List Row → List (Text × Row)
captioned title [] = []
captioned title (r ∷ rs) = (title, r) ∷ captioned title rs

abbrev pub rows_of : List Table → List (Text × Row)
rows_of [] = []
rows_of (t ∷ ts) = captioned t.title t.rows ++ rows_of ts

module _ (fl : Floats) (m : Market) (base : Text) where
  abbrev pub item_at : Text × Row → Item
  item_at p = item_from fl m p.0 base p.1

  map-captioned :
      (title : Text) (rs : List Row)
      → map item_at (captioned title rs) ≡ map (item_from fl m title base) rs
  map-captioned title [] = refl
  map-captioned title (r ∷ rs) =
      ap (λ is. item_from fl m title base r ∷ is) (map-captioned title rs)

  abbrev category_of : Text → List Row → Category
  category_of title rows = record { title = title; items = map (item_from fl m title base) rows }

  flat_table :
      (title : Text) (rows : List Row) (rest : List Category) (is : List Item)
      → flat rest ≡ is
      → flat (if is_nil rows then rest else category_of title rows ∷ rest)
        ≡ map item_at (captioned title rows) ++ is
  unfolding flat
  flat_table title [] rest is e = e
  flat_table title (r ∷ rs) rest is e =
      ap (λ t. map (item_from fl m title base) (r ∷ rs) ++ t) e
      ∙ ap (λ t. t ++ is) (sym (map-captioned title (r ∷ rs)))

  flat-categories_from :
      (ts : List Table) → flat (categories_from fl m base ts) ≡ map item_at (rows_of ts)
  unfolding categories_from flat
  flat-categories_from [] = refl
  flat-categories_from (t ∷ ts) =
      flat_table t.title t.rows (categories_from fl m base ts) (map item_at (rows_of ts))
        (flat-categories_from ts)
      ∙ sym (map-append item_at (captioned t.title t.rows) (rows_of ts))

  -- The items of a snapshot are those of the scraped rows, one for each, in page order.
  pub items-snapshot_from :
      (source : Text) (at : ℕ) (ts : List Table)
      → items (snapshot_from fl m base source at ts) ≡ map item_at (rows_of ts)
  items-snapshot_from source at ts =
      items-flat (snapshot_from fl m base source at ts)
      ∙ unfold snapshot_from in flat-categories_from ts

  filled :
      (title : Text) (rows : List Row) (rest : List Category)
      → All (λ (c : Category). c.items ≢ []) rest
      → All
          (λ (c : Category). c.items ≢ [])
          (if is_nil rows then rest else category_of title rows ∷ rest)
  filled title [] rest h = h
  filled title (r ∷ rs) rest h = ((λ e. cc), h)

  -- A table without rows gives no category, so no category of a snapshot is empty.
  pub categories_from-filled :
      (ts : List Table) → All (λ (c : Category). c.items ≢ []) (categories_from fl m base ts)
  unfolding categories_from
  categories_from-filled [] = tt
  categories_from-filled (t ∷ ts) =
      filled t.title t.rows (categories_from fl m base ts) (categories_from-filled ts)

  map-eq-nil : (ps : List (Text × Row)) → map item_at ps ≡ [] → ps ≡ []
  map-eq-nil [] h = refl
  map-eq-nil (p ∷ ps) h = cc

  -- A snapshot is empty exactly when no table has a row.
  pub is_empty-snapshot_from :
      (source : Text) (at : ℕ) (ts : List Table)
      → (is_empty (snapshot_from fl m base source at ts) ≡ true) ↔ (rows_of ts ≡ [])
  is_empty-snapshot_from source at ts =
      let (a, b) = is_empty-nil (snapshot_from fl m base source at ts) in
      let same = items-snapshot_from source at ts in
      (λ h. map-eq-nil (rows_of ts) (sym same ∙ a h), λ h. b (same ∙ ap (map item_at) h))
