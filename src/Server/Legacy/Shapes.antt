-- ===== src/Server/Legacy/Shapes.antt =====
-- The two layouts of server/legacy.go hold the same items.
use mathlib.Core.List.{map-append}
use tgju_api_go.Common.{
  Bool, List, [], ◌∷◌, ◌++◌, map, ◌≡◌, refl, sym, ap, ◌∙◌, append-nil, append_assoc,
}
use tgju_api_go.Snapshot.{Item, Category, Snapshot, range, items}
use tgju_api_go.Snapshot.Items.{yield_all_push, flat, items-flat}
use tgju_api_go.Server.Legacy.{
  LegacyItem, LegacyCategory, LegacyShape, legacy_flat, legacy_grouped, LegacyBody, listed, grouped,
  to_legacy_item, legacy_prices, legacy_categories, legacy_body,
}

-- the items of an answer
abbrev pub prices_of : List LegacyCategory → List LegacyItem
prices_of [] = []
prices_of (c ∷ cs) = c.prices ++ prices_of cs

abbrev pub listed_in : LegacyBody → List LegacyItem
listed_in (listed is) = is
listed_in (grouped cs) = prices_of cs

legacy_prices_eq :
    (is : List Item) (out : List LegacyItem) → legacy_prices is out ≡ out ++ map to_legacy_item is
unfolding legacy_prices
legacy_prices_eq [] out = rw append-nil
legacy_prices_eq (i ∷ is) out =
    legacy_prices_eq is (out ++ to_legacy_item i ∷ [])
    ∙ append_assoc out (to_legacy_item i ∷ []) (map to_legacy_item is)

abbrev regrouped : Category → LegacyCategory
regrouped c = record { title = c.title; prices = map to_legacy_item c.items }

legacy_categories_eq :
    (cs : List Category) (out : List LegacyCategory)
    → legacy_categories cs out ≡ out ++ map regrouped cs
unfolding legacy_categories
legacy_categories_eq [] out = rw append-nil
legacy_categories_eq (c ∷ cs) out =
    ap (λ ps. legacy_categories cs (out ++ record { title = c.title; prices = ps } ∷ []))
      (legacy_prices_eq c.items [])
    ∙ legacy_categories_eq cs (out ++ regrouped c ∷ [])
    ∙ append_assoc out (regrouped c ∷ []) (map regrouped cs)

prices_of-regrouped :
    (cs : List Category) → prices_of (map regrouped cs) ≡ map to_legacy_item (flat cs)
unfolding flat
prices_of-regrouped [] = refl
prices_of-regrouped (c ∷ cs) =
    ap (λ t. map to_legacy_item c.items ++ t) (prices_of-regrouped cs)
    ∙ sym (map-append to_legacy_item c.items (flat cs))

flat_eq :
    (s : Snapshot) → legacy_body s legacy_flat ≡ listed (map to_legacy_item (flat s.categories))
unfolding legacy_body range
flat_eq s =
    ap (λ (r : List LegacyItem × Bool). listed r.0) (yield_all_push to_legacy_item s.categories [])

grouped_eq : (s : Snapshot) → legacy_body s legacy_grouped ≡ grouped (map regrouped s.categories)
unfolding legacy_body
grouped_eq s = ap grouped (legacy_categories_eq s.categories [])

all_in :
    (s : Snapshot) (shape : LegacyShape)
    → listed_in (legacy_body s shape) ≡ map to_legacy_item (flat s.categories)
all_in s legacy_flat = ap listed_in (flat_eq s)
all_in s legacy_grouped = ap listed_in (grouped_eq s) ∙ prices_of-regrouped s.categories

-- Both layouts of the original API hold the snapshot's items, all of them and in page order.
pub listed_in-legacy_body :
    (s : Snapshot) (shape : LegacyShape)
    → listed_in (legacy_body s shape) ≡ map to_legacy_item (items s)
listed_in-legacy_body s shape = all_in s shape ∙ ap (map to_legacy_item) (sym (items-flat s))
