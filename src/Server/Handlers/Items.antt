-- ===== src/Server/Handlers/Items.antt =====
-- The endpoints of server/handlers.go for one market's items.
use tgju_api_go.Common.{
  Bool-cases, text_eq, text_eq_iff, subst, List, [], ◌∷◌, Option, none, some, Text, ◌≡◌, inl, inr,
  refl, sym, ap, ◌∙◌, head?, keep,
}
use tgju_api_go.Strings.{trim_space}
use tgju_api_go.Errors.{Result, ok, err, as_api}
use tgju_api_go.Snapshot.{Item, Category, Snapshot, lookup, items}
use tgju_api_go.Snapshot.Items.{has_key, lookup-eq-head?}
use tgju_api_go.Server.Render.{write_error, classify, status_for_code, code_not_found}
use tgju_api_go.Server.Filter.{Query, filter_categories, filter_by, split_keys}
use tgju_api_go.Server.Handlers.{
  Service, Answer, Body, failure, item_list, one_item, failed, snapshot, filtered, market_items_by,
  market_item_by, item_or_missing, not_published, handle_market_items, handle_market_item,
}

-- the query without parameters
abbrev pub no_query : Query
no_query = record { category = []; keys = [] }

-- the items that an answer lists
abbrev pub listed : Answer → List Item
listed a = listed_in a.body
  where
    listed_in : Body → List Item
    listed_in (item_list m at n is) = is
    listed_in _ = []

-- the code of a failure in a body
abbrev pub code_in : Body → Text
code_in (failure f) = f.code
code_in _ = []

-- What the endpoint of one instrument answers, by the item that it should have found.
abbrev pub Answers : Text → Option Item → Answer → Type 0
Answers key none a = (a.status ≡ 404) × (code_in a.body ≡ code_not_found)
Answers key (some i) a = (a.status ≡ 200) × (a.body ≡ one_item i) × (i.key ≡ key)

key_of_head :
    (key : Text) (is : List Item) {i : Item} → head? (keep (has_key key) is) ≡ some i → i.key ≡ key
key_of_head key [] h = cc
key_of_head key (j ∷ is) {i} h = elim (Bool-cases (text_eq j.key key)) [
  | inl e ↦
      let same : some j ≡ some i = sym (rw e refl) ∙ h in
      let k : j ≡ i = cc in sym (ap (λ (x : Item). x.key) k) ∙ (text_eq_iff j.key key).0 e
  | inr e ↦ key_of_head key is (rw e at h)
]

missing_404 : (id key m : Text) → Answers key none (failed id (not_published m key))
unfolding write_error classify as_api status_for_code
missing_404 id key m = (refl, refl)

filter-no_query : (cs : List Category) → filter_categories cs no_query ≡ cs
unfolding filter_categories filter_by split_keys trim_space
filter-no_query cs = refl

module _ (s : Service) (id key : Text) where
  -- what the two endpoints of a market answer together, by what its fetch gives
  abbrev pub Together : Result Snapshot → Answer → Answer → Type 0
  Together (err e) all one = (all ≡ failed id e) × (one ≡ failed id e)
  Together (ok snap) all one =
      (all.status ≡ 200) × Answers key (head? (keep (has_key key) (listed all))) one

  item_or_missing-Answers :
      (snap : Snapshot) (o : Option Item)
      → o ≡ head? (keep (has_key key) (items snap))
      → Answers key o (item_or_missing s id snap.market key o)
  item_or_missing-Answers snap none e = missing_404 id key snap.market
  item_or_missing-Answers snap (some i) e = (refl, refl, key_of_head key (items snap) (sym e))

  whole : (snap : Snapshot) → filtered s snap no_query ≡ snap
  whole snap = ap (λ cs. record snap { categories = cs }) (filter-no_query snap.categories)

  by-Together :
      (r : Result Snapshot)
      → Together r (market_items_by s id no_query r) (market_item_by s id key r)
  by-Together (err e) = (refl, refl)
  by-Together (ok snap) =
      let found = lookup-eq-head? snap key in
      (
        refl,
        subst
            (λ (w : Snapshot).
              Answers key (head? (keep (has_key key) (items w)))
                (item_or_missing s id snap.market key (lookup snap key)))
            (sym (whole snap))
            (subst (λ o. Answers key o (item_or_missing s id snap.market key (lookup snap key)))
              found (item_or_missing-Answers snap (lookup snap key) found)),
      )

  -- The endpoint of one instrument of a market answers with the first item with the key among
  -- those that the market's endpoint lists without parameters, or with 404 when there is none;
  -- where the market cannot be had both answer alike.
  pub handle_market_item-Together :
      (name : Text)
      → Together
          (snapshot s name)
          (handle_market_items s id name no_query)
          (handle_market_item s id name key)
  unfolding handle_market_items handle_market_item
  handle_market_item-Together name = by-Together (snapshot s name)
