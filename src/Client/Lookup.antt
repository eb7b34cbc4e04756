-- ===== src/Client/Lookup.antt =====
-- `Item` of client.go against the plain list of the items that were fetched.
use tgju_api_go.Common.{
  false, List, [], ◌∷◌, ◌++◌, Option, none, some, Text, ◌≡◌, ◌≢◌, refl, sym, ap, ◌∙◌, head?,
  head?-append, head?-append_some, keep, keep-append, if◌then◌else◌, is_nil,
}
use tgju_api_go.Market.{Market}
use tgju_api_go.Errors.{Result, ok, err}
use tgju_api_go.Snapshot.{Item, Snapshot, items}
use tgju_api_go.Snapshot.Items.{has_key, lookup-eq-head?}
use tgju_api_go.Client.{
  Round, asked, fetch_all, snapshot_of, lookup_at, or_next, first_item, missing, found_or_missing,
  item_among, item,
}

abbrev pub items_at : Option Snapshot → List Item
items_at none = []
items_at (some s) = items s

-- the items of the markets' boards, market by market
unfoldable pub items_of : List (Market × Snapshot) → List Market → List Item
unfolding snapshot_of
items_of out [] = []
items_of out (m ∷ ms) = items_at (snapshot_of m out) ++ items_of out ms

-- the first item with the key of those that were fetched
abbrev pub searched : Text → List Market → Result (List (Market × Snapshot)) → Result Item
searched key ms (err e) = err e
searched key ms (ok out) = found_or_missing (head? (keep (has_key key) (items_of out ms)))

module _ (key : Text) where
  lookup_at_eq : (o : Option Snapshot) → lookup_at key o ≡ head? (keep (has_key key) (items_at o))
  lookup_at_eq none = refl
  lookup_at_eq (some s) = lookup-eq-head? s key

  or_next_eq :
      (xs ys : List Item) (o : Option Item)
      → head? (keep (has_key key) xs) ≡ o
      → or_next o (head? (keep (has_key key) ys)) ≡ head? (keep (has_key key) (xs ++ ys))
  or_next_eq xs ys none h =
      rw keep-append (sym (head?-append (keep (has_key key) xs) (keep (has_key key) ys) h))
  or_next_eq xs ys (some i) h =
      rw keep-append (sym (head?-append_some (keep (has_key key) xs) (keep (has_key key) ys) h))

  first_item_eq :
      (out : List (Market × Snapshot)) (ms : List Market)
      → first_item key out ms ≡ head? (keep (has_key key) (items_of out ms))
  unfolding first_item items_of
  first_item_eq out [] = refl
  first_item_eq out (m ∷ ms) =
      ap (or_next (lookup_at key (snapshot_of m out))) (first_item_eq out ms)
      ∙ or_next_eq (items_at (snapshot_of m out)) (items_of out ms)
          (lookup_at key (snapshot_of m out)) (sym (lookup_at_eq (snapshot_of m out)))

  item_among_eq :
      (ms : List Market) (r : Result (List (Market × Snapshot)))
      → item_among key ms r ≡ searched key ms r
  item_among_eq ms (err e) = refl
  item_among_eq ms (ok out) = ap found_or_missing (first_item_eq out ms)

keyed : (key : Text) → key ≢ [] → is_nil key ≡ false
keyed [] h = absurd (h refl)
keyed (c ∷ key) h = refl

item_eq :
    (r : Round) (key : Text) (ms : List Market)
    → item r key ms
      ≡ (if is_nil key then err missing else item_among key (asked ms) (fetch_all r (asked ms)))
unfolding item
item_eq r key ms = refl

-- For a key that is not empty, `Item` fails as FetchAll does, and otherwise gives the first item
-- with the key among the items of the boards that were asked for, market by market, and
-- ErrNotFound when there is none.
pub item_lem :
    (r : Round) (key : Text) (ms : List Market)
    → key ≢ []
    → item r key ms ≡ searched key (asked ms) (fetch_all r (asked ms))
item_lem r key ms h =
    item_eq r key ms ∙ (rw (keyed key h)) ∙ item_among_eq key (asked ms) (fetch_all r (asked ms))
