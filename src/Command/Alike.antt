-- ===== src/Command/Alike.antt =====
-- The filters of cmd/tgju/commands.go and server/handlers.go answer alike.
use tgju_api_go.Common.{
  Bool, true, false, not, List, [], ◌∷◌, ◌++◌, Text, ◌&&◌, ◌≡◌, refl, sym, ap, ◌∙◌, if◌then◌else◌,
  is_nil, text_eq, append-nil,
}
use tgju_api_go.Snapshot.{Item, Category}
use tgju_api_go.Server.Filter.{has, keep_items, slice, slices, filter_by}
use tgju_api_go.Command.{wants, keep_wanted, add_category, add_categories, filter}

module _ (title : Text) (keys : List Text) where
  wants_eq : (k : Text) → wants keys k ≡ has keys k
  unfolding wants has
  wants_eq k = refl

  keep_wanted_eq : (kept is : List Item) → keep_wanted keys kept is ≡ keep_items keys kept is
  unfolding keep_wanted keep_items
  keep_wanted_eq kept [] = refl
  keep_wanted_eq kept (i ∷ is) =
      rw (wants_eq i.key) (rw (keep_wanted_eq (kept ++ i ∷ []) is, keep_wanted_eq kept is) refl)

  add_category_by :
      (a b : Bool) (kept : List Item) (out : List Category) (c : Category)
      → (if a
          then out
          else if b
          then out ++ c ∷ []
          else if is_nil kept
          then out
          else out ++ record { title = c.title; items = kept } ∷ [])
        ≡ out
          ++ (if a
              then []
              else if b
              then c ∷ []
              else if is_nil kept
              then []
              else record { title = c.title; items = kept } ∷ [])
  add_category_by true b kept out c = sym (append-nil out)
  add_category_by false true kept out c = refl
  add_category_by false false [] out c = sym (append-nil out)
  add_category_by false false (i ∷ kept) out c = refl

  add_category_eq :
      (out : List Category) (c : Category)
      → add_category title keys out c ≡ out ++ slice title keys c
  unfolding add_category slice
  add_category_eq out c = rw (keep_wanted_eq [] c.items) (
      add_category_by (not (is_nil title) && not (text_eq c.title title)) (is_nil keys)
        (keep_items keys [] c.items) out c)

  add_categories_eq :
      (out cs : List Category) → add_categories title keys out cs ≡ slices title keys out cs
  unfolding add_categories slices
  add_categories_eq out [] = refl
  add_categories_eq out (c ∷ cs) =
      ap (λ o. add_categories title keys o cs) (add_category_eq out c)
      ∙ add_categories_eq (out ++ slice title keys c) cs

  -- For the same title and the same keys, the command's filter and the service's answer alike.
  pub filter-eq-filter_by : (cs : List Category) → filter cs title keys ≡ filter_by title keys cs
  unfolding filter filter_by
  filter-eq-filter_by cs = rw (add_categories_eq [] cs) refl
