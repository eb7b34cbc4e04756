-- ===== src/Server/Filter.antt =====
-- The query parameters of server/handlers.go, `filterCategories` and `splitKeys`. A set of keys is
-- a list, and a nil map is the empty one.
pub mod Kept
use tgju_api_go.Common.{
  Bool, true, false, List, [], ◌∷◌, ◌++◌, Text, codes, ◌&&◌, ◌||◌, not, any, keep, if◌then◌else◌,
  is_nil, text_eq,
}
use tgju_api_go.Strings.{trim_space, split}
use tgju_api_go.Snapshot.{Item, Category}

-- the values of ?category= and ?keys=
pub record Query : Type 0 where
  pub category : Text
  pub keys : Text

-- the loop over the parts
unfoldable pub add_keys : List Text → List Text → List Text
unfolding trim_space
add_keys out [] = out
add_keys out (part ∷ parts) =
    if is_nil (trim_space part)
    then add_keys out parts
    else add_keys (out ++ trim_space part ∷ []) parts

unfoldable pub split_keys : Text → List Text
unfolding add_keys trim_space split
split_keys raw = if is_nil (trim_space raw) then [] else add_keys [] (split 0x2C raw)

-- `keys[k]`
unfoldable pub has : List Text → Text → Bool
unfolding text_eq
has keys k = any (λ t. text_eq t k) keys

-- the items of a category that the keys name
unfoldable pub keep_items : List Text → List Item → List Item → List Item
unfolding has
keep_items keys kept [] = kept
keep_items keys kept (i ∷ is) =
    if has keys i.key then keep_items keys (kept ++ i ∷ []) is else keep_items keys kept is

-- what one category adds to the answer
unfoldable pub slice : Text → List Text → Category → List Category
unfolding keep_items text_eq
slice title keys c =
    if not (is_nil title) && not (text_eq c.title title)
    then []
    else if is_nil keys
    then c ∷ []
    else if is_nil (keep_items keys [] c.items)
    then []
    else record { title = c.title; items = keep_items keys [] c.items } ∷ []

-- the loop over the categories
unfoldable pub slices : Text → List Text → List Category → List Category → List Category
unfolding slice
slices title keys out [] = out
slices title keys out (c ∷ cs) = slices title keys (out ++ slice title keys c) cs

unfoldable pub filter_by : Text → List Text → List Category → List Category
unfolding slices
filter_by title keys cs = if is_nil title && is_nil keys then cs else slices title keys [] cs

unfoldable pub filter_categories : List Category → Query → List Category
unfolding filter_by trim_space split_keys
filter_categories cs q = filter_by (trim_space q.category) (split_keys q.keys) cs
