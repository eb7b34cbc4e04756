-- ===== src/Market.antt =====
-- market.go: the boards of tgju.org. A market is its name; the registry is an association list.
pub mod Names
use tgju_api_go.Common.{
  Bool, true, false, List, [], ◌∷◌, ◌++◌, Option, none, some, Text, codes, ◌||◌, if◌then◌else◌,
  text_eq, map, ◌&&◌, ltb, ◌==◌,
}
use tgju_api_go.Strings.{to_lower, trim_space, one_of}

abbrev pub Market : Type 0
Market = Text

abbrev pub currency : Market
currency = codes "currency"

abbrev pub gold : Market
gold = codes "gold"

abbrev pub coin : Market
coin = codes "coin"

pub record Source : Type 0 where
  pub path : Text
  pub label : Text

-- the Persian names, rune by rune
abbrev pub currency_label : Text  -- 'currency'
currency_label = 0x627 ∷ 0x631 ∷ 0x632 ∷ []

abbrev pub gold_label : Text  -- 'gold and silver'
gold_label = 0x637 ∷ 0x644 ∷ 0x627 ∷ 0x20 ∷ 0x648 ∷ 0x20 ∷ 0x646 ∷ 0x642 ∷ 0x631 ∷ 0x647 ∷ []

abbrev pub gold_name : Text  -- 'gold'
gold_name = 0x637 ∷ 0x644 ∷ 0x627 ∷ []

abbrev pub coin_label : Text  -- 'coin'
coin_label = 0x633 ∷ 0x6A9 ∷ 0x647 ∷ []

abbrev pub sources : List (Market × Source)
sources =
    (currency, record { path = codes "/currency"; label = currency_label })
    ∷ (gold, record { path = codes "/gold-chart"; label = gold_label })
    ∷ (coin, record { path = codes "/coin"; label = coin_label })
    ∷ []

unfoldable pub lookup_source : Market → List (Market × Source) → Option Source
unfolding text_eq
lookup_source m [] = none
lookup_source m ((k, s) ∷ rest) = if text_eq k m then some s else lookup_source m rest

-- the order of Go strings, which that of code points agrees with
unfoldable pub text_lt : Text → Text → Bool
text_lt [] [] = false
text_lt [] (b ∷ t) = true
text_lt (a ∷ s) [] = false
text_lt (a ∷ s) (b ∷ t) = ltb a b || (a == b && text_lt s t)

unfoldable pub sorted_insert : Text → List Text → List Text
unfolding text_lt
sorted_insert s [] = s ∷ []
sorted_insert s (t ∷ ts) = if text_lt t s then t ∷ sorted_insert s ts else s ∷ t ∷ ts

-- slices.Sort
unfoldable pub sort : List Text → List Text
unfolding sorted_insert
sort [] = []
sort (s ∷ ss) = sorted_insert s (sort ss)

-- `Markets`, over the keys of the registry in the order in which the map gives them
unfoldable pub markets_of : List Market → List Market
unfolding sort
markets_of ms = sort ms

unfoldable pub markets : List Market
unfolding markets_of
markets = markets_of (map (λ p. p.0) sources)

abbrev pub is_some {ℓ} : {A : Type ℓ} → Option A → Bool
is_some none = false
is_some (some a) = true

unfoldable pub valid : Market → Bool
unfolding lookup_source
valid m = is_some (lookup_source m sources)

abbrev pub path_or_empty : Option Source → Text
path_or_empty none = []
path_or_empty (some s) = s.path

abbrev pub label_or_empty : Option Source → Text
label_or_empty none = []
label_or_empty (some s) = s.label

unfoldable pub path : Market → Text
unfolding lookup_source
path m = path_or_empty (lookup_source m sources)

unfoldable pub label : Market → Text
unfolding lookup_source
label m = label_or_empty (lookup_source m sources)

abbrev pub default_base_url : Text
default_base_url = codes "https://www.tgju.org"

unfoldable pub url : Market → Text
unfolding valid path
url m = if valid m then default_base_url ++ path m else []

abbrev pub currency_names : List Text
currency_names = codes "currency" ∷ codes "currencies" ∷ codes "fx" ∷ currency_label ∷ []

abbrev pub gold_names : List Text
gold_names = codes "gold" ∷ codes "gold-chart" ∷ codes "silver" ∷ gold_name ∷ []

abbrev pub coin_names : List Text
coin_names = codes "coin" ∷ codes "coins" ∷ coin_label ∷ []

-- the switch of `ParseMarket` on the lowered name; `none` is ErrUnknownMarket
unfoldable pub market_named : Text → Option Market
unfolding text_eq
market_named key =
    if one_of currency_names key
    then some currency
    else if one_of gold_names key
    then some gold
    else if one_of coin_names key
    then some coin
    else none

unfoldable pub parse_market : Text → Option Market
unfolding to_lower trim_space market_named
parse_market s = market_named (to_lower (trim_space s))
