-- ===== src/Snapshot.antt =====
-- snapshot.go: the values that the library returns. A status is its text, as in the source.
pub mod Items
use mathlib.Core.List.{flatten}
use tgju_api_go.Common.{
  ℕ, suc, ◌+◌, Bool, true, false, List, [], ◌∷◌, ◌++◌, Option, none, some, Text, codes, ◌==◌, ◌&&◌,
  ◌||◌, if◌then◌else◌, is_nil, length, text_eq,
}
use tgju_api_go.Floats.{Float64, Floats, is_zero}
use tgju_api_go.Market.{Market}

abbrev pub Status : Type 0
Status = Text

abbrev pub status_unknown : Status
status_unknown = []

abbrev pub status_low : Status
status_low = codes "low"

abbrev pub status_high : Status
status_high = codes "high"

-- Status.Valid
unfoldable pub is_direction : Status → Bool
unfolding text_eq
is_direction s = text_eq s status_low || text_eq s status_high

pub record Amount : Type 0 where
  pub text : Text
  pub value : Float64

abbrev pub no_amount : Amount
no_amount = record { text = []; value = 0 }

unfoldable pub amount_is_zero : Amount → Bool
amount_is_zero a = is_nil a.text && is_zero a.value

-- Amount.String
unfoldable pub amount_string : Floats → Amount → Text
amount_string fl a = if is_nil a.text then fl.format a.value else a.text

-- Amount.Toman
unfoldable pub toman : Floats → Amount → Float64
toman fl a = fl.tenth a.value

pub record Change : Type 0 where
  pub status : Status
  pub percent : Float64
  pub amount : Amount

pub data Sign : Type 0 where
  minus zero plus : Sign

-- Change.Signum
unfoldable pub signum : Change → Sign
unfolding text_eq
signum c =
    if text_eq c.status status_high
    then plus
    else if text_eq c.status status_low
    then minus
    else zero

pub record Item : Type 0 where
  pub key : Text
  pub title : Text
  pub market : Market
  pub category : Text
  pub price : Amount
  pub low : Amount
  pub high : Amount
  pub change : Change
  pub time : Text
  pub profile_url : Text

-- Item.Spread
unfoldable pub spread : Floats → Item → Float64
unfolding amount_is_zero
spread fl i =
    if amount_is_zero i.high || amount_is_zero i.low then 0 else fl.minus i.high.value i.low.value

pub record Category : Type 0 where
  pub title : Text
  pub items : List Item

-- `fetched_at` is in nanoseconds
pub record Snapshot : Type 0 where
  pub market : Market
  pub source : Text
  pub fetched_at : ℕ
  pub categories : List Category

unfoldable pub len_from : ℕ → List Category → ℕ
len_from n [] = n
len_from n (c ∷ cs) = len_from (n + length c.items) cs

-- Snapshot.Len
unfoldable pub len : Snapshot → ℕ
unfolding len_from
len s = len_from 0 s.categories

-- a loop body's state, and whether it asks for the next item
abbrev pub continue {ℓ} : {S : Type ℓ} → S × Bool → (S → S × Bool) → S × Bool
continue (s, true) k = k s
continue (s, false) k = (s, false)

unfoldable pub yield_items {ℓ} : {S : Type ℓ} → (Item → S → S × Bool) → List Item → S → S × Bool
yield_items body [] s = (s, true)
yield_items body (i ∷ is) s = continue (body i s) (λ s'. yield_items body is s')

unfoldable pub yield_all {ℓ} : {S : Type ℓ} → (Item → S → S × Bool) → List Category → S → S × Bool
unfolding yield_items
yield_all body [] s = (s, true)
yield_all body (c ∷ cs) s = continue (yield_items body c.items s) (λ s'. yield_all body cs s')

-- Snapshot.All: `for item := range s.All() { body }`, from the state `st`
unfoldable pub range {ℓ} : {S : Type ℓ} → Snapshot → (Item → S → S × Bool) → S → S
unfolding yield_all
range s body st = (yield_all body s.categories st).0

-- Snapshot.Items
unfoldable pub items : Snapshot → List Item
unfolding range
items s = range s (λ i out. (out ++ i ∷ [], true)) []

-- Snapshot.Keys
unfoldable pub keys : Snapshot → List Text
unfolding range
keys s = range s (λ i out. (out ++ i.key ∷ [], true)) []

-- the loop body of `Lookup`
abbrev pub lookup_body : Text → Item → Option Item → Option Item × Bool
lookup_body key i found = if text_eq i.key key then (some i, false) else (found, true)

-- Snapshot.Lookup
unfoldable pub lookup : Snapshot → Text → Option Item
unfolding range text_eq
lookup s key = range s (lookup_body key) none

unfoldable pub category_in : List Category → Text → Option Category
unfolding text_eq
category_in [] title = none
category_in (c ∷ cs) title = if text_eq c.title title then some c else category_in cs title

-- Snapshot.Category
unfoldable pub category : Snapshot → Text → Option Category
unfolding category_in
category s title = category_in s.categories title

-- Snapshot.IsEmpty
unfoldable pub is_empty : Snapshot → Bool
unfolding len
is_empty s = len s == 0
