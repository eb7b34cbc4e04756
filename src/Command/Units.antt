-- ===== src/Command/Units.antt =====
-- The formats, the units and the numbers of cmd/tgju/output.go.
pub mod Group
use tgju_api_go.Common.{
  ℕ, zero, suc, ◌+◌, ◌-◌, ◌/◌, ◌%◌, max, List, [], ◌∷◌, ◌++◌, Option, none, some, Text, codes, ◌==◌,
  ◌&&◌, ltb, if◌then◌else◌, is_nil, length, text_eq, map, rune_len, byte_len, ◌>>=◌,
}
use tgju_api_go.Strings.{decimal, to_lower, trim_space, has_prefix, cut_at}
use tgju_api_go.Floats.{Float64, Floats}
use tgju_api_go.Errors.{usage, Err, leaf, wrap, cons, nil, Result, ok, err}
use tgju_api_go.Snapshot.{
  Status, status_low, status_high, Amount, amount_is_zero, toman, Item, Category, Snapshot, len,
  items,
}

pub data Format : Type 0 where
  format_table format_json format_csv : Format

pub data PriceUnit : Type 0 where
  unit_rial unit_toman unit_raw : PriceUnit

-- usageErrorf
abbrev pub usage_error : Err
usage_error = wrap (cons (leaf usage) nil)

unfoldable pub format_named : Text → Result Format
unfolding text_eq
format_named f =
    if text_eq f (codes "table")
    then ok format_table
    else if text_eq f (codes "json")
    then ok format_json
    else if text_eq f (codes "csv")
    then ok format_csv
    else err usage_error

unfoldable pub parse_format : Text → Result Format
unfolding to_lower trim_space format_named
parse_format s = format_named (to_lower (trim_space s))

unfoldable pub unit_named : Text → Result PriceUnit
unfolding text_eq
unit_named u =
    if text_eq u (codes "rial")
    then ok unit_rial
    else if text_eq u (codes "toman")
    then ok unit_toman
    else if text_eq u (codes "raw")
    then ok unit_raw
    else err usage_error

unfoldable pub parse_unit : Text → Result PriceUnit
unfolding to_lower trim_space unit_named
parse_unit s = unit_named (to_lower (trim_space s))

-- one round of the loop over the digits; `total` is `len(whole)` and `i` the byte position
abbrev pub add_digit : ℕ → ℕ → Text → ℕ → Text
add_digit total i b d = (if ltb 0 i && (total - i) % 3 == 0 then b ++ b',' ∷ [] else b) ++ d ∷ []

unfoldable pub group_from : ℕ → ℕ → Text → Text → Text
group_from total i b [] = b
group_from total i b (d ∷ s) = group_from total (i + rune_len d) (add_digit total i b d) s

abbrev pub group_whole : Text → Text
group_whole w = group_from (byte_len w) 0 [] w

-- `whole` is split into its sign and its digits
abbrev pub group_signed : Text → Text
group_signed [] = group_whole []
group_signed (c ∷ w) = if c == b'-' then b'-' ∷ group_whole w else group_whole (c ∷ w)

abbrev pub group_cut : Text → Option (Text × Text) → Text
group_cut s none = group_signed s
group_cut s (some (whole, frac)) = group_signed whole ++ b'.' ∷ frac

unfoldable pub group_text : Text → Text
unfolding cut_at group_from
group_text s = group_cut s (cut_at (λ c. c == b'.') s)

unfoldable pub arrow : Status → Text
unfolding text_eq
arrow s =
    if text_eq s status_high
    then 0x25B2 ∷ []
    else if text_eq s status_low
    then 0x25BC ∷ []
    else b' ' ∷ []

module _ (fl : Floats) where
  unfoldable pub group : Float64 → Text
  unfolding group_text
  group v = group_text (fl.format v)

  unfoldable pub render : PriceUnit → Amount → Text
  unfolding amount_is_zero group toman
  render u a = if amount_is_zero a then 0x2014 ∷ [] else elim u [
    | unit_raw ↦ a.text
    | unit_toman ↦ group (toman fl a)
    | unit_rial ↦ group a.value
  ]
