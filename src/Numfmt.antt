-- ===== src/Numfmt.antt =====
-- internal/numfmt/numfmt.go: the numbers and texts that tgju renders, normalised.
pub mod Digits
pub mod Literal
pub mod Value
pub mod Change
use tgju_api_go.Common.{
  ℕ, Bool, true, false, List, [], ◌∷◌, ◌++◌, Option, none, some, Text, ◌+◌, ◌-◌, leb, ◌==◌, within,
  ◌&&◌, ◌||◌, not, if◌then◌else◌, is_nil, ◌>>=◌,
}
use tgju_api_go.Strings.{fields, join, trim_space, trim_suffix, cut_at}
use tgju_api_go.Floats.{Float64, Floats}

-- strings.ContainsRune(zeroWidth, r)
abbrev zero_width : ℕ → Bool
zero_width r =
    r == 0x200B || r == 0x200C || r == 0x200D || r == 0x200E || r == 0x200F || r == 0xFEFF

-- the switch of `Digits`; `none` is a dropped rune
unfoldable pub rune : ℕ → Option ℕ
rune r =
    if within 0x6F0 0x6F9 r
    then some (b'0' + (r - 0x6F0))
    else if within 0x660 0x669 r
    then some (b'0' + (r - 0x660))
    else if r == 0x66B
    then some b'.'
    else if zero_width r
    then none
    else some r

abbrev pub emit : Option ℕ → Text → Text
emit none s = s
emit (some d) s = d ∷ s

unfoldable pub digits : Text → Text
unfolding rune
digits [] = []
digits (r ∷ s) = emit (rune r) (digits s)

abbrev pub space : Text
space = b' ' ∷ []

unfoldable pub clean : Text → Text
unfolding digits fields join
clean s = join space (fields (digits s))

-- the variables of the loop of `Value`
pub record Scan : Type 0 where
  pub digits : Bool
  pub dot : Bool
  pub out : Text

abbrev pub is_digit : ℕ → Bool
is_digit r = within b'0' b'9' r

abbrev pub is_sign : ℕ → Bool
is_sign r = r == b'-' || r == b'+'

-- one round of the loop; `first` is `i == 0`
unfoldable pub scan_rune : Bool → ℕ → Scan → Scan
scan_rune first r st =
    if is_digit r
    then record st { digits = true; out = st.out ++ r ∷ [] }
    else if r == b'.' && not st.dot
    then record st { dot = true; out = st.out ++ r ∷ [] }
    else if is_sign r && first
    then record st { out = st.out ++ r ∷ [] }
    else st

unfoldable pub scan : Bool → Text → Scan → Scan
unfolding scan_rune
scan first [] st = st
scan first (r ∷ s) st = scan false s (scan_rune first r st)

abbrev pub start : Scan
start = record { digits = false; dot = false; out = [] }

-- the text that `Value` hands to ParseFloat, if it gets so far
unfoldable pub literal : Text → Option Text
unfolding digits scan trim_suffix
literal s =
    let st = scan true (digits s) start in
    if not st.digits then none else some (trim_suffix b'.' st.out)

module _ (fl : Floats) where
  unfoldable pub value : Text → Option Float64
  unfolding literal
  value s = do t ← literal s; fl.parse t

  abbrev pub value_or_zero : Option Float64 → Float64
  value_or_zero none = 0
  value_or_zero (some v) = v

  -- `Change` on the cleaned cell
  unfoldable pub split_change : Text → Float64 × Text
  unfolding value cut_at trim_space
  split_change s = elim (cut_at (λ c. c == b'(') s) [
    | none ↦ (0, s)
    | some (before, inside) ↦ elim (cut_at (λ c. c == b')') inside) [
      | none ↦ (0, s)
      | some (percent, after) ↦ (value_or_zero (value percent), trim_space after)
    ]
  ]

  unfoldable pub change : Text → Float64 × Text
  unfolding clean split_change
  change s = let s' = clean s in if is_nil s' then (0, []) else split_change s'
