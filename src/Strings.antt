-- ===== src/Strings.antt =====
-- The functions of Go's packages strings and unicode that the program calls, on texts as lists of
-- code points. Splitting and trimming by ASCII bytes is the same on code points.
pub mod Words
pub mod Cut
pub mod Blank
use tgju_api_go.Common.{
  ℕ, Bool, true, false, List, [], ◌∷◌, ◌++◌, Option, none, some, Text, leb, ◌==◌, within, ◌&&◌,
  ◌||◌, if◌then◌else◌, is_nil, text_eq, any, ◌+◌, zero, suc, ltb, ◌/◌, ◌%◌,
}

-- unicode.IsSpace
unfoldable pub is_space : ℕ → Bool
is_space c =
    within 9 13 c
    || c == 0x20
    || c == 0x85
    || c == 0xA0
    || c == 0x1680
    || within 0x2000 0x200A c
    || c == 0x2028
    || c == 0x2029
    || c == 0x202F
    || c == 0x205F
    || c == 0x3000

-- a finished word, unless it is empty
abbrev flush : Text → List Text → List Text
flush [] ws = ws
flush (c ∷ w) ws = (c ∷ w) ∷ ws

fields_from : Text → Text → List Text
fields_from cur [] = flush cur []
fields_from cur (c ∷ s) = elim (is_space c) [
  | true ↦ flush cur (fields_from [] s)
  | false ↦ fields_from (cur ++ c ∷ []) s
]

-- strings.Fields, and strings.FieldsFunc with unicode.IsSpace
unfoldable pub fields : Text → List Text
unfolding fields_from is_space
fields s = fields_from [] s

-- strings.Join
unfoldable pub join : Text → List Text → Text
join sep [] = []
join sep (w ∷ []) = w
join sep (w ∷ v ∷ ws) = w ++ (sep ++ join sep (v ∷ ws))

unfoldable pub trim_left : Text → Text
unfolding is_space
trim_left [] = []
trim_left (c ∷ s) = if is_space c then trim_left s else c ∷ s

unfoldable pub trim_right : Text → Text
unfolding is_space
trim_right [] = []
trim_right (c ∷ s) = let rest = trim_right s in if is_space c && is_nil rest then [] else c ∷ rest

-- strings.TrimSpace
unfoldable pub trim_space : Text → Text
unfolding trim_left trim_right
trim_space s = trim_right (trim_left s)

-- strings.TrimSuffix with a suffix of one rune
unfoldable pub trim_suffix : ℕ → Text → Text
trim_suffix x [] = []
trim_suffix x (c ∷ s) = if c == x && is_nil s then [] else c ∷ trim_suffix x s

-- strings.HasPrefix
unfoldable pub has_prefix : Text → Text → Bool
has_prefix s [] = true
has_prefix [] (p ∷ ps) = false
has_prefix (c ∷ s) (p ∷ ps) = c == p && has_prefix s ps

-- strings.Contains
unfoldable pub contains : Text → Text → Bool
unfolding has_prefix
contains [] sub = is_nil sub
contains (c ∷ s) sub = has_prefix (c ∷ s) sub || contains s sub

-- What stands before and behind the first rune that passes a test: strings.Cut, and slicing at
-- strings.IndexByte or strings.IndexAny.
unfoldable pub cut_at : (ℕ → Bool) → Text → Option (Text × Text)
cut_at p [] = none
cut_at p (c ∷ s) =
    let later = cut_at p s in
    if p c then some ([], s) else elim later [ none ↦ none | some (a, b) ↦ some (c ∷ a, b) ]

-- What stands behind the last rune that is `x`, or the whole text: slicing at
-- strings.LastIndexByte.
unfoldable pub after_last : ℕ → Text → Text
after_last x [] = []
after_last x (c ∷ s) =
    let rest = after_last x s in if any (λ r. r == x) s then rest else if c == x then s else c ∷ s

-- strings.Split and strings.SplitSeq with a separator of one rune
split_from : ℕ → Text → Text → List Text
split_from sep cur [] = cur ∷ []
split_from sep cur (c ∷ s) = elim (c == sep) [
  | true ↦ cur ∷ split_from sep [] s
  | false ↦ split_from sep (cur ++ c ∷ []) s
]

unfoldable pub split : ℕ → Text → List Text
unfolding split_from
split sep s = split_from sep [] s

-- unicode.ToLower on the runes that lower to an ASCII letter; U+0130 and U+212A do too. The other
-- runes are left alone, which decides no comparison with an ASCII or an uncased name.
abbrev pub lower_rune : ℕ → ℕ
lower_rune r =
    if within b'A' b'Z' r
    then r + 32
    else if r == 0x130
    then b'i'
    else if r == 0x212A
    then b'k'
    else r

-- strings.ToLower
unfoldable pub to_lower : Text → Text
to_lower [] = []
to_lower (r ∷ s) = lower_rune r ∷ to_lower s

-- membership in a list of texts
abbrev pub one_of : List Text → Text → Bool
one_of [] s = false
one_of (n ∷ ns) s = text_eq s n || one_of ns s

-- fmt's %d and strconv.Itoa, of a number that is not negative
decimal_from : ℕ → ℕ → Text → Text
decimal_from zero n t = t
decimal_from (suc f) n t =
    let more = decimal_from f (n / 10) ((b'0' + n % 10) ∷ t) in
    if ltb n 10 then (b'0' + n) ∷ t else more

unfoldable pub decimal : ℕ → Text
unfolding decimal_from
decimal n = decimal_from (suc n) n []
