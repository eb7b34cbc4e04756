-- ===== src/Market/Names.antt =====
-- The names that `ParseMarket` of market.go reads, and the list of the markets.
use tgju_api_go.Common.{
  ℕ, Bool, true, false, [], ◌∷◌, some, Text, ◌≡◌, ◌↔◌, ◌⊎◌, inl, inr, refl, sym, ap, ◌∙◌, arith,
  text_eq_iff, is_nil, if◌then◌else◌, ◌&&◌,
}
use tgju_api_go.Strings.{is_space, lower_rune, to_lower, trim_left, trim_right, trim_space}
use tgju_api_go.Market.{
  Market, currency, gold, coin, lookup_source, valid, market_named, parse_market,
}

abbrev pub IsMarket : Market → Type 0
IsMarket m = (m ≡ currency) ⊎ (m ≡ gold) ⊎ (m ≡ coin)

-- `Valid` holds of the three markets and of no other name.
pub valid_iff : (m : Market) → (valid m ≡ true) ↔ IsMarket m
unfolding valid lookup_source
valid_iff m = ground (arith, text_eq_iff currency m, text_eq_iff gold m, text_eq_iff coin m)

market_named-IsMarket : (key : Text) {m : Market} → market_named key ≡ some m → IsMarket m
unfolding market_named
market_named-IsMarket key h = ground arith

pub parse_market-IsMarket : (s : Text) {m : Market} → parse_market s ≡ some m → IsMarket m
unfolding parse_market
parse_market-IsMarket s h = market_named-IsMarket (to_lower (trim_space s)) h

lower_lower : (r : ℕ) → lower_rune (lower_rune r) ≡ lower_rune r
lower_lower r = ground arith

is_space_lower : (r : ℕ) → is_space (lower_rune r) ≡ is_space r
unfolding is_space
is_space_lower r = ground arith

trim_left-to_lower : (s : Text) → trim_left (to_lower s) ≡ to_lower (trim_left s)
unfolding trim_left to_lower
trim_left-to_lower [] = refl
trim_left-to_lower (r ∷ s) = ground (arith, is_space_lower r, trim_left-to_lower s)

is_nil-to_lower : (s : Text) → is_nil (to_lower s) ≡ is_nil s
unfolding to_lower
is_nil-to_lower [] = refl
is_nil-to_lower (r ∷ s) = refl

push_if :
    (b : Bool) (r : ℕ) (s : Text)
    → (if b then [] else lower_rune r ∷ to_lower s) ≡ to_lower (if b then [] else r ∷ s)
unfolding to_lower
push_if true r s = refl
push_if false r s = refl

trim_right-to_lower : (s : Text) → trim_right (to_lower s) ≡ to_lower (trim_right s)
unfolding trim_right to_lower
trim_right-to_lower [] = refl
trim_right-to_lower (r ∷ s) = rw (trim_right-to_lower s) (
    rw is_space_lower
      (rw is_nil-to_lower (push_if (is_space r && is_nil (trim_right s)) r (trim_right s))))

to_lower-to_lower : (s : Text) → to_lower (to_lower s) ≡ to_lower s
unfolding to_lower
to_lower-to_lower [] = refl
to_lower-to_lower (r ∷ s) = rw (lower_lower r, to_lower-to_lower s)

trim_space-to_lower : (s : Text) → trim_space (to_lower s) ≡ to_lower (trim_space s)
unfolding trim_space
trim_space-to_lower s = ap trim_right (trim_left-to_lower s) ∙ trim_right-to_lower (trim_left s)

parse_market_eq : (s : Text) → parse_market s ≡ market_named (to_lower (trim_space s))
unfolding parse_market
parse_market_eq s = refl

-- `ParseMarket` reads a name alike in any case.
pub parse_market-to_lower : (s : Text) → parse_market (to_lower s) ≡ parse_market s
parse_market-to_lower s =
    parse_market_eq (to_lower s)
    ∙ ap (λ t. market_named (to_lower t)) (trim_space-to_lower s)
    ∙ ap market_named (to_lower-to_lower (trim_space s))
    ∙ sym (parse_market_eq s)

-- A market's own name is read as that market.
pub parse_market_self : (m : Market) → IsMarket m → parse_market m ≡ some m
unfolding parse_market
parse_market_self m (inl e) = rw e
parse_market_self m (inr (inl e)) = rw e
parse_market_self m (inr (inr e)) = rw e
