-- ===== src/Convert/Amounts.antt =====
-- Amounts and links of convert.go.
use tgju_api_go.Common.{
  ℕ, true, [], ◌∷◌, ◌++◌, Option, none, some, Text, codes, ◌≡◌, ◌↔◌, ◌⊎◌, inl, inr, refl, sym,
  subst, ap, ◌∙◌, arith,
}
use tgju_api_go.Strings.{trim_space, has_prefix}
use tgju_api_go.Floats.{Float64, Floats}
use tgju_api_go.Numfmt.{value}
use tgju_api_go.Snapshot.{amount_is_zero}
use tgju_api_go.Convert.{amount_with, amount_of, resolve_url, absolute_url}

module _ (fl : Floats) where
  value-nil : value fl [] ≡ none
  unfolding value
  value-nil = refl

  amount_of_eq : (t : Text) → amount_of fl t ≡ amount_with (trim_space t) (value fl (trim_space t))
  unfolding amount_of
  amount_of_eq t = refl

  amount_with-zero :
      (t : Text) (o : Option Float64)
      → value fl t ≡ o
      → (amount_is_zero (amount_with t o) ≡ true) ↔ (o ≡ none)
  unfolding amount_is_zero
  amount_with-zero t none e = (λ h. refl, λ h. refl)
  amount_with-zero [] (some v) e = (λ h. cc (value-nil), λ h. cc)
  amount_with-zero (c ∷ t) (some v) e = (λ h. cc, λ h. cc)

  -- An amount is zero exactly when its cell has no number, and otherwise it keeps the trimmed cell.
  pub amount_of_lem :
      (t : Text)
      → ((amount_is_zero (amount_of fl t) ≡ true) ↔ (value fl (trim_space t) ≡ none))
        × ((v : Float64)
            → value fl (trim_space t) ≡ some v
            → amount_of fl t ≡ record { text = trim_space t; value = v })
  amount_of_lem t = (
    subst (λ a. (amount_is_zero a ≡ true) ↔ (value fl (trim_space t) ≡ none)) (sym (amount_of_eq t))
        (amount_with-zero (trim_space t) (value fl (trim_space t)) refl),
    λ v e. amount_of_eq t ∙ ap (amount_with (trim_space t)) e,
  )

-- an http or https address
abbrev pub IsAbsolute : Text → Type 0
IsAbsolute s = (has_prefix s (codes "http://") ≡ true) ⊎ (has_prefix s (codes "https://") ≡ true)

has_prefix-nil : (s : Text) → has_prefix s [] ≡ true
unfolding has_prefix
has_prefix-nil [] = refl
has_prefix-nil (c ∷ s) = refl

has_prefix-append : (s t p : Text) → has_prefix s p ≡ true → has_prefix (s ++ t) p ≡ true
unfolding has_prefix
has_prefix-append s t [] h = has_prefix-nil (s ++ t)
has_prefix-append [] t (x ∷ p) h = cc
has_prefix-append (c ∷ s) t (x ∷ p) h = ground (arith, has_prefix-append s t p)

has_prefix-cons : (c : ℕ) (s p : Text) → has_prefix s p ≡ true → has_prefix (c ∷ s) (c ∷ p) ≡ true
unfolding has_prefix
has_prefix-cons c s p h = ground arith

has_prefix_under : (q s p : Text) → has_prefix s p ≡ true → has_prefix (q ++ s) (q ++ p) ≡ true
has_prefix_under [] s p h = h
has_prefix_under (c ∷ q) s p h = has_prefix-cons c (q ++ s) (q ++ p) (has_prefix_under q s p h)

IsAbsolute-append : (s t : Text) → IsAbsolute s → IsAbsolute (s ++ t)
IsAbsolute-append s t (inl h) = inl (has_prefix-append s t (codes "http://") h)
IsAbsolute-append s t (inr h) = inr (has_prefix-append s t (codes "https://") h)

resolve_url_lem :
    (base href : Text)
    → IsAbsolute base
    → (href ≡ []) × (resolve_url base href ≡ []) ⊎ IsAbsolute (resolve_url base href)
unfolding resolve_url
resolve_url_lem base href h = ground (
  arith,
  has_prefix_under (codes "https:") href (codes "//"),
  IsAbsolute-append base href h,
  IsAbsolute-append base (codes "/" ++ href) h,
)

absolute_url_eq : (base href : Text) → absolute_url base href ≡ resolve_url base (trim_space href)
unfolding absolute_url
absolute_url_eq base href = refl

-- A blank link stays empty; every other becomes an http or https address, if the base is one.
pub absolute_url_lem :
    (base href : Text)
    → IsAbsolute base
    → (trim_space href ≡ []) × (absolute_url base href ≡ []) ⊎ IsAbsolute (absolute_url base href)
absolute_url_lem base href h =
    ground (arith, absolute_url_eq base href, resolve_url_lem base (trim_space href) h)
