-- ===== src/Numfmt/Literal.antt =====
-- The decimal literal that `Value` of internal/numfmt/numfmt.go hands to ParseFloat.
use tgju_api_go.Common.{
  ℕ, Bool, true, false, [], ◌∷◌, ◌++◌, none, some, Text, ◌≡◌, ◌↔◌, ◌⊎◌, inl, inr, refl, sym, ◌∙◌,
  arith, All, ◌==◌, ◌&&◌, ◌||◌, not, if◌then◌else◌, any, append_assoc, append-nil,
}
use tgju_api_go.Strings.{trim_suffix}
use tgju_api_go.Numfmt.{digits, Scan, is_digit, is_sign, scan_rune, scan, start, literal}

abbrev pub IsDigit : ℕ → Type 0
IsDigit c = is_digit c ≡ true

-- digits with at most one point
abbrev pub Mantissa : Text → Type 0
Mantissa [] = Unit
Mantissa (c ∷ s) = (IsDigit c × Mantissa s) ⊎ ((c ≡ b'.') × All IsDigit s)

-- a mantissa with an optional sign
abbrev pub Signed : Text → Type 0
Signed [] = Unit
Signed (c ∷ s) = ((is_sign c ≡ true) × Mantissa s) ⊎ Mantissa (c ∷ s)

-- a decimal literal: an optional sign and a mantissa with at least one digit
abbrev pub IsDecimal : Text → Type 0
IsDecimal t = Signed t × (any is_digit t ≡ true)

-- what the loop appends to `out` behind the first rune
rest_of : Bool → Text → Text
rest_of dot [] = []
rest_of dot (r ∷ s) =
    let more = rest_of dot s in
    if is_digit r then r ∷ more else if r == b'.' && not dot then r ∷ rest_of true s else more

scan-out : (s : Text) (st : Scan) → (scan false s st).out ≡ st.out ++ rest_of st.dot s
unfolding scan rest_of
scan-out [] st = sym (append-nil st.out)
scan-out (r ∷ s) st =
    scan-out s (scan_rune false r st)
    ∙ ground (
      arith,
      append_assoc st.out (r ∷ []) (rest_of st.dot s),
      append_assoc st.out (r ∷ []) (rest_of true s),
    )

scan-digits :
    (s : Text) (first : Bool) (st : Scan) → (scan first s st).digits ≡ (st.digits || any is_digit s)
unfolding scan
scan-digits [] first st = ground arith
scan-digits (r ∷ s) first st = scan-digits s false (scan_rune first r st) ∙ ground arith

rest_of-digits : (s : Text) → All IsDigit (rest_of true s)
unfolding rest_of
rest_of-digits [] = tt
rest_of-digits (r ∷ s) = ground (arith, rest_of-digits s)

rest_of-Mantissa : (s : Text) → Mantissa (rest_of false s)
unfolding rest_of
rest_of-Mantissa [] = tt
rest_of-Mantissa (r ∷ s) = ground (arith, rest_of-digits s, rest_of-Mantissa s)

any-rest_of : (s : Text) (dot : Bool) → any is_digit (rest_of dot s) ≡ any is_digit s
unfolding rest_of
any-rest_of [] dot = refl
any-rest_of (r ∷ s) dot = ground (arith, any-rest_of s dot, any-rest_of s true)

scan-Signed : (d : Text) → Signed (scan true d start).out
unfolding scan
scan-Signed [] = tt
scan-Signed (r ∷ s) =
    rw (scan-out s (scan_rune true r start)) (ground (arith, rest_of-digits s, rest_of-Mantissa s))

trim-digits : (t : Text) → All IsDigit t → trim_suffix b'.' t ≡ t
unfolding trim_suffix
trim-digits [] h = refl
trim-digits (c ∷ t) h = ground (arith, trim-digits t)

trim-Mantissa : (t : Text) → Mantissa t → Mantissa (trim_suffix b'.' t)
unfolding trim_suffix
trim-Mantissa [] h = tt
trim-Mantissa (c ∷ t) h = ground (arith, trim-Mantissa t, trim-digits t)

trim-Signed : (t : Text) → Signed t → Signed (trim_suffix b'.' t)
unfolding trim_suffix
trim-Signed [] h = tt
trim-Signed (c ∷ t) (inl (sign, m)) = ground (arith, trim-Mantissa t m)
trim-Signed (c ∷ t) (inr (inl m)) = ground (arith, trim-Mantissa t)
trim-Signed (c ∷ t) (inr (inr m)) = ground (arith, trim-digits t)

any-trim : (t : Text) → any is_digit (trim_suffix b'.' t) ≡ any is_digit t
unfolding trim_suffix
any-trim [] = refl
any-trim (c ∷ []) = ground arith
any-trim (c ∷ d ∷ t) = ground (arith, any-trim (d ∷ t))

any-scan : (d : Text) → any is_digit (scan true d start).out ≡ any is_digit d
unfolding scan
any-scan [] = refl
any-scan (r ∷ s) =
    rw (scan-out s (scan_rune true r start))
      (ground (arith, any-rest_of s false, any-rest_of s true))

-- There is a literal exactly when the text has a digit.
pub literal-eq-none_iff : (s : Text) → (literal s ≡ none) ↔ (any is_digit (digits s) ≡ false)
unfolding literal
literal-eq-none_iff s = ground (arith, scan-digits (digits s) true start)

-- What is read as a literal is one: an optional sign and digits with at most one point, and at
-- least one digit.
pub literal-IsDecimal : (s : Text) {t : Text} → literal s ≡ some t → IsDecimal t
unfolding literal
literal-IsDecimal s h = ground (
  arith,
  trim-Signed (scan true (digits s) start).out (scan-Signed (digits s)),
  any-trim (scan true (digits s) start).out,
  any-scan (digits s),
  scan-digits (digits s) true start,
)
