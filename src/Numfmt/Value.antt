-- ===== src/Numfmt/Value.antt =====
-- What `Value` of internal/numfmt/numfmt.go ignores, and when it succeeds.
use tgju_api_go.Common.{
  ℕ, Bool, true, false, [], ◌∷◌, ◌++◌, Option, none, some, Text, ◌≡◌, ◌≢◌, ◌↔◌, ◌⊎◌, inl, inr, refl,
  sym, ap, ◌∙◌, arith, any, length, length-append, ◌≤◌, ◌+◌,
}
use tgju_api_go.Strings.{trim_suffix}
use tgju_api_go.Floats.{Float64, Floats}
use tgju_api_go.Numfmt.{rune, emit, digits, Scan, is_digit, scan_rune, scan, start, literal, value}
use tgju_api_go.Numfmt.Digits.{digits-append}
use tgju_api_go.Numfmt.Literal.{IsDecimal, literal-eq-none_iff, literal-IsDecimal}

-- a rune that is neither a digit nor a point once it is normalised
abbrev pub IsSeparator : ℕ → Type 0
IsSeparator c = (rune c ≡ none) ⊎ ((d : ℕ) × (rune c ≡ some d) × (is_digit d ≡ false) × (d ≢ b'.'))

scan-append : (a b : Text) (st : Scan) → scan false (a ++ b) st ≡ scan false b (scan false a st)
unfolding scan
scan-append [] b st = refl
scan-append (r ∷ a) b st = scan-append a b (scan_rune false r st)

scan_rune_separator :
    (d : ℕ) (st : Scan) → is_digit d ≡ false → d ≢ b'.' → scan_rune false d st ≡ st
unfolding scan_rune
scan_rune_separator d st h k = ground arith

scan_separator :
    (c : ℕ) (t : Text) (st : Scan)
    → IsSeparator c
    → scan false (emit (rune c) t) st ≡ scan false t st
scan_separator c t st (inl e) = rw e
scan_separator c t st (inr (d, e, h, k)) =
    rw e (unfold scan in ap (scan false t) (scan_rune_separator d st h k))

scan_insert :
    (a t : Text) (c : ℕ)
    → a ≢ []
    → IsSeparator c
    → scan true (a ++ emit (rune c) t) start ≡ scan true (a ++ t) start
unfolding scan
scan_insert [] t c ne h = absurd (ne refl)
scan_insert (r ∷ a) t c ne h =
    scan-append a (emit (rune c) t) _ ∙ scan_separator c t _ h ∙ sym (scan-append a t _)

digits-insert : (s t : Text) (c : ℕ) → digits (s ++ c ∷ t) ≡ digits s ++ emit (rune c) (digits t)
digits-insert s t c = digits-append s (c ∷ t) ∙ unfold digits in refl

literal-scan :
    (s t : Text) → scan true (digits s) start ≡ scan true (digits t) start → literal s ≡ literal t
unfolding literal
literal-scan s t h = rw h

-- A separator behind the first rune that counts does not change the literal that is read.
pub literal-insert :
    (s t : Text) (c : ℕ) → digits s ≢ [] → IsSeparator c → literal (s ++ c ∷ t) ≡ literal (s ++ t)
literal-insert s t c ne h = literal-scan (s ++ c ∷ t) (s ++ t) (
    ap (λ d. scan true d start) (digits-insert s t c)
    ∙ scan_insert (digits s) (digits t) c ne h
    ∙ ap (λ d. scan true d start) (sym (digits-append s t)))

length-scan :
    (d : Text) (first : Bool) (st : Scan) → length (scan first d st).out ≤ length st.out + length d
unfolding scan
length-scan [] first st = omega arith
length-scan (r ∷ d) first st =
    ground (arith, length-scan d false (scan_rune first r st), length-append {0} st.out (r ∷ []))

length-trim : (t : Text) → length (trim_suffix b'.' t) ≤ length t
unfolding trim_suffix
length-trim [] = omega arith
length-trim (c ∷ t) = ground (arith, length-trim t)

length-digits : (s : Text) → length (digits s) ≤ length s
unfolding digits
length-digits [] = omega arith
length-digits (r ∷ s) = ground (arith, length-digits s)

-- A literal is no longer than the text that it is read from.
pub length-literal : (s : Text) {t : Text} → literal s ≡ some t → length t ≤ length s
unfolding literal
length-literal s h = ground (
  arith,
  length-trim (scan true (digits s) start).out,
  length-scan (digits s) true start,
  length-digits s,
)

-- ParseFloat reads every decimal literal whose value is in the range of a float64, and so every
-- one of at most 300 digits.
pub record ParsesDecimals (fl : Floats) : Type 0 where
  pub total : (t : Text) → IsDecimal t → length t ≤ 300 → (v : Float64) × (fl.parse t ≡ some v)

module _ (fl : Floats) (ok : ParsesDecimals fl) where
  value_of_literal-some : (s : Text) {t : Text} → literal s ≡ some t → value fl s ≡ fl.parse t
  unfolding value
  value_of_literal-some s e = rw e

  value_of_literal :
      (s : Text) (o : Option Text)
      → literal s ≡ o
      → length s ≤ 300
      → (value fl s ≡ none) ↔ (o ≡ none)
  value_of_literal s none e h = (λ _. refl, λ _. unfold value in rw e)
  value_of_literal s (some t) e h =
      let (v, p) = ok.total t (literal-IsDecimal s e) (omega (arith, length-literal s e)) in
      (λ q. cc (value_of_literal-some s e), λ q. cc)

  -- Of a text of at most 300 runes a value is read exactly when the text has a digit, if
  -- ParseFloat reads decimal literals of that length.
  pub value-eq-none_iff :
      (s : Text) → length s ≤ 300 → (value fl s ≡ none) ↔ (any is_digit (digits s) ≡ false)
  value-eq-none_iff s h =
      let (a, b) = value_of_literal s (literal s) refl h in
      let (c, d) = literal-eq-none_iff s in (λ e. c (a e), λ e. b (d e))
