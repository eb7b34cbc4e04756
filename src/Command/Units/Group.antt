-- ===== src/Command/Units/Group.antt =====
-- The thousands separators of `group` in cmd/tgju/output.go.
use tgju_api_go.Common.{
  ℕ, suc, ◌+◌, ◌-◌, ◌<◌, ◌%◌, Bool, true, false, not, [], ◌∷◌, ◌++◌, Option, none, some, Text, ◌≡◌,
  refl, sym, ap, ◌∙◌, arith, ◌==◌, ◌&&◌, ltb, within, any, keep, if◌then◌else◌, is_nil, length,
  rune_len, byte_len, append-nil, append_assoc, All,
}
use tgju_api_go.Strings.Cut.{cut_at-append, cut_at-eq-none}
use tgju_api_go.Floats.{Float64, Floats}
use tgju_api_go.Command.Units.{add_digit, group_from, group_whole, group_signed, group_text, group}

-- an ASCII digit
abbrev pub IsDigit : ℕ → Type 0
IsDigit d = within b'0' b'9' d ≡ true

-- the digits with a comma where the number of those that follow is a positive multiple of three
abbrev pub in_threes : Text → Text
in_threes [] = []
in_threes (d ∷ s) =
    let rest = in_threes s in
    if not (is_nil s) && length s % 3 == 0 then d ∷ b',' ∷ rest else d ∷ rest

-- the text that strconv.FormatFloat gives: a sign, the whole digits and the fraction's
abbrev pub signed : Bool → Text → Text
signed true w = b'-' ∷ w
signed false w = w

abbrev pub with_fraction : Text → Option Text → Text
with_fraction w none = w
with_fraction w (some f) = w ++ b'.' ∷ f

abbrev with_comma : Text → Text
with_comma s =
    let rest = in_threes s in if not (is_nil s) && length s % 3 == 0 then b',' ∷ rest else rest

in_threes_eq : (d : ℕ) (s : Text) → in_threes (d ∷ s) ≡ d ∷ with_comma s
in_threes_eq d s = ground arith

comma_by :
    (c : Bool) (b s rest : Text) (d : ℕ)
    → rest ≡ d ∷ with_comma s
    → ((if c then b ++ b',' ∷ [] else b) ++ d ∷ []) ++ with_comma s
      ≡ b ++ (if c then b',' ∷ rest else rest)
comma_by true b s rest d e = simp (append_assoc, e)
comma_by false b s rest d e = simp (append_assoc, e)

comma_test :
    (i n total : ℕ) → 0 < i → total ≡ i + n → (ltb 0 i && (total - i) % 3 == 0) ≡ (n % 3 == 0)
comma_test i n total p e = ground arith

rune_len-digit : (d : ℕ) → IsDigit d → rune_len d ≡ 1
rune_len-digit d h = ground arith

group_from_eq :
    (i total : ℕ) (b s : Text)
    → 0 < i
    → total ≡ i + length s
    → All IsDigit s
    → group_from total i b s ≡ b ++ with_comma s
unfolding group_from
group_from_eq i total b [] p e h = sym (append-nil b)
group_from_eq i total b (d ∷ s) p e (hd, h) =
    ap (λ k. group_from total (i + k) (add_digit total i b d) s) (rune_len-digit d hd)
    ∙ group_from_eq (i + 1) total (add_digit total i b d) s (omega arith) (omega arith) h
    ∙ rw (comma_test i (suc (length s)) total p e)
        (comma_by (suc (length s) % 3 == 0) b s (in_threes (d ∷ s)) d (in_threes_eq d s))

byte_len-digits : (s : Text) → All IsDigit s → byte_len s ≡ length s
byte_len-digits [] h = refl
byte_len-digits (d ∷ s) (hd, h) = omega (arith, rune_len-digit d hd, byte_len-digits s h)

group_from_start :
    (total : ℕ) (s : Text)
    → total ≡ length s
    → All IsDigit s
    → group_from total 0 [] s ≡ in_threes s
unfolding group_from
group_from_start total [] e h = refl
group_from_start total (d ∷ s) e (hd, h) =
    rw (rune_len-digit d hd) (group_from_eq 1 total (d ∷ []) s (omega arith) (omega arith) h)
    ∙ sym (in_threes_eq d s)

group_whole_eq : (s : Text) → All IsDigit s → group_whole s ≡ in_threes s
group_whole_eq s h = group_from_start (byte_len s) s (byte_len-digits s h) h

-- No digit is lost or changed: without the commas the digits are the old ones.
keep-in_threes : (s : Text) → All IsDigit s → keep (λ c. not (c == b',')) (in_threes s) ≡ s
keep-in_threes [] h = refl
keep-in_threes (d ∷ s) h = ground (arith, keep-in_threes s h.1)

not_minus : (d : ℕ) → IsDigit d → (d == b'-') ≡ false
not_minus d h = ground arith

group_signed_eq :
    (n : Bool) (w : Text) → All IsDigit w → group_signed (signed n w) ≡ signed n (in_threes w)
group_signed_eq true w h = ap (λ t. b'-' ∷ t) (group_whole_eq w h)
group_signed_eq false [] h = group_whole_eq [] h
group_signed_eq false (d ∷ w) h = rw (not_minus d h.0) (group_whole_eq (d ∷ w) h)

lacks_dot : (w : Text) → All IsDigit w → any (λ c. c == b'.') w ≡ false
lacks_dot [] h = refl
lacks_dot (d ∷ w) (hd, h) = ground (arith, lacks_dot w h)

lacks_dot-signed : (n : Bool) (w : Text) → All IsDigit w → any (λ c. c == b'.') (signed n w) ≡ false
lacks_dot-signed true w h = lacks_dot w h
lacks_dot-signed false w h = lacks_dot w h

group_text_eq :
    (n : Bool) (w : Text) (f : Option Text)
    → All IsDigit w
    → group_text (with_fraction (signed n w) f) ≡ with_fraction (signed n (in_threes w)) f
unfolding group_text
group_text_eq n w none h =
    rw (cut_at-eq-none (λ c. c == b'.') (signed n w) (lacks_dot-signed n w h))
      (group_signed_eq n w h)
group_text_eq n w (some f) h =
    rw
      (
        cut_at-append (λ c. c == b'.') (signed n w) f b'.' (lacks_dot-signed n w h) refl,
        group_signed_eq n w h,
      )
      refl

-- When strconv.FormatFloat writes a number as a sign, digits and a fraction, `group` writes the
-- same sign and the same fraction, and between them the same digits with a comma in front of
-- every third one from the right but the first digit; without the commas they are the old ones.
pub group_lem :
    (fl : Floats) (v : Float64) (n : Bool) (w : Text) (f : Option Text)
    → All IsDigit w
    → fl.format v ≡ with_fraction (signed n w) f
    → (group fl v ≡ with_fraction (signed n (in_threes w)) f)
      × (keep (λ c. not (c == b',')) (in_threes w) ≡ w)
unfolding group
group_lem fl v n w f h e = (ap group_text e ∙ group_text_eq n w f h, keep-in_threes w h)
