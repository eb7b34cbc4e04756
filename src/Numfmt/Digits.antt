-- ===== src/Numfmt/Digits.antt =====
-- What `Digits` and `Clean` of internal/numfmt/numfmt.go leave in a text.
use tgju_api_go.Common.{
  ℕ, List, [], ◌∷◌, ◌++◌, some, Text, ◌≡◌, refl, sym, ap, ◌∙◌, arith, All, Option-cases, inl, inr,
}
use tgju_api_go.Strings.{fields, join}
use tgju_api_go.Strings.Words.{IsWord, fields-IsWord, fields-join, fields-All, join-All}
use tgju_api_go.Numfmt.{rune, digits, space, clean}

-- a rune that `Digits` leaves as it is: no Persian or Arabic digit, no Arabic decimal separator and
-- no zero width rune
abbrev pub IsPlain : ℕ → Type 0
IsPlain r = rune r ≡ some r

rune-IsPlain : (r : ℕ) {d : ℕ} → rune r ≡ some d → IsPlain d
unfolding rune
rune-IsPlain r h = ground arith

pub digits-IsPlain : (s : Text) → All IsPlain (digits s)
unfolding digits
digits-IsPlain [] = tt
digits-IsPlain (r ∷ s) = elim (Option-cases (rune r)) [
  | inl e ↦ rw e (digits-IsPlain s)
  | inr (d, e) ↦ rw e (rune-IsPlain r e, digits-IsPlain s)
]

pub digits_of_IsPlain : (s : Text) → All IsPlain s → digits s ≡ s
unfolding digits
digits_of_IsPlain [] h = refl
digits_of_IsPlain (r ∷ s) (p, h) = rw p (rw (digits_of_IsPlain s h))

pub digits-append : (s t : Text) → digits (s ++ t) ≡ digits s ++ digits t
unfolding digits
digits-append [] t = refl
digits-append (r ∷ s) t = elim (Option-cases (rune r)) [
  | inl e ↦ rw e (digits-append s t)
  | inr (d, e) ↦ rw e (rw (digits-append s t))
]

space-IsPlain : All IsPlain space
unfolding rune
space-IsPlain = (refl, tt)

-- Numbers are read alike before and after `Digits`.
pub digits-digits : (s : Text) → digits (digits s) ≡ digits s
digits-digits s = digits_of_IsPlain (digits s) (digits-IsPlain s)

pub clean_eq : (s : Text) → clean s ≡ join space (fields (digits s))
unfolding clean
clean_eq s = refl

pub join-space-IsPlain : (ws : List Text) → All (All IsPlain) ws → All IsPlain (join space ws)
join-space-IsPlain ws h = join-All IsPlain space ws space-IsPlain h

-- A cell without white space or runes to rewrite is its own words.
pub clean_of_words :
    (ws : List Text) → All IsWord ws → All (All IsPlain) ws → clean (join space ws) ≡ join space ws
clean_of_words ws h k =
    clean_eq _
    ∙ ap (λ t. join space (fields t)) (digits_of_IsPlain _ (join-space-IsPlain ws k))
    ∙ ap (join space) (fields-join ws h)

-- the words of a cell
pub words : Text → List Text
words s = fields (digits s)

pub words-IsWord : (s : Text) → All IsWord (words s)
unfolding words
words-IsWord s = fields-IsWord (digits s)

pub words-IsPlain : (s : Text) → All (All IsPlain) (words s)
unfolding words
words-IsPlain s = fields-All IsPlain (digits s) (digits-IsPlain s)

pub clean-words : (s : Text) → clean s ≡ join space (words s)
unfolding words
clean-words s = clean_eq s

pub clean-IsPlain : (s : Text) → All IsPlain (clean s)
clean-IsPlain s = rw clean-words (join-space-IsPlain _ (words-IsPlain s))

pub clean-clean : (s : Text) → clean (clean s) ≡ clean s
clean-clean s =
    ap clean (clean-words s)
    ∙ clean_of_words (words s) (words-IsWord s) (words-IsPlain s)
    ∙ sym (clean-words s)
