-- ===== src/Strings/Cut.antt =====
-- Cutting a text at the first rune that passes a test.
use tgju_api_go.Common.{
  ℕ, Bool, true, false, [], ◌∷◌, ◌++◌, none, some, Text, ◌≡◌, refl, arith, any,
}
use tgju_api_go.Strings.{cut_at}

module _ (p : ℕ → Bool) where
  -- The cut is at the first rune that passes.
  pub cut_at-append :
      (a b : Text) (c : ℕ) → any p a ≡ false → p c ≡ true → cut_at p (a ++ c ∷ b) ≡ some (a, b)
  unfolding cut_at
  cut_at-append [] b c h e = rw e
  cut_at-append (x ∷ a) b c h e = ground (arith, cut_at-append a b c)

  pub cut_at-eq-none : (a : Text) → any p a ≡ false → cut_at p a ≡ none
  unfolding cut_at
  cut_at-eq-none [] h = refl
  cut_at-eq-none (x ∷ a) h = ground (arith, cut_at-eq-none a)
