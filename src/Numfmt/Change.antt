-- ===== src/Numfmt/Change.antt =====
-- `Change` of internal/numfmt/numfmt.go on every form of a cell.
use tgju_api_go.Common.{
  ℕ, Bool, false, [], ◌∷◌, ◌++◌, Text, ◌≡◌, ◌≢◌, refl, arith, ◌==◌, any, ap, ◌∙◌,
}
use tgju_api_go.Strings.{trim_space}
use tgju_api_go.Strings.Cut.{cut_at-append, cut_at-eq-none}
use tgju_api_go.Strings.Words.{append-ne-nil}
use tgju_api_go.Floats.{Floats}
use tgju_api_go.Numfmt.{clean, value, value_or_zero, split_change, change}

abbrev pub is_open : ℕ → Bool
is_open c = c == b'('

abbrev pub is_shut : ℕ → Bool
is_shut c = c == b')'

module _ (fl : Floats) where
  change_nonempty : (s : Text) → clean s ≢ [] → change fl s ≡ split_change fl (clean s)
  unfolding change
  change_nonempty s h = ground arith

  change_plain : (s : Text) → split_change fl (clean s) ≡ (0, clean s) → change fl s ≡ (0, clean s)
  unfolding change
  change_plain s h = ground arith

  -- A percentage in parentheses is taken apart from the amount behind it.
  split_change_percent :
      (before percent after : Text)
      → any is_open before ≡ false
      → any is_shut percent ≡ false
      → split_change fl (before ++ b'(' ∷ (percent ++ b')' ∷ after))
        ≡ (value_or_zero fl (value fl percent), trim_space after)
  unfolding split_change
  split_change_percent before percent after h k =
      rw (cut_at-append is_open before (percent ++ b')' ∷ after) b'(' h refl, split_change)
        (rw (cut_at-append is_shut percent after b')' k refl))

  split_change_unopened : (s : Text) → any is_open s ≡ false → split_change fl s ≡ (0, s)
  unfolding split_change
  split_change_unopened s h = rw (cut_at-eq-none is_open s h, split_change)

  split_change_unshut :
      (before inside : Text)
      → any is_open before ≡ false
      → any is_shut inside ≡ false
      → split_change fl (before ++ b'(' ∷ inside) ≡ (0, before ++ b'(' ∷ inside)
  unfolding split_change
  split_change_unshut before inside h k =
      rw (cut_at-append is_open before inside b'(' h refl, split_change)
        (rw (cut_at-eq-none is_shut inside k))

  -- A cell with a pair of parentheses is split at the first of each: the percentage is the number
  -- between them, and the amount is what stands behind them, trimmed.
  pub change_percent :
      (s before percent after : Text)
      → clean s ≡ before ++ b'(' ∷ (percent ++ b')' ∷ after)
      → any is_open before ≡ false
      → any is_shut percent ≡ false
      → change fl s ≡ (value_or_zero fl (value fl percent), trim_space after)
  change_percent s before percent after e h k =
      change_nonempty s (rw e (append-ne-nil before _ (λ q. cc)))
      ∙ ap (split_change fl) e
      ∙ split_change_percent before percent after h k

  -- Without a pair of parentheses the whole cell is the amount.
  pub change_unshut :
      (s before inside : Text)
      → clean s ≡ before ++ b'(' ∷ inside
      → any is_open before ≡ false
      → any is_shut inside ≡ false
      → change fl s ≡ (0, clean s)
  change_unshut s before inside e h k =
      change_plain s (rw e (split_change_unshut before inside h k))

  pub change_unopened : (s : Text) → any is_open (clean s) ≡ false → change fl s ≡ (0, clean s)
  change_unopened s h = change_plain s (split_change_unopened (clean s) h)
