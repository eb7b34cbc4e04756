-- ===== src/Command/Watch/Polls.antt =====
-- The lines that `watch` of cmd/tgju/commands.go prints, and its end.
use tgju_api_go.Common.{
  ℕ, zero, suc, ◌+◌, ◌≤◌, ◌<◌, Bool, true, false, not, List, [], ◌∷◌, ◌++◌, Option, none, some,
  Text, ◌≡◌, refl, sym, ap, subst, ◌∙◌, arith, ◌||◌, if◌then◌else◌, text_eq, text_eq_sound,
  append-nil,
}
use tgju_api_go.Floats.{Floats}
use tgju_api_go.Errors.{Err, Result, ok, err}
use tgju_api_go.Snapshot.{Item}
use tgju_api_go.Transport.{signed_ltb}
use tgju_api_go.Client
use tgju_api_go.Command.{Parsed, parse}
use tgju_api_go.Command.Units.{PriceUnit, render, parse_unit}
use tgju_api_go.Command.Run.{Ran}
use tgju_api_go.Command.Watch.{
  Poll, Line, quote, trouble, Watched, item_line, on_error, on_result, watch_round, watch_next,
  watch_from, WatchFlags, second, watch_setup, watch_by, watch,
}

abbrev left : List Line → Text → Option Err → Watched
left lines previous over = record { lines = lines; previous = previous; over = over }

module _ (fl : Floats) (u : PriceUnit) where
  abbrev price_or : Text → Result Item → Text
  price_or p (err e) = p
  price_or p (ok i) = render fl u i.price

  abbrev error_of : Poll → Result Item → Option Err
  error_of p (err e) = elim p.ended [ some c ↦ some c | none ↦ p.stopped ]
  error_of p (ok i) = p.stopped

  abbrev lines_by : Bool → Poll → Text → Result Item → List Line
  lines_by all p last (err e) = elim p.ended [ some c ↦ [] | none ↦ trouble p.clock e ∷ [] ]
  lines_by all p last (ok i) =
      if all || not (text_eq (render fl u i.price) last)
      then quote (item_line fl u p.clock i) ∷ []
      else []

module _ (fl : Floats) (u : PriceUnit) (all : Bool) (key : Text) (polls : ℕ → Poll) where
  abbrev found : ℕ → Result Item
  found i = Client.item (polls i).round key []

  -- the price that the last poll before round `i` found that found one
  unfoldable pub last_price : ℕ → Text
  unfolding render
  last_price zero = []
  last_price (suc i) = price_or fl u (last_price i) (found i)

  -- the context's error, if it ends in round `i`: behind a failed lookup, or in the `select`
  abbrev pub over_in : ℕ → Option Err
  over_in i = error_of fl u (polls i) (found i)

  -- What round `i` prints: a price that is not the last one, or any with --all, and a failure that
  -- is not the context's end.
  unfoldable pub lines_of : ℕ → List Line
  unfolding last_price item_line
  lines_of i = lines_by fl u all (polls i) (last_price i) (found i)

  unfoldable pub lines_before : ℕ → List Line
  unfolding lines_of
  lines_before zero = []
  lines_before (suc i) = lines_before i ++ lines_of i

  on_item_by :
      (b : Bool) (p : Poll) (line : Line) (now last : Text) (lines : List Line)
      → (b ≡ false → now ≡ last)
      → (if b then left (lines ++ line ∷ []) now p.stopped else left lines last p.stopped)
        ≡ left (lines ++ (if b then line ∷ [] else [])) now p.stopped
  on_item_by true p line now last lines h = refl
  on_item_by false p line now last lines h = rw (append-nil lines, h refl) refl

  on_error_eq :
      (p : Poll) (e : Err) (last : Text) (lines : List Line) (o : Option Err)
      → p.ended ≡ o
      → on_error fl u all key p e last lines
        ≡ left (lines ++ lines_by fl u all p last (err e)) last (error_of fl u p (err e))
  on_error_eq p e last lines none h = rw h refl
  on_error_eq p e last lines (some c) h = rw (h, append-nil lines) refl

  on_result_eq :
      (p : Poll) (r : Result Item) (last : Text) (lines : List Line)
      → on_result fl u all key p r last lines
        ≡ left (lines ++ lines_by fl u all p last r) (price_or fl u last r) (error_of fl u p r)
  on_result_eq p (err e) last lines = on_error_eq p e last lines p.ended refl
  on_result_eq p (ok i) last lines =
      on_item_by (all || not (text_eq (render fl u i.price) last)) p
        (quote (item_line fl u p.clock i)) (render fl u i.price) last lines
        (λ h. text_eq_sound (render fl u i.price) last (ground (arith, h)))

  round_eq :
      (i : ℕ) (lines : List Line)
      → watch_round fl u all key (polls i) (last_price i) lines
        ≡ left (lines ++ lines_of i) (last_price (suc i)) (over_in i)
  unfolding watch_round lines_of last_price
  round_eq i lines = on_result_eq (polls i) (found i) (last_price i) lines

  abbrev run_from : ℕ → ℕ → Option (Ran Line)
  run_from f i = watch_from fl u all key polls f i (last_price i) (lines_before i)

  next_eq :
      (f i : ℕ)
      → run_from (suc f) i
        ≡ watch_next fl u all key
            (watch_from fl u all key polls f (suc i))
            (left (lines_before (suc i)) (last_price (suc i)) (over_in i))
  unfolding watch_from lines_before
  next_eq f i = rw (round_eq i (lines_before i)) refl

  abbrev outcome : ℕ → Err → Option (Ran Line)
  outcome i e = some (record { printed = lines_before (suc i); flag_text = []; failure = some e })

  run_from-some :
      (d i k f : ℕ) (e : Err)
      → k ≡ i + d
      → d < f
      → ((j : ℕ) → i ≤ j → j < k → over_in j ≡ none)
      → over_in k ≡ some e
      → run_from f i ≡ outcome k e
  run_from-some d i k zero e h g quiet ends = absurd (omega arith)
  run_from-some zero i k (suc f) e h g quiet ends =
      let same : i ≡ k = omega arith in
      next_eq f i
      ∙ (rw (subst (λ j. over_in j ≡ some e) (sym same) ends) refl)
      ∙ ap (λ j. outcome j e) same
  run_from-some (suc d) i k (suc f) e h g quiet ends =
      next_eq f i
      ∙ rw (quiet i (omega arith) (omega arith)) (
          run_from-some d (suc i) k f e (omega arith) (omega arith)
            (λ j a b. quiet j (omega arith) b) ends)

setup_eq :
    (v : WatchFlags) (key : Text) (u : PriceUnit)
    → parse_unit v.unit ≡ ok u
    → signed_ltb v.interval second ≡ false
    → watch_setup v (key ∷ []) ≡ ok (key, u)
unfolding watch_setup
setup_eq v key u h i = rw (h, i) refl

-- When the arguments are one key, the unit is known and the interval is a second at least, and the
-- context ends in round `k` and in no round before, `watch` returns the context's error in that round,
-- given fuel for it. By then it has printed what the rounds print: a price when it differs from the one
-- found last, any price with --all, and a failed lookup.
pub watch-ends :
    (fl : Floats) (flags : List Text → Parsed) (v : WatchFlags) (polls : ℕ → Poll)
    (args : List Text) (key : Text) (u : PriceUnit) (k fuel : ℕ) (e : Err)
    → parse flags args ≡ some (ok (key ∷ []))
    → parse_unit v.unit ≡ ok u
    → signed_ltb v.interval second ≡ false
    → ((j : ℕ) → j < k → over_in fl u v.all key polls j ≡ none)
    → over_in fl u v.all key polls k ≡ some e
    → k < fuel
    → watch fl flags v polls fuel args
      ≡ some (record {
        printed = lines_before fl u v.all key polls (suc k);
        flag_text = [];
        failure = some e;
      })
unfolding watch last_price lines_before
watch-ends fl flags v polls args key u k fuel e p h i quiet ends g =
    ap (watch_by fl v polls fuel) p
    ∙ (rw (watch_by, setup_eq v key u h i) refl)
    ∙ run_from-some fl u v.all key polls k 0 k fuel e (omega arith) g (λ j a b. quiet j b) ends
