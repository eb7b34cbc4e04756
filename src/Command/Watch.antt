-- ===== src/Command/Watch.antt =====
-- `watch` of cmd/tgju/commands.go: a loop over polls that ends only with the context. Each poll is what
-- the clock, the client and the context give in one round; `none` in place of a result is fuel that
-- runs out.
pub mod Polls
use tgju_api_go.Common.{
  ℕ, zero, suc, ◌+◌, ◌/◌, Bool, true, false, not, List, [], ◌∷◌, ◌++◌, Option, none, some, Text,
  codes, ◌==◌, ◌&&◌, ◌||◌, if◌then◌else◌, is_nil, text_eq,
}
use tgju_api_go.Strings.{trim_suffix}
use tgju_api_go.Floats.{Float64, Floats}
use tgju_api_go.Errors.{Err, Result, ok, err}
use tgju_api_go.Snapshot.{Item}
use tgju_api_go.Transport.{signed_ltb}
use tgju_api_go.Client.{Round}
use tgju_api_go.Client
use tgju_api_go.Options.{Env, Settings, with_cache_ttl}
use tgju_api_go.Command.{Parsed, parse}
use tgju_api_go.Command.Units.{PriceUnit, usage_error, parse_unit, render, arrow}
use tgju_api_go.Command.Flags.{ClientFlags, client}
use tgju_api_go.Command.Run.{with_arguments, only_argument, Ran, ran_by, refused_by, ◌>>=◌}

-- strings.TrimRight(t, "0")
unfoldable pub trim_zeros : Text → Text
trim_zeros [] = []
trim_zeros (c ∷ t) = let rest = trim_zeros t in if c == b'0' && is_nil rest then [] else c ∷ rest

unfoldable pub trim_float : Floats → Float64 → Text
unfolding trim_zeros trim_suffix
trim_float fl v = trim_suffix b'.' (trim_zeros (fl.format2 v))

-- one round: the time as it is printed, what the goroutines of `Item` come to, the context's error
-- behind a failed `Item`, and the context's error if the round's `select` sees its end
pub record Poll : Type 0 where
  pub clock : Text
  pub round : Round
  pub ended : Option Err
  pub stopped : Option Err

-- a printed line; the wording of an error has no model
pub data Line : Type 0 where
  quote : Text → Line
  trouble : Text → Err → Line

-- what a round leaves: the lines so far, the price last printed, and the error that ends the loop
pub record Watched : Type 0 where
  pub lines : List Line
  pub previous : Text
  pub over : Option Err

module _ (fl : Floats) (u : PriceUnit) where
  unfoldable pub item_line : Text → Item → Text
  unfolding render arrow trim_float
  item_line clock i =
      clock
      ++ (codes "  "
          ++ (i.title
              ++ b' '
                ∷ (render fl u i.price
                    ++ (codes "  "
                        ++ (arrow i.change.status
                            ++ b' '
                              ∷ (trim_float fl i.change.percent
                                  ++ (codes "%  " ++ (i.time ++ b'\n' ∷ []))))))))

module _ (fl : Floats) (u : PriceUnit) (all : Bool) (key : Text) where
  abbrev pub on_error : Poll → Err → Text → List Line → Watched
  on_error p e previous lines = elim p.ended [
    | some c ↦ record { lines = lines; previous = previous; over = some c }
    | none ↦ record {
      lines = lines ++ trouble p.clock e ∷ [];
      previous = previous;
      over = p.stopped;
    }
  ]

  abbrev pub on_item : Poll → Item → Text → List Line → Watched
  on_item p i previous lines =
      if all || not (text_eq (render fl u i.price) previous)
      then record {
        lines = lines ++ quote (item_line fl u p.clock i) ∷ [];
        previous = render fl u i.price;
        over = p.stopped;
      }
      else record { lines = lines; previous = previous; over = p.stopped }

  abbrev pub on_result : Poll → Result Item → Text → List Line → Watched
  on_result p (err e) previous lines = on_error p e previous lines
  on_result p (ok i) previous lines = on_item p i previous lines

  -- one round of the loop
  unfoldable pub watch_round : Poll → Text → List Line → Watched
  unfolding Client.item item_line render text_eq
  watch_round p previous lines = on_result p (Client.item p.round key []) previous lines

  abbrev pub watch_next : (Text → List Line → Option (Ran Line)) → Watched → Option (Ran Line)
  watch_next go w = elim w.over [
    | some e ↦ some (record { printed = w.lines; flag_text = []; failure = some e })
    | none ↦ go w.previous w.lines
  ]

  -- the loop, with the number of its next round
  unfoldable pub watch_from : (ℕ → Poll) → ℕ → ℕ → Text → List Line → Option (Ran Line)
  unfolding watch_round
  watch_from polls zero n previous lines = none
  watch_from polls (suc f) n previous lines =
      watch_next (watch_from polls f (suc n)) (watch_round (polls n) previous lines)

-- the values of the flags of `watch`
pub record WatchFlags : Type 0 where
  pub interval : ℕ
  pub unit : Text
  pub all : Bool

abbrev pub second : ℕ
second = 1_000_000_000

-- the client of `watch`
unfoldable pub watch_client : (env : Env) → ClientFlags → WatchFlags → Settings env
unfolding client
watch_client env cf v = client env cf (some (with_cache_ttl (v.interval / 2)) ∷ [])

-- what `watch` does with its arguments: the key and the unit of the loop
unfoldable pub watch_setup : WatchFlags → List Text → Result (Text × PriceUnit)
unfolding parse_unit
watch_setup v positional = setup_key (only_argument positional)
  where
    setup_unit : Text → Result PriceUnit → Result (Text × PriceUnit)
    setup_unit key (err e) = err e
    setup_unit key (ok u) = if signed_ltb v.interval second then err usage_error else ok (key, u)

    setup_key : Result Text → Result (Text × PriceUnit)
    setup_key (err e) = err e
    setup_key (ok key) = setup_unit key (parse_unit v.unit)

abbrev pub watch_by :
    Floats → WatchFlags → (ℕ → Poll) → ℕ → Option (Result (List Text)) → Option (Ran Line)
watch_by fl v polls fuel none = none
watch_by fl v polls fuel (some (err e)) = some (refused_by e)
watch_by fl v polls fuel (some (ok positional)) = elim (watch_setup v positional) [
  | err e ↦ some (ran_by (err e))
  | ok (key, u) ↦ watch_from fl u v.all key polls fuel 0 [] []
]

unfoldable pub watch :
    Floats → (List Text → Parsed) → WatchFlags → (ℕ → Poll) → ℕ → List Text → Option (Ran Line)
unfolding parse watch_setup watch_from
watch fl flags v polls fuel args = watch_by fl v polls fuel (parse flags args)
