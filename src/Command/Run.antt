-- ===== src/Command/Run.antt =====
-- cmd/tgju/commands.go but `watch`, and `run` of main.go. What the flag variables hold behind `parse`
-- and what the client gives are arguments. `none` is a panic, or a loop of `parse` that does not end.
-- What package flag writes is known by the error for which it does.
pub mod Alike
pub mod Ends
use tgju_api_go.Common.{
  ℕ, Bool, true, false, not, List, [], ◌∷◌, ◌++◌, Option, none, some, Text, codes, ◌&&◌, ◌||◌,
  if◌then◌else◌, is_nil, text_eq, map,
}
use tgju_api_go.Strings
use tgju_api_go.Strings.{trim_suffix}
use tgju_api_go.Floats.{Float64, Floats}
use tgju_api_go.Market.{Market, parse_market, markets, label, url}
use tgju_api_go.Errors.{unknown_market, not_found, Err, Result, ok, err, is, help, canceled}
use tgju_api_go.Snapshot.{Item, Snapshot, is_empty}
use tgju_api_go.Client.{wrap_one, Round}
use tgju_api_go.Client
use tgju_api_go.Command.{Parsed, parse, filter, exit_code, exit_usage, exit_ok}
use tgju_api_go.Command.Output.{Output, shown, write_aligned, write_snapshot, write_item}
use tgju_api_go.Command.Units.{Format, PriceUnit, usage_error, parse_format, parse_unit}
use tgju_api_go.Command.Flags.{split_csv}

-- an early return of an error
infixl 5 ◌>>=◌
abbrev pub ◌>>=◌ {ℓ κ} :
    {A : Type ℓ} {B : Type κ} → Result A → (A → Option (Result B)) → Option (Result B)
err e >>= f = some (err e)
ok a >>= f = f a

-- What a command prints, the errors for which package flag writes its message and the flags' usage to
-- the stream that it has from the command, and the error that the command returns.
pub record Ran {ℓ} (A : Type ℓ) : Type ℓ where
  pub printed : List A
  pub flag_text : List Err
  pub failure : Option Err

abbrev pub ran_by {ℓ} : {A : Type ℓ} → Result A → Ran A
ran_by (ok o) = record { printed = o ∷ []; flag_text = []; failure = none }
ran_by (err e) = record { printed = []; flag_text = []; failure = some e }

abbrev pub ran {ℓ} : {A : Type ℓ} → Option (Result A) → Option (Ran A)
ran none = none
ran (some r) = some (ran_by r)

-- a command whose arguments package flag refuses, or for which it shows the help
abbrev pub refused_by {ℓ} : {A : Type ℓ} → Err → Ran A
refused_by e = record { printed = []; flag_text = e ∷ []; failure = some e }

-- a command behind the loop over its arguments
abbrev pub with_arguments {ℓ} :
    {A : Type ℓ} → Option (Result (List Text)) → (List Text → Option (Result A)) → Option (Ran A)
with_arguments none f = none
with_arguments (some (err e)) f = some (refused_by e)
with_arguments (some (ok positional)) f = ran (f positional)

-- the second half of parseOutput
abbrev pub both_parsed : Result Format → Result PriceUnit → Result (Format × PriceUnit)
both_parsed (err e) r = err e
both_parsed (ok f) (err e) = err e
both_parsed (ok f) (ok u) = ok (f, u)

unfoldable pub parse_output : Text → Text → Result (Format × PriceUnit)
unfolding parse_format parse_unit
parse_output f u = both_parsed (parse_format f) (parse_unit u)

unfoldable pub market_names : Text
unfolding markets Strings.join
market_names = Strings.join (codes ", ") markets

abbrev pub written : Option Output → Option (Result Output)
written none = none
written (some o) = some (ok o)

abbrev pub only_argument : List Text → Result Text
only_argument (a ∷ []) = ok a
only_argument _ = err usage_error

abbrev pub known : Option Market → Result Market
known none = err (wrap_one unknown_market)
known (some m) = ok m

abbrev pub restricted_by : Option Market → Result (List Market)
restricted_by none = err (wrap_one unknown_market)
restricted_by (some m) = ok (m ∷ [])

-- the boards that --market restricts the search to
unfoldable pub restricted : Text → Result (List Market)
unfolding parse_market
restricted flag = if is_nil flag then ok [] else restricted_by (parse_market flag)

pub record GetFlags : Type 0 where
  pub format : Text
  pub unit : Text
  pub keys : Text
  pub category : Text

pub record ItemFlags : Type 0 where
  pub format : Text
  pub unit : Text
  pub market : Text

abbrev pub kept : GetFlags → Snapshot → Snapshot
kept v snap = record snap { categories = filter snap.categories v.category (split_csv v.keys) }

module _ (fl : Floats) (stamp : ℕ → Text) (flags : List Text → Parsed) where
  abbrev pub print_kept : Format × PriceUnit → Snapshot → Option (Result Output)
  print_kept out snap =
      if is_empty snap
      then some (err (wrap_one not_found))
      else written (write_snapshot fl stamp out.0 out.1 snap)

  unfoldable pub get : GetFlags → (Market → Result Snapshot) → List Text → Option (Ran Output)
  unfolding parse parse_market parse_output filter split_csv is_empty write_snapshot
  get v fetch args = with_arguments (parse flags args) λ positional. do
    name ← only_argument positional
    m ← known (parse_market name)
    out ← parse_output v.format v.unit
    snap ← fetch m
    print_kept out (kept v snap)

  unfoldable pub item : ItemFlags → Round → List Text → Option (Ran Output)
  unfolding parse parse_output restricted Client.item write_item
  item v r args = with_arguments (parse flags args) λ positional. do
    key ← only_argument positional
    out ← parse_output v.format v.unit
    ms ← restricted v.market
    found ← Client.item r key ms
    written (write_item fl out.0 out.1 found)

  abbrev pub market_row : Market → List Text
  market_row m = m ∷ label m ∷ url m ∷ []

  -- `markets`
  unfoldable pub list_markets : List Text → Option (Ran Output)
  unfolding parse markets label url write_aligned
  list_markets args = with_arguments (parse flags args) λ positional. written (
      shown (
        write_aligned
          ((codes "MARKET" ∷ codes "NAME" ∷ codes "SOURCE" ∷ []) ∷ map market_row markets)))

-- what goes to stderr
pub data Complaint : Type 0 where
  usage_text : Complaint
  unknown_command : Text → Complaint
  failed_with : Err → Complaint
  -- what package flag writes for the error
  flag_usage : Err → Complaint

-- the exit code, and what is written to stdout and stderr; `flag_text` is what package flag writes to
-- stdout, and `help_shown` says that the usage text of the program is there
pub record Exit {ℓ} (A : Type ℓ) : Type ℓ where
  pub code : ℕ
  pub stdout : List A
  pub flag_text : List Err
  pub help_shown : Bool
  pub stderr : List Complaint

-- the commands, as functions of the arguments behind their name
pub record Commands {ℓ} (A : Type ℓ) : Type ℓ where
  pub serve : List Text → Option (Ran A)
  pub get : List Text → Option (Ran A)
  pub item : List Text → Option (Ran A)
  pub watch : List Text → Option (Ran A)
  pub markets : List Text → Option (Ran A)
  pub version : List Text → Option (Ran A)

-- an error that `run` complains of
unfoldable pub complaints : Option Err → List Complaint
unfolding is
complaints none = []
complaints (some e) = if is help e || is canceled e then [] else failed_with e ∷ []

module _ {ℓ} {A : Type ℓ} where
  unfoldable pub finished : Option (Ran A) → Option (Exit A)
  unfolding exit_code complaints
  finished none = none
  finished (some r) = some (record {
    code = exit_code r.failure;
    stdout = r.printed;
    flag_text = r.flag_text;
    help_shown = false;
    stderr = complaints r.failure;
  })

  -- what package flag writes, on stderr in place of stdout
  abbrev pub on_stderr : Option (Exit A) → Option (Exit A)
  on_stderr none = none
  on_stderr (some x) =
      some (record x { flag_text = []; stderr = map flag_usage x.flag_text ++ x.stderr })

  abbrev pub refused_with : List Complaint → Exit A
  refused_with cs = record {
    code = exit_usage;
    stdout = [];
    flag_text = [];
    help_shown = false;
    stderr = cs;
  }

  unfoldable pub run : Commands A → List Text → Option (Exit A)
  unfolding text_eq finished
  run cmds [] = some (refused_with (usage_text ∷ []))
  run cmds (c ∷ args) =
      if text_eq c (codes "serve")
      then on_stderr (finished (cmds.serve args))
      else if text_eq c (codes "get")
      then finished (cmds.get args)
      else if text_eq c (codes "item")
      then finished (cmds.item args)
      else if text_eq c (codes "watch")
      then finished (cmds.watch args)
      else if text_eq c (codes "markets")
      then finished (cmds.markets args)
      else if text_eq c (codes "version")
      then finished (cmds.version args)
      else if text_eq c (codes "help") || (text_eq c (codes "-h") || text_eq c (codes "--help"))
      then some
          (record { code = exit_ok; stdout = []; flag_text = []; help_shown = true; stderr = [] })
      else some (refused_with (unknown_command c ∷ usage_text ∷ []))
