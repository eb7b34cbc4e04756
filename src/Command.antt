-- ===== src/Command.antt =====
-- cmd/tgju: the exit codes of main.go, the filter of commands.go, and isUpstream and the loop over the
-- arguments of flags.go. The package flag is a parameter.
pub mod Exit
pub mod Alike
pub mod Arguments
pub mod Units
pub mod Output
pub mod Flags
pub mod Run
pub mod Serve
pub mod Version
pub mod Watch
use tgju_api_go.Common.{
  ℕ, zero, suc, ◌+◌, Bool, true, false, not, List, [], ◌∷◌, ◌++◌, Option, none, some, Text, codes,
  ◌&&◌, ◌||◌, any, if◌then◌else◌, is_nil, text_eq, length, ◌==◌,
}
use tgju_api_go.Errors.{
  Kind, canceled, usage, help, Err, leaf, wrap, cons, nil, wrap_both, is, Op, fetching, parsing,
  looking_up, Detail, as_rich, Result, ok, err,
}
use tgju_api_go.Snapshot.{Item, Category}

abbrev pub exit_ok : ℕ
exit_ok = 0

abbrev pub exit_failure : ℕ
exit_failure = 1

abbrev pub exit_usage : ℕ
exit_usage = 2

abbrev pub exit_upstream : ℕ
exit_upstream = 3

abbrev pub is_lookup : Op → Bool
is_lookup looking_up = true
is_lookup _ = false

abbrev pub is_upstream_by : Option Detail → Bool
is_upstream_by none = false
is_upstream_by (some d) = not (is_lookup d.op)

unfoldable pub is_upstream : Err → Bool
unfolding as_rich
is_upstream e = is_upstream_by (as_rich e)

-- the second switch of `run`, on the error of a command
unfoldable pub exit_code : Option Err → ℕ
unfolding is is_upstream
exit_code none = exit_ok
exit_code (some e) =
    if is help e
    then exit_ok
    else if is canceled e
    then exit_ok
    else if is usage e
    then exit_usage
    else if is_upstream e
    then exit_upstream
    else exit_failure

-- `wanted[k]`, of the map that the loop over the keys fills
unfoldable pub wants : List Text → Text → Bool
unfolding text_eq
wants keys k = any (λ t. text_eq t k) keys

unfoldable pub keep_wanted : List Text → List Item → List Item → List Item
unfolding wants
keep_wanted keys kept [] = kept
keep_wanted keys kept (i ∷ is) =
    if wants keys i.key then keep_wanted keys (kept ++ i ∷ []) is else keep_wanted keys kept is

-- one round of the loop over the categories
unfoldable pub add_category : Text → List Text → List Category → Category → List Category
unfolding keep_wanted text_eq
add_category title keys out c =
    if not (is_nil title) && not (text_eq c.title title)
    then out
    else if is_nil keys
    then out ++ c ∷ []
    else if is_nil (keep_wanted keys [] c.items)
    then out
    else out ++ record { title = c.title; items = keep_wanted keys [] c.items } ∷ []

unfoldable pub add_categories : Text → List Text → List Category → List Category → List Category
unfolding add_category
add_categories title keys out [] = out
add_categories title keys out (c ∷ cs) =
    add_categories title keys (add_category title keys out c) cs

unfoldable pub filter : List Category → Text → List Text → List Category
unfolding add_categories
filter cs title keys = if is_nil title && is_nil keys then cs else add_categories title keys [] cs

-- flag.FlagSet.Parse and Args: the arguments that are left, which are no more than there were
pub data Parsed : Type 0 where
  refused : Err → Parsed
  rest : List Text → Parsed

-- the errors of `parse`; flag.ErrHelp is `help`
abbrev pub parse_err : Err → Err
parse_err e = if is help e then leaf help else wrap_both usage e

module _ (flags : List Text → Parsed) where
  -- The loop of `parse`, on fuel; `none` when that runs out.
  abbrev pub parse_rest :
      List Text
      → Parsed
      → (List Text → List Text → Option (Result (List Text)))
      → Option (Result (List Text))
  parse_rest positional (refused e) go = some (err (parse_err e))
  parse_rest positional (rest []) go = some (ok positional)
  parse_rest positional (rest (a ∷ more)) go = go (positional ++ a ∷ []) more

  unfoldable pub parse_from : ℕ → List Text → List Text → Option (Result (List Text))
  parse_from zero positional args = none
  parse_from (suc n) positional args = parse_rest positional (flags args) (parse_from n)

  unfoldable pub parse : List Text → Option (Result (List Text))
  unfolding parse_from
  parse args = parse_from (suc (length args)) [] args
