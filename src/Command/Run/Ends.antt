-- ===== src/Command/Run/Ends.antt =====
-- `run` of cmd/tgju/main.go with `get` and `item` of commands.go and `serve` of serve.go: they end without
-- a panic, with one output or an error.
use tgju_api_go.Common.{
  IsSome, ℕ, Bool, true, false, List, [], ◌∷◌, Option, none, some, Text, codes, ◌≡◌, refl, ap, ◌∙◌,
  if◌then◌else◌, ◌⊎◌, inl, inr,
}
use tgju_api_go.Floats.{Floats}
use tgju_api_go.Market.{Market, parse_market}
use tgju_api_go.Errors.{not_found, Err, Result, ok, err}
use tgju_api_go.Snapshot.{Snapshot, is_empty}
use tgju_api_go.Client.{Round, wrap_one}
use tgju_api_go.Client
use tgju_api_go.Command.{Parsed, parse, exit_code}
use tgju_api_go.Command.Arguments.{Shrinks, parse_total}
use tgju_api_go.Command.Serve.{Ending, serve_end, serve}
use tgju_api_go.Command.Output.{Output, write_snapshot, write_item}
use tgju_api_go.Command.Units.{Format, PriceUnit}
use tgju_api_go.Command.Output.Written.{write_snapshot-IsSome, write_item-IsSome}
use tgju_api_go.Command.Run.{
  with_arguments, only_argument, known, parse_output, restricted, GetFlags, ItemFlags, kept,
  written, print_kept, get, item, ran, ran_by, refused_by, Ran, flag_usage, complaints, Exit,
  Commands, finished, run, ◌>>=◌,
}

>>=-IsSome {ℓ κ} :
    {A : Type ℓ} {B : Type κ} (r : Result A) (f : A → Option (Result B))
    → ((a : A) → IsSome (f a))
    → IsSome (r >>= f)
>>=-IsSome (err e) f h = (err e, refl)
>>=-IsSome (ok a) f h = h a

if-IsSome {ℓ} :
    {A : Type ℓ} (b : Bool) (x y : Option A) → IsSome x → IsSome y → IsSome (if b then x else y)
if-IsSome true x y h k = h
if-IsSome false x y h k = k

written-IsSome : (o : Option Output) → IsSome o → IsSome (written o)
written-IsSome none h = absurd (cc h.1)
written-IsSome (some o) h = (ok o, refl)

-- One output and no error, or an error and none; package flag's text is that of an error that it has
-- from the arguments.
abbrev pub EndsIn : (List Text → Parsed) → List Text → Ran Output → Type 0
EndsIn flags args a =
    ((o : Output) × (a ≡ ran_by (ok o)))
    ⊎ ((e : Err) × ((a ≡ ran_by (err e))
          ⊎ ((a ≡ refused_by e) × (parse flags args ≡ some (err e)))))

module _ (fl : Floats) (stamp : ℕ → Text) (flags : List Text → Parsed)
    (shrinks : Shrinks flags) where
  print_kept-IsSome :
      (out : Format × PriceUnit) (s : Snapshot) → IsSome (print_kept fl stamp flags out s)
  print_kept-IsSome out s =
      if-IsSome (is_empty s) _ _ (err (wrap_one not_found), refl)
        (written-IsSome (write_snapshot fl stamp out.0 out.1 s)
          (write_snapshot-IsSome fl out.1 stamp out.0 s))

  -- Where package flag takes the arguments, the command comes to an output or an error.
  taken-Ends :
      (args : List Text) (f : List Text → Option (Result Output))
      → ((ps : List Text) → IsSome (f ps))
      → (a : Ran Output) × (with_arguments (parse flags args) f ≡ some a) × EndsIn flags args a
  taken-Ends args f h = by_result (parse_total flags shrinks args)
    where
      taken : (r : Result Output) → EndsIn flags args (ran_by r)
      taken (ok o) = inl (o, refl)
      taken (err e) = inr (e, inl refl)

      by_result :
          (r : Result (List Text)) × (parse flags args ≡ some r)
          → (a : Ran Output) × (with_arguments (parse flags args) f ≡ some a) × EndsIn flags args a
      by_result (err e, p) = (refused_by e, ap (λ r. with_arguments r f) p, inr (e, inr (refl, p)))
      by_result (ok ps, p) =
          (ran_by (h ps).0, ap (λ r. with_arguments r f) p ∙ ap ran (h ps).1, taken (h ps).0)

  get-EndsIn :
      (v : GetFlags) (fetch : Market → Result Snapshot) (args : List Text)
      → (a : Ran Output) × (get fl stamp flags v fetch args ≡ some a) × EndsIn flags args a
  unfolding get
  get-EndsIn v fetch args = taken-Ends args _ λ ps. >>=-IsSome (only_argument ps) _ λ name.
      >>=-IsSome (known (parse_market name)) _ λ m.
        >>=-IsSome (parse_output v.format v.unit) _
          λ out. >>=-IsSome (fetch m) _ λ snap. print_kept-IsSome out (kept v snap)

  item-EndsIn :
      (v : ItemFlags) (r : Round) (args : List Text)
      → (a : Ran Output) × (item fl stamp flags v r args ≡ some a) × EndsIn flags args a
  unfolding item
  item-EndsIn v r args = taken-Ends args _ λ ps. >>=-IsSome (only_argument ps) _ λ key.
      >>=-IsSome (parse_output v.format v.unit) _ λ out. >>=-IsSome (restricted v.market) _ λ ms.
        >>=-IsSome (Client.item r key ms) _ λ found.
          written-IsSome (write_item fl out.0 out.1 found) (write_item-IsSome fl out.1 out.0 found)

-- What `run` comes to behind a command that writes to stdout: the code of its error and, unless that
-- is help or the end of the context, the error on stderr.
abbrev pub exit_of : Ran Output → Exit Output
exit_of a = record {
  code = exit_code a.failure;
  stdout = a.printed;
  flag_text = a.flag_text;
  help_shown = false;
  stderr = complaints a.failure;
}

-- what it comes to behind `serve`, whose package flag writes to stderr
abbrev pub serve_exit : (Err → Bool) → Ending → Result (List Text) → Exit Output
serve_exit is_closed x (err e) = record {
  code = exit_code (some e);
  stdout = [];
  flag_text = [];
  help_shown = false;
  stderr = flag_usage e ∷ complaints (some e);
}
serve_exit is_closed x (ok positional) = record {
  code = exit_code (serve_end is_closed x);
  stdout = [];
  flag_text = [];
  help_shown = false;
  stderr = complaints (serve_end is_closed x);
}

run_get_eq :
    (cmds : Commands Output) (args : List Text) (a : Ran Output)
    → cmds.get args ≡ some a
    → run cmds (codes "get" ∷ args) ≡ some (exit_of a)
unfolding run finished exit_code complaints
run_get_eq cmds args a h = rw h refl

run_item_eq :
    (cmds : Commands Output) (args : List Text) (a : Ran Output)
    → cmds.item args ≡ some a
    → run cmds (codes "item" ∷ args) ≡ some (exit_of a)
unfolding run finished exit_code complaints
run_item_eq cmds args a h = rw h refl

run_serve_eq :
    (cmds : Commands Output) (is_closed : Err → Bool) (flags : List Text → Parsed) (x : Ending)
    (args : List Text) (r : Result (List Text))
    → cmds.serve args ≡ serve is_closed flags x args
    → parse flags args ≡ some r
    → run cmds (codes "serve" ∷ args) ≡ some (serve_exit is_closed x r)
unfolding run finished serve
run_serve_eq cmds is_closed flags x args (err e) s h = rw (s, h) refl
run_serve_eq cmds is_closed flags x args (ok positional) s h = rw (s, h) refl

-- When package flag leaves no more arguments than it gets, `tgju get`, `tgju item` and `tgju serve` end
-- without a panic, whatever the client gives and however serving ends. Each of the first two prints one
-- output and exits with the code of success, or prints none and exits with the code of its error; package
-- flag writes to stdout only where it does not take their arguments, for the error of which they exit.
-- `tgju serve` prints nothing to stdout, and exits with the code of the error of its arguments, which
-- package flag writes to stderr, or else of listening or of shutting down.
pub run-exit_of :
    (fl : Floats) (stamp : ℕ → Text) (flags : List Text → Parsed) (cmds : Commands Output)
    (v : GetFlags) (w : ItemFlags) (fetch : Market → Result Snapshot) (r : Round)
    (is_closed : Err → Bool) (x : Ending)
    → Shrinks flags
    → ((args : List Text) → cmds.get args ≡ get fl stamp flags v fetch args)
    → ((args : List Text) → cmds.item args ≡ item fl stamp flags w r args)
    → ((args : List Text) → cmds.serve args ≡ serve is_closed flags x args)
    → (args : List Text)
    → ((a : Ran Output) × (run cmds (codes "get" ∷ args) ≡ some (exit_of a)) × EndsIn flags args a)
      × ((b : Ran Output) × (run cmds (codes "item" ∷ args) ≡ some (exit_of b))
          × EndsIn flags args b)
      × ((c : Result (List Text)) × (parse flags args ≡ some c)
          × (run cmds (codes "serve" ∷ args) ≡ some (serve_exit is_closed x c)))
run-exit_of fl stamp flags cmds v w fetch r is_closed x shrinks gets items serves args =
    let a = get-EndsIn fl stamp flags shrinks v fetch args in
    let b = item-EndsIn fl stamp flags shrinks w r args in
    let c = parse_total flags shrinks args in
    (
      (a.0, run_get_eq cmds args a.0 (gets args ∙ a.1), a.2),
      (b.0, run_item_eq cmds args b.0 (items args ∙ b.1), b.2),
      (c.0, c.1, run_serve_eq cmds is_closed flags x args c.0 (serves args) c.1),
    )
