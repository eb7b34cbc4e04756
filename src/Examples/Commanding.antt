-- ===== src/Examples/Commanding.antt =====
-- The command, on concrete arguments.
use tgju_api_go.Common.{
  ℕ, zero, suc, ◌<◌, true, false, not, List, [], ◌∷◌, Option, none, some, Text, codes, ◌≡◌, ◌↔◌,
  refl, arith, keep, ◌==◌, if◌then◌else◌,
}
use tgju_api_go.Strings.{trim_space}
use tgju_api_go.Floats.{Floats}
use tgju_api_go.Market.{gold}
use tgju_api_go.Errors.{canceled, other, leaf, Result, ok}
use tgju_api_go.Snapshot.{is_empty}
use tgju_api_go.Client.{Round, fetch_all, first_item}
use tgju_api_go.Client
use tgju_api_go.Server.Filter.{Query}
use tgju_api_go.Server.Handlers.{board, served, handle_market}
use tgju_api_go.Command.{Parsed, rest, parse}
use tgju_api_go.Command.Arguments.{Shrinks}
use tgju_api_go.Command.Output.{Output, json_snapshot, write_aligned}
use tgju_api_go.Command.Units.{unit_raw, unit_toman, group, parse_unit}
use tgju_api_go.Command.Units.Group.{in_threes, with_fraction, signed, group_lem}
use tgju_api_go.Command.Output.Aligned.{AreLaid, write_aligned_lem}
use tgju_api_go.Command.Run.{
  GetFlags, ItemFlags, parse_output, get, item, Ran, ran_by, Commands, run,
}
use tgju_api_go.Command.Run.Alike.{get-handle_market}
use tgju_api_go.Command.Serve.{Ending, listened, serve}
use tgju_api_go.Command.Run.Ends.{EndsIn, exit_of, serve_exit, run-exit_of}
use tgju_api_go.Command.Watch.{Poll, WatchFlags, watch}
use tgju_api_go.Command.Watch.Polls.{over_in, lines_before, watch-ends}
use tgju_api_go.Examples
use tgju_api_go.Examples.{some_floats, both_answer, one_fails, some_service}

-- floats that are all printed alike
abbrev priced : Floats
priced = record some_floats { format = λ v. codes "-1234567.5" }

group_lem_example :
    (group priced 7 ≡ with_fraction (signed true (in_threes (codes "1234567"))) (some (codes "5")))
    × (keep (λ c. not (c == b',')) (in_threes (codes "1234567")) ≡ codes "1234567")
group_lem_example = group_lem priced 7 true (codes "1234567") (some (codes "5")) (ground arith) refl

abbrev head_row : List Text
head_row = codes "KEY" ∷ codes "TITLE" ∷ []

abbrev one_row : List (List Text)
one_row = (codes "geram18" ∷ codes "Gold 18" ∷ []) ∷ []

write_aligned_lem_example :
    (t : Text) × (ws : List ℕ) × (write_aligned (head_row ∷ one_row) ≡ some t)
    × AreLaid ws (head_row ∷ one_row) t
write_aligned_lem_example = write_aligned_lem head_row one_row (omega arith, tt)

-- flags that are none: every argument is positional
abbrev no_flags : List Text → Parsed
no_flags args = rest args

no_flags-Shrinks : Shrinks no_flags
no_flags-Shrinks args left h = let e : args ≡ left = cc in rw e (omega arith)

abbrev stamped : ℕ → Text
stamped at = []

abbrev as_json : GetFlags
as_json = record {
  format = codes "json";
  unit = codes "raw";
  keys = codes "sekee, geram18";
  category = codes "Gold";
}

abbrev in_query : Query
in_query = record { category = codes " Gold "; keys = codes "sekee, geram18" }

get-handle_market_example :
    (handle_market some_service (codes "a1") (codes "gold") in_query
      ≡ served some_service (board (Examples.board gold)))
    ↔ (get some_floats stamped no_flags as_json some_service.fetch (codes "gold" ∷ [])
        ≡ some (ran_by (ok (json_snapshot (Examples.board gold)))))
unfolding parse parse_output trim_space is_empty
get-handle_market_example =
    get-handle_market some_floats stamped no_flags some_service as_json unit_raw in_query
      (codes "a1") (codes "gold") (codes "gold" ∷ []) (Examples.board gold) refl refl refl refl refl

abbrev as_table : ItemFlags
as_table = record { format = codes "table"; unit = codes "toman"; market = codes "gold" }

abbrev nothing : List Text → Option (Ran Output)
nothing args = none

-- the address is in use
abbrev address_taken : Ending
address_taken = listened (some (leaf other))

abbrev some_commands : Commands Output
some_commands = record {
  serve = λ args. serve (λ e. false) no_flags address_taken args;
  get = λ args. get some_floats stamped no_flags as_json some_service.fetch args;
  item = λ args. item some_floats stamped no_flags as_table both_answer args;
  watch = nothing;
  markets = nothing;
  version = nothing;
}

run-exit_of_example :
    ((a : Ran Output) × (run some_commands (codes "get" ∷ codes "gold" ∷ []) ≡ some (exit_of a))
      × EndsIn no_flags (codes "gold" ∷ []) a)
    × ((b : Ran Output) × (run some_commands (codes "item" ∷ codes "gold" ∷ []) ≡ some (exit_of b))
        × EndsIn no_flags (codes "gold" ∷ []) b)
    × ((c : Result (List Text)) × (parse no_flags (codes "gold" ∷ []) ≡ some c)
        × (run some_commands (codes "serve" ∷ codes "gold" ∷ [])
            ≡ some (serve_exit (λ e. false) address_taken c)))
run-exit_of_example =
    run-exit_of some_floats stamped no_flags some_commands as_json as_table some_service.fetch
      both_answer (λ e. false) address_taken no_flags-Shrinks (λ args. refl) (λ args. refl)
      (λ args. refl) (codes "gold" ∷ [])

-- the item is found in the first two rounds, and not in the third, behind which the context has ended
abbrev three_polls : ℕ → Poll
three_polls i = record {
  clock = codes "12:30:00";
  round = if i == 2 then one_fails else both_answer;
  ended = some (leaf canceled);
  stopped = none;
}

abbrev each_minute : WatchFlags
each_minute = record { interval = 60_000_000_000; unit = codes "toman"; all = false }

quiet_polls :
    (j : ℕ) → j < 2 → over_in some_floats unit_toman false (codes "geram18") three_polls j ≡ none
unfolding Client.item
quiet_polls zero h = refl
quiet_polls (suc zero) h = refl
quiet_polls (suc (suc j)) h = absurd (omega arith)

watch-ends_example :
    watch some_floats no_flags each_minute three_polls 5 (codes "geram18" ∷ [])
    ≡ some (record {
      printed = lines_before some_floats unit_toman false (codes "geram18") three_polls 3;
      flag_text = [];
      failure = some (leaf canceled);
    })
unfolding parse parse_unit Client.item
watch-ends_example =
    watch-ends some_floats no_flags each_minute three_polls (codes "geram18" ∷ []) (codes "geram18")
      unit_toman 2 5 (leaf canceled) refl refl refl quiet_polls refl (omega arith)
