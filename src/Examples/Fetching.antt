-- ===== src/Examples/Fetching.antt =====
-- Runs of the transport, of the cache and of the client.
use tgju_api_go.Errors.Wording.{error_text}
use tgju_api_go.Common.{
  false, true, ℕ, ◌+◌, ◌≤◌, ◌<◌, List, [], ◌∷◌, none, some, codes, ◌≡◌, refl, arith, All, length,
  get_elem?,
}
use tgju_api_go.Market.{Market, gold, coin, valid}
use tgju_api_go.Errors.{ok, err, fetching}
use tgju_api_go.Snapshot.{Snapshot}
use tgju_api_go.Transport.{Body, answered, try, retryable, get, default_retry}
use tgju_api_go.Transport.Request.{try_sound}
use tgju_api_go.Transport.Retry.{IsQuiet, Retries, Decides, GivesUp, get-Decides, get_exhausts}
use tgju_api_go.Transport.Backoff.{pauses_of, pauses_bounded}
use tgju_api_go.Cache.{
  Cache, new_cache, decide, settle, start, invalidate, enter, caller_step, waiting, leading,
  at_lock, done,
}
use tgju_api_go.Cache.Fresh.{start-InFlight}
use tgju_api_go.Cache.Flight.{Reach, begin, next, arrive, drop, in_flight, drops}
use tgju_api_go.Cache.Collapse.{in_flight-le}
use tgju_api_go.Client.{Call, fetch, source_of, load, fetch_all, snapshot_of, item}
use tgju_api_go.Client.Load.{Ends, load_lem}
use tgju_api_go.Client.Together.{Among, fetch_all-ok}
use tgju_api_go.Examples.{
  broken, some_floats, some_html, some_config, recovering, silent, both_answer, two_markets, board,
}
use tgju_api_go.Cache.Callers.{caller_step-caller_step}
use tgju_api_go.Client.Cached.{led, fetch-fetch}
use tgju_api_go.Client.Lookup.{searched, item_lem}

load_lem_example :
    Ends some_floats some_html some_config gold 7
      (get default_retry 100 gold (source_of some_floats some_html some_config gold) recovering)
      (load some_floats some_html some_config gold recovering 7)
load_lem_example = load_lem some_floats some_html some_config gold 7 recovering

recovering-IsQuiet : IsQuiet recovering
recovering-IsQuiet = record { pause = λ k. refl; after = λ k. refl }

silent-IsQuiet : IsQuiet silent
silent-IsQuiet = record { pause = λ k. refl; after = λ k. refl }

silent-Retries : (k : ℕ) → Retries (try 100 (silent.exchange k))
unfolding try retryable
silent-Retries k = (_, refl, refl)

recovering-Retries : (k : ℕ) → k ≡ 1 → Retries (try 100 (recovering.exchange k))
unfolding try retryable
recovering-Retries k h = rw h (_, refl, refl)

get-Decides_example :
    Decides default_retry 100 gold [] recovering 2 (get default_retry 100 gold [] recovering)
get-Decides_example =
    get-Decides default_retry 100 gold [] recovering recovering-IsQuiet 1 (omega arith)
      (λ i lt. recovering-Retries (1 + i) (omega arith))

get_exhausts_example :
    GivesUp default_retry 100 gold [] silent 3 (get default_retry 100 gold [] silent)
get_exhausts_example =
    get_exhausts default_retry 100 gold [] silent silent-IsQuiet (λ i lt. silent-Retries (1 + i))

try_sound_example :
    (b : Body) × (answered 200 (1 ∷ 2 ∷ []) none ≡ answered 200 b none)
    × (length b ≤ 2)
    × ((try 2 (answered 200 (1 ∷ 2 ∷ []) none)).body ≡ b)
unfolding try
try_sound_example = try_sound 2 (answered 200 (1 ∷ 2 ∷ []) none) (omega arith) refl

pauses_bounded_example :
    All (λ d. d ≤ 2_000_000_000) (pauses_of (get default_retry 100 gold [] silent))
pauses_bounded_example =
    pauses_bounded default_retry 100 gold [] silent 2_000_000_000 (omega arith) (omega arith)
      (omega arith) (omega arith)

-- a caller comes, the entry is dropped while it is in flight, and another caller comes
abbrev after_first : Cache
after_first = enter 0 gold (new_cache 30)

abbrev dropped : Cache
dropped = invalidate [] after_first

abbrev busy : Reach 30 (enter 1 gold dropped)
busy =
    next (next (next begin (arrive 0 gold (new_cache 30))) (drop [] after_first))
      (arrive 1 gold dropped)

in_flight-le_example : in_flight gold (enter 1 gold dropped).cells ≤ drops gold busy + 1
in_flight-le_example = in_flight-le gold busy

all_end : (j : ℕ) → j < 2 → Among j (1 ∷ 0 ∷ [])
all_end j h = ground arith

abbrev both_boards : List (Market × Snapshot)
both_boards = (gold, board gold) ∷ (coin, board coin) ∷ []

fetch_all-ok_example :
    (s : Snapshot) × (snapshot_of coin both_boards ≡ some s)
    × (j : ℕ) × (get_elem? two_markets j ≡ some coin)
    × (both_answer.outcome j coin ≡ ok s)
unfolding fetch_all
fetch_all-ok_example =
    fetch_all-ok both_answer two_markets both_boards 1 coin refl all_end (omega arith) refl

item_lem_example :
    item both_answer (codes "geram18") two_markets
    ≡ searched (codes "geram18") two_markets (fetch_all both_answer two_markets)
item_lem_example = item_lem both_answer (codes "geram18") two_markets (λ e. cc)

abbrev first_call : Call
first_call = record { now = 0; end = 5; loaded = ok (board gold); ended = broken; gives_up = true }

abbrev later_call : Call
later_call = record { now = 9; end = 11; loaded = err broken; ended = broken; gives_up = false }

fetch-fetch_example :
    (fetch gold first_call (new_cache 30) ≡ (err broken, led gold first_call (new_cache 30)))
    × (fetch gold later_call (led gold first_call (new_cache 30))
        ≡ (ok (board gold), led gold first_call (new_cache 30)))
unfolding valid decide new_cache
fetch-fetch_example = fetch-fetch gold first_call later_call (new_cache 30) refl refl refl refl

-- a market with one fetch in flight, and the cache once that has ended
abbrev flight : Cache
flight = start gold (new_cache 30)

abbrev landed : Cache
landed = settle 5 0 (ok (board gold)) flight

caller_step-caller_step_example :
    (caller_step 1 gold none flight (waiting 0) ≡ (waiting 0, flight))
    × (caller_step 1 gold none flight (leading 0) ≡ (leading 0, flight))
    × (caller_step 1 gold (some broken) flight (waiting 0) ≡ (done (err broken) false, flight))
    × (caller_step 1 gold (some broken) flight (leading 0) ≡ (done (err broken) false, flight))
    × (caller_step 9 gold none landed (leading 0) ≡ (done (ok (board gold)) false, landed))
    × (caller_step 9 gold none landed (waiting 0) ≡ (at_lock, landed))
    × (caller_step 9 gold none landed at_lock ≡ (done (ok (board gold)) true, landed))
unfolding new_cache start
caller_step-caller_step_example =
    caller_step-caller_step gold 0 (start gold (new_cache 30)) (start-InFlight gold (new_cache 30))
      1 5 9 broken (ok (board gold)) refl

bad_gateway_text :
    error_text
      (λ n. codes "Bad Gateway")
      (record {
        op = fetching;
        market = gold;
        url = codes "https://www.tgju.org/gold-chart";
        status_code = 502;
        attempts = 3;
      })
      (codes "unexpected status")
    ≡ codes "tgju: gold: fetch (status 502 Bad Gateway) after 3 attempts: unexpected status"
unfolding error_text
bad_gateway_text = refl
