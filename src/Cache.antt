-- ===== src/Cache.antt =====
-- cache.go. An entry is a cell of a heap that only grows, known by its index, and the map holds
-- indices. Every step below runs under the mutex. The entry's fields are written and its channel is
-- closed in one step, since nobody reads the fields before. Times are nanoseconds.
pub mod Callers
pub mod Owners
pub mod Flight
pub mod Collapse
pub mod Fresh
use tgju_api_go.Common.{
  ℕ, zero, suc, ◌+◌, Bool, true, false, List, [], ◌∷◌, ◌++◌, Option, none, some, ltb, min,
  if◌then◌else◌, is_nil, length, get_elem?, text_eq, ◌||◌, any,
}
use tgju_api_go.Market.{Market}
use tgju_api_go.Errors.{Err, Result, ok, err}
use tgju_api_go.Snapshot.{Snapshot}

-- what a fetch came to, and when that expires
pub record Settled : Type 0 where
  pub outcome : Result Snapshot
  pub expires : ℕ

-- an entry, with the market that it was made for; `none` while it is in flight
pub record Cell : Type 0 where
  pub market : Market
  pub settled : Option Settled

pub record Cache : Type 0 where
  pub ttl : ℕ
  pub entries : List (Market × ℕ)
  pub cells : List Cell

unfoldable pub new_cache : ℕ → Cache
new_cache ttl = record { ttl = ttl; entries = []; cells = [] }

unfoldable pub lookup_entry : Market → List (Market × ℕ) → Option ℕ
unfolding text_eq
lookup_entry m [] = none
lookup_entry m ((k, id) ∷ es) = if text_eq k m then some id else lookup_entry m es

unfoldable pub delete_entry : Market → List (Market × ℕ) → List (Market × ℕ)
unfolding text_eq
delete_entry m [] = []
delete_entry m ((k, id) ∷ es) =
    if text_eq k m then delete_entry m es else (k, id) ∷ delete_entry m es

-- what a caller does that has read the map under the lock
pub data Decision : Type 0 where
  hit : Result Snapshot → Decision
  wait : ℕ → Decision
  lead : Decision

abbrev pub decide_settled : ℕ → Settled → Decision
decide_settled now s = if ltb now s.expires then hit s.outcome else lead

abbrev pub decide_cell : ℕ → ℕ → Option Cell → Decision
decide_cell now id none = lead
decide_cell now id (some c) = elim c.settled [ none ↦ wait id | some s ↦ decide_settled now s ]

abbrev pub decide_entry : ℕ → List Cell → Option ℕ → Decision
decide_entry now cells none = lead
decide_entry now cells (some id) = decide_cell now id (get_elem? cells id)

-- the switch of `do`
unfoldable pub decide : ℕ → Market → Cache → Decision
unfolding lookup_entry
decide now m c = decide_entry now c.cells (lookup_entry m c.entries)

-- a new entry in flight, put into the map
unfoldable pub start : Market → Cache → Cache
unfolding delete_entry
start m c = record c {
  entries = (m, length c.cells) ∷ delete_entry m c.entries;
  cells = c.cells ++ record { market = m; settled = none } ∷ [];
}

abbrev pub failure_ttl : ℕ
failure_ttl = 2_000_000_000

abbrev pub lifetime : ℕ → Result Snapshot → ℕ
lifetime ttl (ok s) = ttl
lifetime ttl (err e) = min ttl failure_ttl

abbrev pub set_settled : List Cell → ℕ → Settled → List Cell
set_settled [] id s = []
set_settled (c ∷ cs) zero s = record c { settled = some s } ∷ cs
set_settled (c ∷ cs) (suc id) s = c ∷ set_settled cs id s

-- the end of the fetching goroutine
unfoldable pub settle : ℕ → ℕ → Result Snapshot → Cache → Cache
settle now id r c = record c {
  cells = set_settled c.cells id (record { outcome = r; expires = now + lifetime c.ttl r });
}

unfoldable pub delete_all : List Market → List (Market × ℕ) → List (Market × ℕ)
unfolding delete_entry
delete_all [] es = es
delete_all (m ∷ ms) es = delete_all ms (delete_entry m es)

unfoldable pub invalidate : List Market → Cache → Cache
unfolding delete_all
invalidate ms c = record c { entries = if is_nil ms then [] else delete_all ms c.entries }

-- a caller that arrives: it starts a fetch if it leads
abbrev pub enter_by : Market → Cache → Decision → Cache
enter_by m c (hit r) = c
enter_by m c (wait id) = c
enter_by m c lead = start m c

unfoldable pub enter : ℕ → Market → Cache → Cache
unfolding decide start
enter now m c = enter_by m c (decide now m c)

-- A call of `do` in progress: about to take the lock, waiting for another's fetch, waiting for its
-- own, or back with its three results.
pub data Caller : Type 0 where
  at_lock : Caller
  waiting leading : ℕ → Caller
  done : Result Snapshot → Bool → Caller

abbrev pub decided : ℕ → Decision → Caller
decided id (hit r) = done r true
decided id (wait w) = waiting w
decided id lead = leading id

-- the outcome of an entry whose channel is closed
abbrev pub outcome_of : Option Cell → Option (Result Snapshot)
outcome_of none = none
outcome_of (some c) = elim c.settled [ none ↦ none | some s ↦ some s.outcome ]

-- One step of a call: `ended` is the context's error when the select takes its case.
unfoldable pub caller_step : ℕ → Market → Option Err → Cache → Caller → Caller × Cache
unfolding enter
caller_step now m ended c at_lock = (decided (length c.cells) (decide now m c), enter now m c)
caller_step now m (some e) c (waiting id) = (done (err e) false, c)
caller_step now m none c (waiting id) = elim (outcome_of (get_elem? c.cells id)) [
  | none ↦ (waiting id, c)
  | some r ↦ (at_lock, c)
]
caller_step now m (some e) c (leading id) = (done (err e) false, c)
caller_step now m none c (leading id) = elim (outcome_of (get_elem? c.cells id)) [
  | none ↦ (leading id, c)
  | some r ↦ (done r false, c)
]
caller_step now m ended c (done r b) = (done r b, c)
