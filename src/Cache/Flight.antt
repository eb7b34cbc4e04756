-- ===== src/Cache/Flight.antt =====
-- How many fetches cache.go keeps in flight, over every interleaving of its steps.
use tgju_api_go.Common.{
  ℕ, zero, suc, ◌+◌, Bool, true, false, List, [], ◌∷◌, ◌++◌, Option, none, some, ◌≡◌, arith,
  if◌then◌else◌, get_elem?, text_eq,
}
use tgju_api_go.Market.{Market}
use tgju_api_go.Errors.{Result}
use tgju_api_go.Snapshot.{Snapshot}
use tgju_api_go.Cache.{Settled, Cell, Cache, new_cache, set_settled, settle, invalidate, enter}

-- A step of the cache: a caller arrives, a fetch of an entry in flight ends, or entries are dropped.
pub data Step : Cache → Cache → Type 0 where
  arrive : (now : ℕ) (m : Market) (c : Cache) → Step c (enter now m c)
  finish :
      (now id : ℕ) (r : Result Snapshot) (c : Cache) (x : Cell)
      → get_elem? c.cells id ≡ some x
      → x.settled ≡ none
      → Step c (settle now id r c)
  drop : (ms : List Market) (c : Cache) → Step c (invalidate ms c)

-- the runs from a new cache
pub data Reach (ttl : ℕ) : Cache → Type 0 where
  begin : Reach ttl (new_cache ttl)
  next : {c d : Cache} → Reach ttl c → Step c d → Reach ttl d

abbrev pub is_open : Option Settled → Bool
is_open none = true
is_open (some s) = false

abbrev pub flying : Market → Cell → Bool
flying m c = if text_eq c.market m then is_open c.settled else false

abbrev pub one_if : Bool → ℕ
one_if true = 1
one_if false = 0

-- the fetches of a market that are in flight
abbrev pub in_flight : Market → List Cell → ℕ
in_flight m [] = 0
in_flight m (c ∷ cs) = one_if (flying m c) + in_flight m cs

-- whether an invalidation names the market
abbrev pub named : Market → List Market → Bool
named m [] = false
named m (k ∷ ks) = if text_eq k m then true else named m ks

abbrev pub drops_now : Market → List Market → ℕ
drops_now m [] = 1
drops_now m (k ∷ ks) = one_if (named m (k ∷ ks))

-- how often a run has dropped the market's entry
abbrev pub drops_step : {c d : Cache} → Market → Step c d → ℕ
drops_step m (arrive now k c) = 0
drops_step m (finish now id r c x e o) = 0
drops_step m (drop ms c) = drops_now m ms

abbrev pub drops : {ttl : ℕ} {c : Cache} → Market → Reach ttl c → ℕ
drops m begin = 0
drops m (next r s) = drops m r + drops_step m s

pub in_flight-append :
    (m : Market) (cs : List Cell) (x : Cell)
    → in_flight m (cs ++ x ∷ []) ≡ in_flight m cs + one_if (flying m x)
in_flight-append m [] x = omega arith
in_flight-append m (c ∷ cs) x = omega (arith, in_flight-append m cs x)

pub in_flight-settle :
    (m : Market) (cs : List Cell) (id : ℕ) (s : Settled) (x : Cell)
    → get_elem? cs id ≡ some x
    → in_flight m (set_settled cs id s) + one_if (flying m x) ≡ in_flight m cs
in_flight-settle m [] id s x h = cc
in_flight-settle m (c ∷ cs) zero s x h = ground arith
in_flight-settle m (c ∷ cs) (suc id) s x h = omega (arith, in_flight-settle m cs id s x h)
