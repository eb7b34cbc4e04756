-- ===== src/Cache/Owners.antt =====
-- Cells that are added and settled, and the entries that own them, for cache.go.
use tgju_api_go.Common.{
  ℕ, zero, suc, ◌+◌, ◌≤◌, Bool, true, false, List, [], ◌∷◌, ◌++◌, Option, none, some, ◌≡◌, ◌≢◌,
  refl, ap, ◌∙◌, arith, get_elem?, get_elem?-append, text_eq_refl,
}
use native.Mathlib.Decide.{ℕ_discrete}
use tgju_api_go.Market.{Market}
use tgju_api_go.Cache.{Settled, Cell, set_settled}
use tgju_api_go.Cache.Fresh.{get-set_same}
use tgju_api_go.Cache.Flight.{is_open, flying, one_if, in_flight, in_flight-settle}

abbrev pub open_cell : Option Cell → Bool
open_cell none = false
open_cell (some x) = is_open x.settled

abbrev pub open_entry : List Cell → Option ℕ → Bool
open_entry cells none = false
open_entry cells (some id) = open_cell (get_elem? cells id)

abbrev pub Owns : Market → List Cell → Option ℕ → Type 0
Owns m cells none = Unit
Owns m cells (some id) = (x : Cell) × (get_elem? cells id ≡ some x) × (x.market ≡ m)

pub get-set_ne :
    (cs : List Cell) (i j : ℕ) (s : Settled)
    → i ≢ j
    → get_elem? (set_settled cs i s) j ≡ get_elem? cs j
get-set_ne [] i j s h = refl
get-set_ne (c ∷ cs) zero zero s h = absurd (h refl)
get-set_ne (c ∷ cs) zero (suc j) s h = refl
get-set_ne (c ∷ cs) (suc i) zero s h = refl
get-set_ne (c ∷ cs) (suc i) (suc j) s h = get-set_ne cs i j s (λ e. h (ap suc e))

pub flying_one : (m : Market) (x : Cell) → x.market ≡ m → x.settled ≡ none → one_if (flying m x) ≡ 1
flying_one m x k e = rw (k, e) (rw (text_eq_refl m))

pub one_if_le : (b : Bool) → one_if b ≤ 1
one_if_le true = omega arith
one_if_le false = omega arith

-- the cells with one more in flight behind them
module _ (m : Market) (cells : List Cell) (x : Cell) where
  pub Owns-append : (o : Option ℕ) → Owns m cells o → Owns m (cells ++ x ∷ []) o
  Owns-append none h = tt
  Owns-append (some id) (y, e, k) = (y, get_elem?-append cells x id e, k)

  pub open-append :
      (o : Option ℕ) → Owns m cells o → open_entry (cells ++ x ∷ []) o ≡ open_entry cells o
  open-append none h = refl
  open-append (some id) (y, e, k) = rw (get_elem?-append cells x id e) (rw e)

-- one cell settled
module _ (m : Market) (cells : List Cell) (id : ℕ) (x : Cell) (s : Settled)
    (at : get_elem? cells id ≡ some x) (flies : x.settled ≡ none) where
  pub Owns-settle : (o : Option ℕ) → Owns m cells o → Owns m (set_settled cells id s) o
  Owns-settle none h = tt
  Owns-settle (some j) (y, e, k) = elim (ℕ_discrete id j) [
    | yes same ↦
        (record y { settled = some s }, rw (← same) (get-set_same cells id y s (rw same e)), k)
    | no other ↦ (y, get-set_ne cells id j s other ∙ e, k)
  ]

  market_of : (y : Cell) → get_elem? cells id ≡ some y → y.market ≡ m → x.market ≡ m
  market_of y e k = let same : x ≡ y = cc in rw same k

  landed :
      (n : ℕ) (o : Option ℕ)
      → x.market ≡ m
      → in_flight m cells ≤ n + one_if (open_entry cells o)
      → in_flight m (set_settled cells id s) ≤ n + one_if (open_entry (set_settled cells id s) o)
  landed n o k b = omega (
    arith,
    in_flight-settle m cells id s x at,
    flying_one m x k flies,
    one_if_le (open_entry cells o),
  )

  pub bound-settle :
      (n : ℕ) (o : Option ℕ)
      → Owns m cells o
      → in_flight m cells ≤ n + one_if (open_entry cells o)
      → in_flight m (set_settled cells id s) ≤ n + one_if (open_entry (set_settled cells id s) o)
  bound-settle n none h b = omega (arith, in_flight-settle m cells id s x at)
  bound-settle n (some j) (y, e, k) b = elim (ℕ_discrete id j) [
    | yes same ↦ landed n (some j) (market_of y (rw same e) k) b
    | no other ↦
        rw (get-set_ne cells id j s other) (omega (arith, in_flight-settle m cells id s x at))
  ]
