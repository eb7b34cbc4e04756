-- ===== src/Cache/Fresh.antt =====
-- How long an entry of cache.go is served.
use tgju_api_go.Common.{
  ℕ, zero, suc, ◌+◌, List, [], ◌∷◌, none, some, ◌≡◌, refl, ap, ◌∙◌, arith, ltb, if◌then◌else◌,
  length, get_elem?, get_elem?-length, text_eq, text_eq_refl, text_eq_iff,
}
use tgju_api_go.Market.{Market}
use tgju_api_go.Errors.{Result}
use tgju_api_go.Snapshot.{Snapshot}
use tgju_api_go.Cache.{
  Settled, Cell, Cache, lookup_entry, delete_entry, hit, wait, lead, decide_entry, decide, start,
  lifetime, set_settled, settle, invalidate,
}

pub lookup-delete :
    (m k : Market) (es : List (Market × ℕ))
    → lookup_entry m (delete_entry k es) ≡ (if text_eq k m then none else lookup_entry m es)
unfolding lookup_entry delete_entry
lookup-delete m k [] = ground arith
lookup-delete m k ((j, id) ∷ es) =
    ground (
      arith,
      text_eq_iff j k,
      text_eq_iff k m,
      text_eq_iff j m,
      text_eq_refl m,
      lookup-delete m k es,
    )

-- the market's entry is `id`, and it is in flight
pub record InFlight (m : Market) (id : ℕ) (c : Cache) : Type 0 where
  pub entry : lookup_entry m c.entries ≡ some id
  pub cell : get_elem? c.cells id ≡ some (record { market = m; settled = none })

pub get-set_same :
    (cs : List Cell) (id : ℕ) (x : Cell) (s : Settled)
    → get_elem? cs id ≡ some x
    → get_elem? (set_settled cs id s) id ≡ some (record x { settled = some s })
get-set_same [] id x s h = cc
get-set_same (y ∷ cs) zero x s h = ground arith
get-set_same (y ∷ cs) (suc id) x s h = get-set_same cs id x s h

pub decide_eq :
    (now : ℕ) (m : Market) (c : Cache)
    → decide now m c ≡ decide_entry now c.cells (lookup_entry m c.entries)
unfolding decide
decide_eq now m c = refl

lookup-invalidate : (m : Market) (c : Cache) → lookup_entry m (invalidate (m ∷ []) c).entries ≡ none
lookup-invalidate m c = unfold invalidate in (lookup-delete m m c.entries ∙ (rw (text_eq_refl m)))

decide-invalidate : (now : ℕ) (m : Market) (c : Cache) → decide now m (invalidate (m ∷ []) c) ≡ lead
decide-invalidate now m c =
    decide_eq now m (invalidate (m ∷ []) c)
    ∙ ap (decide_entry now (invalidate (m ∷ []) c).cells) (lookup-invalidate m c)

module _ (m : Market) (id : ℕ) (c : Cache) (f : InFlight m id c) where
  decide_in_flight : (now : ℕ) → decide now m c ≡ wait id
  decide_in_flight now = decide_eq now m c ∙ (rw f.entry (rw f.cell))

  decide-settle :
      (at now : ℕ) (r : Result Snapshot)
      → decide now m (settle at id r c) ≡ (if ltb now (at + lifetime c.ttl r) then hit r else lead)
  decide-settle at now r =
      decide_eq now m (settle at id r c)
      ∙ (unfold settle in rw f.entry (rw (get-set_same c.cells id _ _ f.cell)))

  -- While an entry is in flight its market's callers wait for it; once settled it is served until
  -- its lifetime has passed, the whole TTL or at most the failure TTL; and then, or when it is
  -- dropped, the next caller fetches again.
  pub decide_cycle :
      (before at now : ℕ) (r : Result Snapshot)
      → (decide before m c ≡ wait id)
        × (decide now m (settle at id r c)
            ≡ (if ltb now (at + lifetime c.ttl r) then hit r else lead))
        × (decide now m (invalidate (m ∷ []) (settle at id r c)) ≡ lead)
  decide_cycle before at now r =
      (decide_in_flight before, decide-settle at now r, decide-invalidate now m (settle at id r c))

-- A caller that leads puts its own entry in flight.
pub start-InFlight : (m : Market) (c : Cache) → InFlight m (length c.cells) (start m c)
start-InFlight m c = record {
  entry = unfold start lookup_entry in rw (text_eq_refl m);
  cell = unfold start in get_elem?-length c.cells (record { market = m; settled = none });
}
