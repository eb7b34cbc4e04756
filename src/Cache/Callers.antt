-- ===== src/Cache/Callers.antt =====
-- The calls of `do` in cache.go that share one fetch.
use tgju_api_go.Common.{
  ℕ, ◌+◌, true, false, Option, none, some, ◌≡◌, refl, ap, ◌∙◌, get_elem?, length, ltb,
}
use tgju_api_go.Market.{Market}
use tgju_api_go.Errors.{Err, Result, err}
use tgju_api_go.Snapshot.{Snapshot}
use tgju_api_go.Cache.{
  Cache, hit, decide, settle, lifetime, enter, enter_by, at_lock, waiting, leading, done, decided,
  outcome_of, caller_step,
}
use tgju_api_go.Cache.Fresh.{InFlight, get-set_same, decide_cycle}

enter_eq : (now : ℕ) (m : Market) (c : Cache) → enter now m c ≡ enter_by m c (decide now m c)
unfolding enter
enter_eq now m c = refl

-- the entry's outcome, once it is settled
outcome-settle :
    (m : Market) (id : ℕ) (c : Cache) (at : ℕ) (r : Result Snapshot)
    → InFlight m id c
    → outcome_of (get_elem? (settle at id r c).cells id) ≡ some r
outcome-settle m id c at r f = unfold settle in ap outcome_of (get-set_same c.cells id _ _ f.cell)

-- A call behind the lock that finds something to serve is done with it.
lock_hit :
    (now : ℕ) (m : Market) (ended : Option Err) (c : Cache) (r : Result Snapshot)
    → decide now m c ≡ hit r
    → caller_step now m ended c at_lock ≡ (done r true, c)
unfolding caller_step
lock_hit now m ended c r h =
    ap (λ d. (decided (length c.cells) d, enter now m c)) h
    ∙ ap (λ e. (done r true, e)) (enter_eq now m c ∙ ap (enter_by m c) h)

-- a call that waits, or leads, while the entry is in flight
idle :
    (now : ℕ) (m : Market) (c : Cache) (id : ℕ)
    → outcome_of (get_elem? c.cells id) ≡ none
    → (caller_step now m none c (waiting id) ≡ (waiting id, c))
      × (caller_step now m none c (leading id) ≡ (leading id, c))
unfolding caller_step
idle now m c id h = (rw (h, caller_step) refl, rw (h, caller_step) refl)

woken :
    (now : ℕ) (m : Market) (c : Cache) (id : ℕ) (r : Result Snapshot)
    → outcome_of (get_elem? c.cells id) ≡ some r
    → (caller_step now m none c (waiting id) ≡ (at_lock, c))
      × (caller_step now m none c (leading id) ≡ (done r false, c))
unfolding caller_step
woken now m c id r h = (rw (h, caller_step) refl, rw (h, caller_step) refl)

given_up :
    (now : ℕ) (m : Market) (e : Err) (c : Cache) (id : ℕ)
    → (caller_step now m (some e) c (waiting id) ≡ (done (err e) false, c))
      × (caller_step now m (some e) c (leading id) ≡ (done (err e) false, c))
unfolding caller_step
given_up now m e c id = (refl, refl)

module _ (m : Market) (id : ℕ) (c : Cache) (f : InFlight m id c) where
  -- While a fetch is in flight the calls that wait for it, and its leader, stay where they are,
  -- and each of them whose context ends gives up, without a change to the cache. Once it is settled the
  -- leader is done with its result, and a call that waits takes the lock again and, within the
  -- lifetime, is done with the same result from memory, both without another fetch.
  pub caller_step-caller_step :
      (now at later : ℕ) (e : Err) (r : Result Snapshot)
      → ltb later (at + lifetime c.ttl r) ≡ true
      → (caller_step now m none c (waiting id) ≡ (waiting id, c))
        × (caller_step now m none c (leading id) ≡ (leading id, c))
        × (caller_step now m (some e) c (waiting id) ≡ (done (err e) false, c))
        × (caller_step now m (some e) c (leading id) ≡ (done (err e) false, c))
        × (caller_step later m none (settle at id r c) (leading id)
            ≡ (done r false, settle at id r c))
        × (caller_step later m none (settle at id r c) (waiting id) ≡ (at_lock, settle at id r c))
        × (caller_step later m none (settle at id r c) at_lock ≡ (done r true, settle at id r c))
  caller_step-caller_step now at later e r h =
      let (stays, leads) = idle now m c id (ap outcome_of f.cell) in
      let (wakes, ends) = woken later m (settle at id r c) id r (outcome-settle m id c at r f) in
      let served : decide later m (settle at id r c) ≡ hit r =
        (decide_cycle m id c f 0 at later r).1 ∙ (rw h refl) in
      (
        stays,
        leads,
        (given_up now m e c id).0,
        (given_up now m e c id).1,
        ends,
        wakes,
        lock_hit later m none (settle at id r c) r served,
      )
