-- ===== src/Cache/Collapse.antt =====
-- The invariant behind the collapsing of concurrent fetches in cache.go.
use tgju_api_go.Common.{
  ℕ, ◌+◌, ◌≤◌, Bool, true, false, List, [], ◌∷◌, ◌++◌, Option, none, some, ◌≡◌, ◌≢◌, refl, sym, ◌∙◌,
  arith, if◌then◌else◌, length, get_elem?, get_elem?-length, text_eq, text_eq_refl, text_eq_iff,
  Bool-cases, inl, inr, subst,
}
use tgju_api_go.Market.{Market}
use tgju_api_go.Errors.{Result}
use tgju_api_go.Snapshot.{Snapshot}
use tgju_api_go.Cache.{
  Settled, Cell, Cache, new_cache, lookup_entry, delete_entry, Decision, hit, wait, lead,
  decide_entry, decide_cell, decide, start, settle, delete_all, invalidate, enter, enter_by,
}
use tgju_api_go.Cache.Fresh.{lookup-delete, decide_eq}
use tgju_api_go.Cache.Flight.{
  Step, arrive, finish, drop, Reach, begin, next, is_open, flying, one_if, in_flight, named,
  drops_now, drops_step, drops, in_flight-append,
}
use tgju_api_go.Cache.Owners.{
  open_cell, open_entry, Owns, one_if_le, Owns-append, open-append, Owns-settle, bound-settle,
}

-- The map leads to an entry of its market, and all fetches in flight but that entry's have been
-- dropped.
record Inv (m : Market) (n : ℕ) (c : Cache) : Type 0 where
  own : Owns m c.cells (lookup_entry m c.entries)
  bound : in_flight m c.cells ≤ n + one_if (open_entry c.cells (lookup_entry m c.entries))

wait-ne-lead : (id : ℕ) → wait id ≢ lead
wait-ne-lead id h = cc

decided_closed :
    (now : ℕ) (id : ℕ) (x : Cell) (s : Option Settled)
    → x.settled ≡ s
    → decide_cell now id (some x) ≡ lead
    → is_open x.settled ≡ false
decided_closed now id x none e h = absurd (wait-ne-lead id (rw (e, decide_cell) at h))
decided_closed now id x (some s) e h = rw e

cell_closed : (now id : ℕ) (o : Option Cell) → decide_cell now id o ≡ lead → open_cell o ≡ false
cell_closed now id none h = refl
cell_closed now id (some x) h = decided_closed now id x x.settled refl h

lookup-cons :
    (m k : Market) (id : ℕ) (es : List (Market × ℕ)) (o : Option ℕ)
    → lookup_entry m es ≡ (if text_eq k m then none else o)
    → lookup_entry m ((k, id) ∷ es) ≡ (if text_eq k m then some id else o)
unfolding lookup_entry
lookup-cons m k id es o h = ground arith

start_bound :
    (m : Market) (n : ℕ) (c : Cache)
    → open_entry c.cells (lookup_entry m c.entries) ≡ false
    → in_flight m c.cells ≤ n + one_if (open_entry c.cells (lookup_entry m c.entries))
    → in_flight m (c.cells ++ record { market = m; settled = none } ∷ []) ≤ n + 1
start_bound m n c closed b =
    let x : Cell = record { market = m; settled = none } in
    let b' : in_flight m c.cells ≤ n + 0 = rw closed at b in
    omega (arith, in_flight-append m c.cells x, one_if_le (flying m x))

other_bound :
    (m k : Market) (n : ℕ) (c : Cache)
    → text_eq k m ≡ false
    → in_flight m c.cells ≤ n + one_if (open_entry c.cells (lookup_entry m c.entries))
    → in_flight m (c.cells ++ record { market = k; settled = none } ∷ [])
      ≤ n + one_if (open_entry c.cells (lookup_entry m c.entries))
other_bound m k n c other b =
    let x : Cell = record { market = k; settled = none } in
    let f : one_if (flying m x) ≡ 0 = rw other refl in omega (arith, in_flight-append m c.cells x)

-- Whoever leads has found no entry in flight.
lead_closed :
    (now : ℕ) (m : Market) (cells : List Cell) (o : Option ℕ)
    → decide_entry now cells o ≡ lead
    → open_entry cells o ≡ false
lead_closed now m cells none h = refl
lead_closed now m cells (some id) h = cell_closed now id (get_elem? cells id) h

Inv-at :
    (m : Market) (n : ℕ) (d : Cache) (o : Option ℕ)
    → lookup_entry m d.entries ≡ o
    → Owns m d.cells o
    → in_flight m d.cells ≤ n + one_if (open_entry d.cells o)
    → Inv m n d
Inv-at m n d o e h b = record { own = rw e h; bound = rw e b }

lookup-start :
    (m k : Market) (c : Cache)
    → lookup_entry m (start k c).entries
      ≡ (if text_eq k m then some (length c.cells) else lookup_entry m c.entries)
unfolding start
lookup-start m k c =
    lookup-cons m k (length c.cells) (delete_entry k c.entries) _ (lookup-delete m k c.entries)

start_same :
    (m : Market) (n : ℕ) (c : Cache)
    → Inv m n c
    → open_entry c.cells (lookup_entry m c.entries) ≡ false
    → Inv m n (start m c)
start_same m n c i closed =
    let x : Cell = record { market = m; settled = none } in
    let e : lookup_entry m (start m c).entries ≡ some (length c.cells) =
      lookup-start m m c ∙ (rw (text_eq_refl m)) in
    Inv-at m n (start m c) (some (length c.cells)) e
      (unfold start in (x, get_elem?-length c.cells x, refl))
      (unfold start in rw (get_elem?-length c.cells x) (start_bound m n c closed i.bound))

start_other :
    (m k : Market) (n : ℕ) (c : Cache) → Inv m n c → text_eq k m ≡ false → Inv m n (start k c)
start_other m k n c i other =
    let x : Cell = record { market = k; settled = none } in
    let o = lookup_entry m c.entries in
    Inv-at m n (start k c) o (lookup-start m k c ∙ (rw other))
      (unfold start in Owns-append m c.cells x o i.own)
      (unfold start in rw (open-append m c.cells x o i.own) (other_bound m k n c other i.bound))

start-Inv :
    (m k : Market) (n now : ℕ) (c : Cache) → Inv m n c → decide now k c ≡ lead → Inv m n (start k c)
start-Inv m k n now c i h = elim (Bool-cases (text_eq k m)) [
  | inr other ↦ start_other m k n c i other
  | inl same ↦
      let e : k ≡ m = (text_eq_iff k m).0 same in
      subst (λ j. Inv m n (start j c)) (sym e)
        (start_same m n c i (
          lead_closed now m c.cells (lookup_entry m c.entries)
            (sym (decide_eq now m c) ∙ (rw e at h))))
]

enter_by-Inv :
    (m k : Market) (n now : ℕ) (c : Cache) (d : Decision)
    → Inv m n c
    → decide now k c ≡ d
    → Inv m n (enter_by k c d)
enter_by-Inv m k n now c (hit r) i e = i
enter_by-Inv m k n now c (wait id) i e = i
enter_by-Inv m k n now c lead i e = start-Inv m k n now c i e

enter-Inv : (m k : Market) (n now : ℕ) (c : Cache) → Inv m n c → Inv m n (enter now k c)
enter-Inv m k n now c i = unfold enter in enter_by-Inv m k n now c (decide now k c) i refl

settle-Inv :
    (m : Market) (n now id : ℕ) (r : Result Snapshot) (c : Cache) (x : Cell)
    → get_elem? c.cells id ≡ some x
    → x.settled ≡ none
    → Inv m n c
    → Inv m n (settle now id r c)
settle-Inv m n now id r c x at flies i = record {
  own = unfold settle in Owns-settle m c.cells id x _ at flies (lookup_entry m c.entries) i.own;
  bound =
      unfold settle in
      bound-settle m c.cells id x _ at flies n (lookup_entry m c.entries) i.own i.bound;
}

both :
    (a b : Bool) (o : Option ℕ)
    → (if b then none else if a then none else o) ≡ (if if a then true else b then none else o)
both a b o = ground arith

lookup-delete_all :
    (m : Market) (ms : List Market) (es : List (Market × ℕ))
    → lookup_entry m (delete_all ms es) ≡ (if named m ms then none else lookup_entry m es)
unfolding delete_all
lookup-delete_all m [] es = refl
lookup-delete_all m (k ∷ ks) es =
    lookup-delete_all m ks (delete_entry k es)
    ∙ rw (lookup-delete m k es) (both (text_eq k m) (named m ks) (lookup_entry m es))

lookup-invalidate :
    (m k : Market) (ks : List Market) (c : Cache)
    → lookup_entry m (invalidate (k ∷ ks) c).entries
      ≡ (if named m (k ∷ ks) then none else lookup_entry m c.entries)
unfolding invalidate
lookup-invalidate m k ks c = lookup-delete_all m (k ∷ ks) c.entries

add_none : (n : ℕ) → n ≡ n + 0
add_none n = omega arith

drop-Inv :
    (m : Market) (n : ℕ) (ms : List Market) (c : Cache)
    → Inv m n c
    → Inv m (n + drops_now m ms) (invalidate ms c)
drop-Inv m n [] c i =
    Inv-at m (n + 1) (invalidate [] c) none (unfold invalidate lookup_entry in refl) tt (
      unfold invalidate in
      omega (arith, i.bound, one_if_le (open_entry c.cells (lookup_entry m c.entries))))
drop-Inv m n (k ∷ ks) c i = elim (Bool-cases (named m (k ∷ ks))) [
  | inl struck ↦
      Inv-at m (n + drops_now m (k ∷ ks)) (invalidate (k ∷ ks) c) none
        (lookup-invalidate m k ks c ∙ (rw struck)) tt
        (unfold invalidate in
          rw struck
            (omega (arith, i.bound, one_if_le (open_entry c.cells (lookup_entry m c.entries)))))
  | inr spared ↦
      Inv-at m (n + drops_now m (k ∷ ks)) (invalidate (k ∷ ks) c) (lookup_entry m c.entries)
        (lookup-invalidate m k ks c ∙ (rw spared)) (unfold invalidate in i.own)
        (unfold invalidate in rw spared (omega (arith, i.bound)))
]

step-Inv :
    (m : Market) (n : ℕ) {c d : Cache} (s : Step c d) → Inv m n c → Inv m (n + drops_step m s) d
step-Inv m n (arrive now k c) i =
    subst (λ j. Inv m j (enter now k c)) (add_none n) (enter-Inv m k n now c i)
step-Inv m n (finish now id r c x e o) i =
    subst (λ j. Inv m j (settle now id r c)) (add_none n) (settle-Inv m n now id r c x e o i)
step-Inv m n (drop ms c) i = drop-Inv m n ms c i

begin-Inv : (m : Market) (ttl : ℕ) → Inv m 0 (new_cache ttl)
begin-Inv m ttl =
    Inv-at m 0 (new_cache ttl) none (unfold new_cache lookup_entry in refl) tt
      (unfold new_cache in omega arith)

reach-Inv : (m : Market) {ttl : ℕ} {c : Cache} (r : Reach ttl c) → Inv m (drops m r) c
reach-Inv m {ttl} begin = begin-Inv m ttl
reach-Inv m (next r s) = step-Inv m (drops m r) s (reach-Inv m r)

-- In every run of the cache, at most one fetch of a market is in flight, and one more for each time
-- that its entry was dropped.
pub in_flight-le :
    (m : Market) {ttl : ℕ} {c : Cache} (r : Reach ttl c) → in_flight m c.cells ≤ drops m r + 1
in_flight-le m {c} r =
    let i = reach-Inv m r in
    omega (arith, i.bound, one_if_le (open_entry c.cells (lookup_entry m c.entries)))
