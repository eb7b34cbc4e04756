-- ===== src/Client/Together.antt =====
-- `FetchAll` of client.go, over every way in which the goroutines of a call can end.
use tgju_api_go.Common.{
  ℕ, zero, suc, ◌+◌, ◌<◌, List, [], ◌∷◌, Option, none, some, ◌≡◌, ◌≢◌, ◌⊎◌, inl, inr, refl, sym, ap,
  ◌∙◌, arith, if◌then◌else◌, Bool-cases, map, length, get_elem?, text_eq, text_eq_refl, text_eq_iff,
  any,
}
use tgju_api_go.Market.{Market}
use tgju_api_go.Errors.{Kind, Err, Errs, nil, cons, Result, ok, err, join, join_errs, errs_of, is}
use tgju_api_go.Errors.Find.{holds, is-join}
use tgju_api_go.Snapshot.{Snapshot}
use tgju_api_go.Client.{
  Round, launched, error_of, put_result, put_all, asked, joined, fetch_all, snapshot_of,
}

abbrev pub Among : ℕ → List ℕ → Type 0
Among x [] = ⊥
Among x (y ∷ ys) = (x ≡ y) ⊎ Among x ys

-- a goroutine of the call that ended with this snapshot of the market
abbrev pub Won : List (Market × Result Snapshot) → Market → Snapshot → Type 0
Won rs m s = (j : ℕ) × (get_elem? rs j ≡ some (m, ok s))

-- every snapshot of the map is what a goroutine came to
abbrev Sourced : List (Market × Result Snapshot) → List (Market × Snapshot) → Type 0
Sourced rs out = (m : Market) (s : Snapshot) → snapshot_of m out ≡ some s → Won rs m s

snapshot-cons :
    (m k : Market) (s : Snapshot) (out : List (Market × Snapshot))
    → snapshot_of m ((k, s) ∷ out) ≡ (if text_eq k m then some s else snapshot_of m out)
unfolding snapshot_of
snapshot-cons m k s out = refl

module _ (rs : List (Market × Result Snapshot)) where
  put_ok-Sourced :
      (k : Market) (s : Snapshot) (j : ℕ) (out : List (Market × Snapshot))
      → get_elem? rs j ≡ some (k, ok s)
      → Sourced rs out
      → Sourced rs ((k, s) ∷ out)
  put_ok-Sourced k s j out at h m t e = elim (Bool-cases (text_eq k m)) [
    | inl same ↦
        let km : k ≡ m = (text_eq_iff k m).0 same in
        let st : some s ≡ some t = sym (snapshot-cons m k s out ∙ (rw same)) ∙ e in
        (j, at ∙ (let st' : s ≡ t = cc in rw (km, st')))
    | inr apart ↦ h m t (sym (snapshot-cons m k s out ∙ (rw apart)) ∙ e)
  ]

  put_result-Sourced :
      (j : ℕ) (o : Option (Market × Result Snapshot)) (out : List (Market × Snapshot))
      → get_elem? rs j ≡ o
      → Sourced rs out
      → Sourced rs (put_result o out)
  put_result-Sourced j none out at h = h
  put_result-Sourced j (some (k, ok s)) out at h = put_ok-Sourced k s j out at h
  put_result-Sourced j (some (k, err e)) out at h = h

  put_all-Sourced :
      (order : List ℕ) (out : List (Market × Snapshot))
      → Sourced rs out
      → Sourced rs (put_all rs order out)
  put_all-Sourced [] out h = h
  put_all-Sourced (i ∷ order) out h =
      put_all-Sourced order (put_result (get_elem? rs i) out)
        (put_result-Sourced i (get_elem? rs i) out refl h)

  -- an entry of the map stays, under some snapshot
  put_result-kept :
      (m : Market) (o : Option (Market × Result Snapshot)) (out : List (Market × Snapshot))
      → snapshot_of m out ≢ none
      → snapshot_of m (put_result o out) ≢ none
  put_result-kept m none out h = h
  put_result-kept m (some (k, err e)) out h = h
  put_result-kept m (some (k, ok s)) out h = elim (Bool-cases (text_eq k m)) [
    | inl same ↦ λ e. let f : some s ≡ none = sym (snapshot-cons m k s out ∙ (rw same)) ∙ e in cc
    | inr apart ↦ λ e. h (sym (snapshot-cons m k s out ∙ (rw apart)) ∙ e)
  ]

  put_all-kept :
      (m : Market) (order : List ℕ) (out : List (Market × Snapshot))
      → snapshot_of m out ≢ none
      → snapshot_of m (put_all rs order out) ≢ none
  put_all-kept m [] out h = h
  put_all-kept m (i ∷ order) out h =
      put_all-kept m order (put_result (get_elem? rs i) out)
        (put_result-kept m (get_elem? rs i) out h)

  put_result-put :
      (m : Market) (s : Snapshot) (o : Option (Market × Result Snapshot))
      (out : List (Market × Snapshot))
      → o ≡ some (m, ok s)
      → snapshot_of m (put_result o out) ≢ none
  put_result-put m s o out e =
      rw e (λ f.
        let g : some s ≡ none = sym (snapshot-cons m m s out ∙ (rw (text_eq_refl m))) ∙ f in cc)

  put_all-put :
      (m : Market) (s : Snapshot) (j : ℕ) (order : List ℕ) (out : List (Market × Snapshot))
      → get_elem? rs j ≡ some (m, ok s)
      → Among j order
      → snapshot_of m (put_all rs order out) ≢ none
  put_all-put m s j [] out at h = absurd h
  put_all-put m s j (i ∷ order) out at (inl e) =
      put_all-kept m order (put_result (get_elem? rs i) out)
        (put_result-put m s (get_elem? rs i) out (rw (← e) at))
  put_all-put m s j (i ∷ order) out at (inr h) =
      put_all-put m s j order (put_result (get_elem? rs i) out) at h

launched_at :
    (f : ℕ → Market → Result Snapshot) (n i : ℕ) (ms : List Market) {m : Market}
    → get_elem? ms i ≡ some m
    → get_elem? (launched f n ms) i ≡ some (m, f (n + i) m)
launched_at f n i [] h = cc
launched_at f n zero (k ∷ ms) {m} h =
    let e : k ≡ m = cc in let z : n ≡ n + 0 = omega arith in rw (← z, e) refl
launched_at f n (suc i) (k ∷ ms) {m} h =
    let z : suc n + i ≡ n + suc i = omega arith in
    launched_at f (suc n) i ms h ∙ ap (λ j. some (m, f j m)) z

launched_inv :
    (f : ℕ → Market → Result Snapshot) (n i : ℕ) (ms : List Market) {m : Market}
    {r : Result Snapshot}
    → get_elem? (launched f n ms) i ≡ some (m, r)
    → (get_elem? ms i ≡ some m) × (f (n + i) m ≡ r)
launched_inv f n i [] h = cc
launched_inv f n zero (k ∷ ms) {m} {r} h =
    let z : n + 0 ≡ n = omega arith in
    let a : k ≡ m = cc in
    let b : f n k ≡ r = cc in (ap some a, ap (λ j. f j m) z ∙ ap (f n) (sym a) ∙ b)
launched_inv f n (suc i) (k ∷ ms) {m} {r} h =
    let z : n + suc i ≡ suc n + i = omega arith in
    let (a, b) = launched_inv f (suc n) i ms h in (a, ap (λ j. f j m) z ∙ b)

no_errs : (es : Errs) → join_errs es ≡ none → es ≡ nil
no_errs nil h = refl
no_errs (cons e es) h = cc

join-none : (es : List (Option Err)) → join es ≡ none → errs_of es ≡ nil
unfolding join
join-none es h = no_errs (errs_of es) h

all_ok :
    (rs : List (Market × Result Snapshot)) (i : ℕ) {m : Market} {r : Result Snapshot}
    → errs_of (map error_of rs) ≡ nil
    → get_elem? rs i ≡ some (m, r)
    → (s : Snapshot) × (r ≡ ok s)
all_ok [] i h at = cc
all_ok ((k, ok s) ∷ rs) zero {m} {r} h at = (s, (let e : ok s ≡ r = cc in sym e))
all_ok ((k, ok s) ∷ rs) (suc i) h at = all_ok rs i h at
all_ok ((k, err e) ∷ rs) i h at = cc

known : (o : Option Snapshot) → o ≢ none → (s : Snapshot) × (o ≡ some s)
known none h = absurd (h refl)
known (some s) h = (s, refl)

joined-ok :
    (o : Option Err) (m out : List (Market × Snapshot))
    → joined o m ≡ ok out
    → (o ≡ none) × (m ≡ out)
joined-ok none m out h = (refl, cc)
joined-ok (some e) m out h = cc

joined-err :
    (o : Option Err) (m : List (Market × Snapshot)) (e : Err) → joined o m ≡ err e → o ≡ some e
joined-err none m e h = cc
joined-err (some d) m e h = let same : d ≡ e = cc in rw same

fetch_all_eq :
    (r : Round) (ms : List Market)
    → fetch_all r ms
      ≡ joined
          (join (map error_of (launched r.outcome 0 (asked ms))))
          (put_all (launched r.outcome 0 (asked ms)) r.finished [])
unfolding fetch_all
fetch_all_eq r ms = refl

nothing-Sourced : (rs : List (Market × Result Snapshot)) → Sourced rs []
unfolding snapshot_of
nothing-Sourced rs m s e = cc

-- Where FetchAll succeeds, and each of its goroutines has ended, in whatever order, every market
-- that was asked for has a snapshot, and it is what the fetch of that market came to.
pub fetch_all-ok :
    (r : Round) (ms : List Market) (out : List (Market × Snapshot)) (i : ℕ) (m : Market)
    → fetch_all r ms ≡ ok out
    → ((j : ℕ) → j < length (asked ms) → Among j r.finished)
    → i < length (asked ms)
    → get_elem? (asked ms) i ≡ some m
    → (s : Snapshot) × (snapshot_of m out ≡ some s)
      × (j : ℕ) × (get_elem? (asked ms) j ≡ some m)
      × (r.outcome j m ≡ ok s)
fetch_all-ok r ms out i m h ends bound at =
    let rs = launched r.outcome 0 (asked ms) in
    let (fine, same) =
      joined-ok (join (map error_of rs)) (put_all rs r.finished []) out
        (sym (fetch_all_eq r ms) ∙ h) in
    let here = launched_at r.outcome 0 i (asked ms) at in
    let (t, won) = all_ok rs i (join-none (map error_of rs) fine) here in
    let there : get_elem? rs i ≡ some (m, ok t) = here ∙ ap (λ u. some (m, u)) won in
    let (s, e) =
      known (snapshot_of m (put_all rs r.finished []))
        (put_all-put rs m t i r.finished [] there (ends i bound)) in
    let (j, from) = put_all-Sourced rs r.finished [] (nothing-Sourced rs) m s e in
    let (a, b) = launched_inv r.outcome 0 j (asked ms) from in
    let z : j ≡ 0 + j = omega arith in
    (s, ap (snapshot_of m) (sym same) ∙ e, j, a, ap (λ n. r.outcome n m) z ∙ b)

-- Where it fails, errors.Is finds a sentinel in its error exactly when it finds it in one of the
-- goroutines' errors.
pub fetch_all-err :
    (r : Round) (ms : List Market) (e : Err) (k : Kind)
    → fetch_all r ms ≡ err e
    → is k e ≡ any (holds k) (map error_of (launched r.outcome 0 (asked ms)))
fetch_all-err r ms e k h =
    let rs = launched r.outcome 0 (asked ms) in
    let j =
      joined-err (join (map error_of rs)) (put_all rs r.finished []) e
        (sym (fetch_all_eq r ms) ∙ h) in
    sym (ap (holds k) j) ∙ is-join k (map error_of rs)
