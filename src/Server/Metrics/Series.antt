-- ===== src/Server/Metrics/Series.antt =====
-- Keys of series and the values that are stored for them, for server/metrics.go.
use tgju_api_go.Common.{
  true, false, List, [], ◌∷◌, some, ==_iff, if◌then◌else◌, ◌≡◌, refl, sym, ap, ◌∙◌, arith,
  text_eq_iff, text_eq_refl, Bool-cases, inl, inr,
}
use tgju_api_go.Server.Metrics.{SeriesKey, SeriesValue, key_eq, value_of, store}

pub key_eq_sound : (a b : SeriesKey) → key_eq a b ≡ true → a ≡ b
unfolding key_eq
key_eq_sound a b h =
    let r : a.route ≡ b.route = (text_eq_iff a.route b.route).0 (ground arith) in
    let m : a.method ≡ b.method = (text_eq_iff a.method b.method).0 (ground arith) in
    let n : a.status ≡ b.status = (==_iff a.status b.status).0 (ground arith) in
    ap (λ t. record a { route = t }) r
    ∙ ap (λ t. record a { route = b.route; method = t }) m
    ∙ ap (λ t. record { route = b.route; method = b.method; status = t }) n

pub key_eq_refl : (a : SeriesKey) → key_eq a a ≡ true
unfolding key_eq
key_eq_refl a = ground (arith, text_eq_refl a.route, text_eq_refl a.method)

key_eq_cons :
    (k j : SeriesKey) (v : SeriesValue) (vs : List (SeriesKey × SeriesValue))
    → value_of k ((j, v) ∷ vs) ≡ (if key_eq j k then some v else value_of k vs)
unfolding value_of
key_eq_cons k j v vs = refl

pub value_of-store_same :
    (k : SeriesKey) (v : SeriesValue) (vs : List (SeriesKey × SeriesValue))
    → value_of k (store k v vs) ≡ some v
unfolding value_of store
value_of-store_same k v [] = rw (key_eq_refl k) refl
value_of-store_same k v ((j, w) ∷ vs) = elim (Bool-cases (key_eq j k)) [
  | inl e ↦ rw e (rw e refl)
  | inr e ↦ rw e (rw e (value_of-store_same k v vs))
]

pub value_of-store_other :
    (k j : SeriesKey) (v : SeriesValue) (vs : List (SeriesKey × SeriesValue))
    → key_eq j k ≡ false
    → value_of k (store j v vs) ≡ value_of k vs
unfolding value_of store
value_of-store_other k j v [] h = rw h refl
value_of-store_other k j v ((i, w) ∷ vs) h = elim (Bool-cases (key_eq i j)) [
  | inl e ↦ rw e (
      ap (λ b. if b then some v else value_of k vs) (other i e)
      ∙ ap (λ b. if b then some w else value_of k vs) (sym (other i e)))
  | inr e ↦ rw e (ap (λ o. if key_eq i k then some w else o) (value_of-store_other k j v vs h))
]
  where
    other : (i : SeriesKey) → key_eq i j ≡ true → key_eq i k ≡ false
    other i e = rw (key_eq_sound i j e) h
