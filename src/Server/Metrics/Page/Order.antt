-- ===== src/Server/Metrics/Page/Order.antt =====
-- The text of /metrics does not depend on the order in which the map of server/metrics.go gives its keys.
use mathlib.Core.List.{Perm, foldr}
use mathlib.Core.List.Perm
use tgju_api_go.Common.{
  true, false, List, [], ◌∷◌, Text, ◌≡◌, refl, sym, ap, ◌∙◌, arith, if◌then◌else◌, text_eq_iff,
  Bool-cases, inl, inr,
}
use tgju_api_go.Market.{text_lt}
use tgju_api_go.Server.Metrics.{SeriesKey}
use tgju_api_go.Server.Metrics.Page.{key_lt, insert_key, sort_keys}

text_lt-asym : (s t : Text) → text_lt s t ≡ true → text_lt t s ≡ false
unfolding text_lt
text_lt-asym [] [] h = refl
text_lt-asym [] (b ∷ t) h = refl
text_lt-asym (a ∷ s) [] h = absurd (cc h)
text_lt-asym (a ∷ s) (b ∷ t) h = ground (arith, text_lt-asym s t)

text_lt-total : (s t : Text) → text_lt s t ≡ false → text_lt t s ≡ false → s ≡ t
unfolding text_lt
text_lt-total [] [] h k = refl
text_lt-total [] (b ∷ t) h k = absurd (cc h)
text_lt-total (a ∷ s) [] h k = absurd (cc k)
text_lt-total (a ∷ s) (b ∷ t) h k = ground (arith, text_lt-total s t)

text_lt-before : (a b c : Text) → text_lt b a ≡ false → text_lt b c ≡ true → text_lt a c ≡ true
unfolding text_lt
text_lt-before a [] [] h k = absurd (cc k)
text_lt-before a (y ∷ b) [] h k = absurd (cc k)
text_lt-before [] b (z ∷ c) h k = refl
text_lt-before (x ∷ a) [] (z ∷ c) h k = absurd (cc h)
text_lt-before (x ∷ a) (y ∷ b) (z ∷ c) h k = ground (arith, text_lt-before a b c)

key_lt-asym : (a b : SeriesKey) → key_lt a b ≡ true → key_lt b a ≡ false
unfolding key_lt
key_lt-asym a b h = ground (
  arith,
  text_eq_iff a.route b.route,
  text_eq_iff b.route a.route,
  text_eq_iff a.method b.method,
  text_eq_iff b.method a.method,
  text_lt-asym a.route b.route,
  text_lt-asym a.method b.method,
)

key_lt-total : (a b : SeriesKey) → key_lt a b ≡ false → key_lt b a ≡ false → a ≡ b
unfolding key_lt
key_lt-total a b h k = ground (
  arith,
  text_eq_iff a.route b.route,
  text_eq_iff b.route a.route,
  text_eq_iff a.method b.method,
  text_eq_iff b.method a.method,
  text_lt-total a.route b.route,
  text_lt-total a.method b.method,
)

key_lt-before : (a b c : SeriesKey) → key_lt b a ≡ false → key_lt b c ≡ true → key_lt a c ≡ true
unfolding key_lt
key_lt-before a b c h k = ground (
  arith,
  text_eq_iff a.route b.route,
  text_eq_iff b.route a.route,
  text_eq_iff a.method b.method,
  text_eq_iff b.method a.method,
  text_eq_iff b.route c.route,
  text_eq_iff b.method c.method,
  text_eq_iff a.route c.route,
  text_eq_iff a.method c.method,
  text_lt-before a.route b.route c.route,
  text_lt-before a.method b.method c.method,
  text_lt-total a.route b.route,
  text_lt-total a.method b.method,
)

-- two keys in front of the others stand in their order, whichever is put there first
in_front :
    (a b : SeriesKey) (ks : List SeriesKey)
    → (if key_lt b a then b ∷ a ∷ ks else a ∷ b ∷ ks)
      ≡ (if key_lt a b then a ∷ b ∷ ks else b ∷ a ∷ ks)
in_front a b ks = elim (Bool-cases (key_lt b a)) [
  | inl e ↦ rw (e, key_lt-asym b a e) refl
  | inr e ↦ elim (Bool-cases (key_lt a b)) [
    | inl f ↦ rw (e, f) refl
    | inr f ↦ let same : a ≡ b = key_lt-total a b f e in rw (e, f) (cc same)
  ]
]

insert_key-skip :
    (k j : SeriesKey) (js : List SeriesKey)
    → key_lt j k ≡ true
    → insert_key k (j ∷ js) ≡ j ∷ insert_key k js
unfolding insert_key
insert_key-skip k j js h = rw h refl

insert_key-stop :
    (k j : SeriesKey) (js : List SeriesKey)
    → key_lt j k ≡ false
    → insert_key k (j ∷ js) ≡ k ∷ j ∷ js
unfolding insert_key
insert_key-stop k j js h = rw h refl

-- a key that stops at `j` stands in front of one that goes on
insert_key-mixed :
    (a b j : SeriesKey) (js : List SeriesKey)
    → key_lt j a ≡ true
    → key_lt j b ≡ false
    → insert_key a (insert_key b (j ∷ js)) ≡ insert_key b (insert_key a (j ∷ js))
insert_key-mixed a b j js h k =
    ap (insert_key a) (insert_key-stop b j js k)
    ∙ insert_key-skip a b (j ∷ js) (key_lt-before b j a k h)
    ∙ ap (λ l. b ∷ l) (insert_key-skip a j js h)
    ∙ sym (ap (insert_key b) (insert_key-skip a j js h) ∙ insert_key-stop b j (insert_key a js) k)

both_stop :
    (a b j : SeriesKey) (ks : List SeriesKey)
    → key_lt j a ≡ false
    → key_lt j b ≡ false
    → insert_key a (b ∷ j ∷ ks) ≡ insert_key b (a ∷ j ∷ ks)
unfolding insert_key
both_stop a b j ks e f = rw (e, f) (in_front a b (j ∷ ks))

insert_key-insert_key :
    (a b : SeriesKey) (ks : List SeriesKey)
    → insert_key a (insert_key b ks) ≡ insert_key b (insert_key a ks)
insert_key-insert_key a b [] = unfold insert_key in in_front a b []
insert_key-insert_key a b (j ∷ ks) = elim (Bool-cases (key_lt j a)) [
  | inl e ↦ elim (Bool-cases (key_lt j b)) [
    | inl f ↦
        ap (insert_key a) (insert_key-skip b j ks f)
        ∙ insert_key-skip a j (insert_key b ks) e
        ∙ ap (λ l. j ∷ l) (insert_key-insert_key a b ks)
        ∙ sym
            (ap (insert_key b) (insert_key-skip a j ks e) ∙ insert_key-skip b j (insert_key a ks) f)
    | inr f ↦ insert_key-mixed a b j ks e f
  ]
  | inr e ↦ elim (Bool-cases (key_lt j b)) [
    | inl f ↦ sym (insert_key-mixed b a j ks f e)
    | inr f ↦
        ap (insert_key a) (insert_key-stop b j ks f)
        ∙ both_stop a b j ks e f
        ∙ sym (ap (insert_key b) (insert_key-stop a j ks e))
  ]
]

SeriesKey-equality : IsSet (List SeriesKey)
SeriesKey-equality = hlevel

sort_keys-eq-foldr : (ks : List SeriesKey) → sort_keys ks ≡ foldr insert_key [] ks
unfolding sort_keys
sort_keys-eq-foldr [] = refl
sort_keys-eq-foldr (k ∷ ks) = ap (insert_key k) (sort_keys-eq-foldr ks)

-- A list of keys and its permutations are sorted alike.
pub sort_keys-perm : (ks js : List SeriesKey) → Perm ks js → sort_keys ks ≡ sort_keys js
sort_keys-perm ks js p =
    sort_keys-eq-foldr ks
    ∙ Perm.foldr-eq SeriesKey-equality insert_key insert_key-insert_key p []
    ∙ sym (sort_keys-eq-foldr js)
