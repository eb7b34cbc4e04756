-- ===== src/Server/Router/Unique.antt =====
-- No two patterns that server/server.go registers match one path.
use tgju_api_go.Common.{
  ℕ, zero, suc, Bool, true, false, not, List, [], ◌∷◌, none, some, Text, ◌≡◌, refl, ap, ◌∙◌, arith,
  ◌&&◌, ◌||◌, if◌then◌else◌, is_nil, text_eq, text_eq_iff, get_elem?, Bool-cases, Option-cases, ◌⊎◌,
  sym, inl, inr, and-eq-true,
}
use tgju_api_go.Server.Handlers.{Service}
use tgju_api_go.Server.Router.{
  Entry, registered, segments, is_placeholder, match_segments, or_found, find,
}

-- The patterns differ in length, or in a segment that is a placeholder in neither.
unfoldable apart : List Text → List Text → Bool
unfolding text_eq
apart [] [] = false
apart (p ∷ ps) (q ∷ qs) =
    (not (is_placeholder p) && (not (is_placeholder q) && not (text_eq p q))) || apart ps qs
apart _ _ = true

fixed_apart :
    (p q x : Text)
    → is_placeholder p ≡ false
    → not (text_eq p q) ≡ true
    → text_eq p x ≡ true
    → text_eq q x ≡ false
fixed_apart p q x a b c = elim (Bool-cases (text_eq q x)) [
  | inl e ↦
      let same : p ≡ q = cc ((text_eq_iff p x).0 c, (text_eq_iff q x).0 e) in
      absurd (cc (b, (text_eq_iff p q).1 same))
  | inr e ↦ e
]

-- what stands behind the first segment matches too, and that segment is a placeholder or the same
match-tail :
    (p : Text) (ps : List Text) (x : Text) (xs : List Text) {vs : List Text}
    → match_segments (p ∷ ps) (x ∷ xs) ≡ some vs
    → ((us : List Text) × (match_segments ps xs ≡ some us))
      × ((is_placeholder p ≡ false) → text_eq p x ≡ true)
unfolding match_segments
match-tail p ps x xs m = elim (Option-cases (match_segments ps xs)) [
  | inl e ↦ absurd (none_matched (is_placeholder p) (is_nil x) (text_eq p x) (rw e at m))
  | inr (us, e) ↦ ((us, e), λ h. ground (arith, m, h))
]
  where
    none_matched :
        (a b c : Bool) {vs : List Text}
        → ¬ ((if a then (if b then none else none) else if c then none else none) ≡ some vs)
    none_matched a b c h = ground (arith, h)

match-none :
    (q : Text) (qs : List Text) (x : Text) (xs : List Text)
    → match_segments qs xs ≡ none
    → match_segments (q ∷ qs) (x ∷ xs) ≡ none
unfolding match_segments
match-none q qs x xs h = rw h (ground arith)

match-differs :
    (q : Text) (qs : List Text) (x : Text) (xs : List Text)
    → is_placeholder q ≡ false
    → text_eq q x ≡ false
    → match_segments (q ∷ qs) (x ∷ xs) ≡ none
unfolding match_segments
match-differs q qs x xs h k = rw (h, k) refl

fixed_in :
    (a b c d : Bool)
    → ((not a && (not b && not c)) || d) ≡ true
    → (d ≡ true) ⊎ ((a ≡ false) × (b ≡ false) × (not c ≡ true))
fixed_in true b c d h = inl h
fixed_in false true c d h = inl h
fixed_in false false true d h = inl h
fixed_in false false false d h = inr (refl, refl, refl)

nil_matches_nil :
    (x : Text) (xs : List Text) {vs : List Text} → ¬ (match_segments [] (x ∷ xs) ≡ some vs)
unfolding match_segments
nil_matches_nil x xs m = cc m

cons_matches_cons :
    (p : Text) (ps : List Text) {vs : List Text} → ¬ (match_segments (p ∷ ps) [] ≡ some vs)
unfolding match_segments
cons_matches_cons p ps m = cc m

match-apart :
    (ps qs path : List Text) {vs : List Text}
    → apart ps qs ≡ true
    → match_segments ps path ≡ some vs
    → match_segments qs path ≡ none
unfolding apart
match-apart [] [] path a m = absurd (cc a)
match-apart [] (q ∷ qs) [] a m = unfold match_segments in refl
match-apart [] (q ∷ qs) (x ∷ xs) a m = absurd (nil_matches_nil x xs m)
match-apart (p ∷ ps) qs [] a m = absurd (cons_matches_cons p ps m)
match-apart (p ∷ ps) [] (x ∷ xs) a m = unfold match_segments in refl
match-apart (p ∷ ps) (q ∷ qs) (x ∷ xs) a m =
    let t = match-tail p ps x xs m in
    elim (fixed_in (is_placeholder p) (is_placeholder q) (text_eq p q) (apart ps qs) a) [
      | inl b ↦ match-none q qs x xs (match-apart ps qs xs b t.0.1)
      | inr (b, c, d) ↦ match-differs q qs x xs c (fixed_apart p q x b d (t.1 b))
    ]

apart_from : List Text → List Entry → Bool
unfolding apart segments
apart_from ps [] = true
apart_from ps (e ∷ es) = apart (segments e.pattern) ps && apart_from ps es

unfoldable pub all_apart : List Entry → Bool
unfolding apart_from
all_apart [] = true
all_apart (e ∷ es) = apart_from (segments e.pattern) es && all_apart es

apart_from-get :
    (ps : List Text) (es : List Entry) (i : ℕ) {e : Entry}
    → apart_from ps es ≡ true
    → get_elem? es i ≡ some e
    → apart (segments e.pattern) ps ≡ true
unfolding apart_from
apart_from-get ps [] i a g = absurd (cc g)
apart_from-get ps (d ∷ es) zero {e} a g =
    let same : d ≡ e = cc g in
    ap (λ (x : Entry). apart (segments x.pattern) ps) (sym same)
    ∙ (and-eq-true (apart (segments d.pattern) ps) (apart_from ps es) a).0
apart_from-get ps (d ∷ es) (suc i) a g =
    apart_from-get ps es i (and-eq-true (apart (segments d.pattern) ps) (apart_from ps es) a).1 g

-- Where all patterns are apart, the entry whose pattern matches is the one that is found.
pub find-matched :
    (es : List Entry) (i : ℕ) (path : List Text) {e : Entry} {vs : List Text}
    → all_apart es ≡ true
    → get_elem? es i ≡ some e
    → match_segments (segments e.pattern) path ≡ some vs
    → find es path ≡ some (e, vs)
unfolding find all_apart
find-matched [] i path a g m = absurd (cc g)
find-matched (d ∷ es) zero path {e} {vs} a g m =
    let same : d ≡ e = cc g in
    ap (λ r. or_found d r (find es path))
      (ap (λ (x : Entry). match_segments (segments x.pattern) path) same ∙ m)
    ∙ ap (λ x. some (x, vs)) same
find-matched (d ∷ es) (suc i) path {e} a g m =
    let b = and-eq-true (apart_from (segments d.pattern) es) (all_apart es) a in
    let missed =
      match-apart (segments e.pattern) (segments d.pattern) path
        (apart_from-get (segments d.pattern) es i b.0 g) m in
    rw missed (find-matched es i path b.1 g m)

pub registered-all_apart : (s : Service) (metrics : Bool) → all_apart (registered s metrics) ≡ true
unfolding all_apart registered segments
registered-all_apart s true = refl
registered-all_apart s false = refl
