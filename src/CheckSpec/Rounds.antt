-- ===== src/CheckSpec/Rounds.antt =====
-- internal/cmd/checkspec/main.go: the loop of `check` keeps what the document says of itself.
use tgju_api_go.Common.{
  ℕ, ◌+◌, Bool, true, false, not, List, [], ◌∷◌, ◌++◌, Option, none, some, Text, codes, ◌≡◌, refl,
  sym, ap, ◌∙◌, arith, ◌==◌, ◌&&◌, ◌||◌, if◌then◌else◌, is_nil, text_eq, text_eq_iff, Bool-cases,
  inl, inr, any-append, subst,
}
use tgju_api_go.CheckSpec.{
  Scan, has, start, enter, is_top, count_path, define, define_in, component, classify_line,
  section_name, definition_name, path_name, scan_line, scan_lines,
}
use tgju_api_go.CheckSpec.Blocks.{
  names_version, opens, is_inside, section_or, section_at, version_at, path_at, defined_by,
  unless_section, component_at, onto, is_found, has_path, is_key, defines,
}

-- what the loop keeps of the lines behind it: the block, the version and the section
abbrev pub Keeps : List Text → Scan → Type 0
Keeps before s =
    (s.in_components ≡ is_inside before)
    × (s.version ≡ version_at before)
    × (is_inside before ≡ true → s.section ≡ section_at before)

-- the same in the middle of a round, behind the switch, which leaves the rest alone
abbrev Enters : Text → List Text → Scan → Scan → Type 0
Enters t before s u =
    (u.in_components ≡ is_inside (t ∷ before))
    × (u.version ≡ version_at (t ∷ before))
    × (is_inside (t ∷ before) ≡ true
        → u.section ≡ (if not (names_version t) && opens t then [] else section_at before))
    × (u.paths ≡ s.paths)
    × (u.defined ≡ s.defined)

enter-Enters :
    (t : Text) (before : List Text) (s : Scan) → Keeps before s → Enters t before s (enter t s)
unfolding enter
enter-Enters t before s (i, v, n) = elim (Bool-cases (names_version t)) [
  | inl e ↦ rw e (i, refl, n, refl, refl)
  | inr e ↦ elim (Bool-cases (opens t)) [
    | inl f ↦ rw (e, f) (refl, v, λ h. refl, refl, refl)
    | inr f ↦ elim (Bool-cases (is_top t)) [
      | inl g ↦ rw (e, f, g) (refl, v, λ h. absurd (cc h), refl, refl)
      | inr g ↦ rw (e, f, g) (i, v, n, refl, refl)
    ]
  ]
]

-- the number of paths that a line adds, and the names that are there with one that it may define
abbrev one_if : Bool → ℕ
one_if true = 1
one_if false = 0

-- what the rest of the round leaves, where `u` is the state behind the switch
abbrev Classifies : Text → List Text → Scan → Scan → Type 0
Classifies t before u z =
    Keeps (t ∷ before) z
    × (z.paths ≡ u.paths + one_if (is_found (path_at (t ∷ before))))
    × ((k : Text) → has k z.defined ≡ (has k u.defined || is_key k (component_at (t ∷ before))))

has-append : (k j : Text) (ks : List Text) → has k (ks ++ j ∷ []) ≡ (has k ks || text_eq k j)
has-append k j ks =
    any-append (text_eq k) ks (j ∷ []) ∙ ap (λ b. has k ks || b) (or-false (text_eq k j))
  where
    or-false : (b : Bool) → (b || false) ≡ b
    or-false true = refl
    or-false false = refl

or_same : (b : Bool) → b ≡ (b || false)
or_same true = refl
or_same false = refl

has-define : (k j : Text) (ks : List Text) → has k (define j ks) ≡ (has k ks || text_eq k j)
has-define k j ks = elim (Bool-cases (has j ks)) [
  | inl e ↦ rw e (elim (Bool-cases (text_eq k j)) [
    | inl f ↦
        let there : has k ks ≡ true = ap (λ i. has i ks) ((text_eq_iff k j).0 f) ∙ e in
        rw there refl
    | inr f ↦ rw f (or_same (has k ks))
  ])
  | inr e ↦ rw e (has-append k j ks)
]

-- a definition inside of the components, where no section begins
define_in-has :
    (k : Text) (o : Option Text) (u : Scan)
    → has k (define_in o u).defined ≡ (has k u.defined || is_key k (defined_by u.section o))
define_in-has k none u = or_same (has k u.defined)
define_in-has k (some name) u = elim (Bool-cases (is_nil u.section)) [
  | inl e ↦ rw e (or_same (has k u.defined))
  | inr e ↦ rw e (has-define k (u.section ++ (codes "/" ++ name)) u.defined)
]

then_eq {ℓ} : {A : Type ℓ} (b : Bool) (x y : A) → b ≡ true → (if b then x else y) ≡ x
then_eq true x y h = refl
then_eq false x y h = absurd (cc h)

else_eq {ℓ} : {A : Type ℓ} (b : Bool) (x y : A) → b ≡ false → (if b then x else y) ≡ y
else_eq true x y h = absurd (cc h)
else_eq false x y h = refl

define_in_rest :
    (o : Option Text) (u : Scan)
    → ((define_in o u).in_components ≡ u.in_components)
      × ((define_in o u).version ≡ u.version)
      × ((define_in o u).section ≡ u.section)
      × ((define_in o u).paths ≡ u.paths)
define_in_rest none u = (refl, refl, refl, refl)
define_in_rest (some name) u = elim (Bool-cases (is_nil u.section)) [
  | inl e ↦ rw e (refl, refl, refl, refl)
  | inr e ↦ rw e (refl, refl, refl, refl)
]

component_rest :
    (o d : Option Text) (u : Scan) (base : Text)
    → u.section ≡ base
    → ((component o d u).in_components ≡ u.in_components)
      × ((component o d u).version ≡ u.version)
      × ((component o d u).section ≡ section_or o base)
      × ((component o d u).paths ≡ u.paths)
      × ((k : Text)
          → has k (component o d u).defined
            ≡ (has k u.defined || is_key k (unless_section o (defined_by (section_or o base) d))))
component_rest none d u base h =
    let r = define_in_rest d u in
    (
      r.0,
      r.1,
      r.2 ∙ h,
      r.3,
      λ k. define_in-has k d u ∙ ap (λ b. has k u.defined || is_key k (defined_by b d)) h,
    )
component_rest (some name) d u base h = (refl, refl, refl, refl, λ k. or_same (has k u.defined))

count_path_rest :
    (o : Option Text) (u : Scan)
    → ((count_path o u).in_components ≡ u.in_components)
      × ((count_path o u).version ≡ u.version)
      × ((count_path o u).paths ≡ u.paths + one_if (is_found o))
      × ((count_path o u).defined ≡ u.defined)
count_path_rest none u = (refl, refl, omega arith, refl)
count_path_rest (some p) u = (refl, refl, refl, refl)

module _ (t : Text) (before : List Text) (s u : Scan) (e : Enters t before s u) where
  inside-Classifies :
      is_inside (t ∷ before) ≡ true
      → Classifies t before u (component (section_name t) (definition_name t) u)
  inside-Classifies h =
      let r = component_rest (section_name t) (definition_name t) u _ (e.2 h) in
      (
        (r.0 ∙ e.0, r.1 ∙ e.1, λ g. r.2),
        r.3
            ∙ (omega (
              arith,
              ap (λ o. one_if (is_found o)) (then_eq (is_inside (t ∷ before)) none (path_name t) h),
            )),
        λ k.
            r.4 k
            ∙ ap (λ o. has k u.defined || is_key k o)
                (sym (then_eq (is_inside (t ∷ before)) _ none h)),
      )

  outside-Classifies :
      is_inside (t ∷ before) ≡ false → Classifies t before u (count_path (path_name t) u)
  outside-Classifies h =
      let r = count_path_rest (path_name t) u in
      (
        (r.0 ∙ e.0, r.1 ∙ e.1, λ g. absurd (cc (g, h))),
        r.2
            ∙ ap (λ o. u.paths + one_if (is_found o))
                (sym (else_eq (is_inside (t ∷ before)) none (path_name t) h)),
        λ k.
            ap (has k) r.3
            ∙ or_same (has k u.defined)
            ∙ ap (λ o. has k u.defined || is_key k o)
                (sym (else_eq (is_inside (t ∷ before)) _ none h)),
      )

  classify_line-Classifies : Classifies t before u (classify_line t u)
  unfolding classify_line
  classify_line-Classifies = elim (Bool-cases (is_inside (t ∷ before))) [
    | inl h ↦
        subst (Classifies t before u) (sym (then_eq u.in_components _ _ (e.0 ∙ h)))
          (inside-Classifies h)
    | inr h ↦
        subst (Classifies t before u) (sym (else_eq u.in_components _ _ (e.0 ∙ h)))
          (outside-Classifies h)
  ]

-- one round of the loop
scan_line-Keeps :
    (t : Text) (before : List Text) (s : Scan)
    → Keeps before s
    → Keeps (t ∷ before) (scan_line t s)
      × ((scan_line t s).paths ≡ s.paths + one_if (is_found (path_at (t ∷ before))))
      × ((k : Text)
          → has k (scan_line t s).defined
            ≡ (has k s.defined || is_key k (component_at (t ∷ before))))
unfolding scan_line
scan_line-Keeps t before s k =
    let s' = record s { line = s.line + 1 } in
    let e = enter-Enters t before s' k in
    let c = classify_line-Classifies t before s' (enter t s') e in
    (
      c.0,
      c.1 ∙ ap (λ n. n + one_if (is_found (path_at (t ∷ before)))) e.3,
      λ j. c.2 j ∙ ap (λ ks. has j ks || is_key j (component_at (t ∷ before))) e.4,
    )

none_yet : (n : ℕ) (b c : Bool) → ((n + one_if b == 0) && not c) ≡ ((n == 0) && not (b || c))
none_yet n true c = ground arith
none_yet n false c = ground arith

or_assoc : (a b c : Bool) → ((a || b) || c) ≡ (a || (b || c))
or_assoc true b c = refl
or_assoc false b c = refl

scan_lines_from :
    (ts before : List Text) (s : Scan)
    → Keeps before s
    → ((scan_lines ts s).version ≡ version_at (onto before ts))
      × (((scan_lines ts s).paths == 0) ≡ ((s.paths == 0) && not (has_path before ts)))
      × ((k : Text) → has k (scan_lines ts s).defined ≡ (has k s.defined || defines k before ts))
unfolding scan_lines
scan_lines_from [] before s k = (k.1, ground arith, λ j. or_same (has j s.defined))
scan_lines_from (t ∷ ts) before s k =
    let c = scan_line-Keeps t before s k in
    let r = scan_lines_from ts (t ∷ before) (scan_line t s) c.0 in
    (
      r.0,
      r.1
          ∙ ap (λ n. (n == 0) && not (has_path (t ∷ before) ts)) c.1
          ∙ none_yet s.paths (is_found (path_at (t ∷ before))) (has_path (t ∷ before) ts),
      λ j.
          r.2 j
          ∙ ap (λ b. b || defines j (t ∷ before) ts) (c.2 j)
          ∙ or_assoc (has j s.defined) (is_key j (component_at (t ∷ before)))
              (defines j (t ∷ before) ts),
    )

-- The version, whether there is a path, and the names that are defined are those of the document.
pub scan_lines_lem :
    (ts : List Text)
    → ((scan_lines ts start).version ≡ version_at (onto [] ts))
      × (((scan_lines ts start).paths == 0) ≡ not (has_path [] ts))
      × ((k : Text) → has k (scan_lines ts start).defined ≡ defines k [] ts)
scan_lines_lem ts = scan_lines_from ts [] start (refl, refl, λ h. refl)
