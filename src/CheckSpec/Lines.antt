-- ===== src/CheckSpec/Lines.antt =====
-- internal/cmd/checkspec/main.go: the line that `check` keeps for a reference is the first one that has it.
use tgju_api_go.Common.{
  ℕ, ◌+◌, Bool, true, false, List, [], ◌∷◌, ◌++◌, ◌||◌, Option, none, some, Text, ◌≡◌, refl, sym,
  ap, ◌∙◌, arith, if◌then◌else◌, is_nil, text_eq, text_eq_iff, Bool-cases, Option-cases, inl, inr,
  codes,
}
use tgju_api_go.Strings.{has_prefix}
use tgju_api_go.CheckSpec.{
  start, refs, Scan, has, used_on, use_unless, note_refs, enter, is_top, count_path, define_in,
  component, classify_line, section_name, definition_name, path_name, scan_line, scan_lines,
}

-- the number of the first line that refers to `k`, counted from `n`
abbrev pub first_use : Text → ℕ → List Text → Option ℕ
first_use k n [] = none
first_use k n (t ∷ ts) = if has k (refs t) then some n else first_use k (n + 1) ts

abbrev pub or_else {ℓ} : {A : Type ℓ} → Option A → Option A → Option A
or_else (some a) o = some a
or_else none o = o

abbrev when_has : Bool → ℕ → Option ℕ
when_has true n = some n
when_has false n = none

text_eq_sym : (s t : Text) → text_eq s t ≡ text_eq t s
text_eq_sym s t = ground (arith, text_eq_iff s t, text_eq_iff t s)

used_on-append :
    (k j : Text) (at : ℕ) (us : List (Text × ℕ))
    → used_on k (us ++ (j, at) ∷ []) ≡ or_else (used_on k us) (when_has (text_eq k j) at)
unfolding used_on
used_on-append k j at [] = elim (Bool-cases (text_eq k j)) [
  | inl e ↦ rw (text_eq_sym j k, e) refl
  | inr e ↦ rw (text_eq_sym j k, e) refl
]
used_on-append k j at ((i, n) ∷ us) = elim (Bool-cases (text_eq i k)) [
  | inl e ↦ rw e refl
  | inr e ↦ rw e (used_on-append k j at us)
]

or_else-none : (o : Option ℕ) → or_else o none ≡ o
or_else-none (some n) = refl
or_else-none none = refl

or_else_assoc :
    (o : Option ℕ) (a b : Bool) (at : ℕ)
    → or_else (or_else o (when_has a at)) (when_has b at) ≡ or_else o (when_has (a || b) at)
or_else_assoc (some n) a b at = refl
or_else_assoc none true b at = refl
or_else_assoc none false b at = refl

-- a reference that was seen before leaves the map as it is
used_on-use_unless :
    (k j : Text) (at : ℕ) (us : List (Text × ℕ))
    → used_on k (use_unless (used_on j us) j at us)
      ≡ or_else (used_on k us) (when_has (text_eq k j) at)
used_on-use_unless k j at us = elim (Option-cases (used_on j us)) [
  | inl e ↦ rw e (used_on-append k j at us)
  | inr (n, e) ↦ rw e (elim (Bool-cases (text_eq k j)) [
    | inl f ↦
        let same : k ≡ j = (text_eq_iff k j).0 f in
        let seen : used_on k us ≡ some n = ap (λ i. used_on i us) same ∙ e in rw (f, seen) refl
    | inr f ↦ rw f (sym (or_else-none (used_on k us)))
  ])
]

used_on-note_refs :
    (k : Text) (at : ℕ) (ks : List Text) (us : List (Text × ℕ))
    → used_on k (note_refs at ks us) ≡ or_else (used_on k us) (when_has (has k ks) at)
unfolding note_refs
used_on-note_refs k at [] us = sym (or_else-none (used_on k us))
used_on-note_refs k at (j ∷ ks) us =
    used_on-note_refs k at ks (use_unless (used_on j us) j at us)
    ∙ ap (λ o. or_else o (when_has (has k ks) at)) (used_on-use_unless k j at us)
    ∙ or_else_assoc (used_on k us) (text_eq k j) (has k ks) at

-- the references and the number of the line, which the rest of a round leaves alone
abbrev Alike : Scan → Scan → Type 0
Alike a b = (a.used ≡ b.used) × (a.line ≡ b.line)

enter-Alike : (t : Text) (s : Scan) → Alike (enter t s) s
unfolding enter
enter-Alike t s = elim (Bool-cases (has_prefix t (codes "openapi:"))) [
  | inl e ↦ rw e (refl, refl)
  | inr e ↦ elim (Bool-cases (text_eq t (codes "components:"))) [
    | inl f ↦ rw (e, f) (refl, refl)
    | inr f ↦ elim (Bool-cases (is_top t)) [
      | inl g ↦ rw (e, f, g) (refl, refl)
      | inr g ↦ rw (e, f, g) (refl, refl)
    ]
  ]
]

define_in-Alike : (o : Option Text) (s : Scan) → Alike (define_in o s) s
define_in-Alike none s = (refl, refl)
define_in-Alike (some name) s = elim (Bool-cases (is_nil s.section)) [
  | inl e ↦ rw e (refl, refl)
  | inr e ↦ rw e (refl, refl)
]

component-Alike : (o p : Option Text) (s : Scan) → Alike (component o p s) s
component-Alike none p s = define_in-Alike p s
component-Alike (some name) p s = (refl, refl)

count_path-Alike : (o : Option Text) (s : Scan) → Alike (count_path o s) s
count_path-Alike none s = (refl, refl)
count_path-Alike (some p) s = (refl, refl)

classify_line-Alike : (t : Text) (s : Scan) → Alike (classify_line t s) s
unfolding classify_line
classify_line-Alike t s = elim (Bool-cases s.in_components) [
  | inl e ↦
      rw e
        (component-Alike (section_name t) (definition_name t) (record s { in_components = true }))
  | inr e ↦ rw e (count_path-Alike (path_name t) (record s { in_components = false }))
]

-- a round adds the references of its line, under the next number
scan_line-used :
    (t : Text) (s : Scan)
    → ((scan_line t s).used ≡ note_refs (s.line + 1) (refs t) s.used)
      × ((scan_line t s).line ≡ s.line + 1)
unfolding scan_line
scan_line-used t s =
    let s' = record s { line = s.line + 1 } in
    let a = enter-Alike t s' in
    let b = classify_line-Alike t (enter t s') in (rw (b.0, b.1, a.0, a.1) refl, b.1 ∙ a.1)

used_on-scan_lines_from :
    (k : Text) (ts : List Text) (s : Scan)
    → used_on k (scan_lines ts s).used ≡ or_else (used_on k s.used) (first_use k (s.line + 1) ts)
unfolding scan_lines
used_on-scan_lines_from k [] s = sym (or_else-none (used_on k s.used))
used_on-scan_lines_from k (t ∷ ts) s =
    used_on-scan_lines_from k ts (scan_line t s)
    ∙ rw
        (
          (scan_line-used t s).0,
          (scan_line-used t s).1,
          used_on-note_refs k (s.line + 1) (refs t) s.used,
        )
        (behind (used_on k s.used) (has k (refs t)) (s.line + 1) ts)
  where
    behind :
        (o : Option ℕ) (b : Bool) (n : ℕ) (us : List Text)
        → or_else (or_else o (when_has b n)) (first_use k (n + 1) us)
          ≡ or_else o (if b then some n else first_use k (n + 1) us)
    behind (some m) b n us = refl
    behind none true n us = refl
    behind none false n us = refl

-- The line that is kept for a reference is the first one with it.
pub used_on-scan_lines :
    (k : Text) (ts : List Text) → used_on k (scan_lines ts start).used ≡ first_use k 1 ts
unfolding used_on
used_on-scan_lines k ts = used_on-scan_lines_from k ts start
