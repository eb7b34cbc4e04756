-- ===== src/CheckSpec/Consistent.antt =====
-- internal/cmd/checkspec/main.go: `check` finds no problem exactly where the document is consistent.
use tgju_api_go.Common.{
  IsSome, ℕ, Bool, true, false, not, List, [], ◌∷◌, ◌++◌, map, keep, any, is_nil, All, Option, none,
  some, Text, codes, ◌≡◌, ◌↔◌, refl, sym, ap, ◌∙◌, arith, ◌==◌, ◌&&◌, ◌||◌, subst, text_eq,
  text_eq_iff, text_eq_refl, Bool-cases, inl, inr,
}
use tgju_api_go.Strings.{has_prefix}
use tgju_api_go.Market.{text_lt}
use tgju_api_go.Errors.{ok}
use tgju_api_go.CheckSpec.{
  Scan, start, has, used_on, scan_lines, insert_text, sort_texts, dangling, unused, is_none,
  problem_when, problems, version_problem, check,
}
use tgju_api_go.CheckSpec.Blocks.{version_at, onto, has_path, defines}
use tgju_api_go.CheckSpec.Rounds.{scan_lines_lem}
use tgju_api_go.CheckSpec.Lines.{first_use, used_on-scan_lines}

is_nil-insert_text : (t : Text) (ts : List Text) → is_nil (insert_text t ts) ≡ false
unfolding insert_text
is_nil-insert_text t [] = refl
is_nil-insert_text t (u ∷ us) = elim (Bool-cases (text_lt u t)) [
  | inl e ↦ rw e refl
  | inr e ↦ rw e refl
]

is_nil-sort_texts : (ts : List Text) → is_nil (sort_texts ts) ≡ is_nil ts
unfolding sort_texts
is_nil-sort_texts [] = refl
is_nil-sort_texts (t ∷ ts) = is_nil-insert_text t (sort_texts ts)

module _ {ℓ} {A : Type ℓ} where
  is_nil-append : (xs ys : List A) → is_nil (xs ++ ys) ≡ (is_nil xs && is_nil ys)
  is_nil-append [] ys = refl
  is_nil-append (x ∷ xs) ys = refl

  is_nil-map : (f : A → Text) (xs : List A) → is_nil (map f xs) ≡ is_nil xs
  is_nil-map f [] = refl
  is_nil-map f (x ∷ xs) = refl

  is_nil-keep : (p : A → Bool) (xs : List A) → is_nil (keep p xs) ≡ not (any p xs)
  is_nil-keep p [] = refl
  is_nil-keep p (x ∷ xs) = elim (Bool-cases (p x)) [
    | inl e ↦ rw e refl
    | inr e ↦ rw e (is_nil-keep p xs)
  ]

  any-eq-false_iff : (p : A → Bool) (xs : List A) → (any p xs ≡ false) ↔ All (λ x. p x ≡ false) xs
  any-eq-false_iff p [] = (λ h. tt, λ h. refl)
  any-eq-false_iff p (x ∷ xs) = elim (Bool-cases (p x)) [
    | inl e ↦ (λ h. absurd (ground arith), λ h. absurd (cc (e, h.0)))
    | inr e ↦ (
      λ h. (e, (any-eq-false_iff p xs).0 (sym (ap (λ b. b || any p xs) e) ∙ h)),
      λ h. rw e ((any-eq-false_iff p xs).1 h.1),
    )
  ]

is_nil-problem_when : (b : Bool) (t : Text) → is_nil (problem_when b t) ≡ not b
is_nil-problem_when true t = refl
is_nil-problem_when false t = refl

-- what holds of every key of a map holds where a key is looked up
All-used_on :
    (P : Text → Type 0) (us : List (Text × ℕ))
    → All (λ u. P u.0) us ↔ ((k : Text) → IsSome (used_on k us) → P k)
unfolding used_on
All-used_on P [] = (λ h k s. absurd (cc s.1), λ f. tt)
All-used_on P ((j, n) ∷ us) = (
  λ h k s. elim (Bool-cases (text_eq j k)) [
    | inl e ↦ subst P ((text_eq_iff j k).0 e) h.0
    | inr e ↦ (All-used_on P us).0 h.1 k (s.0, sym (rw e refl) ∙ s.1)
  ],
  λ f. (
    f j (n, rw (text_eq_refl j) refl),
    (All-used_on P us).1 λ k s.
        f k (elim (Bool-cases (text_eq j k)) [ inl e ↦ (n, rw e refl) | inr e ↦ (s.0, rw e s.1) ]),
  ),
)

All-has : (P : Text → Type 0) (ks : List Text) → All P ks ↔ ((k : Text) → has k ks ≡ true → P k)
All-has P [] = (λ h k s. absurd (cc s), λ f. tt)
All-has P (j ∷ ks) = (
  λ h k s. elim (Bool-cases (text_eq k j)) [
    | inl e ↦ subst P (sym ((text_eq_iff k j).0 e)) h.0
    | inr e ↦ (All-has P ks).0 h.1 k (sym (rw e refl) ∙ s)
  ],
  λ f. (
    f j (rw (text_eq_refl j) refl),
    (All-has P ks).1
        λ k s. f k (elim (Bool-cases (text_eq k j)) [ inl e ↦ rw e refl | inr e ↦ rw e s ]),
  ),
)

module _ (quote : Text → Text) where
  is_nil-problems :
      (s : Scan)
      → is_nil (problems quote s) ≡ (
          has_prefix s.version (codes "3.")
          && (not (s.paths == 0)
              && (not (any (λ u. not (has u.0 s.defined)) s.used)
                  && not (any (λ k. is_none (used_on k s.used)) s.defined))))
  unfolding problems
  is_nil-problems s =
      let undefined = keep (λ u. not (has u.0 s.defined)) s.used in
      let idle = keep (λ k. is_none (used_on k s.used)) s.defined in
      let old =
        problem_when (not (has_prefix s.version (codes "3."))) (version_problem quote s.version) in
      let empty = problem_when (s.paths == 0) (codes "the document describes no paths") in
      is_nil-sort_texts (old ++ (empty ++ (map dangling undefined ++ map unused idle)))
      ∙ rw
          (
            is_nil-append old (empty ++ (map dangling undefined ++ map unused idle)),
            is_nil-append empty (map dangling undefined ++ map unused idle),
            is_nil-append (map dangling undefined) (map unused idle),
            is_nil-problem_when (not (has_prefix s.version (codes "3.")))
                (version_problem quote s.version),
            is_nil-problem_when (s.paths == 0) (codes "the document describes no paths"),
            is_nil-map dangling undefined,
            is_nil-map unused idle,
            is_nil-keep (λ u. not (has u.0 s.defined)) s.used,
            is_nil-keep (λ k. is_none (used_on k s.used)) s.defined,
            not_not (has_prefix s.version (codes "3.")),
          )
          refl
    where
      not_not : (b : Bool) → not (not b) ≡ b
      not_not true = refl
      not_not false = refl

is_nil_iff {ℓ} : {A : Type ℓ} (xs : List A) → (is_nil xs ≡ true) ↔ (xs ≡ [])
is_nil_iff [] = (λ h. refl, λ h. refl)
is_nil_iff (x ∷ xs) = (λ h. absurd (cc h), λ h. absurd (cc h))

is_none_iff : (o : Option ℕ) → (is_none o ≡ false) ↔ IsSome o
is_none_iff none = (λ h. absurd (cc h), λ h. absurd (cc h.1))
is_none_iff (some n) = (λ h. (n, refl), λ h. refl)

not_iff : (b : Bool) → (not b ≡ false) ↔ (b ≡ true)
not_iff true = (λ h. refl, λ h. refl)
not_iff false = (λ h. absurd (cc h), λ h. absurd (cc h))

all_four :
    (a b c d : Bool)
    → ((a && (not b && (not c && not d))) ≡ true)
      ↔ ((a ≡ true) × (b ≡ false) × (c ≡ false) × (d ≡ false))
all_four true false false false = (λ h. (refl, refl, refl, refl), λ h. refl)
all_four false b c d = (λ h. absurd (cc h), λ h. absurd (cc h.0))
all_four true true c d = (λ h. absurd (cc h), λ h. absurd (cc h.1))
all_four true false true d = (λ h. absurd (cc h), λ h. absurd (cc h.2))
all_four true false false true = (λ h. absurd (cc h), λ h. absurd (cc h.3))

-- no reference dangles, and no component is unused
meets_iff :
    (s : Scan)
    → ((any (λ u. not (has u.0 s.defined)) s.used ≡ false)
        × (any (λ k. is_none (used_on k s.used)) s.defined ≡ false))
      ↔ ((k : Text) → IsSome (used_on k s.used) ↔ (has k s.defined ≡ true))
meets_iff s =
    let uses = any-eq-false_iff (λ u. not (has u.0 s.defined)) s.used in
    let defs = any-eq-false_iff (λ k. is_none (used_on k s.used)) s.defined in
    let used_all = All-used_on (λ k. not (has k s.defined) ≡ false) s.used in
    let has_all = All-has (λ k. is_none (used_on k s.used) ≡ false) s.defined in
    (
      λ h k. (
        λ u. (not_iff (has k s.defined)).0 (used_all.0 (uses.0 h.0) k u),
        λ d. (is_none_iff (used_on k s.used)).0 (has_all.0 (defs.0 h.1) k d),
      ),
      λ f. (
        uses.1 (used_all.1 λ k u. (not_iff (has k s.defined)).1 ((f k).0 u)),
        defs.1 (has_all.1 λ k d. (is_none_iff (used_on k s.used)).1 ((f k).1 d)),
      ),
    )

-- The version that the document gives last begins with 3., a path stands outside of its components, and
-- the components that some line refers to are those that a line defines, in a section of them.
abbrev pub IsConsistent : List Text → Type 0
IsConsistent lines =
    (has_prefix (version_at (onto [] lines)) (codes "3.") ≡ true)
    × (has_path [] lines ≡ true)
    × ((k : Text) → IsSome (first_use k 1 lines) ↔ (defines k [] lines ≡ true))

-- the references and the names, in the state behind the loop and in the document
meets_lines :
    (lines : List Text) (k : Text)
    → (IsSome (used_on k (scan_lines lines start).used)
        ↔ (has k (scan_lines lines start).defined ≡ true))
      ≡ (IsSome (first_use k 1 lines) ↔ (defines k [] lines ≡ true))
meets_lines lines k =
    ap (λ o. IsSome o ↔ (has k (scan_lines lines start).defined ≡ true))
      (used_on-scan_lines k lines)
    ∙ ap (λ b. IsSome (first_use k 1 lines) ↔ (b ≡ true)) ((scan_lines_lem lines).2 k)

-- For a document that can be read, check returns no problem exactly where the version that it gives last
-- begins with 3., a path stands outside of its components, and the components that some line refers to
-- are those that a line defines, in a section of them.
pub check-IsConsistent :
    (quote : Text → Text) (lines : List Text)
    → (check quote (ok lines) ≡ ok []) ↔ IsConsistent lines
unfolding check
check-IsConsistent quote lines =
    let s = scan_lines lines start in
    let read = scan_lines_lem lines in
    let found = is_nil_iff (problems quote s) in
    let four =
      all_four (has_prefix s.version (codes "3.")) (s.paths == 0)
        (any (λ u. not (has u.0 s.defined)) s.used)
        (any (λ k. is_none (used_on k s.used)) s.defined) in
    (
      λ h.
          let f = four.0 (sym (is_nil-problems quote s) ∙ found.1 (cc h)) in
          let m = (meets_iff s).0 (f.2, f.3) in
          (
            sym (ap (λ v. has_prefix v (codes "3.")) read.0) ∙ f.0,
            (not_iff (has_path [] lines)).0 (sym read.1 ∙ f.1),
            λ k. coe 0 1 (i. meets_lines lines k i) (m k),
          ),
      λ c.
          let m = (meets_iff s).1 λ k. coe 0 1 (i. sym (meets_lines lines k) i) (c.2 k) in
          ap ok (
            found.0 (
              is_nil-problems quote s
              ∙ four.1 (
                ap (λ v. has_prefix v (codes "3.")) read.0 ∙ c.0,
                read.1 ∙ (not_iff (has_path [] lines)).1 c.1,
                m.0,
                m.1,
              ))),
    )
