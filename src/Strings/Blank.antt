-- ===== src/Strings/Blank.antt =====
-- Texts of white space: trimming leaves nothing of them, and splitting leaves them whole.
use tgju_api_go.Common.{
  ℕ, true, false, [], ◌∷◌, ◌++◌, Text, ◌≡◌, ◌≢◌, sym, ap, ◌∙◌, arith, ◌==◌, Bool-cases, inl, inr,
  All, ==_iff, append-nil, append_assoc,
}
use tgju_api_go.Strings.{is_space, trim_left, trim_right, trim_space, split_from, split}

abbrev IsSpace : ℕ → Type 0
IsSpace c = is_space c ≡ true

trim_right-cons : (c : ℕ) (s : Text) → is_space c ≡ false → trim_right (c ∷ s) ≢ []
unfolding trim_right
trim_right-cons c s h e = ground (arith, h, e)

blank-All : (s : Text) → trim_space s ≡ [] → All IsSpace s
unfolding trim_space trim_left
blank-All [] h = tt
blank-All (c ∷ s) h = elim (Bool-cases (is_space c)) [
  | inl e ↦ (e, blank-All s (rw e at h))
  | inr e ↦ absurd (trim_right-cons c s e (rw e at h))
]

module _ (sep : ℕ) (no_space : is_space sep ≡ false) where
  differs : (c : ℕ) → IsSpace c → (c == sep) ≡ false
  differs c h = elim (Bool-cases (c == sep)) [
    | inl e ↦ let same : c ≡ sep = (==_iff c sep).0 e in absurd (cc (h, no_space, ap is_space same))
    | inr e ↦ e
  ]

  split_from-blank : (s cur : Text) → All IsSpace s → split_from sep cur s ≡ (cur ++ s) ∷ []
  unfolding split_from
  split_from-blank [] cur h = ap (λ t. t ∷ []) (sym (append-nil cur))
  split_from-blank (c ∷ s) cur (p, h) =
      rw (differs c p, split_from) (split_from-blank s (cur ++ c ∷ []) h)
      ∙ ap (λ t. t ∷ []) (append_assoc cur (c ∷ []) s)

  -- The separator is no white space: a text of white space is one part.
  pub split-blank : (s : Text) → trim_space s ≡ [] → split sep s ≡ s ∷ []
  unfolding split
  split-blank s h = split_from-blank s [] (blank-All s h)
