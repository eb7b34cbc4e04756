-- ===== src/Strings/Words.antt =====
-- Splitting a text into its words and joining words with single spaces.
use tgju_api_go.Common.{
  ℕ, true, false, List, [], ◌∷◌, ◌++◌, append_assoc, append-nil, Text, ◌≡◌, ◌≢◌, refl, sym, All,
  All-append, arith, Bool-cases, inl, inr, ◌∙◌, ap,
}
use tgju_api_go.Strings.{
  is_space, flush, fields_from, fields, join, trim_left, trim_right, trim_space,
}

abbrev pub NoSpace : Text → Type 0
NoSpace = All (λ c. is_space c ≡ false)

-- a word: not empty, and with no white space in it
abbrev pub IsWord : Text → Type 0
IsWord w = (w ≢ []) × NoSpace w

pub space_is_space : is_space 32 ≡ true
unfolding is_space
space_is_space = refl

flush_word : (w : Text) (ws : List Text) → w ≢ [] → flush w ws ≡ w ∷ ws
flush_word [] ws h = absurd (h refl)
flush_word (c ∷ w) ws h = refl

fields_from-append :
    (w cur rest : Text) → NoSpace w → fields_from cur (w ++ rest) ≡ fields_from (cur ++ w) rest
unfolding fields_from
fields_from-append [] cur rest h = rw append-nil
fields_from-append (c ∷ w) cur rest (p, h) =
    rw (p, fields_from)
      (fields_from-append w (cur ++ c ∷ []) rest h
        ∙ ap (λ t. fields_from t rest) (append_assoc cur (c ∷ []) w))

fields_from_space : (cur s : Text) → fields_from cur (32 ∷ s) ≡ flush cur (fields_from [] s)
unfolding fields_from
fields_from_space cur s = rw (space_is_space, fields_from)

fields_from-join :
    (w : Text) (ws : List Text)
    → All IsWord (w ∷ ws)
    → fields_from [] (join (32 ∷ []) (w ∷ ws)) ≡ w ∷ ws
unfolding join
fields_from-join w [] ((ne, h), _) =
    ap (fields_from []) (sym (append-nil w))
    ∙ fields_from-append w [] [] h
    ∙ unfold fields_from in flush_word w [] ne
fields_from-join w (v ∷ ws) ((ne, h), hs) =
    fields_from-append w [] _ h
    ∙ fields_from_space w _
    ∙ ap (flush w) (fields_from-join v ws hs)
    ∙ flush_word w (v ∷ ws) ne

-- Words joined with single spaces are split into the same words.
pub fields-join : (ws : List Text) → All IsWord ws → fields (join (32 ∷ []) ws) ≡ ws
unfolding fields
fields-join [] h = unfold join fields_from in refl
fields-join (w ∷ ws) h = fields_from-join w ws h

flush-IsWord : (w : Text) (ws : List Text) → NoSpace w → All IsWord ws → All IsWord (flush w ws)
flush-IsWord [] ws h k = k
flush-IsWord (c ∷ w) ws h k = (((λ e. cc), h), k)

fields_from-IsWord : (cur s : Text) → NoSpace cur → All IsWord (fields_from cur s)
unfolding fields_from
fields_from-IsWord cur [] h = flush-IsWord cur [] h tt
fields_from-IsWord cur (c ∷ s) h = elim (Bool-cases (is_space c)) [
  | inl e ↦ rw (e, All, fields_from) (flush-IsWord cur _ h (fields_from-IsWord [] s tt))
  | inr e ↦
      rw (e, All, fields_from)
        (fields_from-IsWord (cur ++ c ∷ []) s (All-append _ cur (c ∷ []) h (e, tt)))
]

-- The fields of any text are words.
pub fields-IsWord : (s : Text) → All IsWord (fields s)
unfolding fields
fields-IsWord s = fields_from-IsWord [] s tt

module _ (P : ℕ → Type 0) where
  flush-All : (w : Text) (ws : List Text) → All P w → All (All P) ws → All (All P) (flush w ws)
  flush-All [] ws h k = k
  flush-All (c ∷ w) ws h k = (h, k)

  fields_from-All : (cur s : Text) → All P cur → All P s → All (All P) (fields_from cur s)
  unfolding fields_from
  fields_from-All cur [] h k = flush-All cur [] h tt
  fields_from-All cur (c ∷ s) h (p, k) = elim (Bool-cases (is_space c)) [
    | inl e ↦ rw (e, fields_from) (flush-All cur _ h (fields_from-All [] s tt k))
    | inr e ↦
        rw (e, fields_from)
          (fields_from-All (cur ++ c ∷ []) s (All-append P cur (c ∷ []) h (p, tt)) k)
  ]

  -- Splitting keeps what holds of every rune.
  pub fields-All : (s : Text) → All P s → All (All P) (fields s)
  unfolding fields
  fields-All s h = fields_from-All [] s tt h

  pub join-All : (sep : Text) (ws : List Text) → All P sep → All (All P) ws → All P (join sep ws)
  unfolding join
  join-All sep [] h k = tt
  join-All sep (w ∷ []) h (p, _) = p
  join-All sep (w ∷ v ∷ ws) h (p, k) =
      All-append P w _ p (All-append P sep _ h (join-All sep (v ∷ ws) h k))

trim_left_word : (w s : Text) → IsWord w → trim_left (w ++ s) ≡ w ++ s
unfolding trim_left
trim_left_word [] s (ne, _) = absurd (ne refl)
trim_left_word (c ∷ w) s (_, (p, _)) = rw p

trim_right-NoSpace : (w : Text) → NoSpace w → trim_right w ≡ w
unfolding trim_right
trim_right-NoSpace [] h = refl
trim_right-NoSpace (c ∷ w) (p, h) = rw (p, trim_right-NoSpace w h)

trim_right-cons : (c : ℕ) (s : Text) → s ≢ [] → trim_right s ≡ s → trim_right (c ∷ s) ≡ c ∷ s
unfolding trim_right
trim_right-cons c [] ne e = absurd (ne refl)
trim_right-cons c (d ∷ s) ne e = ground arith

pub append-ne-nil : (w s : Text) → s ≢ [] → w ++ s ≢ []
append-ne-nil [] s h = h
append-ne-nil (c ∷ w) s h = λ e. cc

trim_right-append : (w s : Text) → s ≢ [] → trim_right s ≡ s → trim_right (w ++ s) ≡ w ++ s
trim_right-append [] s ne e = e
trim_right-append (c ∷ w) s ne e =
    trim_right-cons c (w ++ s) (append-ne-nil w s ne) (trim_right-append w s ne e)

join-ne-nil : (w : Text) (ws : List Text) → w ≢ [] → join (32 ∷ []) (w ∷ ws) ≢ []
unfolding join
join-ne-nil w [] h = h
join-ne-nil [] (v ∷ ws) h = λ e. h refl
join-ne-nil (c ∷ w) (v ∷ ws) h = λ e. cc

trim_right-join :
    (ws : List Text) → All IsWord ws → trim_right (join (32 ∷ []) ws) ≡ join (32 ∷ []) ws
unfolding join
trim_right-join [] h = unfold trim_right in refl
trim_right-join (w ∷ []) ((_, h), _) = trim_right-NoSpace w h
trim_right-join (w ∷ v ∷ ws) (_, ((ne, k), hs)) =
    trim_right-append w _ (λ e. cc)
      (trim_right-cons 32 _ (join-ne-nil v ws ne) (trim_right-join (v ∷ ws) ((ne, k), hs)))

trim_left-join :
    (ws : List Text) → All IsWord ws → trim_left (join (32 ∷ []) ws) ≡ join (32 ∷ []) ws
unfolding join
trim_left-join [] h = unfold trim_left in refl
trim_left-join (w ∷ []) (h, _) =
    ap trim_left (sym (append-nil w)) ∙ trim_left_word w [] h ∙ append-nil w
trim_left-join (w ∷ v ∷ ws) (h, _) = trim_left_word w _ h

-- A text of words has no white space to trim.
pub trim_space-join :
    (ws : List Text) → All IsWord ws → trim_space (join (32 ∷ []) ws) ≡ join (32 ∷ []) ws
unfolding trim_space
trim_space-join ws h = ap trim_right (trim_left-join ws h) ∙ trim_right-join ws h
