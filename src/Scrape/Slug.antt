-- ===== src/Scrape/Slug.antt =====
-- `slugFromHref` of internal/scrape/scrape.go.
use tgju_api_go.Common.{
  ℕ, Bool, false, [], ◌∷◌, ◌++◌, Text, ◌≡◌, ◌≢◌, refl, sym, ap, ◌∙◌, arith, any, ◌==◌, ==_refl,
  any_middle, All-append, append_assoc,
}
use tgju_api_go.Strings.{is_space, trim_space, trim_suffix, after_last, cut_at, join}
use tgju_api_go.Strings.Words.{IsWord, NoSpace, trim_space-join, append-ne-nil}
use tgju_api_go.Strings.Cut.{cut_at-eq-none}
use tgju_api_go.Scrape.{ends_slug, before_cut, slug_from_href}

-- `c == x` as a test
abbrev is : ℕ → ℕ → Bool
is x c = c == x

any-after_last : (x : ℕ) (s : Text) → any (is x) (after_last x s) ≡ false
unfolding after_last
any-after_last x [] = refl
any-after_last x (c ∷ s) = ground (arith, any-after_last x s)

module _ (q : ℕ → Bool) where
  any-before_cut : (s : Text) → any q (before_cut s (cut_at q s)) ≡ false
  unfolding cut_at
  any-before_cut [] = refl
  any-before_cut (c ∷ s) = ground (arith, any-before_cut s)

  any-before_cut_of :
      (p : ℕ → Bool) (s : Text) → any p s ≡ false → any p (before_cut s (cut_at q s)) ≡ false
  unfolding cut_at
  any-before_cut_of p [] h = refl
  any-before_cut_of p (c ∷ s) h = ground (arith, any-before_cut_of p s)

-- A slug from a link has no slash, question mark or hash in it.
pub slug_from_href_chars :
    (href : Text)
    → (any (λ c. c == b'/') (slug_from_href href) ≡ false)
      × (any ends_slug (slug_from_href href) ≡ false)
unfolding slug_from_href
slug_from_href_chars href =
    let path = trim_suffix b'/' (trim_space href) in
    let last = after_last b'/' path in
    (
      any-before_cut_of ends_slug (is b'/') last (any-after_last b'/' path),
      any-before_cut ends_slug last,
    )

after_last-append : (x : ℕ) (a b : Text) → any (is x) b ≡ false → after_last x (a ++ x ∷ b) ≡ b
unfolding after_last
after_last-append x [] b h = ground arith
after_last-append x (c ∷ a) b h =
    rw (any_middle (is x) a b x (==_refl x)) (after_last-append x a b h)

trim_suffix-append : (x : ℕ) (a : Text) → trim_suffix x (a ++ x ∷ []) ≡ a
unfolding trim_suffix
trim_suffix-append x [] = ground arith
trim_suffix-append x (c ∷ []) = ground arith
trim_suffix-append x (c ∷ d ∷ a) = ground (arith, trim_suffix-append x (d ∷ a))

trim_suffix_keep : (x : ℕ) (b : Text) → any (is x) b ≡ false → trim_suffix x b ≡ b
unfolding trim_suffix
trim_suffix_keep x [] h = refl
trim_suffix_keep x (c ∷ b) h = ground (arith, trim_suffix_keep x b)

trim_suffix_inside :
    (x : ℕ) (a b : Text) → b ≢ [] → any (is x) b ≡ false → trim_suffix x (a ++ b) ≡ a ++ b
unfolding trim_suffix
trim_suffix_inside x [] b ne h = trim_suffix_keep x b h
trim_suffix_inside x (c ∷ []) (d ∷ b) ne h = ground (arith, trim_suffix_keep x (d ∷ b))
trim_suffix_inside x (c ∷ []) [] ne h = absurd (ne refl)
trim_suffix_inside x (c ∷ e ∷ a) b ne h = ground (arith, trim_suffix_inside x (e ∷ a) b)

-- a slug that a link can carry: a word with no slash, question mark or hash
pub record IsSlug (slug : Text) : Type 0 where
  pub word : IsWord slug
  pub no_slash : any (is b'/') slug ≡ false
  pub no_end : any ends_slug slug ≡ false

trim_space_word : (w : Text) → IsWord w → trim_space w ≡ w
unfolding join
trim_space_word w h = trim_space-join (w ∷ []) (h, tt)

abbrev finish : Text → Text
finish last = before_cut last (cut_at ends_slug last)

slug_from_href_eq :
    (href : Text)
    → slug_from_href href ≡ finish (after_last b'/' (trim_suffix b'/' (trim_space href)))
unfolding slug_from_href
slug_from_href_eq href = refl

slug_of_path :
    (href dir slug : Text)
    → IsSlug slug
    → trim_suffix b'/' (trim_space href) ≡ dir ++ b'/' ∷ slug
    → slug_from_href href ≡ slug
slug_of_path href dir slug h e =
    slug_from_href_eq href
    ∙ ap (λ p. finish (after_last b'/' p)) e
    ∙ ap finish (after_last-append b'/' dir slug h.no_slash)
    ∙ ap (before_cut slug) (cut_at-eq-none ends_slug slug h.no_end)

slash_no_space : is_space b'/' ≡ false
unfolding is_space
slash_no_space = refl

slash-IsWord : (dir slug : Text) → NoSpace dir → IsWord slug → IsWord (dir ++ b'/' ∷ slug)
slash-IsWord dir slug h (ne, k) = (
  append-ne-nil dir (b'/' ∷ slug) (λ e. cc),
  All-append _ dir (b'/' ∷ slug) h (slash_no_space, k),
)

append-IsWord : (w s : Text) → IsWord w → NoSpace s → IsWord (w ++ s)
append-IsWord [] s (ne, h) k = absurd (ne refl)
append-IsWord (c ∷ w) s (ne, h) k = ((λ e. cc), All-append _ (c ∷ w) s h k)

trim_suffix_inside_path :
    (dir slug : Text) → IsSlug slug → trim_suffix b'/' (dir ++ b'/' ∷ slug) ≡ dir ++ b'/' ∷ slug
trim_suffix_inside_path dir slug h =
    ap (trim_suffix b'/') (sym (append_assoc dir (b'/' ∷ []) slug))
    ∙ trim_suffix_inside b'/' (dir ++ b'/' ∷ []) slug h.word.0 h.no_slash
    ∙ append_assoc dir (b'/' ∷ []) slug

-- A word without slash, question mark or hash that ends a link without spaces is the link's slug,
-- with or without a slash behind it.
pub slug_from_href-path :
    (dir slug : Text)
    → NoSpace dir
    → IsSlug slug
    → (slug_from_href (dir ++ b'/' ∷ slug) ≡ slug)
      × (slug_from_href ((dir ++ b'/' ∷ slug) ++ b'/' ∷ []) ≡ slug)
slug_from_href-path dir slug h k =
    let one = slash-IsWord dir slug h k.word in
    let two = append-IsWord (dir ++ b'/' ∷ slug) (b'/' ∷ []) one (slash_no_space, tt) in
    (
      slug_of_path _ dir slug k
          (ap (trim_suffix b'/') (trim_space_word _ one) ∙ trim_suffix_inside_path dir slug k),
      slug_of_path _ dir slug k (
          ap (trim_suffix b'/') (trim_space_word _ two)
          ∙ trim_suffix-append b'/' (dir ++ b'/' ∷ slug)),
    )
