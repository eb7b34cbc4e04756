-- ===== src/Server/Filter/Kept.antt =====
-- What the filter of server/handlers.go keeps.
use tgju_api_go.Common.{
  Bool, true, false, List, [], ◌∷◌, ◌++◌, Text, ◌≡◌, ◌≢◌, refl, sym, ap, ◌∙◌, arith, ◌&&◌, ◌||◌,
  keep, keep-append, All, All-append, if◌then◌else◌, is_nil, text_eq, append-nil, append_assoc,
  Bool-cases, inl, inr, subst,
}
use tgju_api_go.Strings.{trim_space}
use tgju_api_go.Snapshot.{Item, Category}
use tgju_api_go.Server.Filter.{
  Query, split_keys, has, keep_items, slice, slices, filter_by, filter_categories,
}

-- the items of the categories with the titles that they stand under
abbrev pub entries_in : Text → List Item → List (Text × Item)
entries_in t [] = []
entries_in t (i ∷ is) = (t, i) ∷ entries_in t is

abbrev pub entries : List Category → List (Text × Item)
entries [] = []
entries (c ∷ cs) = entries_in c.title c.items ++ entries cs

entries-append : (cs ds : List Category) → entries (cs ++ ds) ≡ entries cs ++ entries ds
entries-append [] ds = refl
entries-append (c ∷ cs) ds =
    ap (λ t. entries_in c.title c.items ++ t) (entries-append cs ds)
    ∙ sym (append_assoc (entries_in c.title c.items) (entries cs) (entries ds))

module _ (title : Text) (keys : List Text) where
  -- whether the filter asks for an item: an empty one asks for all
  abbrev pub wanted : Text × Item → Bool
  wanted (t, i) = (is_nil title || text_eq t title) && (is_nil keys || has keys i.key)

  abbrev named_item : Item → Bool
  named_item i = has keys i.key

  keep_items_eq : (kept is : List Item) → keep_items keys kept is ≡ kept ++ keep named_item is
  unfolding keep_items
  keep_items_eq kept [] = rw append-nil
  keep_items_eq kept (i ∷ is) = elim (Bool-cases (has keys i.key)) [
    | inl e ↦
        rw e (keep_items_eq (kept ++ i ∷ []) is ∙ append_assoc kept (i ∷ []) (keep named_item is))
    | inr e ↦ rw e (keep_items_eq kept is)
  ]

  kept_under :
      (t : Text) (is : List Item) (b : Bool)
      → (is_nil title || text_eq t title) ≡ true
      → is_nil keys ≡ b
      → keep wanted (entries_in t is) ≡ entries_in t (if b then is else keep named_item is)
  kept_under t [] true h k = refl
  kept_under t [] false h k = refl
  kept_under t (i ∷ is) true h k = rw (h, k) (ap (λ ps. (t, i) ∷ ps) (kept_under t is true h k))
  kept_under t (i ∷ is) false h k = elim (Bool-cases (has keys i.key)) [
    | inl e ↦ rw (h, k, e) (ap (λ ps. (t, i) ∷ ps) (kept_under t is false h k))
    | inr e ↦ rw (h, k, e) (kept_under t is false h k)
  ]

  dropped_under :
      (t : Text) (is : List Item)
      → (is_nil title || text_eq t title) ≡ false
      → keep wanted (entries_in t is) ≡ []
  dropped_under t [] h = refl
  dropped_under t (i ∷ is) h = rw h (dropped_under t is h)

  -- a category's slice, once its title has passed
  abbrev cut : Bool → Category → List Item → List Category
  cut b c kept =
      if b
      then c ∷ []
      else if is_nil kept
      then []
      else record { title = c.title; items = kept } ∷ []

  cut_entries :
      (b : Bool) (c : Category) (kept : List Item)
      → entries (cut b c kept) ≡ entries_in c.title (if b then c.items else kept)
  cut_entries true c kept = rw append-nil
  cut_entries false c [] = refl
  cut_entries false c (i ∷ kept) = rw append-nil

  slice_passed :
      (c : Category)
      → (is_nil title || text_eq c.title title) ≡ true
      → slice title keys c ≡ cut (is_nil keys) c (keep named_item c.items)
  unfolding slice
  slice_passed c h = let e = keep_items_eq [] c.items in ground arith

  slice_refused :
      (c : Category) → (is_nil title || text_eq c.title title) ≡ false → slice title keys c ≡ []
  unfolding slice
  slice_refused c h = ground arith

  slice_kept :
      (c : Category) → entries (slice title keys c) ≡ keep wanted (entries_in c.title c.items)
  slice_kept c = elim (Bool-cases (is_nil title || text_eq c.title title)) [
    | inl h ↦
        ap entries (slice_passed c h)
        ∙ cut_entries (is_nil keys) c (keep named_item c.items)
        ∙ sym (kept_under c.title c.items (is_nil keys) h refl)
    | inr h ↦ ap entries (slice_refused c h) ∙ sym (dropped_under c.title c.items h)
  ]

  slices_kept :
      (out cs : List Category)
      → entries (slices title keys out cs) ≡ entries out ++ keep wanted (entries cs)
  unfolding slices
  slices_kept out [] = rw append-nil
  slices_kept out (c ∷ cs) =
      slices_kept (out ++ slice title keys c) cs
      ∙ ap (λ t. t ++ keep wanted (entries cs)) (entries-append out (slice title keys c))
      ∙ append_assoc (entries out) (entries (slice title keys c)) (keep wanted (entries cs))
      ∙ ap (λ t. entries out ++ t)
          (ap (λ t. t ++ keep wanted (entries cs)) (slice_kept c)
            ∙ sym (keep-append wanted (entries_in c.title c.items) (entries cs)))

  keep_whole :
      (ps : List (Text × Item)) → is_nil title ≡ true → is_nil keys ≡ true → keep wanted ps ≡ ps
  keep_whole [] h k = refl
  keep_whole (p ∷ ps) h k = rw (h, k) (ap (λ t. p ∷ t) (keep_whole ps h k))

  -- The items of the answer are those of the snapshot that the filter asks for, under the same
  -- titles and in page order.
  pub entries-filter_by :
      (cs : List Category) → entries (filter_by title keys cs) ≡ keep wanted (entries cs)
  unfolding filter_by
  entries-filter_by cs = elim (Bool-cases (is_nil title && is_nil keys)) [
    | inl h ↦ rw h (sym (keep_whole (entries cs) (ground arith) (ground arith)))
    | inr h ↦ rw h (slices_kept [] cs)
  ]

  cut_filled :
      (c : Category) (kept : List Item) → All (λ (c : Category). c.items ≢ []) (cut false c kept)
  cut_filled c [] = tt
  cut_filled c (i ∷ kept) = ((λ e. cc), tt)

  slice_filled :
      (c : Category)
      → is_nil keys ≡ false
      → All (λ (c : Category). c.items ≢ []) (slice title keys c)
  slice_filled c h = elim (Bool-cases (is_nil title || text_eq c.title title)) [
    | inl p ↦ rw (slice_passed c p) (
        subst (λ b. All (λ (c : Category). c.items ≢ []) (cut b c (keep named_item c.items)))
          (sym h) (cut_filled c (keep named_item c.items)))
    | inr p ↦ rw (slice_refused c p) tt
  ]

  slices_filled :
      (out cs : List Category)
      → is_nil keys ≡ false
      → All (λ (c : Category). c.items ≢ []) out
      → All (λ (c : Category). c.items ≢ []) (slices title keys out cs)
  unfolding slices
  slices_filled out [] h k = k
  slices_filled out (c ∷ cs) h k =
      slices_filled (out ++ slice title keys c) cs h
        (All-append (λ (c : Category). c.items ≢ []) out (slice title keys c) k (slice_filled c h))

cons_keys : (keys : List Text) → keys ≢ [] → is_nil keys ≡ false
cons_keys [] h = absurd (h refl)
cons_keys (k ∷ keys) h = refl

filter_by-filled :
    (title : Text) (keys : List Text) (cs : List Category)
    → keys ≢ []
    → All (λ (c : Category). c.items ≢ []) (filter_by title keys cs)
unfolding filter_by
filter_by-filled title keys cs h =
    let e = cons_keys keys h in
    let f : (is_nil title && is_nil keys) ≡ false = ground arith in
    rw f (slices_filled title keys [] cs e tt)

-- Filtering a request's answer keeps the items that have the trimmed ?category= above them and a
-- key of ?keys=, and no others; where ?keys= has a key, no category of the answer is empty.
pub filter_categories_lem :
    (cs : List Category) (q : Query)
    → (entries (filter_categories cs q)
        ≡ keep (wanted (trim_space q.category) (split_keys q.keys)) (entries cs))
      × (split_keys q.keys ≢ [] → All (λ (c : Category). c.items ≢ []) (filter_categories cs q))
unfolding filter_categories
filter_categories_lem cs q = (
  entries-filter_by (trim_space q.category) (split_keys q.keys) cs,
  λ h. filter_by-filled (trim_space q.category) (split_keys q.keys) cs h,
)
