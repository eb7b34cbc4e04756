-- ===== src/Snapshot/Items.antt =====
-- The walks of snapshot.go against the plain list of a snapshot's items.
use tgju_api_go.Common.{
  ℕ, ◌+◌, Bool, true, false, List, [], ◌∷◌, ◌++◌, Option, none, some, Text, ◌≡◌, ◌↔◌, refl, sym, ap,
  ◌∙◌, arith, length, length-append, map, append-nil, append_assoc, keep, head?, text_eq, ◌==◌,
  ==_iff,
}
use mathlib.Core.List.{map-append}
use tgju_api_go.Snapshot.{
  Item, Category, Snapshot, len_from, len, continue, yield_items, yield_all, range, items, keys,
  lookup_body, lookup, is_empty,
}

-- the items of the categories, in page order
unfoldable pub flat : List Category → List Item
flat [] = []
flat (c ∷ cs) = c.items ++ flat cs

module _ {ℓ} {A : Type ℓ} (f : Item → A) where
  abbrev push_body : Item → List A → List A × Bool
  push_body i out = (out ++ f i ∷ [], true)

  yield_items_push :
      (is : List Item) (out : List A) → yield_items push_body is out ≡ (out ++ map f is, true)
  unfolding yield_items
  yield_items_push [] out = rw append-nil
  yield_items_push (i ∷ is) out =
      yield_items_push is (out ++ f i ∷ [])
      ∙ ap (λ t. (t, true)) (append_assoc out (f i ∷ []) (map f is))

  pub yield_all_push :
      (cs : List Category) (out : List A)
      → yield_all push_body cs out ≡ (out ++ map f (flat cs), true)
  unfolding yield_all flat
  yield_all_push [] out = rw append-nil
  yield_all_push (c ∷ cs) out =
      ap (λ r. continue r (λ s. yield_all push_body cs s)) (yield_items_push c.items out)
      ∙ yield_all_push cs (out ++ map f c.items)
      ∙ ap (λ t. (t, true))
          (append_assoc out (map f c.items) (map f (flat cs))
            ∙ ap (λ t. out ++ t) (sym (map-append f c.items (flat cs))))

map_same : (is : List Item) → map (λ i. i) is ≡ is
map_same [] = refl
map_same (i ∷ is) = ap (λ t. i ∷ t) (map_same is)

-- `Items` is the flat list.
pub items-flat : (s : Snapshot) → items s ≡ flat s.categories
unfolding items range
items-flat s =
    ap (λ (r : List Item × Bool). r.0) (yield_all_push (λ i. i) s.categories [])
    ∙ map_same (flat s.categories)

pub keys-flat : (s : Snapshot) → keys s ≡ map (λ i. i.key) (flat s.categories)
unfolding keys range
keys-flat s = ap (λ (r : List Text × Bool). r.0) (yield_all_push (λ i. i.key) s.categories [])

len_from-flat : (n : ℕ) (cs : List Category) → len_from n cs ≡ n + length (flat cs)
unfolding len_from flat
len_from-flat n [] = omega arith
len_from-flat n (c ∷ cs) =
    omega (arith, len_from-flat (n + length c.items) cs, length-append c.items (flat cs))

pub len-flat : (s : Snapshot) → len s ≡ length (flat s.categories)
unfolding len
len-flat s = omega (arith, len_from-flat 0 s.categories)

-- `Len`, `Keys` and `Items` agree: as many items as `Len` says, with the keys that `Keys` lists.
pub keys-items : (s : Snapshot) → (keys s ≡ map (λ i. i.key) (items s)) × (len s ≡ length (items s))
keys-items s = (
  keys-flat s ∙ ap (map (λ i. i.key)) (sym (items-flat s)),
  len-flat s ∙ ap length (sym (items-flat s)),
)

module _ (key : Text) where
  -- whether an item has the key
  abbrev pub has_key : Item → Bool
  has_key i = text_eq i.key key

  abbrev halt : Option Item → Option Item × Bool
  halt none = (none, true)
  halt (some i) = (some i, false)

  yield_items_lookup :
      (is : List Item) → yield_items (lookup_body key) is none ≡ halt (head? (keep has_key is))
  unfolding yield_items
  yield_items_lookup [] = refl
  yield_items_lookup (i ∷ is) = ground (arith, yield_items_lookup is)

  resume :
      (o o' : Option Item) (cs : List Category)
      → yield_all (lookup_body key) cs none ≡ halt o'
      → continue (halt o) (λ s. yield_all (lookup_body key) cs s) ≡ continue (halt o) (λ s. halt o')
  resume none o' cs h = h
  resume (some i) o' cs h = refl

  halt_append :
      (xs ys : List Item)
      → continue (halt (head? (keep has_key xs))) (λ s. halt (head? (keep has_key ys)))
        ≡ halt (head? (keep has_key (xs ++ ys)))
  halt_append [] ys = refl
  halt_append (x ∷ xs) ys = ground (arith, halt_append xs ys)

  yield_all_lookup :
      (cs : List Category)
      → yield_all (lookup_body key) cs none ≡ halt (head? (keep has_key (flat cs)))
  unfolding yield_all flat
  yield_all_lookup [] = refl
  yield_all_lookup (c ∷ cs) =
      ap (λ r. continue r (λ s. yield_all (lookup_body key) cs s)) (yield_items_lookup c.items)
      ∙ resume (head? (keep has_key c.items)) _ cs (yield_all_lookup cs)
      ∙ halt_append c.items (flat cs)

  halt-found : (o : Option Item) → (halt o).0 ≡ o
  halt-found none = refl
  halt-found (some i) = refl

lookup_range :
    (s : Snapshot) (key : Text) → lookup s key ≡ (yield_all (lookup_body key) s.categories none).0
unfolding lookup range
lookup_range s key = refl

-- `Lookup` returns the first of the snapshot's items that has the key.
pub lookup-eq-head? :
    (s : Snapshot) (key : Text) → lookup s key ≡ head? (keep (has_key key) (items s))
lookup-eq-head? s key =
    lookup_range s key
    ∙ ap (λ (r : Option Item × Bool). r.0) (yield_all_lookup key s.categories)
    ∙ halt-found key (head? (keep (has_key key) (flat s.categories)))
    ∙ ap (λ is. head? (keep (has_key key) is)) (sym (items-flat s))

is_empty_eq : (s : Snapshot) → is_empty s ≡ (len s == 0)
unfolding is_empty
is_empty_eq s = refl

length-nil : (is : List Item) → length is ≡ 0 → is ≡ []
length-nil [] h = refl
length-nil (i ∷ is) h = absurd (omega arith)

-- A snapshot is empty exactly when it has no item.
pub is_empty-nil : (s : Snapshot) → (is_empty s ≡ true) ↔ (items s ≡ [])
is_empty-nil s =
    let (a, b) = ==_iff (len s) 0 in
    (
      λ h. length-nil (items s) (sym ((keys-items s).1) ∙ a (sym (is_empty_eq s) ∙ h)),
      λ h. is_empty_eq s ∙ b ((keys-items s).1 ∙ ap length h),
    )
