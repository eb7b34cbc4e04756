-- ===== src/Dom/Search.antt =====
-- `Find` and `FindAll` of internal/dom/dom.go against the list of elements in document order.
use mathlib.Core.List.{flat_map}
use tgju_api_go.Common.{
  Bool, true, false, List, [], ◌∷◌, ◌++◌, Option, none, some, ◌≡◌, refl, sym, ap, ◌∙◌, arith, keep,
  keep-append, ◌≢◌, ◌↔◌, head?, Bool-cases, All, All-append, inl, inr, append_assoc, append-nil,
}
use tgju_api_go.Dom.{
  Node, element, text_node, other, Nodes, nil, cons, Matcher, child_nodes, and_then, is_element,
  visit, walk, find_fn, find, find_all_at, find_all_in, find_all,
}

unfoldable mutual
  pub elements_at : Node → List Node
  elements_at (element d a ps kids) = element d a ps kids ∷ elements_in kids
  elements_at (text_node t) = []
  elements_at (other kids) = elements_in kids

  pub elements_in : Nodes → List Node
  elements_in nil = []
  elements_in (cons c rest) = elements_at c ++ elements_in rest

-- the elements below a node, in document order
unfoldable pub elements : Node → List Node
unfolding elements_in
elements n = elements_in (child_nodes n)

-- the result of a search that stops at the first match
abbrev stop_at : Option Node → Option Node × Bool
stop_at none = (none, true)
stop_at (some n) = (some n, false)

module _ (m : Matcher) where
  stop_append :
      (xs ys : List Node)
      → and_then (stop_at (head? (keep m xs))) (λ s. stop_at (head? (keep m ys)))
        ≡ stop_at (head? (keep m (xs ++ ys)))
  stop_append [] ys = refl
  stop_append (x ∷ xs) ys = ground (arith, stop_append xs ys)

  -- a search that has not stopped goes on with nothing found
  resume :
      (o o' : Option Node) (rest : Nodes)
      → walk (find_fn m) rest none ≡ stop_at o'
      → and_then (stop_at o) (λ s. walk (find_fn m) rest s) ≡ and_then (stop_at o) (λ s. stop_at o')
  resume none o' rest h = h
  resume (some n) o' rest h = refl

  mutual
    unfolding visit walk elements_at elements_in

    visit_first : (n : Node) → visit (find_fn m) n none ≡ stop_at (head? (keep m (elements_at n)))
    visit_first (element d a ps kids) = ground (arith, walk_first kids)
    visit_first (text_node t) = refl
    visit_first (other kids) = walk_first kids

    walk_first : (ns : Nodes) → walk (find_fn m) ns none ≡ stop_at (head? (keep m (elements_in ns)))
    walk_first nil = refl
    walk_first (cons c rest) =
        ap (λ r. and_then r (λ s. walk (find_fn m) rest s)) (visit_first c)
        ∙ resume (head? (keep m (elements_at c))) _ rest (walk_first rest)
        ∙ stop_append (elements_at c) (elements_in rest)

  -- the matches at and below a match
  nested : Node → List Node
  nested r = keep m (elements_at r)

  nested_append :
      (xs ys : List Node) → flat_map nested (xs ++ ys) ≡ flat_map nested xs ++ flat_map nested ys
  unfolding flat_map
  nested_append [] ys = refl
  nested_append (x ∷ xs) ys =
      rw (nested_append xs ys)
        (sym (append_assoc (nested x) (flat_map nested xs) (flat_map nested ys)))

  mutual
    unfolding find_all_at find_all_in elements_at elements_in flat_map nested

    keep_at : (n : Node) → keep m (elements_at n) ≡ flat_map nested (find_all_at m n)
    keep_at (element d a ps kids) = elim (Bool-cases (m (element d a ps kids))) [
      | inl e ↦ rw e (rw e (sym (append-nil _)))
      | inr e ↦ rw e (keep_in kids)
    ]
    keep_at (text_node t) = refl
    keep_at (other kids) = keep_in kids

    keep_in : (ns : Nodes) → keep m (elements_in ns) ≡ flat_map nested (find_all_in m ns)
    keep_in nil = refl
    keep_in (cons c rest) =
        keep-append m (elements_at c) (elements_in rest)
        ∙ ap (λ t. t ++ keep m (elements_in rest)) (keep_at c)
        ∙ ap (λ t. flat_map nested (find_all_at m c) ++ t) (keep_in rest)
        ∙ sym (nested_append (find_all_at m c) (find_all_in m rest))

stop_at-found : (o : Option Node) → (stop_at o).0 ≡ o
stop_at-found none = refl
stop_at-found (some n) = refl

-- `Find` returns the first match among the elements below the node, in document order.
pub find-eq-head? : (n : Node) (m : Matcher) → find n m ≡ head? (keep m (elements n))
unfolding find elements
find-eq-head? n m =
    ap (λ (r : Option Node × Bool). r.0) (walk_first m (child_nodes n))
    ∙ stop_at-found (head? (keep m (elements_in (child_nodes n))))

-- a matching element
abbrev pub IsMatch : Matcher → Node → Type 0
IsMatch m n = (m n ≡ true) × (is_element n ≡ true)

module _ (m : Matcher) where
  mutual
    unfolding find_all_at find_all_in

    find_all_at-IsMatch : (n : Node) → All (IsMatch m) (find_all_at m n)
    find_all_at-IsMatch (element d a ps kids) = ground (arith, find_all_in-IsMatch kids)
    find_all_at-IsMatch (text_node t) = tt
    find_all_at-IsMatch (other kids) = find_all_in-IsMatch kids

    find_all_in-IsMatch : (ns : Nodes) → All (IsMatch m) (find_all_in m ns)
    find_all_in-IsMatch nil = tt
    find_all_in-IsMatch (cons c rest) =
        All-append (IsMatch m) (find_all_at m c) (find_all_in m rest) (find_all_at-IsMatch c)
          (find_all_in-IsMatch rest)

find_all-IsMatch : (n : Node) (m : Matcher) → All (IsMatch m) (find_all n m)
unfolding find_all
find_all-IsMatch n m = find_all_in-IsMatch m (child_nodes n)

-- The results of `FindAll` are elements that match; every match below the node is one of them or stands
-- below one; and they come in document order: the matches are those at and below each result in turn.
pub keep-find_all :
    (n : Node) (m : Matcher)
    → All (IsMatch m) (find_all n m)
      × (keep m (elements n) ≡ flat_map (λ r. keep m (elements_at r)) (find_all n m))
unfolding find_all elements nested
keep-find_all n m = (find_all-IsMatch n m, keep_in m (child_nodes n))

IsMatch-keep : (m : Matcher) (r : Node) → IsMatch m r → keep m (elements_at r) ≢ []
unfolding elements_at
IsMatch-keep m (element d a ps kids) (h, _) = rw h (λ e. cc)
IsMatch-keep m (text_node t) (_, h) = cc
IsMatch-keep m (other kids) (_, h) = cc

append-eq-nil {ℓ} : {A : Type ℓ} (xs ys : List A) → xs ++ ys ≡ [] → xs ≡ []
append-eq-nil [] ys h = refl
append-eq-nil (x ∷ xs) ys h = cc

results-eq-nil :
    (m : Matcher) (rs : List Node)
    → All (IsMatch m) rs
    → flat_map (λ r. keep m (elements_at r)) rs ≡ []
    → rs ≡ []
unfolding flat_map
results-eq-nil m [] h e = refl
results-eq-nil m (r ∷ rs) (p, h) e =
    absurd (IsMatch-keep m r p (append-eq-nil (keep m (elements_at r)) _ e))

-- `FindAll` finds nothing exactly when no element below the node matches.
pub find_all-eq-nil_iff :
    (n : Node) (m : Matcher) → (find_all n m ≡ []) ↔ (keep m (elements n) ≡ [])
find_all-eq-nil_iff n m = (
  λ e. (keep-find_all n m).1 ∙ (rw e (unfold flat_map in refl)),
  λ e. results-eq-nil m (find_all n m) (keep-find_all n m).0 (sym (keep-find_all n m).1 ∙ e),
)
