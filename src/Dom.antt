-- ===== src/Dom.antt =====
-- internal/dom/dom.go: queries over a parsed HTML document. The parser, golang.org/x/net/html, is
-- a parameter; a nil pointer is `none`.
pub mod Search
pub mod Content
use tgju_api_go.Common.{
  ℕ, Bool, true, false, List, [], ◌∷◌, ◌++◌, Option, none, some, Text, codes, ◌==◌, ◌&&◌, not,
  if◌then◌else◌, is_nil, keep, text_eq,
}
use tgju_api_go.Strings.{fields, join, one_of}

-- An html.Node, by its type: an element has a name, the atom of that name, its attributes and its
-- children; a text node has its text; documents, comments and doctypes are `other`.
mutual
  pub data Node : Type 0 where
    element : Text → ℕ → List (Text × Text) → Nodes → Node
    text_node : Text → Node
    other : Nodes → Node

  pub data Nodes : Type 0 where
    nil : Nodes
    cons : Node → Nodes → Nodes

-- golang.org/x/net/html: html.Parse and atom.Lookup
pub record Html : Type 0 where
  pub parse : List ℕ → Option Node
  pub atom : Text → ℕ

abbrev pub Matcher : Type 0
Matcher = Node → Bool

abbrev pub child_nodes : Node → Nodes
child_nodes (element d a ps kids) = kids
child_nodes (text_node t) = nil
child_nodes (other kids) = kids

abbrev pub is_element : Node → Bool
is_element (element d a ps kids) = true
is_element _ = false

abbrev pub name_of : Node → Text
name_of (element d a ps kids) = d
name_of _ = []

abbrev pub atom_of : Node → ℕ
atom_of (element d a ps kids) = a
atom_of _ = 0

abbrev pub attrs_of : Node → List (Text × Text)
attrs_of (element d a ps kids) = ps
attrs_of _ = []

-- a callback's state, and whether the walk goes on
abbrev pub and_then {ℓ} : {S : Type ℓ} → S × Bool → (S → S × Bool) → S × Bool
and_then (s, true) k = k s
and_then (s, false) k = (s, false)

unfoldable mutual
  pub visit : {S : Type 0} → (Node → S → S × Bool) → Node → S → S × Bool
  visit fn (element d a ps kids) s = and_then (fn (element d a ps kids) s) (λ s'. walk fn kids s')
  visit fn (text_node t) s = (s, true)
  visit fn (other kids) s = walk fn kids s

  pub walk : {S : Type 0} → (Node → S → S × Bool) → Nodes → S → S × Bool
  walk fn nil s = (s, true)
  walk fn (cons c rest) s = and_then (visit fn c s) (λ s'. walk fn rest s')

-- the callback of `Find`
abbrev pub find_fn : Matcher → Node → Option Node → Option Node × Bool
find_fn m c found = if m c then (some c, false) else (found, true)

unfoldable pub find : Node → Matcher → Option Node
unfolding walk
find n m = (walk (find_fn m) (child_nodes n) none).0

unfoldable mutual
  pub find_all_at : Matcher → Node → List Node
  find_all_at m (element d a ps kids) =
      if m (element d a ps kids) then element d a ps kids ∷ [] else find_all_in m kids
  find_all_at m (text_node t) = []
  find_all_at m (other kids) = find_all_in m kids

  pub find_all_in : Matcher → Nodes → List Node
  find_all_in m nil = []
  find_all_in m (cons c rest) = find_all_at m c ++ find_all_in m rest

unfoldable pub find_all : Node → Matcher → List Node
unfolding find_all_in
find_all n m = find_all_in m (child_nodes n)

unfoldable pub children_in : Matcher → Nodes → List Node
children_in m nil = []
children_in m (cons c rest) =
    if is_element c && m c then c ∷ children_in m rest else children_in m rest

unfoldable pub children : Node → Matcher → List Node
unfolding children_in
children n m = children_in m (child_nodes n)

unfoldable pub lookup_attr : Text → List (Text × Text) → Text
unfolding text_eq
lookup_attr name [] = []
lookup_attr name ((k, v) ∷ ps) = if text_eq k name then v else lookup_attr name ps

unfoldable pub attr : Option Node → Text → Text
unfolding lookup_attr
attr none name = []
attr (some n) name = lookup_attr name (attrs_of n)

unfoldable pub classes : Node → List Text
unfolding attr fields
classes n = fields (attr (some n) (codes "class"))

unfoldable pub has_class : Option Node → Text → Bool
unfolding classes text_eq
has_class none class = false
has_class (some n) class = one_of (classes n) class

module _ (html : Html) where
  unfoldable pub tag : Text → Matcher
  unfolding text_eq
  tag name n = if html.atom name == 0 then text_eq (name_of n) name else atom_of n == html.atom name

  unfoldable pub tag_class : Text → Text → Matcher
  unfolding tag has_class
  tag_class name class n =
      if not (is_nil name) && not (tag name n) then false else has_class (some n) class

-- what the closure of `Text` writes
unfoldable mutual
  pub text_at : Node → Text
  text_at (element d a ps kids) = text_in kids
  text_at (text_node t) = t
  text_at (other kids) = text_in kids

  pub text_in : Nodes → Text
  text_in nil = []
  text_in (cons (element d a ps kids) rest) = b' ' ∷ (text_in kids ++ b' ' ∷ text_in rest)
  text_in (cons (text_node t) rest) = t ++ text_in rest
  text_in (cons (other kids) rest) = text_in kids ++ text_in rest

unfoldable pub text : Option Node → Text
unfolding text_at fields join
text none = []
text (some n) = join (b' ' ∷ []) (fields (text_at n))
