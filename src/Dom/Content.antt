-- ===== src/Dom/Content.antt =====
-- The names, classes and text of a node of internal/dom/dom.go.
use tgju_api_go.Common.{
  true, List, [], ◌∷◌, some, Text, ◌≡◌, ◌≢◌, ◌↔◌, sym, ap, arith, text_eq_iff, ◌⊎◌, All,
}
use tgju_api_go.Strings.{fields, join, trim_space, one_of}
use tgju_api_go.Strings.Words.{IsWord, fields-IsWord, fields-join, trim_space-join}
use tgju_api_go.Dom.{Node, Html, name_of, atom_of, tag, classes, has_class, text, text_at}

abbrev pub Occurs : Text → List Text → Type 0
Occurs s [] = ⊥
Occurs s (n ∷ ns) = (s ≡ n) ⊎ Occurs s ns

pub one_of_iff : (ns : List Text) (s : Text) → (one_of ns s ≡ true) ↔ Occurs s ns
one_of_iff [] s = (λ e. cc, λ e. absurd e)
one_of_iff (n ∷ ns) s = ground (arith, text_eq_iff s n, one_of_iff ns s)

-- html.Parse sets the atom of each element to that of its name, and distinct names have distinct
-- atoms, but for the names that have none.
pub record HasAtom (html : Html) (n : Node) : Type 0 where
  pub set : atom_of n ≡ html.atom (name_of n)

pub record AtomsDiffer (html : Html) : Type 0 where
  pub differ : (s t : Text) → html.atom s ≢ 0 → html.atom s ≡ html.atom t → s ≡ t

-- On a parsed node `Tag` compares names, whether the name has an atom or not.
pub tag_iff :
    (html : Html)
    → AtomsDiffer html
    → (name : Text) (n : Node) → HasAtom html n
    → (tag html name n ≡ true) ↔ (name_of n ≡ name)
unfolding tag
tag_iff html ds name n h =
    ground (arith, text_eq_iff (name_of n) name, ds.differ name (name_of n), h.set, ap html.atom)

-- `HasClass` holds exactly when one of the class tokens is the given one.
pub has_class_iff :
    (n : Node) (class : Text) → (has_class (some n) class ≡ true) ↔ Occurs class (classes n)
unfolding has_class
has_class_iff n class = one_of_iff (classes n) class

-- The text of a node is its words, joined with single spaces and with none around them.
pub text-normal :
    (n : Node)
    → (text (some n) ≡ join (b' ' ∷ []) (fields (text (some n))))
      × (trim_space (text (some n)) ≡ text (some n))
      × All IsWord (fields (text (some n)))
unfolding text
text-normal n =
    let ws = fields (text_at n) in
    let same = fields-join ws (fields-IsWord (text_at n)) in
    (
      ap (join (b' ' ∷ [])) (sym same),
      trim_space-join ws (fields-IsWord (text_at n)),
      fields-IsWord (text (some n)),
    )
