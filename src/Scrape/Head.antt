-- ===== src/Scrape/Head.antt =====
-- The column layout that `parseHead` of internal/scrape/scrape.go reads from the captions.
use tgju_api_go.Common.{
  Text, Bool, map, if◌then◌else◌, ◌||◌, ℕ, suc, ◌+◌, ◌≤◌, ◌<◌, List, [], ◌∷◌, ◌++◌, Option, none,
  some, ◌≡◌, ◌≢◌, refl, sym, ◌∙◌, arith, length, length-append, get_elem?, get_elem?-append,
  get_elem?-length, All, All-append, append-nil, append_assoc, subst,
}
use tgju_api_go.Dom.{Node}
use tgju_api_go.Strings.{contains}
use tgju_api_go.Dom.{text}
use tgju_api_go.Scrape.{
  keyword_in, header_keywords, Column, price, change, low, high, time, Layout, default_layout,
  no_layout, set_column, read_columns, pick_layout, columns_of, head_of,
}

abbrev pub field : Column → Layout → Option ℕ
field price l = l.price
field change l = l.change
field low l = l.low
field high l = l.high
field time l = l.time

abbrev pub Captions : Type 0
Captions = List (Option Column)

-- whether a caption holds one of the words, which are given by their code points
abbrev pub said_live_price : Text → Bool  -- 'live price'
said_live_price t =
    contains t (0x642 ∷ 0x6CC ∷ 0x645 ∷ 0x62A ∷ 0x20 ∷ 0x632 ∷ 0x646 ∷ 0x62F ∷ 0x647 ∷ [])

abbrev pub said_live_rate : Text → Bool  -- 'live rate'
said_live_rate t = contains t (0x646 ∷ 0x631 ∷ 0x62E ∷ 0x20 ∷ 0x632 ∷ 0x646 ∷ 0x62F ∷ 0x647 ∷ [])

abbrev pub said_change : Text → Bool  -- 'change'
said_change t = contains t (0x62A ∷ 0x63A ∷ 0x6CC ∷ 0x6CC ∷ 0x631 ∷ [])

abbrev pub said_lowest : Text → Bool  -- 'lowest'
said_lowest t = contains t (0x6A9 ∷ 0x645 ∷ 0x62A ∷ 0x631 ∷ 0x6CC ∷ 0x646 ∷ [])

abbrev pub said_highest : Text → Bool  -- 'highest'
said_highest t = contains t (0x628 ∷ 0x6CC ∷ 0x634 ∷ 0x62A ∷ 0x631 ∷ 0x6CC ∷ 0x646 ∷ [])

abbrev pub said_time : Text → Bool  -- 'time'
said_time t = contains t (0x632 ∷ 0x645 ∷ 0x627 ∷ 0x646 ∷ [])

-- The column that a caption names: the first of these that it holds a word of.
abbrev pub named : Text → Option Column
named t =
    if said_live_price t || said_live_rate t
    then some price
    else if said_change t
    then some change
    else if said_lowest t
    then some low
    else if said_highest t
    then some high
    else if said_time t
    then some time
    else none

keyword_in-named : (t : Text) → keyword_in header_keywords t ≡ named t
unfolding keyword_in
keyword_in-named t = ground arith

-- the captions of the data columns
abbrev pub captions : List Node → Captions
captions = map (λ cell. named (text (some cell)))

columns_of-captions : (cells : List Node) → columns_of cells ≡ captions cells
unfolding columns_of
columns_of-captions [] = refl
columns_of-captions (cell ∷ cells) =
    rw (keyword_in-named (text (some cell)), columns_of-captions cells) refl

-- how many captions name a column
abbrev pub recognised : Captions → ℕ
recognised [] = 0
recognised (none ∷ cs) = recognised cs
recognised (some c ∷ cs) = suc (recognised cs)

-- A column's index is that of a caption that names it, and a column has none only if no caption does.
pub record Reads (cs : Captions) (l : Layout) : Type 0 where
  pub sound : (c : Column) (i : ℕ) → field c l ≡ some i → get_elem? cs i ≡ some (some c)
  pub complete : (c : Column) → field c l ≡ none → All (λ o. o ≢ some c) cs

Column-discrete : Discrete Column
Column-discrete = hlevel

field-set_self : (c : Column) (i : ℕ) (l : Layout) → field c (set_column c i l) ≡ some i
field-set_self price i l = refl
field-set_self _ i l = refl

field-set_ne : (c d : Column) (i : ℕ) (l : Layout) → c ≢ d → field c (set_column d i l) ≡ field c l
field-set_ne price price i l h = absurd (h refl)
field-set_ne change change i l h = absurd (h refl)
field-set_ne low low i l h = absurd (h refl)
field-set_ne high high i l h = absurd (h refl)
field-set_ne time time i l h = absurd (h refl)
field-set_ne _ _ i l h = refl

Reads-none : (cs : Captions) (l : Layout) → Reads cs l → Reads (cs ++ none ∷ []) l
Reads-none cs l r = record {
  sound = λ c i h. get_elem?-append cs none i (r.sound c i h);
  complete = λ c h. All-append _ cs (none ∷ []) (r.complete c h) ((λ e. cc), tt);
}

module _ (cs : Captions) (l : Layout) (d : Column) (r : Reads cs l) where
  found_self :
      (c e : Column) (i : ℕ)
      → c ≡ e
      → field c (set_column e (length cs) l) ≡ some i
      → get_elem? (cs ++ some e ∷ []) i ≡ some (some c)
  found_self c e i same h =
      let set : field e (set_column e (length cs) l) ≡ some i = rw same at h in
      let at : length cs ≡ i = cc (field-set_self e (length cs) l) in
      rw (← at, same) (get_elem?-length cs (some e))

  unset : (c e : Column) → c ≡ e → field c (set_column e (length cs) l) ≢ none
  unset c e same h = cc (field-set_self e (length cs) l)

  sound_some :
      (c : Column) (i : ℕ)
      → field c (set_column d (length cs) l) ≡ some i
      → get_elem? (cs ++ some d ∷ []) i ≡ some (some c)
  sound_some c i h = elim (Column-discrete c d) [
    | yes e ↦ found_self c d i e h
    | no n ↦
        get_elem?-append cs (some d) i (r.sound c i (sym (field-set_ne c d (length cs) l n) ∙ h))
  ]

  complete_some :
      (c : Column)
      → field c (set_column d (length cs) l) ≡ none
      → All (λ o. o ≢ some c) (cs ++ some d ∷ [])
  complete_some c h = elim (Column-discrete c d) [
    | yes e ↦ absurd (unset c d e h)
    | no n ↦
        All-append _ cs (some d ∷ []) (r.complete c (sym (field-set_ne c d (length cs) l n) ∙ h))
          ((λ e. n (cc)), tt)
  ]

  Reads-some : Reads (cs ++ some d ∷ []) (set_column d (length cs) l)
  Reads-some = record { sound = sound_some; complete = complete_some }

length-snoc :
    (cs : Captions) (o : Option Column) (k : ℕ) → length cs ≡ k → length (cs ++ o ∷ []) ≡ suc k
length-snoc cs o k e = omega (arith, length-append cs (o ∷ []))

read_columns-Reads :
    (before cs : Captions) (l : Layout) (n k : ℕ)
    → length before ≡ k
    → Reads before l
    → Reads (before ++ cs) (read_columns k cs l n).0
unfolding read_columns
read_columns-Reads before [] l n k e r = rw append-nil r
read_columns-Reads before (none ∷ cs) l n k e r =
    subst (λ t. Reads t (read_columns (suc k) cs l n).0) (append_assoc before (none ∷ []) cs)
      (read_columns-Reads (before ++ none ∷ []) cs l n (suc k) (length-snoc before none k e)
        (Reads-none before l r))
read_columns-Reads before (some c ∷ cs) l n k e r =
    subst (λ t. Reads t (read_columns (suc k) cs (set_column c k l) (suc n)).0)
      (append_assoc before (some c ∷ []) cs)
      (read_columns-Reads (before ++ some c ∷ []) cs (set_column c k l) (suc n) (suc k)
        (length-snoc before (some c) k e)
        (subst (λ j. Reads (before ++ some c ∷ []) (set_column c j l)) e (Reads-some before l c r)))

read_columns_matched :
    (cs : Captions) (l : Layout) (i n : ℕ) → (read_columns i cs l n).1 ≡ n + recognised cs
unfolding read_columns
read_columns_matched [] l i n = omega arith
read_columns_matched (none ∷ cs) l i n = read_columns_matched cs l (suc i) n
read_columns_matched (some c ∷ cs) l i n =
    omega (arith, read_columns_matched cs (set_column c i l) (suc i) (suc n))

no_layout-Reads : Reads [] no_layout
no_layout-Reads = record { sound = λ c i h. absurd (unread c i h); complete = λ c h. tt }
  where
    unread : (c : Column) (i : ℕ) → field c no_layout ≢ some i
    unread price i = λ h. cc
    unread _ i = λ h. cc

pick_recognised :
    (cs : Captions) (r : Layout × ℕ) → r.1 ≡ recognised cs → 3 ≤ recognised cs → pick_layout r ≡ r.0
unfolding pick_layout
pick_recognised cs r e h = ground arith

pick_default :
    (cs : Captions) (r : Layout × ℕ)
    → r.1 ≡ recognised cs
    → recognised cs < 3
    → pick_layout r ≡ default_layout
unfolding pick_layout
pick_default cs r e h = ground arith

pick_layout_lem :
    (cs : Captions)
    → (3 ≤ recognised cs → Reads cs (pick_layout (read_columns 0 cs no_layout 0)))
      × (recognised cs < 3 → pick_layout (read_columns 0 cs no_layout 0) ≡ default_layout)
pick_layout_lem cs =
    let r = read_columns 0 cs no_layout 0 in
    let matched : r.1 ≡ recognised cs = omega (arith, read_columns_matched cs no_layout 0 0) in
    (
      λ h.
          subst (Reads cs) (sym (pick_recognised cs r matched h))
            (read_columns-Reads [] cs no_layout 0 0 refl no_layout-Reads),
      pick_default cs r matched,
    )

-- The layout follows the captions, whatever their order. A caption names the first column, in the order
-- price, change, low, high, time, that it holds a Persian word for. Where at least three captions name
-- one, a column is read at the place of a caption that names it, and is left out only if no caption does;
-- with fewer it is the historical layout.
pub head_of-Reads :
    (cell : Node) (cells : List Node)
    → (3 ≤ recognised (captions cells) → Reads (captions cells) (head_of (cell ∷ cells)).1)
      × (recognised (captions cells) < 3 → (head_of (cell ∷ cells)).1 ≡ default_layout)
unfolding head_of
head_of-Reads cell cells =
    subst
      (λ cs.
        (3 ≤ recognised cs → Reads cs (head_of (cell ∷ cells)).1)
        × (recognised cs < 3 → (head_of (cell ∷ cells)).1 ≡ default_layout))
      (columns_of-captions cells) (pick_layout_lem (columns_of cells))
