-- ===== src/Scrape/Rows.antt =====
-- What a row and a table of internal/scrape/scrape.go hold.
use tgju_api_go.Common.{
  ℕ, suc, Bool, true, false, List, [], ◌∷◌, Option, none, some, Text, codes, ◌≡◌, ◌≢◌, ◌↔◌, ◌⊎◌,
  inl, refl, sym, ◌∙◌, subst, arith, All, All-append, length, length-map, is_nil, map, text_eq_iff,
  if◌then◌else◌, keep,
}
use tgju_api_go.Numfmt.{clean}
use tgju_api_go.Numfmt.Digits.{clean-clean}
use tgju_api_go.Dom.{Node, Html, find, find_all, children, tag, tag_class, text, classes, attr}
use tgju_api_go.Dom.Search.{elements, find_all-eq-nil_iff}
use tgju_api_go.Scrape.{
  Row, Layout, Table, Tables, found, failed, no_tables, direction, direction_in, first_or,
  cell_text, cell_at, keep_row, row_or_next, or_else, is_blank, status_of, row_of, parse_row,
  parse_rows, parse_bodies, parse_head, parse_table, tables_in, tables,
}

abbrev pub IsDirection : Text → Type 0
IsDirection s = (s ≡ []) ⊎ (s ≡ codes "low") ⊎ (s ≡ codes "high")

-- a text that cleaning leaves as it is
abbrev pub IsClean : Text → Type 0
IsClean s = clean s ≡ s

-- What the rest of the program relies on in a row.
pub record IsRow (row : Row) : Type 0 where
  pub slug : row.slug ≢ []
  pub title : row.title ≢ []
  pub status : IsDirection row.status
  pub clean_title : IsClean row.title
  pub clean_price : IsClean row.price
  pub clean_change : IsClean row.change
  pub clean_low : IsClean row.low
  pub clean_high : IsClean row.high
  pub clean_time : IsClean row.time

direction_lem : (cs : List Text) (s : Text) → direction cs ≡ some s → IsDirection s
unfolding direction
direction_lem [] s h = cc
direction_lem (c ∷ cs) s h =
    ground (arith, text_eq_iff c (codes "low"), text_eq_iff c (codes "high"), direction_lem cs s)

first_or-IsDirection :
    (o : Option Text) (t : Text)
    → ((s : Text) → o ≡ some s → IsDirection s)
    → IsDirection t
    → IsDirection (first_or o t)
first_or-IsDirection none t h k = k
first_or-IsDirection (some s) t h k = h s refl

direction_in-IsDirection : (spans : List Node) → IsDirection (direction_in spans)
unfolding direction_in
direction_in-IsDirection [] = inl refl
direction_in-IsDirection (n ∷ ns) =
    first_or-IsDirection (direction (classes n)) (direction_in ns) (direction_lem (classes n))
      (direction_in-IsDirection ns)

cell_text_eq : (cell : Option Node) → cell_text cell ≡ clean (text cell)
unfolding cell_text
cell_text_eq cell = refl

cell_text-IsClean : (cell : Option Node) → IsClean (cell_text cell)
cell_text-IsClean cell = subst IsClean (sym (cell_text_eq cell)) (clean-clean (text cell))

or_else-IsClean : (s t : Text) → IsClean s → IsClean t → IsClean (or_else s t)
or_else-IsClean [] t h k = k
or_else-IsClean (c ∷ s) t h k = h

keep_row_lem : (r r' : Row) → keep_row r ≡ some r' → (r ≡ r') × (r.slug ≢ []) × (r.title ≢ [])
unfolding keep_row
keep_row_lem r r' h = ground arith

kept-IsRow :
    (blank : Bool) (r row : Row)
    → (r.slug ≢ [] → r.title ≢ [] → IsRow r)
    → (if blank then none else keep_row r) ≡ some row
    → IsRow row
kept-IsRow true r row ok h = cc
kept-IsRow false r row ok h =
    let (same, slug, title) = keep_row_lem r row h in subst IsRow same (ok slug title)

module _ (html : Html) where
  status_of-IsDirection : (cell : Option Node) → IsDirection (status_of html cell)
  unfolding status_of
  status_of-IsDirection none = inl refl
  status_of-IsDirection (some c) = direction_in-IsDirection (find_all c (tag html (codes "span")))

  row_of-IsRow :
      (tr : Node) (th : Option Node) (cells : List Node) (cols : Layout)
      → (row_of html tr th cells cols).slug ≢ []
      → (row_of html tr th cells cols).title ≢ []
      → IsRow (row_of html tr th cells cols)
  unfolding row_of
  row_of-IsRow tr th cells cols h k = record {
    slug = h;
    title = k;
    status = status_of-IsDirection (cell_at cells cols.change);
    clean_title = cell_text-IsClean th;
    clean_price =
        or_else-IsClean (cell_text (cell_at cells cols.price)) _
          (cell_text-IsClean (cell_at cells cols.price))
          (clean-clean (attr (some tr) (codes "data-price")));
    clean_change = cell_text-IsClean (cell_at cells cols.change);
    clean_low = cell_text-IsClean (cell_at cells cols.low);
    clean_high = cell_text-IsClean (cell_at cells cols.high);
    clean_time = cell_text-IsClean (cell_at cells cols.time);
  }

  -- A row that is kept has a slug and a title, a direction or none, and cells as `Clean` leaves them.
  pub parse_row-IsRow :
      (tr : Node) (cols : Layout) (row : Row) → parse_row html tr cols ≡ some row → IsRow row
  unfolding parse_row
  parse_row-IsRow tr cols row h =
      let th = find tr (tag html (codes "th")) in
      let cells = children tr (tag html (codes "td")) in
      kept-IsRow (is_blank th cells) (row_of html tr th cells cols) row
        (row_of-IsRow tr th cells cols) h

  row_or_next-IsRow :
      (o : Option Row) (rest : List Row)
      → ((r : Row) → o ≡ some r → IsRow r)
      → All IsRow rest
      → All IsRow (row_or_next o rest)
  row_or_next-IsRow none rest h k = k
  row_or_next-IsRow (some r) rest h k = (h r refl, k)

  parse_rows-IsRow : (cols : Layout) (trs : List Node) → All IsRow (parse_rows html cols trs)
  unfolding parse_rows
  parse_rows-IsRow cols [] = tt
  parse_rows-IsRow cols (tr ∷ trs) =
      row_or_next-IsRow (parse_row html tr cols) (parse_rows html cols trs)
        (parse_row-IsRow tr cols) (parse_rows-IsRow cols trs)

  parse_bodies-IsRow :
      (cols : Layout) (bodies : List Node) → All IsRow (parse_bodies html cols bodies)
  unfolding parse_bodies
  parse_bodies-IsRow cols [] = tt
  parse_bodies-IsRow cols (body ∷ bodies) =
      All-append IsRow (parse_rows html cols (children body (tag html (codes "tr"))))
        (parse_bodies html cols bodies)
        (parse_rows-IsRow cols (children body (tag html (codes "tr"))))
        (parse_bodies-IsRow cols bodies)

  parse_table-IsRow : (table : Node) → All IsRow (parse_table html table).rows
  unfolding parse_table
  parse_table-IsRow table =
      parse_bodies-IsRow (parse_head html table).1 (children table (tag html (codes "tbody")))

  -- the matcher that picks a market table
  abbrev pub market_table : Node → Bool
  market_table = tag_class html (codes "table") (codes "market-table")

  All-tables :
      (nodes : List Node) → All (λ (t : Table). All IsRow t.rows) (map (parse_table html) nodes)
  All-tables [] = tt
  All-tables (n ∷ ns) = (parse_table-IsRow n, All-tables ns)

  tables_root :
      (body : List ℕ) (root : Node)
      → html.parse body ≡ some root
      → tables html body ≡ tables_in html root
  unfolding tables
  tables_root body root e = rw (e, tables)

  tables_of : (nodes : List Node) → Tables
  tables_of nodes = if is_nil nodes then failed no_tables else found (map (parse_table html) nodes)

  tables_in_eq : (root : Node) → tables_in html root ≡ tables_of (find_all root market_table)
  unfolding tables_in tables_of
  tables_in_eq root = refl

  tables_of-failed : (nodes : List Node) → (tables_of nodes ≡ failed no_tables) ↔ (nodes ≡ [])
  unfolding tables_of
  tables_of-failed [] = (λ e. refl, λ e. refl)
  tables_of-failed (n ∷ ns) = (λ e. cc, λ e. cc)

  -- A parsed page is refused exactly when no element of it is a market table.
  pub tables-eq-no_tables_iff :
      (body : List ℕ) (root : Node)
      → html.parse body ≡ some root
      → (tables html body ≡ failed no_tables) ↔ (keep market_table (elements root) ≡ [])
  tables-eq-no_tables_iff body root e =
      let same = tables_root body root e ∙ tables_in_eq root in
      let (a, b) = tables_of-failed (find_all root market_table) in
      let (c, d) = find_all-eq-nil_iff root market_table in
      (λ h. c (a (sym same ∙ h)), λ h. same ∙ b (d h))

  tables_of-found :
      (nodes : List Node) (ts : List Table)
      → tables_of nodes ≡ found ts
      → (ts ≢ []) × (length ts ≡ length nodes) × All (λ (t : Table). All IsRow t.rows) ts
  unfolding tables_of
  tables_of-found [] ts h = cc
  tables_of-found (n ∷ ns) ts h =
      let same : map (parse_table html) (n ∷ ns) ≡ ts = cc in
      subst
        (λ us. (us ≢ []) × (length us ≡ suc (length ns)) × All (λ (t : Table). All IsRow t.rows) us)
        same ((λ e. cc), length-map (parse_table html) (n ∷ ns), All-tables (n ∷ ns))

  -- A page that is accepted gives a table for each market table of it, the empty ones too, and at
  -- least one; every row of them is sound.
  pub tables-found :
      (body : List ℕ) (root : Node) (ts : List Table)
      → html.parse body ≡ some root
      → tables html body ≡ found ts
      → (ts ≢ [])
        × (length ts ≡ length (find_all root market_table))
        × All (λ (t : Table). All IsRow t.rows) ts
  tables-found body root ts e h =
      tables_of-found (find_all root market_table) ts
        (sym (tables_root body root e ∙ tables_in_eq root) ∙ h)
