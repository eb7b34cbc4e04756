-- ===== src/Scrape.antt =====
-- internal/scrape/scrape.go: from a market page to rows of text.
pub mod Head
pub mod Rows
pub mod Slug
use tgju_api_go.Common.{
  ℕ, suc, Bool, true, false, List, [], ◌∷◌, ◌++◌, Option, none, some, Text, codes, ◌==◌, ◌||◌, ◌&&◌,
  not, ltb, if◌then◌else◌, is_nil, head?, get_elem?, map, text_eq,
}
use tgju_api_go.Strings.{contains, trim_space, trim_suffix, after_last, cut_at}
use tgju_api_go.Numfmt.{clean}
use tgju_api_go.Dom.{Node, Html, find, find_all, children, tag, tag_class, attr, classes, text}

pub record Row : Type 0 where
  pub slug : Text
  pub title : Text
  pub price : Text
  pub change : Text
  pub status : Text
  pub low : Text
  pub high : Text
  pub time : Text
  pub profile : Text

pub record Table : Type 0 where
  pub title : Text
  pub rows : List Row

-- the errors of `Tables`: that of the HTML parser, and ErrNoTables
pub data ScrapeError : Type 0 where
  bad_html no_tables : ScrapeError

pub data Tables : Type 0 where
  found : List Table → Tables
  failed : ScrapeError → Tables

pub data Column : Type 0 where
  price change low high time : Column

-- a column's index among the body cells; `none` is -1
pub record Layout : Type 0 where
  pub price : Option ℕ
  pub change : Option ℕ
  pub low : Option ℕ
  pub high : Option ℕ
  pub time : Option ℕ

abbrev pub default_layout : Layout
default_layout = record {
  price = some 0;
  change = some 1;
  low = some 2;
  high = some 3;
  time = some 4;
}

abbrev pub no_layout : Layout
no_layout = record { price = none; change = none; low = none; high = none; time = none }

-- the setters of `headerKeywords`
abbrev pub set_column : Column → ℕ → Layout → Layout
set_column price i l = record l { price = some i }
set_column change i l = record l { change = some i }
set_column low i l = record l { low = some i }
set_column high i l = record l { high = some i }
set_column time i l = record l { time = some i }

-- the Persian captions of `headerKeywords`, rune by rune
abbrev pub live_price_word : Text  -- 'live price'
live_price_word = 0x642 ∷ 0x6CC ∷ 0x645 ∷ 0x62A ∷ 0x20 ∷ 0x632 ∷ 0x646 ∷ 0x62F ∷ 0x647 ∷ []

abbrev pub live_rate_word : Text  -- 'live rate'
live_rate_word = 0x646 ∷ 0x631 ∷ 0x62E ∷ 0x20 ∷ 0x632 ∷ 0x646 ∷ 0x62F ∷ 0x647 ∷ []

abbrev pub change_word : Text  -- 'change'
change_word = 0x62A ∷ 0x63A ∷ 0x6CC ∷ 0x6CC ∷ 0x631 ∷ []

abbrev pub lowest_word : Text  -- 'lowest'
lowest_word = 0x6A9 ∷ 0x645 ∷ 0x62A ∷ 0x631 ∷ 0x6CC ∷ 0x646 ∷ []

abbrev pub highest_word : Text  -- 'highest'
highest_word = 0x628 ∷ 0x6CC ∷ 0x634 ∷ 0x62A ∷ 0x631 ∷ 0x6CC ∷ 0x646 ∷ []

abbrev pub time_word : Text  -- 'time'
time_word = 0x632 ∷ 0x645 ∷ 0x627 ∷ 0x646 ∷ []

abbrev pub header_keywords : List (Text × Column)
header_keywords =
    (live_price_word, price)
    ∷ (live_rate_word, price)
    ∷ (change_word, change)
    ∷ (lowest_word, low)
    ∷ (highest_word, high)
    ∷ (time_word, time)
    ∷ []

-- the first keyword that a caption holds
unfoldable pub keyword_in : List (Text × Column) → Text → Option Column
unfolding contains
keyword_in [] caption = none
keyword_in ((word, c) ∷ kws) caption =
    if contains caption word then some c else keyword_in kws caption

-- the loop over the header cells, with `cols`, `matched` and the index
unfoldable pub read_columns : ℕ → List (Option Column) → Layout → ℕ → Layout × ℕ
read_columns i [] cols matched = (cols, matched)
read_columns i (none ∷ cs) cols matched = read_columns (suc i) cs cols matched
read_columns i (some c ∷ cs) cols matched =
    read_columns (suc i) cs (set_column c i cols) (suc matched)

unfoldable pub pick_layout : Layout × ℕ → Layout
pick_layout (cols, matched) = if ltb matched 3 then default_layout else cols

-- the captions of the data columns, by keyword
unfoldable pub columns_of : List Node → List (Option Column)
unfolding keyword_in text
columns_of = map (λ cell. keyword_in header_keywords (text (some cell)))

-- the text behind the header cells
unfoldable pub head_of : List Node → Text × Layout
unfolding clean text columns_of read_columns pick_layout
head_of [] = ([], default_layout)
head_of (cell ∷ cells) =
    (clean (text (some cell)), pick_layout (read_columns 0 (columns_of cells) no_layout 0))

-- the first class token that is a direction
unfoldable pub direction : List Text → Option Text
unfolding text_eq
direction [] = none
direction (class ∷ cs) =
    if text_eq class (codes "low") || text_eq class (codes "high") then some class else direction cs

abbrev pub first_or : Option Text → Text → Text
first_or none t = t
first_or (some s) t = s

unfoldable pub direction_in : List Node → Text
unfolding classes direction
direction_in [] = []
direction_in (span ∷ spans) = first_or (direction (classes span)) (direction_in spans)

abbrev pub ends_slug : ℕ → Bool
ends_slug c = c == b'?' || c == b'#'

abbrev pub before_cut : Text → Option (Text × Text) → Text
before_cut s none = s
before_cut s (some (a, b)) = a

-- An empty href gives the empty slug without a test of its own.
unfoldable pub slug_from_href : Text → Text
unfolding trim_suffix trim_space after_last cut_at
slug_from_href href =
    let last = after_last b'/' (trim_suffix b'/' (trim_space href)) in
    before_cut last (cut_at ends_slug last)

-- a layout's cell, `nil` where there is none
abbrev pub cell_at : List Node → Option ℕ → Option Node
cell_at cells none = none
cell_at cells (some i) = get_elem? cells i

abbrev pub last? : List Node → Option Node
last? [] = none
last? (x ∷ []) = some x
last? (x ∷ y ∷ xs) = last? (y ∷ xs)

unfoldable pub cell_text : Option Node → Text
unfolding clean text
cell_text cell = clean (text cell)

-- the row is dropped without a slug or a title
unfoldable pub keep_row : Row → Option Row
keep_row row = if is_nil row.slug || is_nil row.title then none else some row

abbrev pub or_else : Text → Text → Text
or_else [] t = t
or_else (c ∷ s) t = c ∷ s

-- neither a header cell nor a body cell
abbrev pub is_blank : Option Node → List Node → Bool
is_blank none [] = true
is_blank _ _ = false

abbrev pub row_or_next : Option Row → List Row → List Row
row_or_next none rows = rows
row_or_next (some row) rows = row ∷ rows

module _ (html : Html) where
  unfoldable pub status_of : Option Node → Text
  unfolding find_all tag direction_in
  status_of none = []
  status_of (some cell) = direction_in (find_all cell (tag html (codes "span")))

  unfoldable pub profile_of : Option Node → Text
  unfolding find tag attr
  profile_of none = []
  profile_of (some cell) = attr (find cell (tag html (codes "a"))) (codes "href")

  -- the row of a `tr` with its header cell and its body cells
  unfoldable pub row_of : Node → Option Node → List Node → Layout → Row
  unfolding cell_text status_of profile_of slug_from_href attr clean
  row_of tr th cells cols =
      let profile = profile_of (last? cells) in
      record {
        slug = or_else (attr (some tr) (codes "data-market-nameslug")) (slug_from_href profile);
        title = cell_text th;
        price =
            or_else (cell_text (cell_at cells cols.price))
              (clean (attr (some tr) (codes "data-price")));
        change = cell_text (cell_at cells cols.change);
        status = status_of (cell_at cells cols.change);
        low = cell_text (cell_at cells cols.low);
        high = cell_text (cell_at cells cols.high);
        time = cell_text (cell_at cells cols.time);
        profile = profile;
      }

  unfoldable pub parse_row : Node → Layout → Option Row
  unfolding find children tag row_of keep_row
  parse_row tr cols =
      let th = find tr (tag html (codes "th")) in
      let cells = children tr (tag html (codes "td")) in
      if is_blank th cells then none else keep_row (row_of tr th cells cols)

  unfoldable pub parse_head : Node → Text × Layout
  unfolding find tag children head_of
  parse_head table = elim (find table (tag html (codes "thead"))) [
    | none ↦ ([], default_layout)
    | some head ↦ elim (find head (tag html (codes "tr"))) [
      | none ↦ ([], default_layout)
      | some tr ↦ head_of (children tr (tag html (codes "th")))
    ]
  ]

  unfoldable pub parse_rows : Layout → List Node → List Row
  unfolding parse_row
  parse_rows cols [] = []
  parse_rows cols (tr ∷ trs) = row_or_next (parse_row tr cols) (parse_rows cols trs)

  unfoldable pub parse_bodies : Layout → List Node → List Row
  unfolding parse_rows children tag
  parse_bodies cols [] = []
  parse_bodies cols (body ∷ bodies) =
      parse_rows cols (children body (tag html (codes "tr"))) ++ parse_bodies cols bodies

  unfoldable pub parse_table : Node → Table
  unfolding parse_head parse_bodies children tag
  parse_table table =
      let (title, cols) = parse_head table in
      record { title = title; rows = parse_bodies cols (children table (tag html (codes "tbody"))) }

  unfoldable pub tables_in : Node → Tables
  unfolding find_all tag_class parse_table
  tables_in root =
      let nodes = find_all root (tag_class html (codes "table") (codes "market-table")) in
      if is_nil nodes then failed no_tables else found (map parse_table nodes)

  unfoldable pub tables : List ℕ → Tables
  unfolding tables_in
  tables body = elim (html.parse body) [ none ↦ failed bad_html | some root ↦ tables_in root ]
