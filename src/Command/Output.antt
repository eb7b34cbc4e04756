-- ===== src/Command/Output.antt =====
-- cmd/tgju/output.go. What a command writes is a value: the text of a table, the records that
-- encoding/csv gets, or the value that encoding/json gets. `none` is a panic. A write to the terminal
-- does not fail here.
pub mod Aligned
pub mod Written
use tgju_api_go.Common.{
  ℕ, zero, suc, ◌+◌, ◌-◌, ◌/◌, ◌%◌, max, List, [], ◌∷◌, ◌++◌, Option, none, some, Text, codes, ◌==◌,
  ◌&&◌, ltb, if◌then◌else◌, is_nil, length, text_eq, map, rune_len, byte_len, ◌>>=◌,
}
use tgju_api_go.Strings.{decimal, to_lower, trim_space, has_prefix, cut_at}
use tgju_api_go.Floats.{Float64, Floats}
use tgju_api_go.Command.Units.{
  Format, format_table, format_json, format_csv, PriceUnit, render, arrow,
}
use tgju_api_go.Errors.{usage, Err, leaf, wrap, cons, nil, Result, ok, err}
use tgju_api_go.Snapshot.{
  Status, status_low, status_high, Amount, amount_is_zero, toman, Item, Category, Snapshot, len,
  items,
}

-- one row's share of the loop that measures the columns
unfoldable pub widen : List ℕ → List Text → List ℕ
widen [] row = []
widen (w ∷ ws) [] = w ∷ ws
widen (w ∷ ws) (c ∷ cs) = max w (length c) ∷ widen ws cs

unfoldable pub widen_all : List ℕ → List (List Text) → List ℕ
unfolding widen
widen_all ws [] = ws
widen_all ws (row ∷ rows) = widen_all (widen ws row) rows

-- strings.Repeat(" ", n)
abbrev pub spaces : ℕ → Text
spaces zero = []
spaces (suc n) = b' ' ∷ spaces n

-- the spaces behind a cell; strings.Repeat panics on a negative count
unfoldable pub padding : ℕ → Text → Option Text
padding w c = if ltb (w + 2) (length c) then none else some (spaces (w + 2 - length c))

-- a row with the widths of its cells; the last cell reads no width
unfoldable pub write_row : List ℕ → List Text → Option Text
unfolding padding
write_row ws [] = some (b'\n' ∷ [])
write_row ws (c ∷ []) = some (c ++ b'\n' ∷ [])
write_row [] (c ∷ d ∷ cs) = none
write_row (w ∷ ws) (c ∷ d ∷ cs) = do
  p ← padding w c
  rest ← write_row ws (d ∷ cs)
  some (c ++ (p ++ rest))

unfoldable pub write_rows : List ℕ → List (List Text) → Option Text
unfolding write_row
write_rows ws [] = some []
write_rows ws (row ∷ rows) = do
  line ← write_row ws row
  rest ← write_rows ws rows
  some (line ++ rest)

abbrev pub no_widths : List Text → List ℕ
no_widths [] = []
no_widths (c ∷ cs) = 0 ∷ no_widths cs

unfoldable pub write_aligned : List (List Text) → Option Text
unfolding widen_all write_rows
write_aligned [] = some []
write_aligned (row ∷ rows) = write_rows (widen_all (no_widths row) (row ∷ rows)) (row ∷ rows)

abbrev pub csv_header : List Text
csv_header =
    codes "market"
    ∷ codes "category"
    ∷ codes "key"
    ∷ codes "title"
    ∷ codes "price"
    ∷ codes "low"
    ∷ codes "high"
    ∷ codes "status"
    ∷ codes "change_percent"
    ∷ codes "change"
    ∷ codes "time"
    ∷ []

abbrev pub table_header : List Text
table_header =
    codes "KEY"
    ∷ codes "TITLE"
    ∷ codes "PRICE"
    ∷ codes "LOW"
    ∷ codes "HIGH"
    ∷ codes "CHANGE"
    ∷ codes "TIME"
    ∷ []

pub data Output : Type 0 where
  json_snapshot : Snapshot → Output
  json_item : Item → Output
  csv_records : List (List Text) → Output
  text_output : Text → Output

abbrev pub shown : Option Text → Option Output
shown none = none
shown (some t) = some (text_output t)

abbrev pub title_line : Text → Text
title_line [] = []
title_line (c ∷ t) = (c ∷ t) ++ b'\n' ∷ []

abbrev pub profile_row : Text → List (List Text)
profile_row [] = []
profile_row (c ∷ url) = (codes "profile" ∷ (c ∷ url) ∷ []) ∷ []

module _ (fl : Floats) where
  unfoldable pub csv_record : PriceUnit → Item → List Text
  unfolding render
  csv_record u i =
      i.market
      ∷ i.category
      ∷ i.key
      ∷ i.title
      ∷ render fl u i.price
      ∷ render fl u i.low
      ∷ render fl u i.high
      ∷ i.change.status
      ∷ fl.format i.change.percent
      ∷ render fl u i.change.amount
      ∷ i.time
      ∷ []

  unfoldable pub write_csv : PriceUnit → List Item → Output
  unfolding csv_record
  write_csv u is = csv_records (csv_header ∷ map (csv_record u) is)

  -- fmt.Sprintf("%s %s%%", …)
  abbrev pub moved : Item → Text
  moved i = arrow i.change.status ++ b' ' ∷ (fl.format i.change.percent ++ b'%' ∷ [])

  unfoldable pub table_row : PriceUnit → Item → List Text
  unfolding render arrow
  table_row u i =
      i.key
      ∷ i.title
      ∷ render fl u i.price
      ∷ render fl u i.low
      ∷ render fl u i.high
      ∷ moved i
      ∷ i.time
      ∷ []

  unfoldable pub category_table : PriceUnit → Category → Option Text
  unfolding write_aligned table_row
  category_table u c = do
    t ← write_aligned (table_header ∷ map (table_row u) c.items)
    some (title_line c.title ++ t)

  -- the loop over the categories, behind the first one
  unfoldable pub more_tables : PriceUnit → List Category → Option Text
  unfolding category_table
  more_tables u [] = some []
  more_tables u (c ∷ cs) = do
    t ← category_table u c
    rest ← more_tables u cs
    some (b'\n' ∷ (t ++ rest))

  unfoldable pub category_tables : PriceUnit → List Category → Option Text
  unfolding category_table more_tables
  category_tables u [] = some []
  category_tables u (c ∷ cs) = do t ← category_table u c; rest ← more_tables u cs; some (t ++ rest)

  unfoldable pub item_rows : PriceUnit → Item → List (List Text)
  unfolding render arrow
  item_rows u i =
      (codes "key" ∷ i.key ∷ [])
      ∷ (codes "title" ∷ i.title ∷ [])
      ∷ (codes "market" ∷ i.market ∷ [])
      ∷ (codes "category" ∷ i.category ∷ [])
      ∷ (codes "price" ∷ render fl u i.price ∷ [])
      ∷ (codes "low" ∷ render fl u i.low ∷ [])
      ∷ (codes "high" ∷ render fl u i.high ∷ [])
      ∷ (codes "change" ∷ (moved i ++ codes " (" ++ render fl u i.change.amount ++ codes ")") ∷ [])
      ∷ (codes "time" ∷ i.time ∷ [])
      ∷ profile_row i.profile_url

  unfoldable pub write_item : Format → PriceUnit → Item → Option Output
  unfolding write_csv item_rows write_aligned
  write_item format_json u i = some (json_item i)
  write_item format_csv u i = some (write_csv u (i ∷ []))
  write_item format_table u i = shown (write_aligned (item_rows u i))

abbrev pub dotted : Text
dotted = b' ' ∷ 0xB7 ∷ b' ' ∷ []

-- `stamp` is Time.Format with the layout of the last line
module _ (fl : Floats) (stamp : ℕ → Text) where
  -- the last line
  unfoldable pub footer : Snapshot → Text
  unfolding decimal len
  footer s =
      b'\n'
      ∷ (decimal (len s)
          ++ (codes " instruments"
              ++ (dotted
                  ++ (s.source
                      ++ (dotted ++ (codes "fetched " ++ (stamp s.fetched_at ++ b'\n' ∷ [])))))))

  unfoldable pub write_table : PriceUnit → Snapshot → Option Text
  unfolding category_tables footer
  write_table u s = do t ← category_tables fl u s.categories; some (t ++ footer s)

  unfoldable pub write_snapshot : Format → PriceUnit → Snapshot → Option Output
  unfolding write_csv write_table items
  write_snapshot format_json u s = some (json_snapshot s)
  write_snapshot format_csv u s = some (write_csv fl u (items s))
  write_snapshot format_table u s = shown (write_table u s)
