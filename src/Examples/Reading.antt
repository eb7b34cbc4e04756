-- ===== src/Examples/Reading.antt =====
-- Numbers, pages, rows and links that are read.
use tgju_api_go.Common.{
  ◌≤◌, ◌<◌, List, Text, false, [], ◌∷◌, none, codes, ◌≡◌, ◌≢◌, ◌↔◌, inr, refl, arith, any, All,
  length, map, keep,
}
use mathlib.Core.List.{flat_map}
use tgju_api_go.Strings.{has_prefix, contains, is_space}
use tgju_api_go.Numfmt.{literal, value, digits, is_digit}
use tgju_api_go.Numfmt.Literal.{IsDecimal, literal-IsDecimal}
use tgju_api_go.Numfmt.Value.{ParsesDecimals, value-eq-none_iff}
use tgju_api_go.Dom.{Node, element, text_node, cons, nil, text, find_all}
use tgju_api_go.Dom.Search.{elements, elements_at, IsMatch, keep-find_all}
use tgju_api_go.Scrape.{Table, tables, slug_from_href, head_of, default_layout}
use tgju_api_go.Scrape.Rows.{IsRow, market_table, tables-found}
use tgju_api_go.Scrape.Head.{captions, recognised, Reads, head_of-Reads}
use tgju_api_go.Scrape.Slug.{IsSlug, slug_from_href-path}
use tgju_api_go.Market.{gold, default_base_url}
use tgju_api_go.Snapshot.{items}
use tgju_api_go.Convert.{snapshot_from}
use tgju_api_go.Convert.Amounts.{IsAbsolute}
use tgju_api_go.Convert.Boards.{item_at, rows_of, items-snapshot_from}
use tgju_api_go.Examples.{some_floats, some_html, page, scraped, row}

some_floats-ParsesDecimals : ParsesDecimals some_floats
some_floats-ParsesDecimals = record { total = λ t d h. (length t, refl) }

value-eq-none_iff_example :
    (value some_floats (codes "1,234") ≡ none) ↔ (any is_digit (digits (codes "1,234")) ≡ false)
value-eq-none_iff_example =
    value-eq-none_iff some_floats some_floats-ParsesDecimals (codes "1,234") (omega arith)

literal-IsDecimal_example : IsDecimal (codes "-1234.5")
unfolding literal
literal-IsDecimal_example = literal-IsDecimal (codes "-1,234.5") refl

tables-found_example :
    (scraped ≢ [])
    × (length scraped ≡ length (find_all page (market_table some_html)))
    × All (λ (t : Table). All IsRow t.rows) scraped
unfolding tables
tables-found_example = tables-found some_html (1 ∷ []) page scraped refl refl

abbrev header_cell : Text → Node
header_cell t = element (codes "th") 5 [] (cons (text_node t) nil)

-- the captions of the time, of the lowest price and of the change, around an unknown one
abbrev header_cells : List Node
header_cells =
    header_cell (0x632 ∷ 0x645 ∷ 0x627 ∷ 0x646 ∷ [])
    ∷ header_cell (0x6A9 ∷ 0x645 ∷ 0x62A ∷ 0x631 ∷ 0x6CC ∷ 0x646 ∷ [])
    ∷ header_cell (codes "other")
    ∷ header_cell (0x62A ∷ 0x63A ∷ 0x6CC ∷ 0x6CC ∷ 0x631 ∷ [])
    ∷ []

all_recognised : 3 ≤ recognised (captions header_cells)
unfolding contains text
all_recognised = omega arith

head_of-Reads_example :
    (3 ≤ recognised (captions header_cells)
      → Reads (captions header_cells) (head_of (row ∷ header_cells)).1)
    × (recognised (captions header_cells) < 3 → (head_of (row ∷ header_cells)).1 ≡ default_layout)
head_of-Reads_example = head_of-Reads row header_cells

geram18-IsSlug : IsSlug (codes "geram18")
unfolding is_space
geram18-IsSlug = record {
  word = ((λ e. cc), (refl, (refl, (refl, (refl, (refl, (refl, (refl, tt))))))));
  no_slash = refl;
  no_end = refl;
}

slug_from_href-path_example :
    (slug_from_href (codes "/profile/geram18") ≡ codes "geram18")
    × (slug_from_href (codes "/profile/geram18/") ≡ codes "geram18")
unfolding is_space
slug_from_href-path_example =
    slug_from_href-path (codes "/profile") (codes "geram18")
      (refl, (refl, (refl, (refl, (refl, (refl, (refl, (refl, tt)))))))) geram18-IsSlug

keep-find_all_example :
    All (IsMatch (market_table some_html)) (find_all page (market_table some_html))
    × (keep (market_table some_html) (elements page)
        ≡ flat_map
            (λ r. keep (market_table some_html) (elements_at r))
            (find_all page (market_table some_html)))
keep-find_all_example = keep-find_all page (market_table some_html)

base_secure : IsAbsolute default_base_url
unfolding has_prefix
base_secure = inr refl

items-snapshot_from_example :
    items (snapshot_from some_floats gold default_base_url [] 7 scraped)
    ≡ map (item_at some_floats gold default_base_url) (rows_of scraped)
items-snapshot_from_example = items-snapshot_from some_floats gold default_base_url [] 7 scraped
