-- ===== src/Command/Output/Written.antt =====
-- No output of cmd/tgju/output.go panics.
use tgju_api_go.Common.{
  IsSome, ℕ, ◌≤◌, List, [], ◌∷◌, ◌++◌, Option, none, some, Text, ◌≡◌, refl, arith, length, map, All,
}
use tgju_api_go.Floats.{Floats}
use tgju_api_go.Snapshot.{Item, Category, Snapshot}
use tgju_api_go.Command.Output.{
  write_aligned, table_header, shown, table_row, category_table, title_line, more_tables,
  category_tables, footer, write_table, profile_row, item_rows, write_snapshot, write_item,
}
use tgju_api_go.Command.Units.{Format, format_table, format_json, format_csv, PriceUnit}
use tgju_api_go.Command.Output.Aligned.{write_aligned_lem}

as_long-All :
    (n m : ℕ) (rows : List (List Text))
    → m ≡ n
    → All (λ row. length row ≡ n) rows
    → All (λ row. length row ≤ m) rows
as_long-All n m [] e h = tt
as_long-All n m (row ∷ rows) e (h, k) = (omega arith, as_long-All n m rows e k)

-- rows of one length are written
write_aligned-IsSome :
    (n : ℕ) (rows : List (List Text))
    → All (λ row. length row ≡ n) rows
    → IsSome (write_aligned rows)
unfolding write_aligned
write_aligned-IsSome n [] h = ([], refl)
write_aligned-IsSome n (first ∷ rows) (h, k) =
    let r = write_aligned_lem first rows (as_long-All n (length first) rows h k) in (r.0, r.2)

module _ (fl : Floats) (u : PriceUnit) where
  table_rows-All : (is : List Item) → All (λ row. length row ≡ 7) (map (table_row fl u) is)
  unfolding table_row
  table_rows-All [] = tt
  table_rows-All (i ∷ is) = (refl, table_rows-All is)

  category_table-IsSome : (c : Category) → IsSome (category_table fl u c)
  unfolding category_table
  category_table-IsSome c =
      let r =
        write_aligned-IsSome 7 (table_header ∷ map (table_row fl u) c.items)
          (refl, table_rows-All c.items) in
      (title_line c.title ++ r.0, rw r.1 refl)

  more_tables-IsSome : (cs : List Category) → IsSome (more_tables fl u cs)
  unfolding more_tables
  more_tables-IsSome [] = ([], refl)
  more_tables-IsSome (c ∷ cs) =
      let a = category_table-IsSome c in
      let b = more_tables-IsSome cs in (b'\n' ∷ (a.0 ++ b.0), rw (a.1, b.1) refl)

  category_tables-IsSome : (cs : List Category) → IsSome (category_tables fl u cs)
  unfolding category_tables
  category_tables-IsSome [] = ([], refl)
  category_tables-IsSome (c ∷ cs) =
      let a = category_table-IsSome c in
      let b = more_tables-IsSome cs in (a.0 ++ b.0, rw (a.1, b.1) refl)

  write_table-IsSome : (stamp : ℕ → Text) (s : Snapshot) → IsSome (write_table fl stamp u s)
  unfolding write_table
  write_table-IsSome stamp s =
      let a = category_tables-IsSome s.categories in (a.0 ++ footer fl stamp s, rw a.1 refl)

  shown-IsSome : (o : Option Text) → IsSome o → IsSome (shown o)
  shown-IsSome none h = absurd (cc h.1)
  shown-IsSome (some t) h = (_, refl)

  pub write_snapshot-IsSome :
      (stamp : ℕ → Text) (f : Format) (s : Snapshot) → IsSome (write_snapshot fl stamp f u s)
  unfolding write_snapshot
  write_snapshot-IsSome stamp format_json s = (_, refl)
  write_snapshot-IsSome stamp format_csv s = (_, refl)
  write_snapshot-IsSome stamp format_table s =
      shown-IsSome (write_table fl stamp u s) (write_table-IsSome stamp s)

  profile_rows-All : (url : Text) → All (λ row. length row ≡ 2) (profile_row url)
  profile_rows-All [] = tt
  profile_rows-All (c ∷ url) = (refl, tt)

  pub write_item-IsSome : (f : Format) (i : Item) → IsSome (write_item fl f u i)
  unfolding write_item item_rows
  write_item-IsSome format_json i = (_, refl)
  write_item-IsSome format_csv i = (_, refl)
  write_item-IsSome format_table i =
      shown-IsSome (write_aligned (item_rows fl u i))
        (write_aligned-IsSome 2 (item_rows fl u i) (ground (arith, profile_rows-All i.profile_url)))
