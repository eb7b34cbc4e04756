-- ===== src/Command/Output/Aligned.antt =====
-- The columns of `writeAligned` in cmd/tgju/output.go.
use tgju_api_go.Common.{
  ℕ, zero, suc, ◌+◌, ◌-◌, ◌≤◌, List, [], ◌∷◌, ◌++◌, Option, none, some, Text, ◌≡◌, refl, sym, ap,
  subst, ◌∙◌, arith, length, get_elem?, All,
}
use tgju_api_go.Command.Output.{
  widen, widen_all, spaces, padding, write_row, write_rows, no_widths, write_aligned,
}

-- where column `j` starts, for columns of these widths with two spaces between them
abbrev pub offset : List ℕ → ℕ → ℕ
offset [] j = 0
offset (w ∷ ws) zero = 0
offset (w ∷ ws) (suc j) = w + 2 + offset ws j

abbrev pub skip : ℕ → Text → Text
skip zero t = t
skip (suc n) [] = []
skip (suc n) (c ∷ t) = skip n t

abbrev pub newline : Text
newline = b'\n' ∷ []

abbrev pub blanks : ℕ → Text
blanks zero = []
blanks (suc n) = b' ' ∷ blanks n

-- what stands behind a cell: blanks up to the next cell's column, or the end of the line
abbrev pub Behind : List ℕ → ℕ → Text → Text → Option Text → Text → Type 0
Behind ws j line cell none rest = rest ≡ newline
Behind ws j line cell (some next) rest =
    rest ≡ blanks (offset ws (suc j) - (offset ws j + length cell)) ++ skip (offset ws (suc j)) line

-- Each cell of the row stands in the line at its column's start, ends at least two spaces before the
-- next column's, and has nothing but blanks behind it up to the next cell or the end of the line.
abbrev pub IsLaid : List ℕ → List Text → Text → Type 0
IsLaid ws [] line = line ≡ newline
IsLaid ws (c ∷ cs) line =
    (j : ℕ) (cell : Text)
    → get_elem? (c ∷ cs) j ≡ some cell
    → ((rest : Text) × (skip (offset ws j) line ≡ cell ++ rest)
        × Behind ws j line cell (get_elem? (c ∷ cs) (suc j)) rest)
      × (offset ws j + length cell + 2 ≤ offset ws (suc j))

-- one line for each row, with its cells laid out
abbrev pub AreLaid : List ℕ → List (List Text) → Text → Type 0
AreLaid ws [] t = t ≡ []
AreLaid ws (row ∷ rows) t =
    (line : Text) × (rest : Text) × (t ≡ line ++ rest) × IsLaid ws row line × AreLaid ws rows rest

-- as wide as the row and its cells
abbrev Fits : List ℕ → List Text → Type 0
Fits ws [] = Unit
Fits [] (c ∷ cs) = ⊥
Fits (w ∷ ws) (c ∷ cs) = (length c ≤ w) × Fits ws cs

widen-Fits : (ws : List ℕ) (row : List Text) → length row ≤ length ws → Fits (widen ws row) row
unfolding widen
widen-Fits ws [] h = tt
widen-Fits [] (c ∷ cs) h = absurd (omega arith)
widen-Fits (w ∷ ws) (c ∷ cs) h = (omega arith, widen-Fits ws cs (omega arith))

widen-keeps : (ws : List ℕ) (row other : List Text) → Fits ws other → Fits (widen ws row) other
unfolding widen
widen-keeps ws row [] h = tt
widen-keeps [] row (d ∷ ds) h = absurd h
widen-keeps (w ∷ ws) [] (d ∷ ds) h = h
widen-keeps (w ∷ ws) (c ∷ cs) (d ∷ ds) (h, k) = (omega arith, widen-keeps ws cs ds k)

length-widen : (ws : List ℕ) (row : List Text) → length (widen ws row) ≡ length ws
unfolding widen
length-widen [] row = refl
length-widen (w ∷ ws) [] = refl
length-widen (w ∷ ws) (c ∷ cs) = ap suc (length-widen ws cs)

widen_all-keeps :
    (ws : List ℕ) (rows : List (List Text)) (other : List Text)
    → Fits ws other
    → Fits (widen_all ws rows) other
unfolding widen_all
widen_all-keeps ws [] other h = h
widen_all-keeps ws (row ∷ rows) other h =
    widen_all-keeps (widen ws row) rows other (widen-keeps ws row other h)

widen_all-Fits :
    (ws : List ℕ) (rows : List (List Text))
    → All (λ row. length row ≤ length ws) rows
    → All (Fits (widen_all ws rows)) rows
unfolding widen_all
widen_all-Fits ws [] h = tt
widen_all-Fits ws (row ∷ rows) (h, k) = (
  widen_all-keeps (widen ws row) rows row (widen-Fits ws row h),
  widen_all-Fits (widen ws row) rows (rw (length-widen ws row) k),
)

skip-append : (s t : Text) (n m : ℕ) → n ≡ length s + m → skip n (s ++ t) ≡ skip m t
skip-append [] t n m h = ap (λ k. skip k t) (omega arith)
skip-append (c ∷ s) t zero m h = absurd (omega arith)
skip-append (c ∷ s) t (suc n) m h = skip-append s t n m (omega arith)

length-spaces : (n : ℕ) → length (spaces n) ≡ n
length-spaces zero = refl
length-spaces (suc n) = omega (arith, length-spaces n)

skip_cell :
    (w : ℕ) (c rest : Text)
    → length c ≤ w
    → (o : ℕ) → skip (w + 2 + o) (c ++ (spaces (w + 2 - length c) ++ rest)) ≡ skip o rest
skip_cell w c rest h o =
    skip-append c (spaces (w + 2 - length c) ++ rest) (w + 2 + o) (w + 2 - length c + o)
      (omega arith)
    ∙ skip-append (spaces (w + 2 - length c)) rest (w + 2 - length c + o) o
        (omega (arith, length-spaces (w + 2 - length c)))

padding-some : (w : ℕ) (c : Text) → length c ≤ w → padding w c ≡ some (spaces (w + 2 - length c))
unfolding padding
padding-some w c h = ground arith

spaces-eq-blanks : (n : ℕ) → spaces n ≡ blanks n
spaces-eq-blanks zero = refl
spaces-eq-blanks (suc n) = ap (λ t. b' ' ∷ t) (spaces-eq-blanks n)

last-IsLaid :
    (w : ℕ) (ws : List ℕ) (c : Text) → length c ≤ w → IsLaid (w ∷ ws) (c ∷ []) (c ++ b'\n' ∷ [])
last-IsLaid w ws c h zero cell e =
    let same : c ≡ cell = cc e in
    ((newline, ap (λ x. x ++ newline) same, refl), omega (arith, ap length same))
last-IsLaid w ws c h (suc j) cell e = cc

offset_zero : (ws : List ℕ) → offset ws 0 ≡ 0
offset_zero [] = refl
offset_zero (w ∷ ws) = refl

-- what a cell and its padding put behind the cell
first_behind :
    (w : ℕ) (ws : List ℕ) (c cell rest : Text)
    → length c ≤ w
    → c ≡ cell
    → spaces (w + 2 - length c) ++ rest
      ≡ blanks (w + 2 + offset ws 0 - (0 + length cell))
        ++ skip (w + 2 + offset ws 0) (c ++ (spaces (w + 2 - length c) ++ rest))
first_behind w ws c cell rest h same =
    ap (λ t. t ++ rest) (spaces-eq-blanks (w + 2 - length c))
    ∙ ap (λ n. blanks n ++ rest) (omega (arith, offset_zero ws, ap length same))
    ∙ ap (λ t. blanks (w + 2 + offset ws 0 - (0 + length cell)) ++ t)
        (sym (skip_cell w c rest h (offset ws 0) ∙ ap (λ n. skip n rest) (offset_zero ws)))

-- what stands behind a later cell stands there in the whole line too
shift-Behind :
    (w : ℕ) (ws : List ℕ) (c rest : Text)
    → length c ≤ w
    → (j : ℕ) (cell : Text) (o : Option Text) (r : Text) → Behind ws j rest cell o r
    → Behind (w ∷ ws) (suc j) (c ++ (spaces (w + 2 - length c) ++ rest)) cell o r
shift-Behind w ws c rest h j cell none r b = b
shift-Behind w ws c rest h j cell (some next) r b =
    b
    ∙ ap (λ n. blanks n ++ skip (offset ws (suc j)) rest) (omega arith)
    ∙ ap (λ t. blanks (w + 2 + offset ws (suc j) - (w + 2 + offset ws j + length cell)) ++ t)
        (sym (skip_cell w c rest h (offset ws (suc j))))

-- behind a cell and its padding the line goes on as that of the other cells does
cons-IsLaid :
    (w : ℕ) (ws : List ℕ) (c d : Text) (cs : List Text) (rest : Text)
    → length c ≤ w
    → IsLaid ws (d ∷ cs) rest
    → IsLaid (w ∷ ws) (c ∷ d ∷ cs) (c ++ (spaces (w + 2 - length c) ++ rest))
cons-IsLaid w ws c d cs rest h k zero cell e =
    let same : c ≡ cell = cc e in
    let line = c ++ (spaces (w + 2 - length c) ++ rest) in
    (
      (
        spaces (w + 2 - length c) ++ rest,
        ap (λ x. x ++ (spaces (w + 2 - length c) ++ rest)) same,
        first_behind w ws c cell rest h same,
      ),
      omega (arith, ap length same),
    )
cons-IsLaid w ws c d cs rest h k (suc j) cell e =
    let laid = k j cell e in
    (
      (
        laid.0.0,
        skip_cell w c rest h (offset ws j) ∙ laid.0.1,
        shift-Behind w ws c rest h j cell (get_elem? (d ∷ cs) (suc j)) laid.0.0 laid.0.2,
      ),
      omega (arith, laid.1),
    )

write_row-IsLaid :
    (ws : List ℕ) (row : List Text)
    → Fits ws row
    → (line : Text) × (write_row ws row ≡ some line) × IsLaid ws row line
unfolding write_row
write_row-IsLaid ws [] h = (b'\n' ∷ [], refl, refl)
write_row-IsLaid [] (c ∷ cs) h = absurd h
write_row-IsLaid (w ∷ ws) (c ∷ []) (h, k) = (c ++ b'\n' ∷ [], refl, last-IsLaid w ws c h)
write_row-IsLaid (w ∷ ws) (c ∷ d ∷ cs) (h, k) =
    let r = write_row-IsLaid ws (d ∷ cs) k in
    (
      c ++ (spaces (w + 2 - length c) ++ r.0),
      rw (padding-some w c h, r.1) refl,
      cons-IsLaid w ws c d cs r.0 h r.2,
    )

write_rows-AreLaid :
    (ws : List ℕ) (rows : List (List Text))
    → All (Fits ws) rows
    → (t : Text) × (write_rows ws rows ≡ some t) × AreLaid ws rows t
unfolding write_rows
write_rows-AreLaid ws [] h = ([], refl, refl)
write_rows-AreLaid ws (row ∷ rows) (h, k) =
    let a = write_row-IsLaid ws row h in
    let b = write_rows-AreLaid ws rows k in
    (a.0 ++ b.0, rw (a.1, b.1) refl, (a.0, b.0, refl, a.2, b.2))

length-no_widths : (row : List Text) → length (no_widths row) ≡ length row
length-no_widths [] = refl
length-no_widths (c ∷ cs) = ap suc (length-no_widths cs)

-- When no row has more cells than the first one, `writeAligned` does not panic. It writes a line for
-- each row, and there are columns, the same for all of them, such that the line has each cell of its
-- row at the start of that cell's column, and the cell ends two spaces or more before the next column.
-- Between the cells of a line there is nothing but spaces, and behind the last one the line's end.
pub write_aligned_lem :
    (first : List Text) (rows : List (List Text))
    → All (λ row. length row ≤ length first) rows
    → (t : Text) × (ws : List ℕ) × (write_aligned (first ∷ rows) ≡ some t)
      × AreLaid ws (first ∷ rows) t
unfolding write_aligned
write_aligned_lem first rows h =
    let ws = widen_all (no_widths first) (first ∷ rows) in
    let r = write_rows-AreLaid ws (first ∷ rows) (
      widen_all-Fits (no_widths first) (first ∷ rows) (
        subst (λ n. All (λ row. length row ≤ n) (first ∷ rows)) (sym (length-no_widths first))
          (omega arith, h))) in
    (r.0, ws, r.1, r.2)
