-- ===== src/Table/Widths.antt =====
-- src/cmd/table.c: the widths of the columns cover every cell.
use ghcli.Table.{
  ColDef, Args, Cell, Row, Table, begin, cell_text, widen, cell_of, cons_cell, add_cells, add_row,
  push_row,
}
use ghcli.Prelude.{
  ◌<◌, ◌^◌, ℕ, ◌≤◌, List, [], ◌∷◌, Bytes, length, All, All-append, map, arith, Option, none, some,
}

-- A row with a cell for each column that is no wider than the column.
abbrev pub Fits : List ℕ → Row → Type 0
Fits [] [] = Unit {0}
Fits [] (cell ∷ row) = ⊥
Fits (w ∷ widths) [] = ⊥
Fits (w ∷ widths) (cell ∷ row) = (length cell.text ≤ w) × Fits widths row

-- A width for each column, at least that of the name.
abbrev pub Covers : List ℕ → List ColDef → Type 0
Covers [] [] = Unit {0}
Covers [] (c ∷ cols) = ⊥
Covers (w ∷ widths) [] = ⊥
Covers (w ∷ widths) (c ∷ cols) = (length c.name ≤ w) × Covers widths cols

pub record IsFit (t : Table) : Type 0 where
  pub names : Covers t.col_widths t.cols
  pub cells : All (Fits t.col_widths) t.rows

-- The length of each text fits an `int`.
abbrev pub IsShortRow : Row → Type 0
IsShortRow = All (λ cell. length cell.text < 2 ^ 31)

abbrev pub IsShort : Table → Type 0
IsShort t = All IsShortRow t.rows × All (λ c. length c.name < 2 ^ 31) t.cols

-- The tables that a program can build.
pub data Built : Table → Type 0 where
  begun : (cols : List ColDef) → Built (begin cols)
  added : {t : Table} (args : Args t.cols) → Built t → Built (add_row t args).0

-- No column has become narrower.
abbrev Wider : List ℕ → List ℕ → Type 0
Wider [] [] = Unit {0}
Wider [] (w ∷ ws) = ⊥
Wider (v ∷ vs) [] = ⊥
Wider (v ∷ vs) (w ∷ ws) = (v ≤ w) × Wider vs ws

Wider-refl : (ws : List ℕ) → Wider ws ws
Wider-refl [] = tt
Wider-refl (w ∷ ws) = (omega arith, Wider-refl ws)

Wider-Fits : (vs ws : List ℕ) (row : Row) → Wider vs ws → Fits vs row → Fits ws row
Wider-Fits [] [] row h f = f
Wider-Fits (v ∷ vs) (w ∷ ws) [] h f = f
Wider-Fits (v ∷ vs) (w ∷ ws) (cell ∷ row) (h, hs) (f, fs) =
    (omega arith, Wider-Fits vs ws row hs fs)
Wider-Fits [] (w ∷ ws) row h f = absurd h
Wider-Fits (v ∷ vs) [] row h f = absurd h

Wider-All :
    (vs ws : List ℕ) (rows : List Row) → Wider vs ws → All (Fits vs) rows → All (Fits ws) rows
Wider-All vs ws [] h a = tt
Wider-All vs ws (row ∷ rows) h (f, a) = (Wider-Fits vs ws row h f, Wider-All vs ws rows h a)

Wider-Covers : (vs ws : List ℕ) (cols : List ColDef) → Wider vs ws → Covers vs cols → Covers ws cols
Wider-Covers [] [] cols h f = f
Wider-Covers (v ∷ vs) (w ∷ ws) [] h f = f
Wider-Covers (v ∷ vs) (w ∷ ws) (c ∷ cols) (h, hs) (f, fs) =
    (omega arith, Wider-Covers vs ws cols hs fs)
Wider-Covers [] (w ∷ ws) cols h f = absurd h
Wider-Covers (v ∷ vs) [] cols h f = absurd h

-- A finished row fits.
abbrev FitsIf : List ℕ → Option Row → Type 0
FitsIf ws none = Unit {0}
FitsIf ws (some row) = Fits ws row

widen-le : (w : ℕ) (text : Bytes) → w ≤ widen w text
widen-le w text = ground arith

widen-text : (w : ℕ) (text : Bytes) → length text < 2 ^ 31 → length text ≤ widen w text
widen-text w text h = ground arith

-- A finished row is short.
abbrev ShortIf : Option Row → Type 0
ShortIf none = Unit {0}
ShortIf (some row) = IsShortRow row

FitsIf-cons :
    (w : ℕ) (ws : List ℕ) (cell : Cell) (row : Option Row)
    → (length cell.text < 2 ^ 31 → length cell.text ≤ w)
    → (ShortIf row → FitsIf ws row)
    → ShortIf (cons_cell cell row)
    → FitsIf (w ∷ ws) (cons_cell cell row)
FitsIf-cons w ws cell none h f s = tt
FitsIf-cons w ws cell (some row) h f (s, more) = (h s, f more)

add_cells-Wider :
    (cols : List ColDef) (args : Args cols) (ws : List ℕ)
    → Covers ws cols
    → Wider ws (add_cells cols args ws).0
      × (ShortIf (add_cells cols args ws).1
          → FitsIf (add_cells cols args ws).0 (add_cells cols args ws).1)
unfolding add_cells
add_cells-Wider [] args [] h = (tt, λ s. tt)
add_cells-Wider [] args (w ∷ ws) h = absurd h
add_cells-Wider (c ∷ cols) args [] h = absurd h
add_cells-Wider (c ∷ cols) ((colour, value), args) (w ∷ ws) (h, hs) =
    let (wider, fits) = add_cells-Wider cols args ws hs in
    cell_case (cell_text c.kind value) wider fits
  where
    cell_case :
        (o : Option Bytes)
        → Wider ws (add_cells cols args ws).0
        → (ShortIf (add_cells cols args ws).1
            → FitsIf (add_cells cols args ws).0 (add_cells cols args ws).1)
        → let r : List ℕ × Option Row = elim o as (λ _. List ℕ × Option Row) [
          | none ↦ (w ∷ ws, none)
          | some text ↦ (
            widen w text ∷ (add_cells cols args ws).0,
            cons_cell (cell_of c colour text) (add_cells cols args ws).1,
          )
        ] in
          Wider (w ∷ ws) r.0 × (ShortIf r.1 → FitsIf r.0 r.1)
    cell_case none wider fits = ((omega arith, Wider-refl ws), λ s. tt)
    cell_case (some text) wider fits = (
      (widen-le w text, wider),
      FitsIf-cons _ _ (cell_of c colour text) (add_cells cols args ws).1 (widen-text w text) fits,
    )

push_row-Fits :
    (ws : List ℕ) (rows : List Row) (o : Option Row)
    → All (Fits ws) rows
    → FitsIf ws o
    → All (Fits ws) (push_row rows o)
push_row-Fits ws rows none a f = a
push_row-Fits ws rows (some r) a f = All-append (Fits ws) rows (r ∷ []) a (f, tt)

push_row-short :
    (rows : List Row) (o : Option Row)
    → All IsShortRow (push_row rows o)
    → All IsShortRow rows × ShortIf o
push_row-short rows none s = (s, tt)
push_row-short [] (some row) (s, more) = (tt, s)
push_row-short (r ∷ rows) (some row) (s, more) =
    let (before, last) = push_row-short rows (some row) more in ((s, before), last)

add_row-IsFit :
    (t : Table) (args : Args t.cols)
    → IsFit t
    → ShortIf (add_cells t.cols args t.col_widths).1
    → IsFit (add_row t args).0
add_row-IsFit t args v short =
    let (wider, fits) = add_cells-Wider t.cols args t.col_widths v.names in
    let ws = (add_cells t.cols args t.col_widths).0 in
    record {
      names = Wider-Covers t.col_widths ws t.cols wider v.names;
      cells =
          push_row-Fits ws t.rows _ (Wider-All t.col_widths ws t.rows wider v.cells) (fits short);
    }

begin-Covers : (cols : List ColDef) → Covers (map (λ c. length c.name) cols) cols
begin-Covers [] = tt
begin-Covers (c ∷ cols) = (omega arith, begin-Covers cols)

-- In every table built by gcli_tbl_begin and gcli_tbl_add_row, failing calls included, whose texts and
-- column names have fewer than 2 ^ 31 bytes (so that their lengths fit the ints of table.c), each row
-- has a cell for each column, and no cell and no column name is longer than the width of its column.
pub Built-IsFit : {t : Table} → Built t → IsShort t → IsFit t
Built-IsFit (begun cols) short = record { names = begin-Covers cols; cells = tt }
Built-IsFit (added {t = t} args b) (rows, names) =
    let (before, last) = push_row-short t.rows (add_cells t.cols args t.col_widths).1 rows in
    add_row-IsFit t args (Built-IsFit b (before, names)) last
