-- ===== src/Table/Align.antt =====
-- src/cmd/table.c: the columns of a printed table stand under one another.
use ghcli.Table.{ColDef, Cell, Row, Table}
use ghcli.Table.Widths.{Fits, Covers, Built, Built-IsFit, IsShort}
use ghcli.Table.Dump.{
  Style, add_size, sub_size, pad, gap, start_colour, end_colour, dump_cell, row_cells, header_cell,
  header_cells,
}
use ghcli.Prelude.{
  ℕ, Bool-cases, ◌+◌, ◌-◌, ◌^◌, ◌≤◌, ◌<◌, ◌≡◌, inl, inr, refl, true, false, Bool, not, List, [],
  ◌∷◌, ◌++◌, Bytes, length, length-append, length-replicate, All, ◌==◌, if◌then◌else◌, arith, ◌&&◌,
}

-- With colours off every sequence is empty.
pub record IsPlain (style : Style) : Type 0 where
  pub no_state : (text : Bytes) → style.state_colour text ≡ []
  pub no_reset : style.reset_colour ≡ []
  pub no_bold : style.set_bold ≡ []
  pub no_reset_bold : style.reset_bold ≡ []

abbrev pub HasNoColour : Cell → Type 0
HasNoColour cell = cell.colour ≡ []

-- The widths are `int`s.
abbrev pub IsInt : ℕ → Type 0
IsInt w = w < 2 ^ 31

-- What a column takes on a line; an empty column takes nothing.
abbrev pub span : ColDef → ℕ → ℕ
span c w = if w == 0 then 0 else w + gap c

abbrev pub spans : List ColDef → List ℕ → List ℕ
spans (c ∷ cols) (w ∷ widths) = span c w ∷ spans cols widths
spans _ _ = []

-- A piece for each column, and each but the last one takes the span of its column.
abbrev pub Aligned : List ℕ → List Bytes → Type 0
Aligned [] [] = Unit {0}
Aligned [] (p ∷ pieces) = ⊥
Aligned (s ∷ sizes) [] = ⊥
Aligned (s ∷ []) (p ∷ pieces) = pieces ≡ []
Aligned (s ∷ s' ∷ sizes) (p ∷ pieces) = (length p ≡ s) × Aligned (s' ∷ sizes) pieces

length-header_cell :
    (c : ColDef) (w : ℕ) → IsInt w → length c.name ≤ w → length (header_cell c w false) ≡ span c w
unfolding header_cell
length-header_cell c w i h =
    let n = sub_size (add_size (gap c) w) (length c.name) in
    ground (arith, length-append {0} c.name (pad n), length-replicate {A = ℕ} n b' ')

start_colour_plain :
    (style : Style) (c : ColDef) (cell : Cell)
    → IsPlain style
    → HasNoColour cell
    → start_colour style c cell ≡ []
start_colour_plain style c cell p n = ground (arith, p.no_state cell.text)

end_colour_plain : (style : Style) (c : ColDef) → IsPlain style → end_colour style c ≡ []
end_colour_plain style c p = ground arith

if_nothing : (b : Bool) (text : Bytes) → text ≡ [] → (if b then text else []) ≡ []
if_nothing b text h = ground arith

length_padded :
    (lead text trail : Bytes)
    → length (lead ++ (text ++ trail)) ≡ length lead + length text + length trail
length_padded lead text trail =
    omega (arith, length-append {0} lead (text ++ trail), length-append {0} text trail)

-- With no colours a cell is its text between two paddings.
dump_cell_plain :
    (style : Style) (c : ColDef) (w : ℕ) (cell : Cell)
    → IsPlain style
    → HasNoColour cell
    → (w == 0) ≡ false
    → dump_cell style c w false cell
      ≡ (if c.flags.justify_right && true then pad (sub_size w (length cell.text)) else [])
        ++ (cell.text
            ++ pad (
                add_size
                  (gap c)
                  (if not c.flags.justify_right then sub_size w (length cell.text) else 0)))
unfolding dump_cell
dump_cell_plain style c w cell p n h = rw (
  h,
  start_colour_plain style c cell p n,
  end_colour_plain style c p,
  if_nothing c.flags.bold style.set_bold p.no_bold,
  if_nothing c.flags.bold style.reset_bold p.no_reset_bold,
)

length-pad : (n : ℕ) → length (pad n) ≡ n
length-pad n = length-replicate {A = ℕ} n b' '

sub_size_fits : (w n : ℕ) → IsInt w → n ≤ w → sub_size w n ≡ w - n
sub_size_fits w n i h = omega arith

gap_bounds : (c : ColDef) → gap c ≤ 2
gap_bounds c = ground arith

length-dump_cell :
    (style : Style) (c : ColDef) (w : ℕ) (cell : Cell)
    → IsPlain style
    → HasNoColour cell
    → IsInt w
    → length cell.text ≤ w
    → length (dump_cell style c w false cell) ≡ span c w
length-dump_cell style c w cell p n i h = elim (Bool-cases (w == 0)) [
  | inl empty ↦ unfold dump_cell in rw empty
  | inr shown ↦
      rw (shown, dump_cell_plain style c w cell p n shown, length_padded)
        (elim (Bool-cases c.flags.justify_right) [
          | inl right ↦ rw (right, length-pad, length-pad) (omega (arith, gap_bounds c))
          | inr left ↦ rw (left, length-pad) (omega (arith, gap_bounds c))
        ])
]

header_cells-Aligned :
    (cols : List ColDef) (widths : List ℕ)
    → Covers widths cols
    → All IsInt widths
    → Aligned (spans cols widths) (header_cells cols widths)
unfolding header_cells
header_cells-Aligned [] [] h i = tt
header_cells-Aligned [] (w ∷ widths) h i = absurd h
header_cells-Aligned (c ∷ cols) [] h i = absurd h
header_cells-Aligned (c ∷ []) (w ∷ []) h i = refl
header_cells-Aligned (c ∷ []) (w ∷ v ∷ widths) h i = absurd h.1
header_cells-Aligned (c ∷ d ∷ cols) (w ∷ []) h i = absurd h.1
header_cells-Aligned (c ∷ d ∷ cols) (w ∷ v ∷ widths) (h, hs) (i, is) =
    (length-header_cell c w i h, header_cells-Aligned (d ∷ cols) (v ∷ widths) hs is)

row_cells-Aligned :
    (style : Style) (cols : List ColDef) (widths : List ℕ) (row : Row)
    → IsPlain style
    → All HasNoColour row
    → Covers widths cols
    → Fits widths row
    → All IsInt widths
    → Aligned (spans cols widths) (row_cells style cols widths row)
unfolding row_cells
row_cells-Aligned style [] [] row p n h f i = tt
row_cells-Aligned style [] (w ∷ widths) row p n h f i = absurd h
row_cells-Aligned style (c ∷ cols) [] row p n h f i = absurd h
row_cells-Aligned style (c ∷ cols) (w ∷ widths) [] p n h f i = absurd f
row_cells-Aligned style (c ∷ []) (w ∷ []) (cell ∷ row) p n h f i = refl
row_cells-Aligned style (c ∷ []) (w ∷ v ∷ widths) (cell ∷ row) p n h f i = absurd h.1
row_cells-Aligned style (c ∷ d ∷ cols) (w ∷ []) (cell ∷ row) p n h f i = absurd h.1
row_cells-Aligned style (c ∷ d ∷ cols) (w ∷ v ∷ widths) (cell ∷ row) p (n, ns) (h, hs) (f, fs)
      (i, is) =
    (
      length-dump_cell style c w cell p n i f,
      row_cells-Aligned style (d ∷ cols) (v ∷ widths) row p ns hs fs is,
    )

rows-Aligned :
    (style : Style) (cols : List ColDef) (widths : List ℕ) (rows : List Row)
    → IsPlain style
    → All (All HasNoColour) rows
    → Covers widths cols
    → All (Fits widths) rows
    → All IsInt widths
    → All (λ row. Aligned (spans cols widths) (row_cells style cols widths row)) rows
rows-Aligned style cols widths [] p n h f i = tt
rows-Aligned style cols widths (row ∷ rows) p (n, ns) h (f, fs) i = (
  row_cells-Aligned style cols widths row p n h f i,
  rows-Aligned style cols widths rows p ns h fs i,
)

-- With colours off, in every table built by gcli_tbl_begin and gcli_tbl_add_row whose texts, column
-- names and widths fit an int, the header and every row print one piece for each column, and each piece
-- but the last takes exactly the width of its column and the gap behind it (nothing, if the width is
-- 0).
pub Built-Aligned :
    (style : Style) {t : Table}
    → IsPlain style
    → Built t
    → IsShort t
    → All IsInt t.col_widths
    → All (All HasNoColour) t.rows
    → Aligned (spans t.cols t.col_widths) (header_cells t.cols t.col_widths)
      × All
          (λ row. Aligned (spans t.cols t.col_widths) (row_cells style t.cols t.col_widths row))
          t.rows
Built-Aligned style {t} p b short i n =
    let fit = Built-IsFit b short in
    (
      header_cells-Aligned t.cols t.col_widths fit.names i,
      rows-Aligned style t.cols t.col_widths t.rows p n fit.names fit.cells i,
    )
