-- ===== src/Table/Dump.antt =====
-- src/cmd/table.c: how a table is printed. The escape sequences of src/cmd/colour.c come as a record.
use ghcli.Table.{ColDef, Cell, Row, Table}
use mathlib.Core.List.{flatten}
use ghcli.Prelude.{
  ℕ, ◌+◌, ◌-◌, ◌%◌, ◌^◌, true, false, Bool, not, List, [], ◌∷◌, ◌++◌, Bytes, length, replicate,
  ◌==◌, map, if◌then◌else◌, ◌&&◌, ◌||◌, codes,
}

-- `gcli_state_colour_str`, `gcli_resetcolour`, `gcli_setbold` and `gcli_resetbold`.
pub record Style : Type 0 where
  pub state_colour : Bytes → Bytes
  pub reset_colour : Bytes
  pub set_bold : Bytes
  pub reset_bold : Bytes

-- `size_t` addition, and the difference of a width and a length.
abbrev pub add_size : ℕ → ℕ → ℕ
add_size a b = (a + b) % 2 ^ 64

abbrev pub sub_size : ℕ → ℕ → ℕ
sub_size a b = (a + 2 ^ 64 - b) % 2 ^ 64

abbrev pub pad : ℕ → Bytes
pad n = replicate n b' '

-- `padding`: the space behind a column.
abbrev pub gap : ColDef → ℕ
gap c = if c.flags.tight then 1 else 2

module _ (style : Style) where
  abbrev pub start_colour : ColDef → Cell → Bytes
  start_colour c cell =
      if c.flags.state_coloured
      then style.state_colour cell.text
      else if c.flags.colour_explicit || c.flags.colour_256
      then cell.colour
      else []

  abbrev pub end_colour : ColDef → Bytes
  end_colour c =
      if c.flags.state_coloured || c.flags.colour_explicit || c.flags.colour_256
      then style.reset_colour
      else []

  -- One round of the loop of `dump_row`; `last` is `!(col + 1 < cols_size)`.
  unfoldable pub dump_cell : ColDef → ℕ → Bool → Cell → Bytes
  dump_cell c width last cell =
      let space = sub_size width (length cell.text) in
      if width == 0
      then []
      else (if c.flags.justify_right && not last then pad space else [])
        ++ (start_colour c cell
            ++ ((if c.flags.bold then style.set_bold else [])
                ++ (cell.text
                    ++ (end_colour c
                        ++ ((if c.flags.bold then style.reset_bold else [])
                            ++ (if last
                                then []
                                else pad (
                                    add_size (gap c)
                                      (if not c.flags.justify_right then space else 0))))))))

  -- The pieces that `dump_row` prints, one for each column.
  unfoldable pub row_cells : List ColDef → List ℕ → Row → List Bytes
  row_cells (c ∷ []) (w ∷ widths) (cell ∷ row) = dump_cell c w true cell ∷ []
  row_cells (c ∷ d ∷ cols) (w ∷ widths) (cell ∷ row) =
      dump_cell c w false cell ∷ row_cells (d ∷ cols) widths row
  row_cells _ _ _ = []

  unfoldable pub dump_row : List ColDef → List ℕ → Row → Bytes
  unfolding row_cells
  dump_row cols widths row = flatten (row_cells cols widths row) ++ codes "\n"

-- One round of the loop over the headers in `gcli_tbl_dump`.
unfoldable pub header_cell : ColDef → ℕ → Bool → Bytes
header_cell c width last =
    if width == 0
    then []
    else c.name ++ (if last then [] else pad (sub_size (add_size (gap c) width) (length c.name)))

unfoldable pub header_cells : List ColDef → List ℕ → List Bytes
header_cells (c ∷ []) (w ∷ widths) = header_cell c w true ∷ []
header_cells (c ∷ d ∷ cols) (w ∷ widths) = header_cell c w false ∷ header_cells (d ∷ cols) widths
header_cells _ _ = []

-- `gcli_tbl_dump`: what is printed.
unfoldable pub dump : Style → Table → Bytes
unfolding header_cells dump_row
dump style t =
    (flatten (header_cells t.cols t.col_widths) ++ codes "\n")
    ++ flatten (map (dump_row style t.cols t.col_widths) t.rows)
