-- ===== src/Table/Tests.antt =====
-- A table of src/cmd/table.c, and its theorems at it.
use ghcli.Decimal.{show_int}
use ghcli.Table.{
  int, time_t, bool, Flags, ColDef, Args, Table, begin, cell_text, add_cells, add_row,
}
use ghcli.Table.Widths.{IsFit, IsShort, Built, begun, added, Built-IsFit}
use mathlib.Core.List.{flatten}
use ghcli.Table.Dump.{Style, dump, row_cells, dump_cell, header_cell, header_cells}
use ghcli.Table.Align.{Aligned, spans, Built-Aligned}
use ghcli.Prelude.{◌≡◌, refl, true, false, List, [], ◌∷◌, All, arith, codes, none, some, pos}

abbrev no_flags : Flags
no_flags = record {
  state_coloured = false;
  justify_right = false;
  bold = false;
  colour_explicit = false;
  colour_256 = false;
  tight = false;
}

abbrev columns : List ColDef
columns =
    record { name = codes "NUMBER"; kind = int; flags = record no_flags { justify_right = true } }
    ∷ record {
      name = codes "OK";
      kind = bool;
      flags = record no_flags { tight = true; bold = true };
    }
    ∷ record { name = codes "DATE"; kind = time_t; flags = no_flags }
    ∷ []

abbrev first_args : Args columns
first_args = (([], pos 42), (([], pos 1), (([], some (codes "today")), tt)))

-- The time of the second row cannot be formatted.
abbrev bad_args : Args columns
bad_args = (([], pos 12345678), (([], pos 0), (([], none), tt)))

abbrev plain : Style
plain = record { state_colour = λ text. []; reset_colour = []; set_bold = []; reset_bold = [] }

abbrev empty : Table
empty = begin columns

abbrev filled : Table
filled = (add_row (begin columns) first_args).0

dump-filled : dump plain filled ≡ codes "NUMBER  OK  DATE\n    42  yes today\n"
unfolding dump add_cells cell_text dump_cell header_cell show_int flatten
dump-filled = refl

-- The row that fails has widened the first column.
widened : (add_row filled bad_args).0.col_widths ≡ 8 ∷ 3 ∷ 5 ∷ []
unfolding add_cells cell_text show_int
widened = refl

filled-Built : Built filled
filled-Built = added first_args (begun columns)

filled-IsShort : IsShort filled
unfolding add_cells cell_text show_int
filled-IsShort = omega arith

Built-IsFit_example : IsFit filled
Built-IsFit_example = Built-IsFit filled-Built filled-IsShort

Built-Aligned_example :
    Aligned (spans filled.cols filled.col_widths) (header_cells filled.cols filled.col_widths)
    × All
        (λ row.
          Aligned
            (spans filled.cols filled.col_widths)
            (row_cells plain filled.cols filled.col_widths row))
        filled.rows
unfolding add_cells cell_text show_int
Built-Aligned_example =
    Built-Aligned plain
      (record { no_state = λ text. refl; no_reset = refl; no_bold = refl; no_reset_bold = refl })
      filled-Built filled-IsShort (omega arith) ((refl, (refl, (refl, tt))), tt)
