-- ===== src/Table.antt =====
-- src/cmd/table.c, the tables: columns of cells, printed with aligned columns.
-- Failing allocations are not modelled.
pub mod Widths
pub mod Dump
pub mod Align
mod Tests
use ghcli.Decimal.{show, show_int}
use ghcli.Prelude.{
  ◌∙◌, ℕ, zero, suc, Bool-cases, ◌+◌, ◌-◌, ◌*◌, ◌/◌, ◌%◌, ◌^◌, ◌≤◌, ◌<◌, ◌≡◌, ◌≢◌, ◌⊎◌, inl, inr,
  refl, sym, ap, true, false, Bool, not, List, [], ◌∷◌, ◌++◌, Bytes, length, length-append,
  replicate, length-replicate, All, All-append, ltb, leb, ◌==◌, map, if◌then◌else◌, arith,
  append-nil, append_assoc, ◌&&◌, ◌||◌, codes, Option, none, some, ℤ, pos, negsuc,
}

-- `enum gcli_tblcoltype`; `other` is any number that is none of them.
pub data Kind : Type 0 where
  int long id string time_t double bool other : Kind

-- The bits of `enum gcli_tblcol_flags`.
pub record Flags : Type 0 where
  pub state_coloured : Bool
  pub justify_right : Bool
  pub bold : Bool
  pub colour_explicit : Bool
  pub colour_256 : Bool
  pub tight : Bool

-- `struct gcli_tblcoldef`
pub record ColDef : Type 0 where
  pub name : Bytes
  pub kind : Kind
  pub flags : Flags

-- The variadic argument for a cell. A double comes as the text that `%lf` makes of it, and a time as
-- what `gcli_format_as_localtime` answers: `none` if it fails.
abbrev pub ValueOf : Kind → Type 0
ValueOf int = ℤ
ValueOf long = ℤ
ValueOf id = ℕ
ValueOf string = Option Bytes
ValueOf time_t = Option Bytes
ValueOf double = Bytes
ValueOf bool = ℤ
ValueOf other = Unit {0}

-- The arguments of `gcli_tbl_add_row`: for each column the escape sequence of its explicit colour,
-- which is read for a column with such a flag, and the value.
abbrev pub Args : List ColDef → Type 0
Args [] = Unit {0}
Args (c ∷ cols) = (Bytes × ValueOf c.kind) × Args cols

pub record Cell : Type 0 where
  pub text : Bytes
  pub colour : Bytes

abbrev pub Row : Type 0
Row = List Cell

-- `struct gcli_tbl`
pub record Table : Type 0 where
  pub cols : List ColDef
  pub col_widths : List ℕ
  pub rows : List Row

-- `gcli_tbl_begin`, for names of fewer than 2 ^ 31 bytes.
abbrev pub begin : List ColDef → Table
begin cols = record { cols = cols; col_widths = map (λ c. length c.name) cols; rows = [] }

abbrev is_zero : ℤ → Bool
is_zero (pos zero) = true
is_zero _ = false

-- The switch on the type of the column: the text of the cell, or `none` for -1.
unfoldable pub cell_text : (kind : Kind) → ValueOf kind → Option Bytes
cell_text int n = some (show_int n)
cell_text long n = some (show_int n)
cell_text id n = some (show n)
cell_text string (some it) = some it
cell_text string none = some (codes "N/A")
cell_text time_t stamp = stamp
cell_text double text = some text
cell_text bool val = some (if is_zero val then codes "no" else codes "yes")
cell_text other u = none

-- `if (col_widths[col] < cell_size) col_widths[col] = cell_size;`: the length becomes an `int`, and
-- where that is negative it widens nothing.
abbrev pub widen : ℕ → Bytes → ℕ
widen width text =
    let cell_size = length text % 2 ^ 32 in
    if ltb cell_size (2 ^ 31) && ltb width cell_size then cell_size else width

abbrev pub cell_of : ColDef → Bytes → Bytes → Cell
cell_of c colour text = record {
  text = text;
  colour = if c.flags.colour_explicit || c.flags.colour_256 then colour else [];
}

abbrev pub cons_cell : Cell → Option Row → Option Row
cons_cell cell none = none
cons_cell cell (some row) = some (cell ∷ row)

-- The loop of `gcli_tbl_add_row` over `tablerow_add_cell`: the widths, and the cells unless some
-- call failed; the widths of the columns before that one are kept.
unfoldable pub add_cells : (cols : List ColDef) → Args cols → List ℕ → List ℕ × Option Row
add_cells [] args widths = (widths, some [])
add_cells (c ∷ cols) args [] = ([], none)
add_cells (c ∷ cols) ((colour, value), args) (w ∷ widths) =
    let rest = add_cells cols args widths in
    elim (cell_text c.kind value) as (λ _. List ℕ × Option Row) [
      | none ↦ (w ∷ widths, none)
      | some text ↦ (widen w text ∷ rest.0, cons_cell (cell_of c colour text) rest.1)
    ]

-- `table_pushrow`, on a finished row.
abbrev pub push_row : List Row → Option Row → List Row
push_row rows none = rows
push_row rows (some row) = rows ++ (row ∷ [])

abbrev pub is_some : Option Row → Bool
is_some none = false
is_some (some row) = true

-- `gcli_tbl_add_row`, with `true` for 0 and `false` for -1.
abbrev pub add_row : (t : Table) → Args t.cols → Table × Bool
add_row t args =
    let (widths, row) = add_cells t.cols args t.col_widths in
    (record t { col_widths = widths; rows = push_row t.rows row }, is_some row)
