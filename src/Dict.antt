-- ===== src/Dict.antt =====
-- src/cmd/table.c, the dictionaries: a list of keys and values, printed with the colons below each other.
-- Failing allocations are not modelled, except for the one of `gcli_dict_add_sv_list` with no
-- elements, which asks for 2 ^ 64 - 1 bytes.
pub mod Align
mod Tests
use ghcli.Prelude.{
  ◌∙◌, ℕ, zero, suc, Bool-cases, ◌+◌, ◌-◌, ◌*◌, ◌/◌, ◌%◌, ◌^◌, ◌≤◌, ◌<◌, ◌≡◌, ◌≢◌, ◌⊎◌, inl, inr,
  refl, sym, ap, true, false, Bool, not, List, [], ◌∷◌, ◌++◌, Bytes, length, length-append,
  replicate, length-replicate, All, All-append, ltb, leb, ◌==◌, map, if◌then◌else◌, arith,
  append-nil, append_assoc, ◌&&◌, ◌||◌, codes, Option, none, some, ℤ, pos, negsuc,
}
use ghcli.Table.{Flags}
use ghcli.Table.Dump.{Style, sub_size, pad}

-- `struct gcli_dict_entry`; `none` is a null pointer.
pub record Entry : Type 0 where
  pub key : Bytes
  pub value : Option Bytes
  pub flags : Flags
  pub colour_args : ℕ

-- `struct gcli_dict`
pub record Dict : Type 0 where
  pub entries : List Entry
  pub max_key_len : ℕ

-- `gcli_dict_begin`
abbrev pub begin : Dict
begin = record { entries = []; max_key_len = 0 }

-- `gcli_dict_add_row`
unfoldable pub add_row : Dict → Bytes → Flags → ℕ → Option Bytes → Dict
add_row dict key flags colour value = record {
  entries =
      dict.entries
      ++ (record { key = key; value = value; flags = flags; colour_args = colour } ∷ []);
  max_key_len = if ltb dict.max_key_len (length key) then length key else dict.max_key_len;
}

-- `gcli_dict_add`, with what `vsnprintf` makes of the format and its arguments.
abbrev pub add : Dict → Bytes → Flags → ℕ → Bytes → Dict
add dict key flags colour result = add_row dict key flags colour (some result)

-- `gcli_dict_add_string`
abbrev pub add_string : Dict → Bytes → Flags → ℕ → Option Bytes → Dict
add_string dict key flags colour none = add_row dict key flags colour (some (codes "N/A"))
add_string dict key flags colour (some str) = add_row dict key flags colour (some str)

-- `gcli_dict_add_timestamp`, with the answer of `gcli_format_as_localtime`, `none` if that fails; and
-- `true` for 0.
abbrev pub add_timestamp : Dict → Bytes → Flags → ℕ → Option Bytes → Dict × Bool
add_timestamp dict key flags colour none = (dict, false)
add_timestamp dict key flags colour (some stamp) =
    (add_row dict key flags colour (some stamp), true)

-- Flags and colour 0.
abbrev pub no_flags : Flags
no_flags = record {
  state_coloured = false;
  justify_right = false;
  bold = false;
  colour_explicit = false;
  colour_256 = false;
  tight = false;
}

abbrev pub sum_lengths : List Bytes → ℕ
sum_lengths [] = 0
sum_lengths (s ∷ list) = length s + sum_lengths list

-- `totalsize`, a `size_t`.
unfoldable pub total_size : List Bytes → ℕ
total_size list = (sum_lengths list + (length list + 2 ^ 64 - 1) * 2) % 2 ^ 64

-- The second loop of `gcli_dict_add_sv_list`: the strings with a comma and a space in between.
unfoldable pub concatenate : List Bytes → Bytes
concatenate [] = []
concatenate (s ∷ []) = s
concatenate (s ∷ t ∷ list) = s ++ (codes ", " ++ concatenate (t ∷ list))

-- `gcli_dict_add_sv_list`
abbrev pub add_sv_list : Dict → Bytes → List Bytes → Dict
add_sv_list dict key [] = add_row dict key no_flags 0 none
add_sv_list dict key (s ∷ list) = add_row dict key no_flags 0 (some (concatenate (s ∷ list)))

-- `gcli_dict_add_string_list`, with what `sn_join_with` answers.
abbrev pub add_string_list : (List Bytes → Bytes → Bytes) → Dict → Bytes → List Bytes → Dict
add_string_list join_with dict key list =
    add_row dict key no_flags 0 (some (join_with list (codes ", ")))

-- What `gcli_setcolour` and `gcli_setcolour256` answer for the colour of an entry.
module _ (style : Style) (set_colour set_colour256 : ℕ → Bytes) where
  -- The start of a line, up to the value.
  abbrev pub lead : Dict → Entry → Bytes
  lead dict entry = pad (sub_size dict.max_key_len (length entry.key)) ++ entry.key

  abbrev when : Bool → Bytes → Bytes
  when b text = if b then text else []

  -- One round of the loop of `gcli_dict_end`. With a null value `puts` reads through it: the start of the
  -- line, which stands in the buffer of stdout by then, is lost with the program.
  unfoldable pub print_entry : Dict → Entry → Option Bytes
  print_entry dict entry = elim entry.value as (λ _. Option Bytes) [
    | none ↦ none
    | some value ↦
        let flags = entry.flags in
        some (
          lead dict entry
          ++ (codes " : "
              ++ (when flags.bold style.set_bold
                  ++ (when flags.colour_explicit (set_colour entry.colour_args)
                      ++ (when flags.state_coloured (style.state_colour value)
                          ++ (when flags.colour_256 (set_colour256 entry.colour_args)
                              ++ (value
                                  ++ (b'\n'
                                      ∷ (when
                                            (flags.colour_explicit
                                              || (flags.state_coloured || flags.colour_256))
                                            style.reset_colour
                                          ++ when flags.bold style.reset_bold)))))))))
  ]

  abbrev join_lines : Option Bytes → Option Bytes → Option Bytes
  join_lines (some a) (some b) = some (a ++ b)
  join_lines _ _ = none

  abbrev print_entries : Dict → List Entry → Option Bytes
  print_entries dict [] = some []
  print_entries dict (entry ∷ entries) =
      join_lines (print_entry dict entry) (print_entries dict entries)

  -- `gcli_dict_end`: the text printed, or `none` for a crash.
  abbrev pub end : Dict → Option Bytes
  end dict = print_entries dict dict.entries
