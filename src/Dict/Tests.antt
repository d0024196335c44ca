-- ===== src/Dict/Tests.antt =====
-- Dictionaries: runs and examples.
use ghcli.Dict.{begin, no_flags, end, print_entry, total_size, concatenate, add_row}
use ghcli.Dict.Align.{
  Call, add_call, add_string_call, add_timestamp_call, add_sv_list_call, build, build-HasColonAt,
  HasColonAt, length-concatenate-total_size,
}
use ghcli.Table.Dump.{Style}
use ghcli.Prelude.{◌≡◌, refl, List, [], ◌∷◌, ◌++◌, Bytes, length, All, arith, codes, none, some}

abbrev plain : Style
plain = record { state_colour = λ _. []; reset_colour = []; set_bold = []; reset_bold = [] }

abbrev join_with : List Bytes → Bytes → Bytes
join_with [] sep = []
join_with (s ∷ list) sep = s ++ (sep ++ join_with list sep)

abbrev calls : List Call
calls =
    add_call (codes "ID") no_flags 0 (codes "42")
    ∷ (add_string_call (codes "TITLE") no_flags 0 none
        ∷ (add_timestamp_call (codes "CREATED AT") no_flags 0 none
            ∷ (add_sv_list_call (codes "TAGS") (codes "a" ∷ (codes "b" ∷ [])) ∷ [])))

end_run :
    end plain (λ _. []) (λ _. []) (build join_with begin calls)
    ≡ some (codes "   ID : 42\nTITLE : N/A\n TAGS : a, b\n")
unfolding print_entry concatenate add_row
end_run = refl

end_null :
    end plain (λ _. []) (λ _. []) (build join_with begin (add_sv_list_call [] [] ∷ [])) ≡ none
unfolding print_entry add_row
end_null = refl

build-HasColonAt_example :
    All
      (λ entry.
        HasColonAt 5 (print_entry plain (λ _. []) (λ _. []) (build join_with begin calls) entry))
      (build join_with begin calls).entries
unfolding add_row
build-HasColonAt_example =
    build-HasColonAt plain (λ _. []) (λ _. []) join_with calls
      (omega arith, (omega arith, (omega arith, (omega arith, tt))))

length-concatenate-total_size_example :
    length (concatenate (codes "ab" ∷ (codes "c" ∷ [])))
    ≡ total_size (codes "ab" ∷ (codes "c" ∷ []))
length-concatenate-total_size_example =
    length-concatenate-total_size (codes "ab") (codes "c" ∷ []) (omega arith)
