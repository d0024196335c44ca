-- ===== src/Diff/Trailer/Tests.antt =====
-- The trailer of a patch: runs and examples.
use ghcli.CString.{starts_with}
use ghcli.Diff.Comments.{take}
use ghcli.Diff.Trailer.{strstr, strrstr_loop, strrstr, cut_trailer, fixup_last_diff_in_patch}
use ghcli.Diff.Trailer.Cut.{IsTrimmed, cut_trailer-IsTrimmed}
use ghcli.Prelude.{ok, fault, ◌≡◌, refl, [], ◌∷◌, codes}

fixup_run :
    fixup_last_diff_in_patch ((codes " a\n" ∷ []) ∷ ((codes "+b\n--\n2.39\n" ∷ []) ∷ []))
    ≡ ok ((codes " a\n" ∷ []) ∷ ((codes "+b\n" ∷ []) ∷ []))
unfolding fixup_last_diff_in_patch cut_trailer strrstr strrstr_loop strstr starts_with take
fixup_run = refl

-- A line "-" is removed: the lines from there on are lost.
removed_run : cut_trailer (codes " a\n--\n+b\n") ≡ ok (codes " a\n")
unfolding cut_trailer strrstr strrstr_loop strstr starts_with take
removed_run = refl

-- The trailer of git has a space, and stays.
signature_run : cut_trailer (codes "+b\n-- \n2.39\n") ≡ ok (codes "+b\n-- \n2.39\n")
unfolding cut_trailer strrstr strrstr_loop strstr starts_with take
signature_run = refl

-- The assertion fails for a diff without a hunk.
no_hunk_run : fixup_last_diff_in_patch ([] ∷ []) ≡ fault
unfolding fixup_last_diff_in_patch
no_hunk_run = refl

cut_trailer-IsTrimmed_example : IsTrimmed (codes "+b\n--\n2.39\n")
cut_trailer-IsTrimmed_example = cut_trailer-IsTrimmed (codes "+b\n--\n2.39\n")
