-- ===== src/NvList/Tests.antt =====
-- The list of src/nvlist.c at concrete pairs.
use ghcli.CString.{str_eq}
use ghcli.NvList.{append_all, init, find_or, find_or-append_all}
use ghcli.Prelude.{◌≡◌, List, [], ◌∷◌, Bytes, codes}

abbrev options : List (Bytes × Bytes)
options = (codes "a", codes "1") ∷ (codes "b", codes "2") ∷ (codes "b", codes "3") ∷ []

find_or-append_all_example : find_or (append_all init options) (codes "b") (codes "0") ≡ codes "2"
unfolding str_eq
find_or-append_all_example = find_or-append_all options (codes "b") (codes "0")
