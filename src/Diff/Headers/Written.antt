-- ===== src/Diff/Headers/Written.antt =====
-- src/diffutil.c: the lines in front of the hunks of a diff, as git writes them.
use ghcli.Diff.Comments.Annotated.{NoNewline}
use ghcli.Strtol.Octal.{IsOctal, octal_value}
use ghcli.Prelude.{length, ℕ, ◌^◌, ◌<◌, ◌≢◌, [], ◌∷◌, ◌++◌, Bytes, All, codes, Option, none, some}

-- A name of a file: no space, newline or backslash.
abbrev pub IsName : Bytes → Type 0
IsName = All (λ c. (c ≢ b' ') × ((c ≢ b'\n') × (c ≢ b'\\')))

-- A commit hash has a byte at least.
abbrev pub IsHashName : Bytes → Type 0
IsHashName hash = (0 < length hash) × IsName hash

-- A hash: no space, newline or dot.
abbrev pub IsHash : Bytes → Type 0
IsHash = All (λ c. (c ≢ b' ') × ((c ≢ b'\n') × (c ≢ b'.')))

-- The mode of a new file, one digit at least.
abbrev pub IsMode : Option Bytes → Type 0
IsMode none = Unit {0}
IsMode (some []) = ⊥
IsMode (some (c ∷ text)) = IsOctal (c ∷ text) × (octal_value 0 (c ∷ text) < 2 ^ 31)

abbrev pub mode_value : Option Bytes → ℕ
mode_value none = 0
mode_value (some text) = octal_value 0 text

-- The text of each line, with the text that follows.
abbrev pub show_header : Bytes → Bytes → Bytes → Bytes
show_header file_a file_b rest =
    codes "diff --git a/" ++ (file_a ++ (codes " b/" ++ (file_b ++ (b'\n' ∷ rest))))

abbrev pub show_new_mode : Option Bytes → Bytes → Bytes
show_new_mode none rest = rest
show_new_mode (some mode) rest = codes "new file mode " ++ (mode ++ (b'\n' ∷ rest))

abbrev pub show_file_mode : Option Bytes → Bytes → Bytes
show_file_mode none rest = b'\n' ∷ rest
show_file_mode (some mode) rest = b' ' ∷ (mode ++ (b'\n' ∷ rest))

abbrev pub show_index : Bytes → Bytes → Option Bytes → Bytes → Bytes
show_index hash_a hash_b mode rest =
    codes "index " ++ (hash_a ++ (codes ".." ++ (hash_b ++ show_file_mode mode rest)))

-- The file with the removals, or none.
abbrev pub show_removed : Option Bytes → Bytes → Bytes
show_removed none rest = codes "--- /dev/null\n" ++ rest
show_removed (some file) rest = codes "--- a/" ++ (file ++ (b'\n' ∷ rest))

abbrev pub removed_name : Option Bytes → Bytes
removed_name none = codes "/dev/null"
removed_name (some file) = file

abbrev pub show_added : Bytes → Bytes → Bytes
show_added file rest = codes "+++ b/" ++ (file ++ (b'\n' ∷ rest))

abbrev pub IsLine : Option Bytes → Type 0
IsLine none = Unit {0}
IsLine (some text) = NoNewline text
