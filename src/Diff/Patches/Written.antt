-- ===== src/Diff/Patches/Written.antt =====
-- src/diffutil.c: patch series as git writes them, and what the parser makes of them.
use ghcli.CString.{starts_with}
use ghcli.Diff.Comments.Annotated.{NoNewline, unlines}
use ghcli.Diff.Headers.Written.{
  IsName, IsHashName, IsHash, IsMode, IsLine, mode_value, removed_name, show_header, show_new_mode,
  show_index, show_removed, show_added,
}
use ghcli.Diff.Hunks.RoundTrip.{WrittenHunk, IsWrittenHunk, show_hunks, parsed_all}
use ghcli.Diff.Lines.{separator_suffix}
use ghcli.Diff.Patches.{ParsedDiff, Patch, PatchSeries}
use ghcli.Prelude.{
  ◌≡◌, false, Bool, List, [], ◌∷◌, ◌++◌, Bytes, All, ◌==◌, map, ◌&&◌, codes, Option, some, pos,
}

-- What the lines of a diff say; `removed` is none for "/dev/null".
pub record WrittenDiff : Type 0 where
  pub file_a : Bytes
  pub file_b : Bytes
  pub new_mode : Option Bytes
  pub hash_a : Bytes
  pub hash_b : Bytes
  pub file_mode : Option Bytes
  pub removed : Option Bytes
  pub added : Bytes
  pub hunks : List WrittenHunk

-- Its text, with the text that follows.
abbrev pub show_files : WrittenDiff → Bytes → Bytes
show_files w rest = show_removed w.removed (show_added w.added (show_hunks w.hunks ++ rest))

abbrev pub show_diff : WrittenDiff → Bytes → Bytes
show_diff w rest =
    show_header w.file_a w.file_b
      (show_new_mode w.new_mode (show_index w.hash_a w.hash_b w.file_mode (show_files w rest)))

-- "--"
abbrev pub is_dashes : Bytes → Bool
is_dashes (a ∷ b ∷ []) = a == b'-' && b == b'-'
is_dashes line = false

-- At least one hunk, and no line "--" in it, which is taken for the trailer of a patch.
abbrev pub AreHunks : List WrittenHunk → Type 0
AreHunks [] = ⊥
AreHunks (w ∷ hunks) =
    All (λ w. IsWrittenHunk w × All (λ line. is_dashes line ≡ false) w.lines) (w ∷ hunks)

pub record IsWrittenDiff (w : WrittenDiff) : Type 0 where
  pub a : IsName w.file_a
  pub b : IsName w.file_b
  pub new : IsMode w.new_mode
  pub hashed_a : IsHash w.hash_a
  pub hashed_b : IsHash w.hash_b
  pub mode : IsLine w.file_mode
  pub r : IsLine w.removed
  pub p : NoNewline w.added
  pub written : AreHunks w.hunks

abbrev pub parsed_diff : WrittenDiff → ParsedDiff
parsed_diff w = record {
  file_a = w.file_a;
  file_b = w.file_b;
  new_file_mode = pos (mode_value w.new_mode);
  hash_a = w.hash_a;
  hash_b = w.hash_b;
  file_mode = w.file_mode;
  r_file = removed_name w.removed;
  a_file = w.added;
  hunks = parsed_all w.hunks 0;
}

abbrev pub show_diffs : List WrittenDiff → Bytes → Bytes
show_diffs [] rest = rest
show_diffs (w ∷ diffs) rest = show_diff w (show_diffs diffs rest)

-- The hash of the commit, the lines up to the first diff, and the diffs.
pub record WrittenPatch : Type 0 where
  pub hash : Bytes
  pub lines : List Bytes
  pub diffs : List WrittenDiff

abbrev pub show_separator : Bytes → Bytes → Bytes
show_separator hash rest = codes "From " ++ (hash ++ (separator_suffix ++ rest))

abbrev pub show_patch : WrittenPatch → Bytes → Bytes
show_patch w rest = show_separator w.hash (unlines w.lines ++ show_diffs w.diffs rest)

-- A line that does not start a diff.
abbrev pub IsMessage : Bytes → Type 0
IsMessage line = (starts_with line (codes "diff ") ≡ false) × NoNewline line

abbrev pub AreDiffs : List WrittenDiff → Type 0
AreDiffs [] = ⊥
AreDiffs (w ∷ diffs) = All IsWrittenDiff (w ∷ diffs)

abbrev pub IsWrittenPatch : WrittenPatch → Type 0
IsWrittenPatch w = IsHashName w.hash × (All IsMessage w.lines × AreDiffs w.diffs)

abbrev pub parsed_patch : WrittenPatch → Patch
parsed_patch w = record {
  prelude = show_separator w.hash (unlines w.lines);
  commit_hash = some w.hash;
  diffs = map parsed_diff w.diffs;
}

abbrev pub show_patches : List WrittenPatch → Bytes
show_patches [] = []
show_patches (w ∷ patches) = show_patch w (show_patches patches)

-- The lines in front of the first patch, and the patches.
pub record WrittenSeries : Type 0 where
  pub lines : List Bytes
  pub patches : List WrittenPatch

abbrev pub show_series : WrittenSeries → Bytes
show_series w = unlines w.lines ++ show_patches w.patches

-- A line that does not start a patch.
abbrev pub IsCover : Bytes → Type 0
IsCover line = (starts_with line (codes "From ") ≡ false) × NoNewline line

abbrev pub IsWrittenSeries : WrittenSeries → Type 0
IsWrittenSeries w = All IsCover w.lines × All IsWrittenPatch w.patches

abbrev pub parsed_series : WrittenSeries → PatchSeries
parsed_series w = record { prelude = unlines w.lines; patches = map parsed_patch w.patches }
