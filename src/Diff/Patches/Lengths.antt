-- ===== src/Diff/Patches/Lengths.antt =====
-- src/diffutil.c: the texts of diffs and patches are long enough for the fuel.
use ghcli.Diff.Comments.Annotated.{unlines}
use ghcli.Diff.Headers.Written.{show_new_mode, show_index, show_file_mode, show_removed, show_added}
use ghcli.Diff.Headers.Index.{show_file_mode-le}
use ghcli.Diff.Hunks.RoundTrip.{show_hunks}
use ghcli.Diff.Lines.{separator_suffix}
use ghcli.Diff.Patches.Written.{WrittenDiff, show_diff, show_diffs, WrittenPatch, show_patches}
use ghcli.Prelude.{
  ◌≤◌, ◌<◌, List, [], ◌∷◌, ◌++◌, Bytes, length, length-append, arith, codes, Option, none, some,
}

new_mode-le : (mode : Option Bytes) (rest : Bytes) → length rest ≤ length (show_new_mode mode rest)
new_mode-le none rest = omega arith
new_mode-le (some mode) rest = let long = length-append mode (b'\n' ∷ rest) in omega arith

removed-le : (file : Option Bytes) (rest : Bytes) → length rest ≤ length (show_removed file rest)
removed-le none rest = omega arith
removed-le (some file) rest = let long = length-append file (b'\n' ∷ rest) in omega arith

show_diff-lt : (w : WrittenDiff) (rest : Bytes) → length rest < length (show_diff w rest)
show_diff-lt w rest =
    let hunks = show_hunks w.hunks ++ rest in
    let added = show_added w.added hunks in
    let files = show_removed w.removed added in
    let tail = show_file_mode w.file_mode files in
    let index = show_index w.hash_a w.hash_b w.file_mode files in
    let mode = show_new_mode w.new_mode index in
    let h1 = length-append (show_hunks w.hunks) rest in
    let h2 = length-append w.added (b'\n' ∷ hunks) in
    let h3 = removed-le w.removed added in
    let h4 = show_file_mode-le w.file_mode files in
    let h5 = length-append w.hash_b tail in
    let h6 = length-append w.hash_a (codes ".." ++ (w.hash_b ++ tail)) in
    let h7 = new_mode-le w.new_mode index in
    let h8 = length-append w.file_b (b'\n' ∷ mode) in
    let h9 = length-append w.file_a (codes " b/" ++ (w.file_b ++ (b'\n' ∷ mode))) in omega arith

pub diffs_fit :
    (diffs : List WrittenDiff) (rest : Bytes) → length diffs ≤ length (show_diffs diffs rest)
diffs_fit [] rest = omega arith
diffs_fit (w ∷ diffs) rest =
    omega (arith, diffs_fit diffs rest, show_diff-lt w (show_diffs diffs rest))

diffs-le : (diffs : List WrittenDiff) (rest : Bytes) → length rest ≤ length (show_diffs diffs rest)
diffs-le [] rest = omega arith
diffs-le (w ∷ diffs) rest =
    omega (arith, diffs-le diffs rest, show_diff-lt w (show_diffs diffs rest))

pub patches_fit : (patches : List WrittenPatch) → length patches ≤ length (show_patches patches)
patches_fit [] = omega arith
patches_fit (w ∷ patches) =
    let tail = show_diffs w.diffs (show_patches patches) in
    let h1 = length-append (unlines w.lines) tail in
    let h2 = length-append w.hash (separator_suffix ++ (unlines w.lines ++ tail)) in
    omega (arith, patches_fit patches, diffs-le w.diffs (show_patches patches))
