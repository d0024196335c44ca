-- ===== src/Diff/Headers/Files.antt =====
-- src/diffutil.c: the lines with the names of the files of a diff are read back.
use ghcli.CString.{starts_with}
use ghcli.Diff.Comments.Annotated.{NoNewline, between-append}
use ghcli.Diff.Lines.{find_newline, nextline, is_shorter}
use ghcli.Diff.Headers.{file_part, parse_hunk_a_or_r_file, is_behind, copy_between}
use ghcli.Diff.Headers.RoundTrip.{expect_prefix-none}
use ghcli.Diff.Headers.Names.{at, find_newline-skip, nextline-found, expect_prefix-skip}
use ghcli.Diff.Headers.Written.{IsLine, show_removed, removed_name, show_added}
use ghcli.Prelude.{
  ok, ℕ, ◌≡◌, refl, true, false, ◌∷◌, ◌++◌, Bytes, length-append, ◌==◌, arith, codes, Option, none,
  some,
}

removed-nextline :
    (file rest : Bytes)
    → NoNewline file
    → nextline (show_removed (some file) rest)
      ≡ some (record { start = show_removed (some file) rest; end = b'\n' ∷ rest })
unfolding find_newline
removed-nextline file rest h =
    nextline-found b'-' _ (b'\n' ∷ rest) (find_newline-skip file (b'\n' ∷ rest) h)

copy_between-append : (front rest : Bytes) → copy_between (front ++ rest) rest ≡ ok front
copy_between-append front rest =
    let long = length-append front rest in
    let fine : is_behind (front ++ rest) rest ≡ false = ground arith in
    rw (fine, between-append front rest) refl

-- Behind "--- a/" and "+++ b/".
file_part-removed :
    (c : ℕ) (file end : Bytes)
    → file_part c (record { start = codes "--- " ++ (c ∷ b'/' ∷ (file ++ end)); end = end })
      ≡ ok (record { start = file ++ end; end = end })
unfolding file_part starts_with
file_part-removed c file end =
    let long = length-append file end in
    let part = c ∷ b'/' ∷ (file ++ end) in
    let enough : is_shorter (record { start = part; end = end }) 2 ≡ false = ground arith in
    let same : (c == c) ≡ true = ground arith in
    rw (expect_prefix-skip (codes "--- ") part end (omega arith), file_part, enough, same) refl

file_part-added :
    (c : ℕ) (file end : Bytes)
    → file_part c (record { start = codes "+++ " ++ (c ∷ b'/' ∷ (file ++ end)); end = end })
      ≡ ok (record { start = file ++ end; end = end })
unfolding file_part starts_with
file_part-added c file end =
    let long = length-append file end in
    let part = c ∷ b'/' ∷ (file ++ end) in
    let enough : is_shorter (record { start = part; end = end }) 2 ≡ false = ground arith in
    let same : (c == c) ≡ true = ground arith in
    rw
      (
        expect_prefix-none (record { start = codes "+++ " ++ part; end = end }) (codes "--- ") refl,
        file_part,
        expect_prefix-skip (codes "+++ ") part end (omega arith),
        enough,
        same,
      )
      refl

file_part-null :
    (rest : Bytes)
    → file_part b'a' (record { start = codes "--- /dev/null\n" ++ rest; end = b'\n' ∷ rest })
      ≡ ok (record { start = codes "/dev/null\n" ++ rest; end = b'\n' ∷ rest })
unfolding file_part starts_with
file_part-null rest =
    let part = codes "/dev/null\n" ++ rest in
    let end = b'\n' ∷ rest in
    let enough : is_shorter (record { start = part; end = end }) 2 ≡ false = ground arith in
    rw (expect_prefix-skip (codes "--- ") part end (omega arith), file_part, enough) refl

pub parse_removed-show :
    (file : Option Bytes) (rest : Bytes) (offset : ℕ)
    → IsLine file
    → parse_hunk_a_or_r_file b'a' (at (show_removed file rest) offset)
      ≡ ok (removed_name file, at rest offset)
unfolding parse_hunk_a_or_r_file find_newline
parse_removed-show none rest offset h =
    let end = b'\n' ∷ rest in
    rw
      (
        nextline-found b'-' _ end refl,
        file_part-null rest,
        copy_between-append (codes "/dev/null") end,
      )
      refl
parse_removed-show (some file) rest offset h =
    rw
      (
        removed-nextline file rest h,
        file_part-removed b'a' file (b'\n' ∷ rest),
        copy_between-append file (b'\n' ∷ rest),
      )
      refl

pub parse_added-show :
    (file rest : Bytes) (offset : ℕ)
    → NoNewline file
    → parse_hunk_a_or_r_file b'b' (at (show_added file rest) offset) ≡ ok (file, at rest offset)
unfolding parse_hunk_a_or_r_file find_newline
parse_added-show file rest offset h =
    rw
      (
        nextline-found b'+' _ (b'\n' ∷ rest) (find_newline-skip file (b'\n' ∷ rest) h),
        file_part-added b'b' file (b'\n' ∷ rest),
        copy_between-append file (b'\n' ∷ rest),
      )
      refl
