-- ===== src/Diff/Patches/PreludeLines.antt =====
-- src/diffutil.c: the lines of preludes.
use ghcli.CString.{starts_with}
use ghcli.Diff.Comments.{drop}
use ghcli.Diff.Comments.Annotated.{NoNewline}
use ghcli.Diff.Headers.Names.{find_newline-skip, nextline-found}
use ghcli.Diff.Headers.RoundTrip.{name-NoNewline, header-nextline}
use ghcli.Diff.Headers.Written.{IsName, show_header, show_new_mode, show_index}
use ghcli.Diff.Lines.{
  Token, find_newline, nextline, is_patch_separator, separator_suffix, is_shorter,
}
use ghcli.Diff.Patches.{ends_prelude}
use ghcli.Diff.Patches.Written.{
  show_files, WrittenDiff, IsWrittenDiff, show_diff, show_separator, IsMessage, IsCover,
}
use ghcli.Diff.Ranges.RoundTrip.{nextline-append}
use ghcli.Diff.Ranges.Fields.{drop-append}
pub use ghcli.Diff.Hunks.Lines.{starts_with-line, and_false}
use ghcli.Diff.Hunks.Lines.{other-not_separator}
use ghcli.Prelude.{
  ◌∙◌, ◌+◌, ◌-◌, ◌≡◌, refl, ap, true, false, [], ◌∷◌, ◌++◌, Bytes, length, length-append, ltb,
  arith, codes, Option, none, some,
}

-- A separator, with its first line.
pub separator-nextline :
    (hash rest : Bytes)
    → IsName hash
    → nextline (show_separator hash rest)
      ≡ some (record { start = show_separator hash rest; end = b'\n' ∷ rest })
unfolding find_newline
separator-nextline hash rest h =
    nextline-found b'F' _ (b'\n' ∷ rest)
      (find_newline-skip hash (separator_suffix ++ rest) (name-NoNewline hash h))

pub separator-IsSeparator :
    (hash rest : Bytes)
    → is_patch_separator (record { start = show_separator hash rest; end = b'\n' ∷ rest }) ≡ true
unfolding is_patch_separator starts_with
separator-IsSeparator hash rest =
    let start = show_separator hash rest in
    let end = b'\n' ∷ rest in
    let front = codes "From " ++ hash in
    let long = length-append hash (separator_suffix ++ rest) in
    let count : length start - length end ≡ length hash + 30 = omega arith in
    let long_enough : ltb (length start - length end) 5 ≡ false = ground arith in
    let longer : ltb (length start - length end) 26 ≡ false = ground arith in
    let place : length start - length end - 25 ≡ length front = omega arith in
    let suffix : drop (length start - length end - 25) start ≡ separator_suffix ++ rest =
      ap (λ n. drop n start) place ∙ drop-append front (separator_suffix ++ rest) in
    rw (long_enough, longer, suffix) refl

-- The header of a diff ends a prelude.
pub diff_line :
    (w : WrittenDiff) (rest : Bytes)
    → IsWrittenDiff w
    → (line : Token) × ((nextline (show_diff w rest) ≡ some line) × (ends_prelude line ≡ true))
unfolding starts_with
diff_line w rest h =
    let tail =
      show_new_mode w.new_mode (show_index w.hash_a w.hash_b w.file_mode (show_files w rest)) in
    let line : Token = record { start = show_header w.file_a w.file_b tail; end = b'\n' ∷ tail } in
    let long = length-append w.file_a (codes " b/" ++ (w.file_b ++ (b'\n' ∷ tail))) in
    let longer = length-append w.file_b (b'\n' ∷ tail) in
    let enough : is_shorter line 6 ≡ false = ground arith in
    (line, (header-nextline w.file_a w.file_b tail h.a h.b, rw enough refl))

pub nextline-line :
    (line rest : Bytes)
    → NoNewline line
    → nextline (line ++ (b'\n' ∷ rest))
      ≡ some (record { start = line ++ (b'\n' ∷ rest); end = b'\n' ∷ rest })
unfolding nextline find_newline
nextline-line [] rest h = refl
nextline-line (c ∷ line) rest h = nextline-append c line rest h

pub message-goes :
    (line rest : Bytes)
    → IsMessage line
    → ends_prelude (record { start = line ++ (b'\n' ∷ rest); end = b'\n' ∷ rest }) ≡ false
message-goes line rest (h, newline) =
    let no' =
      starts_with-line line rest (codes "diff ")
        (omega arith, (omega arith, (omega arith, (omega arith, (omega arith, tt)))))
      ∙ h in
    rw no' (and_false _)

pub cover-goes :
    (line rest : Bytes)
    → IsCover line
    → is_patch_separator (record { start = line ++ (b'\n' ∷ rest); end = b'\n' ∷ rest }) ≡ false
cover-goes line rest (h, newline) = other-not_separator line rest h

-- A line of a prelude that leaves the commit hash as it is.
abbrev pub IsPreludeLine : Option Bytes → Bytes → Type 0
IsPreludeLine none line = IsMessage line × (starts_with line (codes "From ") ≡ false)
IsPreludeLine (some hash) line = IsMessage line

pub IsPreludeLine-IsMessage :
    (hash : Option Bytes) (line : Bytes) → IsPreludeLine hash line → IsMessage line
IsPreludeLine-IsMessage none line h = h.0
IsPreludeLine-IsMessage (some hash) line h = h
