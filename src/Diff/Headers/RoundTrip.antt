-- ===== src/Diff/Headers/RoundTrip.antt =====
-- src/diffutil.c: the lines in front of the hunks of a diff are read back.
use ghcli.CString.{starts_with}
use ghcli.Diff.Comments.Annotated.{NoNewline}
use ghcli.Diff.Lines.{Parser, Token, find_newline, nextline, expect_prefix, is_shorter}
use ghcli.Strtol.Octal.{IsOctal, octal_value, strtol-octal}
use ghcli.Diff.Ranges.Fields.{to_int-pos}
use ghcli.Diff.Headers.{
  read_new_file_mode, try_parse_new_file_mode, is_behind, strchr, read_side, parse_diff_header,
}
use ghcli.Diff.Headers.Names.{
  at, find_newline-skip, nextline-found, expect_prefix-skip, readfilename-space, readfilename-line,
  readfilename_no_space, All-map,
}
use ghcli.Diff.Headers.Written.{IsName, IsMode, mode_value, show_header, show_new_mode}
use ghcli.Prelude.{
  All, fault, ok, ◌∙◌, ℕ, Bool-cases, ◌≡◌, ◌≢◌, inl, inr, refl, true, false, [], ◌∷◌, ◌++◌, Bytes,
  length, length-append, ◌==◌, arith, codes, Option, none, some, pos,
}

pub name-NoNewline : (name : Bytes) → IsName name → NoNewline name
name-NoNewline name h = All-map _ (λ c. c ≢ b'\n') name (λ c k. k.1.0) h

pub header-nextline :
    (file_a file_b rest : Bytes)
    → IsName file_a
    → IsName file_b
    → nextline (show_header file_a file_b rest)
      ≡ some (record { start = show_header file_a file_b rest; end = b'\n' ∷ rest })
unfolding find_newline
header-nextline file_a file_b rest h k = nextline-found b'd' _ (b'\n' ∷ rest) (
    find_newline-skip file_a (codes " b/" ++ (file_b ++ (b'\n' ∷ rest))) (name-NoNewline file_a h)
    ∙ find_newline-skip file_b (b'\n' ∷ rest) (name-NoNewline file_b k))

pub parse_diff_header-show :
    (file_a file_b rest space : Bytes) (offset : ℕ)
    → IsName file_a
    → IsName file_b
    → strchr rest b' ' ≡ some space
    → parse_diff_header (at (show_header file_a file_b rest) offset)
      ≡ ok ((file_a, file_b), at rest offset)
unfolding parse_diff_header read_side starts_with
parse_diff_header-show file_a file_b rest space offset h k found =
    let second = file_b ++ (b'\n' ∷ rest) in
    let long = length-append file_a (codes " b/" ++ second) in
    let longer = length-append file_b (b'\n' ∷ rest) in
    let enough : is_shorter (record { start = show_header file_a file_b rest; end = b'\n' ∷ rest })
          5
        ≡ false =
      ground arith in
    let last : is_behind (b'\n' ∷ rest) rest ≡ false = ground arith in
    rw
      (
        header-nextline file_a file_b rest h k,
        enough,
        readfilename-space file_a (codes "b/" ++ second) (b'\n' ∷ rest) h (omega arith),
        readfilename-line file_b rest space k found,
        last,
      )
      refl

-- For any names without spaces, newlines and backslashes, parse_diff_header runs through a null pointer
-- if the text behind the header has no space.
pub parse_diff_header_no_space :
    (file_a file_b rest : Bytes) (offset : ℕ)
    → IsName file_a
    → IsName file_b
    → All (λ c. c ≢ b' ') rest
    → parse_diff_header (at (show_header file_a file_b rest) offset) ≡ fault
unfolding parse_diff_header read_side starts_with
parse_diff_header_no_space file_a file_b rest offset h k none' =
    let second = file_b ++ (b'\n' ∷ rest) in
    let end = b'\n' ∷ rest in
    let long = length-append file_a (codes " b/" ++ second) in
    let longer = length-append file_b end in
    let enough : is_shorter (record { start = show_header file_a file_b rest; end = end }) 5
        ≡ false =
      ground arith in
    rw
      (
        header-nextline file_a file_b rest h k,
        enough,
        readfilename-space file_a (codes "b/" ++ second) end h (omega arith),
        readfilename_no_space file_b rest k none',
      )
      refl

octal-NoNewline : (mode : Bytes) → IsOctal mode → NoNewline mode
octal-NoNewline mode h = All-map _ (λ c. c ≢ b'\n') mode (λ c k. omega (arith, k.0)) h

pub expect_prefix-none :
    (line : Token) (prefix : Bytes)
    → starts_with line.start prefix ≡ false
    → expect_prefix line prefix ≡ none
unfolding expect_prefix
expect_prefix-none line prefix other = elim (Bool-cases (is_shorter line (length prefix))) [
  | inl short ↦ rw short refl
  | inr long ↦ rw (long, other) refl
]

read_new_file_mode-show :
    (c : ℕ) (text rest : Bytes) (parser : Parser)
    → IsMode (some (c ∷ text))
    → read_new_file_mode parser (record {
      start = codes "new file mode " ++ ((c ∷ text) ++ (b'\n' ∷ rest));
      end = b'\n' ∷ rest;
    })
      ≡ ok (pos (octal_value 0 (c ∷ text)), record parser { hd = rest })
unfolding read_new_file_mode
read_new_file_mode-show c text rest parser (h, fits) =
    let mode = c ∷ text in
    let end = b'\n' ∷ rest in
    let whole = mode ++ end in
    let long = length-append mode end in
    let moved : (length end == length whole) ≡ false = ground arith in
    let all : (length end == length end) ≡ true = ground arith in
    rw
      (
        expect_prefix-skip (codes "new file mode ") whole end (omega arith),
        read_new_file_mode,
        strtol-octal c text rest h (omega arith),
        moved,
        all,
        to_int-pos (octal_value 0 mode) fits,
      )
      refl

-- Without a line for it, the text stands for another line.
pub try_parse_new_file_mode-show :
    (mode : Option Bytes) (rest end : Bytes) (offset : ℕ)
    → IsMode mode
    → nextline rest ≡ some (record { start = rest; end = end })
    → starts_with rest (codes "new file mode ") ≡ false
    → try_parse_new_file_mode (at (show_new_mode mode rest) offset)
      ≡ ok (pos (mode_value mode), at rest offset)
unfolding try_parse_new_file_mode find_newline read_new_file_mode
try_parse_new_file_mode-show none rest end offset h read other = rw read (
    rw
      (
        expect_prefix-none (record { start = rest; end = end }) (codes "new file mode ") other,
        read_new_file_mode,
      )
      refl)
try_parse_new_file_mode-show (some []) rest end offset h read other = absurd h
try_parse_new_file_mode-show (some (c ∷ text)) rest end offset (h, fits) read other =
    let mode = c ∷ text in
    let line_end = b'\n' ∷ rest in
    rw (nextline-found b'n' _ line_end (find_newline-skip mode line_end (octal-NoNewline mode h)))
      (read_new_file_mode-show c text rest (at (show_new_mode (some mode) rest) offset) (h, fits))
