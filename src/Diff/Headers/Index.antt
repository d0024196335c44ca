-- ===== src/Diff/Headers/Index.antt =====
-- src/diffutil.c: the index line of a diff, and the lines with the names of its files, are read back.
use ghcli.CString.{starts_with}
use ghcli.Diff.Comments.Annotated.{NoNewline, between-append}
use ghcli.Diff.Lines.{Parser, Token, find_newline, nextline}
use ghcli.Diff.Headers.{
  clamp, read_second_hash, read_file_mode, parse_diff_index_line, is_behind, strchr, copy_between,
}
use ghcli.Diff.Headers.Rules.{strchr-le}
use ghcli.Diff.Headers.Names.{
  at, strchr-skip, find_newline-skip, nextline-found, expect_prefix-skip, All-map,
}
use ghcli.Diff.Headers.Written.{IsHash, IsLine, show_file_mode, show_index}
use ghcli.Prelude.{
  ok, ◌∙◌, ℕ, ◌≤◌, ◌≡◌, ◌≢◌, refl, true, false, ◌∷◌, ◌++◌, Bytes, length, length-append, arith,
  codes, Option, none, some,
}

hash-NoNewline : (hash : Bytes) → IsHash hash → NoNewline hash
hash-NoNewline hash h = All-map _ (λ c. c ≢ b'\n') hash (λ c k. k.1.0) h

-- A space behind the second hash: that of the mode, or one on a later line.
abbrev pub HasSpace : Bytes → Type 0
HasSpace rest = (space : Bytes) × (strchr rest b' ' ≡ some space)

pub index-nextline :
    (hash_a hash_b : Bytes) (mode : Option Bytes) (rest : Bytes)
    → IsHash hash_a
    → IsHash hash_b
    → IsLine mode
    → nextline (show_index hash_a hash_b mode rest)
      ≡ some (record { start = show_index hash_a hash_b mode rest; end = b'\n' ∷ rest })
unfolding find_newline
index-nextline hash_a hash_b none rest h k line = nextline-found b'i' _ (b'\n' ∷ rest) (
    find_newline-skip hash_a (codes ".." ++ (hash_b ++ (b'\n' ∷ rest))) (hash-NoNewline hash_a h)
    ∙ find_newline-skip hash_b (b'\n' ∷ rest) (hash-NoNewline hash_b k))
index-nextline hash_a hash_b (some mode) rest h k line = nextline-found b'i' _ (b'\n' ∷ rest) (
    find_newline-skip hash_a (codes ".." ++ (hash_b ++ show_file_mode (some mode) rest))
      (hash-NoNewline hash_a h)
    ∙ find_newline-skip hash_b (show_file_mode (some mode) rest) (hash-NoNewline hash_b k)
    ∙ find_newline-skip mode (b'\n' ∷ rest) line)

-- Where the second hash ends.
clamped-file_mode :
    (mode : Option Bytes) (rest : Bytes)
    → HasSpace rest
    → (space : Bytes) × ((strchr (show_file_mode mode rest) b' ' ≡ some space)
        × (clamp space (b'\n' ∷ rest) ≡ show_file_mode mode rest))
unfolding strchr
clamped-file_mode none rest (space, found) =
    let (le, nonempty) = strchr-le rest b' ' space found in
    let behind : is_behind space (b'\n' ∷ rest) ≡ true = ground arith in
    (space, (found, rw behind refl))
clamped-file_mode (some mode) rest found =
    let long = length-append mode (b'\n' ∷ rest) in
    let within : is_behind (show_file_mode (some mode) rest) (b'\n' ∷ rest) ≡ false =
      ground arith in
    (show_file_mode (some mode) rest, (refl, rw within refl))

read_file_mode-show :
    (mode : Option Bytes) (rest : Bytes) (parser : Parser)
    → read_file_mode parser (record { start = show_file_mode mode rest; end = b'\n' ∷ rest })
      ≡ ok (mode, record parser { hd = rest })
unfolding read_file_mode starts_with
read_file_mode-show none rest parser = refl
read_file_mode-show (some mode) rest parser =
    let long = length-append mode (b'\n' ∷ rest) in
    let fine : is_behind (mode ++ (b'\n' ∷ rest)) (b'\n' ∷ rest) ≡ false = ground arith in
    rw (fine, between-append mode (b'\n' ∷ rest)) refl

copy_between-append : (front rest : Bytes) → copy_between (front ++ rest) rest ≡ ok front
copy_between-append front rest =
    let long = length-append front rest in
    let fine : is_behind (front ++ rest) rest ≡ false = ground arith in
    rw (fine, between-append front rest) refl

read_second_hash-show :
    (hash_b : Bytes) (mode : Option Bytes) (rest : Bytes) (parser : Parser) (line : Token)
    → line.end ≡ b'\n' ∷ rest
    → read_second_hash parser line (hash_b ++ show_file_mode mode rest) (show_file_mode mode rest)
      ≡ ok ((hash_b, mode), record parser { hd = rest })
unfolding read_second_hash
read_second_hash-show hash_b mode rest parser line e =
    rw
      (
        copy_between-append hash_b (show_file_mode mode rest),
        e,
        read_file_mode-show mode rest parser,
      )
      refl

pub show_file_mode-le :
    (mode : Option Bytes) (rest : Bytes) → length (b'\n' ∷ rest) ≤ length (show_file_mode mode rest)
show_file_mode-le none rest = omega arith
show_file_mode-le (some mode) rest = let long = length-append mode (b'\n' ∷ rest) in omega arith

pub parse_diff_index_line-show :
    (hash_a hash_b : Bytes) (mode : Option Bytes) (rest : Bytes) (offset : ℕ)
    → IsHash hash_a
    → IsHash hash_b
    → IsLine mode
    → HasSpace rest
    → parse_diff_index_line (at (show_index hash_a hash_b mode rest) offset)
      ≡ ok (((hash_a, hash_b), mode), at rest offset)
unfolding parse_diff_index_line starts_with strchr
parse_diff_index_line-show hash_a hash_b mode rest offset h k line found =
    let tail = show_file_mode mode rest in
    let second = hash_b ++ tail in
    let end = b'\n' ∷ rest in
    let (space, (at_space, clamped)) = clamped-file_mode mode rest found in
    let long = length-append hash_a (codes ".." ++ second) in
    let longer = length-append hash_b tail in
    let behind = show_file_mode-le mode rest in
    let found_dot : strchr (hash_a ++ (codes ".." ++ second)) b'.' ≡ some (codes ".." ++ second) =
      strchr-skip hash_a (codes ".." ++ second) b'.'
        (All-map _ (λ c. c ≢ b'.') hash_a (λ c k. k.1.1) h) in
    let found_space : strchr second b' ' ≡ some space =
      strchr-skip hash_b tail b' ' (All-map _ (λ c. c ≢ b' ') hash_b (λ c k. k.0) k) ∙ at_space in
    rw
      (
        index-nextline hash_a hash_b mode rest h k line,
        expect_prefix-skip (codes "index ") (hash_a ++ (codes ".." ++ second)) end
            (omega (arith, behind)),
        found_dot,
        found_space,
        clamped,
        read_second_hash-show hash_b mode rest (at (show_index hash_a hash_b mode rest) offset)
            (record { start = show_index hash_a hash_b mode rest; end = end }) refl,
        between-append hash_a (codes ".." ++ second),
      )
      refl
