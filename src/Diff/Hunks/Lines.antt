-- ===== src/Diff/Hunks/Lines.antt =====
-- src/diffutil.c: the lines of the body of a hunk.
use ghcli.CString.{starts_with}
use ghcli.Diff.Comments.Annotated.{NoNewline, unlines}
use ghcli.Diff.Lines.Body.{IsBoundary}
use ghcli.Diff.Lines.{
  find_newline, last_byte, nextline, is_patch_separator, ends_body, counts, body_loop,
}
use ghcli.Diff.Ranges.RoundTrip.{nextline-append}
use ghcli.Prelude.{
  true, ◌&&◌, codes, ok, ◌∙◌, ℕ, zero, suc, Option-cases, ◌+◌, ◌<◌, ◌≡◌, inl, inr, refl, ap, false,
  Bool, List, [], ◌∷◌, ◌++◌, Bytes, length, All, ◌==◌, if◌then◌else◌, arith, append_assoc, ◌||◌,
  some,
}

-- A line that does not start like one that ends the body.
abbrev pub IsBodyLine : Bytes → Type 0
IsBodyLine line =
    ((starts_with line (codes "diff") ≡ false)
      × ((starts_with line (codes "@@") ≡ false) × (starts_with line (codes "From ") ≡ false)))
    × NoNewline line

-- A line is told by its own bytes.
pub starts_with-line :
    (line rest prefix : Bytes)
    → NoNewline prefix
    → starts_with (line ++ (b'\n' ∷ rest)) prefix ≡ starts_with line prefix
unfolding starts_with
starts_with-line line rest [] h = refl
starts_with-line [] rest (p ∷ prefix) (h, more) = ground arith
starts_with-line (c ∷ line) rest (p ∷ prefix) (h, more) =
    rw (starts_with-line line rest prefix more) refl

pub and_false : (b : Bool) → (b && false) ≡ false
and_false true = refl
and_false false = refl

-- A line without "From " in front is no separator.
pub other-not_separator :
    (line rest : Bytes)
    → starts_with line (codes "From ") ≡ false
    → is_patch_separator (record { start = line ++ (b'\n' ∷ rest); end = b'\n' ∷ rest }) ≡ false
unfolding is_patch_separator
other-not_separator line rest h =
    let no' : starts_with (line ++ (b'\n' ∷ rest)) (codes "From ") ≡ false =
      starts_with-line line rest (codes "From ")
        (omega arith, (omega arith, (omega arith, (omega arith, (omega arith, tt)))))
      ∙ h in
    rw (no', and_false _, and_false _) refl

-- The lines that count: those that start with ' ', '+', '-' or '\'.
abbrev pub is_counted : Bytes → Bool
is_counted [] = false
is_counted (c ∷ line) = c == b' ' || (c == b'+' || (c == b'-' || c == b'\\'))

abbrev pub count_lines : List Bytes → ℕ → ℕ
count_lines [] offset = offset
count_lines (line ∷ lines) offset =
    count_lines lines (if is_counted line then offset + 1 else offset)

body_line :
    (line rest : Bytes)
    → IsBodyLine line
    → ends_body (record { start = line ++ (b'\n' ∷ rest); end = b'\n' ∷ rest }) ≡ false
body_line line rest ((h1, (h2, h3)), newline) =
    let diff =
      starts_with-line line rest (codes "diff")
        (omega arith, (omega arith, (omega arith, (omega arith, tt))))
      ∙ h1 in
    let header = starts_with-line line rest (codes "@@") (omega arith, (omega arith, tt)) ∙ h2 in
    rw (diff, header, other-not_separator line rest h3, and_false _) refl

counts_line :
    (c : ℕ) (text line end : Bytes)
    → counts (record { start = c ∷ text; end = end }) ≡ is_counted (c ∷ line)
unfolding starts_with
counts_line c text line end = ground arith

line_step :
    (fuel : ℕ) (line rest : Bytes) (offset : ℕ)
    → IsBodyLine line
    → body_loop (suc fuel) (record { hd = line ++ (b'\n' ∷ rest); diff_line_offset = offset })
      ≡ body_loop fuel
          (record { hd = rest; diff_line_offset = if is_counted line then offset + 1 else offset })
unfolding body_loop nextline find_newline starts_with
line_step fuel [] rest offset h = refl
line_step fuel (c ∷ line) rest offset (h, newline) =
    rw
      (
        nextline-append c line rest newline,
        body_line (c ∷ line) rest (h, newline),
        counts_line c (line ++ (b'\n' ∷ rest)) line (b'\n' ∷ rest),
        body_loop,
      )
      refl

pub nextline-start :
    (c : ℕ) (text : Bytes)
    → (end : Bytes) × (nextline (c ∷ text) ≡ some (record { start = c ∷ text; end = end }))
unfolding nextline
nextline-start c text = elim (Option-cases (find_newline (c ∷ text))) [
  | inl last ↦ (last_byte (c ∷ text), rw (last, nextline) refl)
  | inr (end, e) ↦ (end, rw (e, nextline) refl)
]

pub header-IsBoundary : (tail : Bytes) → IsBoundary (b'@' ∷ b'@' ∷ tail)
unfolding starts_with
header-IsBoundary tail =
    let (end, e) = nextline-start b'@' (b'@' ∷ tail) in
    inr (record { start = b'@' ∷ b'@' ∷ tail; end = end }, (e, refl))

boundary_step :
    (fuel : ℕ) (rest : Bytes) (offset : ℕ)
    → IsBoundary rest
    → body_loop (suc fuel) (record { hd = rest; diff_line_offset = offset })
      ≡ ok (record { hd = rest; diff_line_offset = offset })
unfolding body_loop
boundary_step fuel [] offset h = refl
boundary_step fuel (c ∷ rest) offset (inl e) = cc
boundary_step fuel (c ∷ rest) offset (inr (line, (read, ends))) = rw (read, body_loop, ends) refl

pub body_loop-lines :
    (fuel : ℕ) (lines : List Bytes) (rest : Bytes) (offset : ℕ)
    → length lines < fuel
    → IsBoundary rest
    → All IsBodyLine lines
    → body_loop fuel (record { hd = unlines lines ++ rest; diff_line_offset = offset })
      ≡ ok (record { hd = rest; diff_line_offset = count_lines lines offset })
unfolding body_loop
body_loop-lines zero lines rest offset lt at_end h = absurd (omega arith)
body_loop-lines (suc fuel) [] rest offset lt at_end h = boundary_step fuel rest offset at_end
body_loop-lines (suc fuel) (line ∷ lines) rest offset lt at_end (h, more) =
    let next = if is_counted line then offset + 1 else offset in
    ap (λ text. body_loop (suc fuel) (record { hd = text; diff_line_offset = offset }))
      (append_assoc line (b'\n' ∷ unlines lines) rest)
    ∙ line_step fuel line (unlines lines ++ rest) offset h
    ∙ body_loop-lines fuel lines rest next (omega arith) at_end more
