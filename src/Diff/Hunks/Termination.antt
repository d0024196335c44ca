-- ===== src/Diff/Hunks/Termination.antt =====
-- src/diffutil.c: the loop of `gcli_parse_diff` over hunks returns, whatever the text is.
use ghcli.Diff.Comments.{drop}
use ghcli.Diff.Lines.{Parser}
use ghcli.Diff.Lines.Body.{nextline-Splits, read_hunk_body-split}
use ghcli.Diff.Ranges.{Range, parse_line, parse_hunk_range_info}
use ghcli.Diff.Hunks.{ParsedHunk, parse_body, parse_hunk, parse_hunks, parse_diff_hunks}
use ghcli.Prelude.{
  List, Ends, Ends-bind, ◌∙◌, ℕ, zero, suc, Bool-cases, Option-cases, ◌+◌, ◌≤◌, ◌<◌, ◌≡◌, inl, inr,
  ap, [], ◌∷◌, Bytes, length, length-append, ◌==◌, arith, some,
}

-- The parser behind a hunk has at most `n` bytes left.
abbrev IsBehind : ℕ → ParsedHunk × Parser → Type 0
IsBehind n behind = length behind.1.hd ≤ n

parse_body-Ends :
    (range : Range) (parser : Parser) (n : ℕ)
    → length parser.hd ≤ n
    → Ends (IsBehind n) (parse_body (some (range, parser)))
parse_body-Ends range parser n le =
    let (body, parser', (ran, (split, (bound, passed)))) = read_hunk_body-split parser in
    let long : length parser.hd ≡ length body + length parser'.hd =
      ap length split ∙ length-append body parser'.hd in
    rw (ran, parse_body) (omega arith)

parse_hunk-Ends :
    (c : ℕ) (text : Bytes) (offset : ℕ)
    → Ends
        (IsBehind (length text))
        (parse_hunk (record { hd = c ∷ text; diff_line_offset = offset }))
unfolding parse_hunk parse_hunk_range_info
parse_hunk-Ends c text offset =
    let (line, (read, (start, (split, shorter)))) = nextline-Splits c text in
    elim (Bool-cases (c == b'@')) [
      | inr other ↦ rw other tt
      | inl at ↦
          rw (at, read)
            (elim (Option-cases (parse_line line)) [
              | inl wrong ↦ rw wrong tt
              | inr (range, e) ↦ rw e (
                  parse_body-Ends range
                    (record { hd = drop 1 line.end; diff_line_offset = offset + 1 }) (length text)
                    (omega arith))
            ])
    ]

abbrev pub IsWithin : ℕ → List ParsedHunk × Parser → Type 0
IsWithin n result = length result.1.hd ≤ n

parse_hunks-Ends :
    (fuel : ℕ) (text : Bytes) (offset : ℕ)
    → length text < fuel
    → Ends
        (IsWithin (length text))
        (parse_hunks fuel (record { hd = text; diff_line_offset = offset }))
unfolding parse_hunks
parse_hunks-Ends zero text offset lt = absurd (omega arith)
parse_hunks-Ends (suc fuel) [] offset lt = omega arith
parse_hunks-Ends (suc fuel) (c ∷ text) offset lt = elim (Bool-cases (c == b'@')) [
  | inr other ↦ rw other (omega arith)
  | inl at ↦ rw at (
      Ends-bind (IsBehind (length text)) (IsWithin (length (c ∷ text)))
        (parse_hunk (record { hd = c ∷ text; diff_line_offset = offset })) _
        (parse_hunk-Ends c text offset)
        (λ (hunk, parser) behind.
          Ends-bind (IsWithin (length parser.hd)) (IsWithin (length (c ∷ text)))
            (parse_hunks fuel parser) _
            (parse_hunks-Ends fuel parser.hd parser.diff_line_offset (omega (arith, behind)))
            (λ _ within. omega (arith, within, behind))))
]

pub parse_diff_hunks-Ends :
    (parser : Parser) → Ends (IsWithin (length parser.hd)) (parse_diff_hunks parser)
unfolding parse_diff_hunks
parse_diff_hunks-Ends parser = parse_hunks-Ends (suc (length parser.hd)) parser.hd 0 (omega arith)
