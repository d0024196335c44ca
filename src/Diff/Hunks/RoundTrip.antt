-- ===== src/Diff/Hunks/RoundTrip.antt =====
-- src/diffutil.c: the hunks of a diff, written and read back.
use ghcli.Diff.Comments.{between}
use ghcli.Diff.Comments.Annotated.{unlines, between-append}
use ghcli.Diff.Comments.Scan.{lines_fit}
use ghcli.Diff.Lines.Body.{IsBoundary}
use ghcli.Diff.Lines.{Parser, read_hunk_body}
use ghcli.Diff.Ranges.{starts_at}
use ghcli.Diff.Ranges.Fields.{show_line, or_zero, or_empty, IsInt}
use ghcli.Diff.Ranges.RoundTrip.{IsContext, parse_hunk_range_info-show}
use ghcli.Diff.Hunks.{ParsedHunk, parse_body, parse_hunk, parse_hunks, parse_diff_hunks}
use ghcli.Prelude.{
  append_assoc, false, Result, ok, ◌>>=◌, ◌∙◌, ℕ, zero, suc, ◌+◌, ◌^◌, ◌≤◌, ◌<◌, ◌≡◌, refl, ap,
  List, [], ◌∷◌, ◌++◌, Bytes, length, length-append, All, arith, Option, pos,
}
use ghcli.Diff.Hunks.Lines.{IsBodyLine, count_lines, header-IsBoundary, body_loop-lines}

-- The fields of the header of a hunk, and the lines of its body.
pub record WrittenHunk : Type 0 where
  pub r_start : ℕ
  pub r_length : Option ℕ
  pub a_start : ℕ
  pub a_length : Option ℕ
  pub context : Option Bytes
  pub lines : List Bytes

abbrev pub show_hunks : List WrittenHunk → Bytes
show_hunks [] = []
show_hunks (w ∷ hunks) =
    show_line w.r_start w.r_length w.a_start w.a_length w.context
    ++ (b'\n' ∷ (unlines w.lines ++ show_hunks hunks))

abbrev pub IsWrittenHunk : WrittenHunk → Type 0
IsWrittenHunk w =
    ((w.r_start < 2 ^ 31)
      × (IsInt w.r_length × ((w.a_start < 2 ^ 31) × (IsInt w.a_length × IsContext w.context))))
    × All IsBodyLine w.lines

read_hunk_body-unlines :
    (lines : List Bytes) (rest : Bytes) (offset : ℕ)
    → IsBoundary rest
    → All IsBodyLine lines
    → read_hunk_body (record { hd = unlines lines ++ rest; diff_line_offset = offset })
      ≡ ok (
        (unlines lines, offset),
        record { hd = rest; diff_line_offset = count_lines lines offset },
      )
unfolding read_hunk_body
read_hunk_body-unlines lines rest offset at_end h =
    let text = unlines lines ++ rest in
    let fit = lines_fit lines rest in
    ap (λ (r : Result Parser). r >>= λ p. ok ((between text p.hd, offset), p))
      (body_loop-lines (suc (length text)) lines rest offset (omega arith) at_end h)
    ∙ ap
        (λ body.
          ok ((body, offset), record { hd = rest; diff_line_offset = count_lines lines offset }))
        (between-append (unlines lines) rest)

-- What the parser makes of a hunk whose header stands at a line of the diff.
abbrev pub parsed : WrittenHunk → ℕ → ParsedHunk
parsed w offset = record {
  range = record {
    range_r_start = pos w.r_start;
    range_r_length = or_zero w.r_length;
    range_a_start = pos w.a_start;
    range_a_length = or_zero w.a_length;
    context_info = or_empty w.context;
  };
  body = unlines w.lines;
  diff_line_offset = offset + 1;
}

abbrev pub parsed_all : List WrittenHunk → ℕ → List ParsedHunk
parsed_all [] offset = []
parsed_all (w ∷ hunks) offset =
    parsed w offset ∷ parsed_all hunks (count_lines w.lines (offset + 1))

abbrev pub offset_behind : List WrittenHunk → ℕ → ℕ
offset_behind [] offset = offset
offset_behind (w ∷ hunks) offset = offset_behind hunks (count_lines w.lines (offset + 1))

parse_hunk-show :
    (w : WrittenHunk) (rest : Bytes) (offset : ℕ)
    → IsWrittenHunk w
    → IsBoundary rest
    → parse_hunk (record {
      hd =
          show_line w.r_start w.r_length w.a_start w.a_length w.context
          ++ (b'\n' ∷ (unlines w.lines ++ rest));
      diff_line_offset = offset;
    })
      ≡ ok (
        parsed w offset,
        record { hd = rest; diff_line_offset = count_lines w.lines (offset + 1) },
      )
unfolding parse_hunk
parse_hunk-show w rest offset ((h1, (h2, (h3, (h4, h5)))), h) at_end =
    ap parse_body (
      parse_hunk_range_info-show w.r_start w.r_length w.a_start w.a_length w.context
        (unlines w.lines ++ rest) offset h1 h2 h3 h4 h5)
    ∙ ap
        (λ (r : Result ((Bytes × ℕ) × Parser)). r >>= λ ((body, n), parser).
          ok (record (parsed w offset) { body = body; diff_line_offset = n }, parser))
        (read_hunk_body-unlines w.lines rest (offset + 1) at_end h)

show_hunks-IsBoundary :
    (hunks : List WrittenHunk) (rest : Bytes)
    → IsBoundary rest
    → IsBoundary (show_hunks hunks ++ rest)
show_hunks-IsBoundary [] rest h = h
show_hunks-IsBoundary (w ∷ hunks) rest h = header-IsBoundary _

show_hunks-append :
    (w : WrittenHunk) (hunks : List WrittenHunk) (rest : Bytes)
    → show_hunks (w ∷ hunks) ++ rest
      ≡ show_line w.r_start w.r_length w.a_start w.a_length w.context
        ++ (b'\n' ∷ (unlines w.lines ++ (show_hunks hunks ++ rest)))
show_hunks-append w hunks rest =
    let header = show_line w.r_start w.r_length w.a_start w.a_length w.context in
    append_assoc header (b'\n' ∷ (unlines w.lines ++ show_hunks hunks)) rest
    ∙ ap (λ text. header ++ (b'\n' ∷ text)) (append_assoc (unlines w.lines) (show_hunks hunks) rest)

-- No further hunk.
abbrev pub IsBehindHunks : Bytes → Type 0
IsBehindHunks rest = IsBoundary rest × (starts_at rest ≡ false)

pub parse_hunks-show_hunks :
    (fuel : ℕ) (hunks : List WrittenHunk) (rest : Bytes) (offset : ℕ)
    → length hunks < fuel
    → IsBehindHunks rest
    → All IsWrittenHunk hunks
    → parse_hunks fuel (record { hd = show_hunks hunks ++ rest; diff_line_offset = offset })
      ≡ ok (
        parsed_all hunks offset,
        record { hd = rest; diff_line_offset = offset_behind hunks offset },
      )
unfolding parse_hunks
parse_hunks-show_hunks zero hunks rest offset lt at_end h = absurd (omega arith)
parse_hunks-show_hunks (suc fuel) [] rest offset lt (boundary, last) h = rw last refl
parse_hunks-show_hunks (suc fuel) (w ∷ hunks) rest offset lt (boundary, last) (h, more) =
    let text = show_hunks hunks ++ rest in
    rw
      (
        show_hunks-append w hunks rest,
        parse_hunk-show w text offset h (show_hunks-IsBoundary hunks rest boundary),
        parse_hunks-show_hunks fuel hunks rest (count_lines w.lines (offset + 1)) (omega arith)
            (boundary, last) more,
      )
      refl

hunks_fit : (hunks : List WrittenHunk) → length hunks ≤ length (show_hunks hunks)
hunks_fit [] = omega arith
hunks_fit (w ∷ hunks) =
    let rest = b'\n' ∷ (unlines w.lines ++ show_hunks hunks) in
    let header =
      length-append (show_line w.r_start w.r_length w.a_start w.a_length w.context) rest in
    let body = length-append (unlines w.lines) (show_hunks hunks) in omega (arith, hunks_fit hunks)

-- The loop of gcli_parse_diff reads back the hunks in front of a text without one.
pub parse_diff_hunks-append :
    (hunks : List WrittenHunk) (rest : Bytes) (offset : ℕ)
    → IsBehindHunks rest
    → All IsWrittenHunk hunks
    → parse_diff_hunks (record { hd = show_hunks hunks ++ rest; diff_line_offset = offset })
      ≡ ok (parsed_all hunks 0, record { hd = rest; diff_line_offset = offset_behind hunks 0 })
unfolding parse_diff_hunks
parse_diff_hunks-append hunks rest offset at_end h =
    let fit = hunks_fit hunks in
    let long = length-append (show_hunks hunks) rest in
    parse_hunks-show_hunks (suc (length (show_hunks hunks ++ rest))) hunks rest 0 (omega arith)
      at_end h
