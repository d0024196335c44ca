-- ===== src/Diff/Review/Meta.antt =====
-- src/cmd/pull_reviews.c: the lines in front of the first diff, split in two.
use ghcli.CString.{starts_with}
use ghcli.Diff.Comments.{between, drop}
use ghcli.Diff.Comments.Annotated.{NoNewline, unlines, between-append}
use ghcli.Diff.Comments.Scan.{lines_fit}
use ghcli.Diff.Lines.{find_newline}
use ghcli.Diff.Patches.PreludeLines.{starts_with-line}
use ghcli.Diff.Ranges.RoundTrip.{find_newline-append}
use ghcli.Diff.Review.{take_line, gcli_pref, unless_end, process_loop, process_series_prelude}
use ghcli.Prelude.{
  Result, ok, fault, ◌∙◌, ℕ, zero, suc, Bool-cases, ◌-◌, ◌≤◌, ◌<◌, ◌≡◌, inl, inr, refl, sym, ap,
  true, false, Bool, not, List, [], ◌∷◌, ◌++◌, Bytes, length, length-append, All, ltb,
  if◌then◌else◌, arith, append-nil, append_assoc, ◌&&◌,
}

abbrev pub is_meta : Bytes → Bool
is_meta line = starts_with line gcli_pref

-- The lines without the prefix, and what stands behind it on the others.
abbrev pub body_lines : List Bytes → List Bytes
body_lines [] = []
body_lines (line ∷ lines) =
    let rest = body_lines lines in if is_meta line then rest else line ∷ rest

abbrev pub meta_lines : List Bytes → List Bytes
meta_lines [] = []
meta_lines (line ∷ lines) =
    let rest = meta_lines lines in if is_meta line then drop 6 line ∷ rest else rest

starts_with-le :
    (line prefix : Bytes) → starts_with line prefix ≡ true → length prefix ≤ length line
unfolding starts_with
starts_with-le line [] h = omega arith
starts_with-le [] (p ∷ prefix) h = cc
starts_with-le (c ∷ line) (p ∷ prefix) h = ground (arith, starts_with-le line prefix)

-- A line of six bytes at least that starts with the prefix is one that does.
long_meta :
    (line : Bytes) → (not (ltb (length line) 6) && starts_with line gcli_pref) ≡ is_meta line
long_meta line = elim (Bool-cases (starts_with line gcli_pref)) [
  | inr other ↦ rw other (ground arith)
  | inl fits ↦
      let le = starts_with-le line gcli_pref fits in
      let long : ltb (length line) 6 ≡ false = ground arith in rw (fits, long) refl
]

unless_end-line :
    (loop : Bytes → Result (Bytes × List Bytes)) (parts : Bytes × List Bytes) (line rest : Bytes)
    → unless_end loop parts (line ++ (b'\n' ∷ rest)) ≡ loop (line ++ (b'\n' ∷ rest))
unless_end-line loop parts [] rest = refl
unless_end-line loop parts (c ∷ line) rest = refl

abbrev add_line : Bytes × List Bytes → Bytes → Bytes × List Bytes
add_line (comment, meta) line =
    if is_meta line
    then (comment, meta ++ (drop 6 line ∷ []))
    else (comment ++ (line ++ (b'\n' ∷ [])), meta)

take_line-add_line :
    (comment : Bytes) (meta : List Bytes) (line rest : Bytes)
    → take_line (comment, meta) (line ++ (b'\n' ∷ rest)) (b'\n' ∷ rest)
      ≡ add_line (comment, meta) line
unfolding take_line
take_line-add_line comment meta line rest =
    let bol = line ++ (b'\n' ∷ rest) in
    let long = length-append line (b'\n' ∷ rest) in
    let count : length bol - length (b'\n' ∷ rest) ≡ length line = omega arith in
    let whole : between bol rest ≡ line ++ (b'\n' ∷ []) =
      ap (λ t. between t rest) (sym (append_assoc line (b'\n' ∷ []) rest))
      ∙ between-append (line ++ (b'\n' ∷ [])) rest in
    rw
      (
        count,
        starts_with-line line rest gcli_pref (
          omega arith,
          (omega arith, (omega arith, (omega arith, (omega arith, (omega arith, tt))))),
        ),
        long_meta line,
        between-append line (b'\n' ∷ rest),
        whole,
      )
      refl

process_line :
    (fuel : ℕ) (parts : Bytes × List Bytes) (line rest : Bytes)
    → NoNewline line
    → process_loop (suc fuel) parts (line ++ (b'\n' ∷ rest))
      ≡ unless_end (process_loop fuel (add_line parts line)) (add_line parts line) rest
unfolding process_loop
process_line fuel (comment, meta) line rest h =
    rw (find_newline-append line rest h, process_loop, take_line-add_line comment meta line rest)
      refl

-- The lines, one after the other.
abbrev add_lines : Bytes × List Bytes → List Bytes → Bytes × List Bytes
add_lines parts [] = parts
add_lines parts (line ∷ lines) = add_lines (add_line parts line) lines

process_loop-lines :
    (fuel : ℕ) (parts : Bytes × List Bytes) (line : Bytes) (lines : List Bytes)
    → length lines < fuel
    → All NoNewline (line ∷ lines)
    → process_loop fuel parts (unlines (line ∷ lines)) ≡ ok (add_lines parts (line ∷ lines))
process_loop-lines zero parts line lines lt h = absurd (omega arith)
process_loop-lines (suc fuel) parts line [] lt (h, more) = process_line fuel parts line [] h
process_loop-lines (suc fuel) parts line (next ∷ lines) lt (h, more) =
    let parts' = add_line parts line in
    process_line fuel parts line (unlines (next ∷ lines)) h
    ∙ unless_end-line (process_loop fuel parts') parts' next (unlines lines)
    ∙ process_loop-lines fuel parts' next lines (omega arith) more

add_lines-split :
    (comment : Bytes) (meta : List Bytes) (lines : List Bytes)
    → add_lines (comment, meta) lines
      ≡ (comment ++ unlines (body_lines lines), meta ++ meta_lines lines)
add_lines-split comment meta [] = rw (append-nil comment, append-nil meta) refl
add_lines-split comment meta (line ∷ lines) = elim (Bool-cases (is_meta line)) [
  | inl yes' ↦ rw yes' (
      add_lines-split comment (meta ++ (drop 6 line ∷ [])) lines
      ∙ ap (λ ms. (comment ++ unlines (body_lines lines), ms))
          (append_assoc meta (drop 6 line ∷ []) (meta_lines lines)))
  | inr no' ↦ rw no' (
      add_lines-split (comment ++ (line ++ (b'\n' ∷ []))) meta lines
      ∙ ap (λ text. (text, meta ++ meta_lines lines))
          (append_assoc comment (line ++ (b'\n' ∷ [])) (unlines (body_lines lines))
            ∙ ap (λ text. comment ++ text)
                (append_assoc line (b'\n' ∷ []) (unlines (body_lines lines)))))
]

pub process_series_prelude-lines :
    (line : Bytes) (lines : List Bytes)
    → All NoNewline (line ∷ lines)
    → process_series_prelude (unlines (line ∷ lines))
      ≡ ok (unlines (body_lines (line ∷ lines)), meta_lines (line ∷ lines))
unfolding process_series_prelude
process_series_prelude-lines line lines h =
    let text = unlines (line ∷ lines) in
    let fit = lines_fit (line ∷ lines) [] in
    let same = ap length (append-nil text) in
    process_loop-lines (suc (length text)) ([], []) line lines (omega arith) h
    ∙ ap ok (add_lines-split [] [] (line ∷ lines))

-- Without a line the loop leaves the text.
pub process_series_prelude-nil : process_series_prelude [] ≡ fault
unfolding process_series_prelude process_loop find_newline
process_series_prelude-nil = refl
