-- ===== src/Diff/Headers/Progress.antt =====
-- src/diffutil.c: the readers of the lines in front of hunks come to a result, and move forward.
use ghcli.Diff.Comments.{drop}
use ghcli.Diff.Lines.{Parser, Token, nextline, expect_prefix, is_shorter}
use ghcli.CString.{starts_with}
use ghcli.Strtol.{strtol}
use ghcli.Diff.Headers.Rules.{
  Ends-or_failed, Ends-guard, Ends-copy, Ends-newline, Ends-if, strchr-le, nextline-lt, clamped-le,
  drop-le, expect_prefix-le, nextline-start_le,
}
use ghcli.Diff.Headers.{
  is_behind, strchr, name_end, copy_chunks, readfilename, read_side, hunk_marker, parse_diff_header,
  read_new_file_mode, try_parse_new_file_mode, clamp, read_second_hash, file_part, read_file_mode,
  parse_diff_index_line, skip_removed, skip_added, parse_hunk_a_or_r_file,
}
use ghcli.Prelude.{
  ◌&&◌, not, ok, failed, ℕ, zero, suc, Bool-cases, Option-cases, ◌+◌, ◌-◌, ◌≤◌, ◌<◌, ◌≡◌, inl, inr,
  true, not, [], ◌∷◌, Bytes, length, ltb, ◌==◌, if◌then◌else◌, arith, codes, Option, ℤ, Ends,
  Ends-bind,
}

next_chunk-lt :
    (space end : Bytes) (n : ℕ)
    → length space ≤ n
    → 0 < length space
    → is_behind end (drop 1 (if is_behind space end then end else space)) ≡ true
    → length (drop 1 (if is_behind space end then end else space)) < n
next_chunk-lt [] end n le nonempty goes = absurd (omega arith)
next_chunk-lt (c ∷ space) [] n le nonempty goes = ground arith
next_chunk-lt (c ∷ space) (d ∷ end) n le nonempty goes =
    elim (Bool-cases (is_behind (c ∷ space) (d ∷ end))) [
      | inl clamped ↦
          let back : ltb (suc (length end)) (length end) ≡ true = rw clamped at goes in ground arith
      | inr first ↦ rw first (omega arith)
    ]

-- Each round of the copy takes a space away.
copy_chunks-Ends :
    (fuel : ℕ) (end start outbuf : Bytes)
    → length start < fuel
    → Ends (λ _. Unit) (copy_chunks fuel end start outbuf)
unfolding copy_chunks
copy_chunks-Ends zero end start outbuf lt = absurd (omega arith)
copy_chunks-Ends (suc fuel) end start outbuf lt = elim (Option-cases (strchr start b' ')) [
  | inl null ↦ rw (null, copy_chunks) tt
  | inr (space, found) ↦
      let (le, nonempty) = strchr-le start b' ' space found in
      let chunk_end = if is_behind space end then end else space in
      let next = drop 1 chunk_end in
      elim (Bool-cases (is_behind end next)) [
        | inr done ↦ rw (found, copy_chunks, done) tt
        | inl goes ↦
            rw (found, copy_chunks, goes)
              (copy_chunks-Ends fuel end next _
                (omega (arith, next_chunk-lt space end (length start) le nonempty goes)))
      ]
]

readfilename-Ends : (line : Token) → Ends (λ _. Unit) (readfilename line)
unfolding readfilename
readfilename-Ends line =
    let (escapes, end) = name_end line.end b'/' line.start in
    elim (Bool-cases (is_behind line.start end)) [
      | inl behind ↦ rw behind tt
      | inr fine ↦ rw fine (
          Ends-bind (λ _. Unit) (λ _. Unit)
            (copy_chunks (suc (length line.start)) end line.start []) _
            (copy_chunks-Ends (suc (length line.start)) end line.start [] (omega arith))
            (λ (name, start) _.
              elim (Bool-cases (ltb (length line.start - length end) (length name + escapes))) [
                | inl wide ↦ rw wide tt
                | inr fits ↦ rw fits tt
              ]))
    ]

read_side-Ends : (line : Token) (prefix : Bytes) → Ends (λ _. Unit) (read_side line prefix)
unfolding read_side
read_side-Ends line prefix = elim (Bool-cases (starts_with line.start prefix)) [
  | inl fits ↦ rw fits (readfilename-Ends (record line { start = drop 2 line.start }))
  | inr other ↦ rw other tt
]

-- The parser has fewer bytes left than `n`, or as many at most.
abbrev pub IsBelow {ℓ} : {A : Type ℓ} → ℕ → A × Parser → Type 0
IsBelow n result = length result.1.hd < n

abbrev pub IsWithin {ℓ} : {A : Type ℓ} → ℕ → A × Parser → Type 0
IsWithin n result = length result.1.hd ≤ n

pub parse_diff_header-Ends :
    (parser : Parser) → Ends (IsBelow (length parser.hd)) (parse_diff_header parser)
unfolding parse_diff_header
parse_diff_header-Ends parser =
    let Q : (Bytes × Bytes) × Parser → Type 0 = IsBelow (length parser.hd) in
    Ends-or_failed Q (nextline parser.hd) _ λ line read.
      let (lt, le) = nextline-lt parser.hd line read in
      Ends-guard Q (not (is_shorter line 5)) _ (
        Ends-guard Q (starts_with line.start hunk_marker) _ (
          Ends-bind (λ _. Unit) Q (read_side _ (codes "a/")) _ (read_side-Ends _ _)
            λ (file_a, line') _.
              Ends-bind (λ _. Unit) Q (read_side line' (codes "b/")) _ (read_side-Ends _ _)
                λ (file_b, line'') _.
                  Ends-guard Q (not (is_behind line.end line''.start)) _
                    (Ends-newline Q parser line.end _ (λ text less. omega arith))))

pub try_parse_new_file_mode-Ends :
    (parser : Parser) → Ends (IsWithin (length parser.hd)) (try_parse_new_file_mode parser)
unfolding try_parse_new_file_mode read_new_file_mode
try_parse_new_file_mode-Ends parser =
    let Q : ℤ × Parser → Type 0 = IsWithin (length parser.hd) in
    Ends-or_failed Q (nextline parser.hd) _ λ line read.
      elim (Option-cases (expect_prefix line (codes "new file mode "))) [
        | inl other ↦ rw (other, read_new_file_mode) (omega arith)
        | inr (line', fits) ↦
            rw (fits, read_new_file_mode)
              (let (n, endptr) = strtol 8 line'.start in
                Ends-guard Q (not (length endptr == length line'.start)) _ (
                  Ends-guard Q (length endptr == length line.end) _
                    (let (lt, le) = nextline-lt parser.hd line read in omega arith)))
      ]

read_file_mode-Ends :
    (parser : Parser) (line : Token) (n : ℕ)
    → length line.end ≤ n
    → length line.start ≤ n
    → Ends (IsWithin n) (read_file_mode parser line)
unfolding read_file_mode
read_file_mode-Ends parser line n le le' = elim (Bool-cases (starts_with line.start (codes " "))) [
  | inl with ↦ rw with (
      Ends-copy (IsWithin n) (drop 1 line.start) line.end _
        λ mode. Ends-newline (IsWithin n) parser line.end _ (λ text less. omega arith))
  | inr without ↦
      rw without (Ends-newline (IsWithin n) parser line.start _ (λ text less. omega arith))
]

read_second_hash-Ends :
    (parser : Parser) (line : Token) (start tl : Bytes) (n : ℕ)
    → length line.end ≤ n
    → length tl ≤ n
    → Ends (IsWithin n) (read_second_hash parser line start tl)
unfolding read_second_hash
read_second_hash-Ends parser line start tl n le le' =
    let Q : (Bytes × Option Bytes) × Parser → Type 0 = IsWithin n in
    Ends-copy Q start tl _ λ hash_b.
      Ends-bind (IsWithin n) Q (read_file_mode parser (record line { start = tl })) _
        (read_file_mode-Ends parser (record line { start = tl }) n le le')
        λ (mode, parser') within. within

pub parse_diff_index_line-Ends :
    (parser : Parser) → Ends (IsWithin (length parser.hd)) (parse_diff_index_line parser)
unfolding parse_diff_index_line
parse_diff_index_line-Ends parser =
    let n = length parser.hd in
    let Q : ((Bytes × Bytes) × Option Bytes) × Parser → Type 0 = IsWithin n in
    Ends-or_failed Q (nextline parser.hd) _ λ line read.
      Ends-or_failed Q (expect_prefix line (codes "index ")) _ λ line' fits.
        Ends-or_failed Q (strchr line'.start b'.') _ λ dot found.
          Ends-guard Q (starts_with dot (codes "..")) _ (
            Ends-or_failed Q (strchr (drop 2 dot) b' ') _ λ space found'.
              let (lt, le) = nextline-lt parser.hd line read in
              let le' = strchr-le line'.start b'.' dot found in
              let le'' = strchr-le (drop 2 dot) b' ' space found' in
              let start = expect_prefix-le line line' (codes "index ") fits in
              let whole = nextline-start_le parser.hd line read in
              let tl = clamp space line.end in
              let tail =
                clamped-le space line.end n (omega (arith, drop-le 2 dot, le'.0, le''.0)) le in
              Ends-bind (IsWithin n) Q (read_second_hash parser line (drop 2 dot) tl) _
                (read_second_hash-Ends parser line (drop 2 dot) tl n le tail)
                λ (hash_mode, parser') within. within)

skip_removed-Ends : (c : ℕ) (line : Token) → Ends (λ _. Unit) (skip_removed c line)
skip_removed-Ends c line =
    Ends-if (λ _. Unit) (not (is_shorter line 2) && starts_with line.start (c ∷ b'/' ∷ []))
      (ok (record line { start = drop 2 line.start }))
      (if starts_with line.start (codes "/") then ok line else failed) tt
      (Ends-if (λ _. Unit) (starts_with line.start (codes "/")) (ok line) failed tt tt)

skip_added-Ends : (c : ℕ) (line : Token) → Ends (λ _. Unit) (skip_added c line)
skip_added-Ends c line =
    Ends-if (λ _. Unit)
      (not (is_shorter line 2)
        && (not (starts_with line.start (c ∷ []))
            && not (starts_with (drop 1 line.start) (codes "/"))))
      failed (ok (record line { start = drop 2 line.start })) tt tt

file_part-Ends : (c : ℕ) (line : Token) → Ends (λ _. Unit) (file_part c line)
unfolding file_part
file_part-Ends c line = elim (Option-cases (expect_prefix line (codes "--- "))) [
  | inr (removed, e) ↦ rw (e, file_part) (skip_removed-Ends c removed)
  | inl none' ↦ elim (Option-cases (expect_prefix line (codes "+++ "))) [
    | inr (added, e) ↦ rw (none', file_part, e) (skip_added-Ends c added)
    | inl neither ↦ rw (none', file_part, neither) tt
  ]
]

pub parse_hunk_a_or_r_file-Ends :
    (c : ℕ) (parser : Parser) → Ends (IsWithin (length parser.hd)) (parse_hunk_a_or_r_file c parser)
unfolding parse_hunk_a_or_r_file
parse_hunk_a_or_r_file-Ends c parser =
    let Q : Bytes × Parser → Type 0 = IsWithin (length parser.hd) in
    Ends-or_failed Q (nextline parser.hd) _ λ line read.
      let (lt, le) = nextline-lt parser.hd line read in
      Ends-bind (λ _. Unit) Q _ _ (file_part-Ends c line)
        λ line' _. Ends-copy Q line'.start line.end _ (λ name. omega arith)
