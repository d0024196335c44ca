-- ===== src/Diff/Headers.antt =====
-- src/diffutil.c: the lines in front of the hunks of a diff. A pointer into the buffer is the text from
-- there on, so that the later of two pointers is the shorter text.
pub mod Rules
pub mod Progress
pub mod Written
pub mod Names
pub mod RoundTrip
pub mod Index
pub mod Files
mod Tests
use ghcli.CString.{starts_with}
use ghcli.Diff.Comments.{between, drop}
use ghcli.Diff.Lines.{Parser, Token, is_shorter, nextline, expect_prefix}
use ghcli.Diff.Ranges.{to_int}
use ghcli.Strtol.{strtol}
use ghcli.Prelude.{
  Result, ok, failed, fault, stuck, ◌>>=◌, ◌∙◌, ℕ, zero, suc, Bool-cases, Option-cases, ◌+◌, ◌-◌,
  ◌*◌, ◌/◌, ◌%◌, ◌^◌, ◌≤◌, ◌<◌, ◌≡◌, ◌≢◌, ◌⊎◌, inl, inr, refl, sym, ap, true, false, Bool, not,
  List, [], ◌∷◌, ◌++◌, Bytes, length, length-append, replicate, length-replicate, All, All-append,
  ltb, leb, ◌==◌, map, if◌then◌else◌, arith, append-nil, append_assoc, ◌&&◌, ◌||◌, codes, Option,
  none, some, ℤ, pos, negsuc, Ends, Ends-bind, Ends-mono, Ends-ne-stuck,
}

-- `a > b` of pointers.
abbrev pub is_behind : Bytes → Bytes → Bool
is_behind a b = ltb (length a) (length b)

-- `strchr(text, c)`
unfoldable pub strchr : Bytes → ℕ → Option Bytes
strchr [] c = none
strchr (d ∷ text) c = let more = strchr text c in if d == c then some (d ∷ text) else more

abbrev pub or_failed {ℓ} : {A : Type ℓ} → Option A → Result A
or_failed none = failed
or_failed (some a) = ok a

-- `ok` where a test holds, and -1 elsewhere.
abbrev pub guard : Bool → Result (Unit {0})
guard b = if b then ok tt else failed

-- `calloc(n + 1, 1)` and `memcpy` of the bytes in between; a negative length is a huge one.
abbrev pub copy_between : Bytes → Bytes → Result Bytes
copy_between start end = if is_behind start end then fault else ok (between start end)

-- The first loop of `readfilename`: `escapes`, and the end of the name. `prev` is the byte in front.
unfoldable pub name_end : Bytes → ℕ → Bytes → ℕ × Bytes
name_end line_end prev [] = (0, line_end)
name_end line_end prev (c ∷ text) =
    let (escapes, end) = name_end line_end c text in
    if not (c == b' ')
    then (escapes, end)
    else if is_behind (c ∷ text) line_end
    then (0, line_end)
    else if prev == b'\\'
    then (suc escapes, end)
    else (0, c ∷ text)

-- The second loop, on fuel: what is copied, and `fname.start` behind it. `strncat` with a null pointer
-- in place of the end is a fault.
unfoldable pub copy_chunks : ℕ → Bytes → Bytes → Bytes → Result (Bytes × Bytes)
copy_chunks zero end start outbuf = stuck
copy_chunks (suc fuel) end start outbuf =
    elim (strchr start b' ') as (λ _. Result (Bytes × Bytes)) [
      | none ↦ fault
      | some space ↦
          let chunk_end = if is_behind space end then end else space in
          let outbuf' = outbuf ++ between start chunk_end in
          let start' = drop 1 chunk_end in
          let more = copy_chunks fuel end start' outbuf' in
          if is_behind end start' then more else ok (outbuf', start')
    ]

-- `readfilename`: the name, and the line behind it. The buffer has `token_len(&fname) - escapes + 1`
-- bytes.
unfoldable pub readfilename : Token → Result (Bytes × Token)
readfilename line =
    let (escapes, end) = name_end line.end b'/' line.start in
    let copied = copy_chunks (suc (length line.start)) end line.start [] >>= λ (name, start).
    if ltb (length line.start - length end) (length name + escapes)
    then fault
    else ok (name, record line { start = start }) in
    if is_behind line.start end then fault else copied

-- `parser->hd = end; if (*parser->hd++ != '\n') return -1;`
abbrev pub behind_newline : Parser → Bytes → Result Parser
behind_newline parser [] = failed
behind_newline parser (c ∷ text) = if c == b'\n' then ok (record parser { hd = text }) else failed

-- "a/" or "b/" and a name.
unfoldable pub read_side : Token → Bytes → Result (Bytes × Token)
read_side line prefix =
    if starts_with line.start prefix
    then readfilename (record line { start = drop 2 line.start })
    else failed

abbrev pub hunk_marker : Bytes
hunk_marker = codes "diff --git "

-- `parse_diff_header`: the names of both files.
unfoldable pub parse_diff_header : Parser → Result ((Bytes × Bytes) × Parser)
parse_diff_header parser = do
  line ← or_failed (nextline parser.hd)
  _ ← guard (not (is_shorter line 5))
  _ ← guard (starts_with line.start hunk_marker)
  (file_a, line') ← read_side (record line { start = drop 11 line.start }) (codes "a/")
  (file_b, line'') ← read_side line' (codes "b/")
  _ ← guard (not (is_behind line.end line''.start))
  parser' ← behind_newline parser line.end
  ok ((file_a, file_b), parser')

-- An `int` from a `long`.
abbrev pub long_to_int : ℤ → ℤ
long_to_int (pos n) = to_int false n
long_to_int (negsuc n) = to_int true (n + 1)

-- The mode on a line, which stays 0 if the line is another one.
unfoldable pub read_new_file_mode : Parser → Token → Result (ℤ × Parser)
read_new_file_mode parser line =
    elim (expect_prefix line (codes "new file mode ")) as (λ _. Result (ℤ × Parser)) [
      | none ↦ ok (pos 0, parser)
      | some line' ↦
          let (n, endptr) = strtol 8 line'.start in
          guard (not (length endptr == length line'.start)) >>= λ _.
          guard (length endptr == length line.end) >>= λ _.
          ok (long_to_int n, record parser { hd = drop 1 line.end })
    ]

-- `try_parse_new_file_mode`
unfoldable pub try_parse_new_file_mode : Parser → Result (ℤ × Parser)
try_parse_new_file_mode parser = or_failed (nextline parser.hd) >>= read_new_file_mode parser

-- The mode of a file at the end of an index line, and the parser behind the line.
unfoldable pub read_file_mode : Parser → Token → Result (Option Bytes × Parser)
read_file_mode parser line =
    let with_mode = copy_between (drop 1 line.start) line.end >>= λ mode.
    behind_newline parser line.end >>= λ parser'. ok (some mode, parser') in
    let without = behind_newline parser line.start >>= λ parser'. ok (none, parser') in
    if starts_with line.start (codes " ") then with_mode else without

-- `if (tl > line.end) tl = line.end;`
abbrev pub clamp : Bytes → Bytes → Bytes
clamp tl end = if is_behind tl end then end else tl

-- The second hash, from `start` to `tl`, and the mode behind it.
unfoldable pub read_second_hash :
    Parser → Token → Bytes → Bytes → Result ((Bytes × Option Bytes) × Parser)
read_second_hash parser line start tl = do
  hash_b ← copy_between start tl
  (mode, parser') ← read_file_mode parser (record line { start = tl })
  ok ((hash_b, mode), parser')

-- `parse_diff_index_line`: both hashes and the mode.
unfoldable pub parse_diff_index_line : Parser → Result (((Bytes × Bytes) × Option Bytes) × Parser)
parse_diff_index_line parser = do
  line ← or_failed (nextline parser.hd)
  line' ← or_failed (expect_prefix line (codes "index "))
  dot ← or_failed (strchr line'.start b'.')
  _ ← guard (starts_with dot (codes ".."))
  space ← or_failed (strchr (drop 2 dot) b' ')
  ((hash_b, mode), parser') ← read_second_hash parser line (drop 2 dot) (clamp space line.end)
  ok (((between line'.start dot, hash_b), mode), parser')

-- Where the name starts behind "--- ".
abbrev pub skip_removed : ℕ → Token → Result Token
skip_removed c line =
    if not (is_shorter line 2) && starts_with line.start (c ∷ b'/' ∷ [])
    then ok (record line { start = drop 2 line.start })
    else if starts_with line.start (codes "/")
    then ok line
    else failed

-- Where it starts behind "+++ ": neither byte of the prefix may be right for the line to be refused.
abbrev pub skip_added : ℕ → Token → Result Token
skip_added c line =
    if not (is_shorter line 2)
      && (not (starts_with line.start (c ∷ []))
          && not (starts_with (drop 1 line.start) (codes "/")))
    then failed
    else ok (record line { start = drop 2 line.start })

-- The name behind either prefix.
unfoldable pub file_part : ℕ → Token → Result Token
file_part c line = elim (expect_prefix line (codes "--- ")) as (λ _. Result Token) [
  | some removed ↦ skip_removed c removed
  | none ↦ elim (expect_prefix line (codes "+++ ")) as (λ _. Result Token) [
    | some added ↦ skip_added c added
    | none ↦ failed
  ]
]

-- `parse_hunk_a_or_r_file`
unfoldable pub parse_hunk_a_or_r_file : ℕ → Parser → Result (Bytes × Parser)
parse_hunk_a_or_r_file c parser = do
  line ← or_failed (nextline parser.hd)
  line' ← file_part c line
  name ← copy_between line'.start line.end
  ok (name, record parser { hd = drop 1 line.end })
