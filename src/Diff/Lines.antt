-- ===== src/Diff/Lines.antt =====
-- src/diffutil.c: the lines that the parser of diffs reads, and the bodies of hunks. A pointer into
-- the buffer is the text from there to its end; the buffer holds `buf_size` bytes and a NUL.
pub mod Body
use ghcli.CString.{starts_with}
use ghcli.Diff.Comments.{between, drop}
use ghcli.Prelude.{
  Result, ok, failed, fault, stuck, ◌>>=◌, ◌∙◌, ℕ, zero, suc, Bool-cases, ◌+◌, ◌-◌, ◌*◌, ◌/◌, ◌%◌,
  ◌^◌, ◌≤◌, ◌<◌, ◌≡◌, ◌≢◌, ◌⊎◌, inl, inr, refl, sym, ap, true, false, Bool, not, List, [], ◌∷◌,
  ◌++◌, Bytes, length, length-append, replicate, length-replicate, All, All-append, ltb, leb, ◌==◌,
  map, if◌then◌else◌, arith, append-nil, append_assoc, ◌&&◌, ◌||◌, codes, Option, none, some, ℤ,
  pos, negsuc,
}

-- What is used of `struct gcli_diff_parser`: `row` and `col` are written only.
pub record Parser : Type 0 where
  pub hd : Bytes
  pub diff_line_offset : ℕ

-- `struct token`
pub record Token : Type 0 where
  pub start : Bytes
  pub end : Bytes

-- `token_len(t) < n` for an `n` of at least 1: the length is negative if `start` is behind `end`.
abbrev pub is_shorter : Token → ℕ → Bool
is_shorter t n = ltb (length t.start) (length t.end + n)

-- `strchr(text, '\n')`
unfoldable pub find_newline : Bytes → Option Bytes
find_newline [] = none
find_newline (c ∷ text) = if c == b'\n' then some (c ∷ text) else find_newline text

-- `buf + buf_size - 1`, the last byte of a text.
unfoldable pub last_byte : Bytes → Bytes
last_byte [] = []
last_byte (c ∷ []) = c ∷ []
last_byte (c ∷ d ∷ text) = last_byte (d ∷ text)

-- `nextline`, with `none` for -1.
unfoldable pub nextline : Bytes → Option Token
nextline [] = none
nextline (c ∷ text) = elim (find_newline (c ∷ text)) as (λ _. Option Token) [
  | none ↦ some (record { start = c ∷ text; end = last_byte (c ∷ text) })
  | some end ↦ some (record { start = c ∷ text; end = end })
]

-- `expect_prefix`
unfoldable pub expect_prefix : Token → Bytes → Option Token
expect_prefix t prefix =
    if is_shorter t (length prefix)
    then none
    else if starts_with t.start prefix
    then some (record t { start = drop (length prefix) t.start })
    else none

abbrev pub separator_suffix : Bytes
separator_suffix = codes " Mon Sep 17 00:00:00 2001\n"

-- `is_patch_separator`
unfoldable pub is_patch_separator : Token → Bool
is_patch_separator line =
    let line_len = length line.start - length line.end in
    not (ltb line_len 5)
    && (not (ltb line_len 26)
        && (starts_with line.start (codes "From ")
            && starts_with (drop (line_len - 25) line.start) separator_suffix))

-- The lines that end the body of a hunk.
abbrev pub ends_body : Token → Bool
ends_body line =
    starts_with line.start (codes "diff")
    || (starts_with line.start (codes "@@")
        || (starts_with line.start (codes "F") && is_patch_separator line))

-- The lines that count in the diff.
abbrev pub counts : Token → Bool
counts line =
    starts_with line.start (codes " ")
    || (starts_with line.start (codes "+")
        || (starts_with line.start (codes "-") || starts_with line.start (codes "\\")))

-- The loop of `read_hunk_body`, on fuel; `buf.end` is `hd` throughout.
unfoldable pub body_loop : ℕ → Parser → Result Parser
body_loop zero parser = stuck
body_loop (suc fuel) parser = elim parser.hd as (λ _. Result Parser) [
  | [] ↦ ok parser
  | c ∷ text ↦ elim (nextline (c ∷ text)) as (λ _. Result Parser) [
    | none ↦ failed
    | some line ↦
        let more = body_loop fuel (record {
          hd = drop 1 line.end;
          diff_line_offset =
              if counts line then parser.diff_line_offset + 1 else parser.diff_line_offset;
        }) in
        if ends_body line then ok parser else more
  ]
]

-- `read_hunk_body`: the body and its offset in the diff, and the parser behind it.
unfoldable pub read_hunk_body : Parser → Result ((Bytes × ℕ) × Parser)
read_hunk_body parser = do
  parser' ← body_loop (suc (length parser.hd)) parser
  ok ((between parser.hd parser'.hd, parser.diff_line_offset), parser')
