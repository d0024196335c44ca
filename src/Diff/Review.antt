-- ===== src/Diff/Review.antt =====
-- src/cmd/pull_reviews.c: the comments of a review, from the text of the edited diff.
pub mod Meta
pub mod Comments
mod Tests
use ghcli.CString.{starts_with}
use ghcli.Diff.Comments.{Diff, Hunk, Comment, between, drop}
use ghcli.Diff.Comments.Loop.{patch_get_comments}
use ghcli.Diff.Headers.Names.{at}
use ghcli.Diff.Hunks.{ParsedHunk}
use ghcli.Diff.Lines.{find_newline}
use ghcli.Diff.Patches.{ParsedDiff, parse_patch}
use mathlib.Core.List.{reverse}
use ghcli.Prelude.{
  Result, ok, failed, fault, stuck, ◌>>=◌, ◌∙◌, ℕ, zero, suc, Bool-cases, Option-cases, ◌+◌, ◌-◌,
  ◌*◌, ◌/◌, ◌%◌, ◌^◌, ◌≤◌, ◌<◌, ◌≡◌, ◌≢◌, ◌⊎◌, inl, inr, refl, sym, ap, true, false, Bool, not,
  List, [], ◌∷◌, ◌++◌, Bytes, length, length-append, replicate, length-replicate, All, All-append,
  ltb, leb, ◌==◌, map, if◌then◌else◌, arith, append-nil, append_assoc, ◌&&◌, ◌||◌, codes, Option,
  none, some, ℤ, pos, negsuc, Ends, Ends-bind, Ends-mono, Ends-ne-stuck,
}

-- What the extraction of comments reads of what the parser sets: the field `patch` of a diff is null.
abbrev pub read_hunk : ParsedHunk → Hunk
read_hunk hunk = record {
  range_a_start = hunk.range.range_a_start;
  range_r_start = hunk.range.range_r_start;
  body = hunk.body;
  diff_line_offset = hunk.diff_line_offset;
}

abbrev pub read_diff : ParsedDiff → Diff × List Hunk
read_diff diff = (
  record { file_a = diff.file_a; file_b = diff.file_b; hash_b = diff.hash_b; patch_hash = none },
  map read_hunk diff.hunks,
)

abbrev pub gcli_pref : Bytes
gcli_pref = codes "GCLI: "

-- `if (*bol == '\0') break;`
abbrev pub unless_end :
    (Bytes → Result (Bytes × List Bytes)) → Bytes × List Bytes → Bytes → Result (Bytes × List Bytes)
unless_end loop parts [] = ok parts
unless_end loop parts (c ∷ text) = loop (c ∷ text)

-- A line from `bol` to `eol`: "This line matches the prefix. Copy into meta", or `strncat` of the line.
unfoldable pub take_line : Bytes × List Bytes → Bytes → Bytes → Bytes × List Bytes
take_line (comment, meta) bol eol =
    let line_len = length bol - length eol in
    if not (ltb line_len 6) && starts_with bol gcli_pref
    then (comment, meta ++ (drop 6 (between bol eol) ∷ []))
    else (comment ++ between bol (drop 1 eol), meta)

-- The loop of `process_series_prelude`, on fuel, over the comment and the meta lines. Behind a line
-- without a newline `bol` stands behind the NUL, outside of the prelude, and is read.
unfoldable pub process_loop : ℕ → Bytes × List Bytes → Bytes → Result (Bytes × List Bytes)
process_loop zero parts bol = stuck
process_loop (suc fuel) parts bol = elim (find_newline bol) as (λ _. Result (Bytes × List Bytes)) [
  | none ↦ fault
  | some eol ↦
      let parts' = take_line parts bol eol in
      unless_end (process_loop fuel parts') parts' (drop 1 eol)
]

-- `process_series_prelude`: the body of the review and its meta lines.
unfoldable pub process_series_prelude : Bytes → Result (Bytes × List Bytes)
process_series_prelude prelude = process_loop (suc (length prelude)) ([], []) prelude

-- `extract_patch_comments`, from the text of the file: the comments, the body and the meta lines. Where
-- a call fails the program ends with an error.
unfoldable pub extract_patch_comments :
    (Bytes → ℕ → Option Bytes) → Bytes → Result (List Comment × (Bytes × List Bytes))
extract_patch_comments sn_strndup text = do
  (patch, parser) ← parse_patch sn_strndup (at text 0)
  comments ← patch_get_comments (map read_diff patch.diffs) []
  parts ← process_series_prelude patch.prelude
  ok (reverse comments, parts)
