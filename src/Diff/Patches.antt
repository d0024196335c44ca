-- ===== src/Diff/Patches.antt =====
-- src/diffutil.c: diffs, patches and series of patches. sn_strndup of sn is an argument.
pub mod Progress
pub mod Termination
pub mod Written
pub mod Diffs
pub mod Kept
pub mod PreludeLines
pub mod Preludes
pub mod Lengths
pub mod RoundTrip
mod Tests
use ghcli.CString.{starts_with}
use ghcli.Diff.Comments.{between, drop, take}
use ghcli.Diff.Headers.{
  strchr, or_failed, parse_diff_header, try_parse_new_file_mode, parse_diff_index_line,
  parse_hunk_a_or_r_file,
}
use ghcli.Diff.Hunks.{ParsedHunk, parse_diff_hunks}
use ghcli.Diff.Lines.{Parser, Token, is_shorter, nextline, is_patch_separator}
use ghcli.Diff.Trailer.{fixup_last_diff_in_patch}
use ghcli.Prelude.{
  Result, ok, failed, fault, stuck, ◌>>=◌, ◌∙◌, ℕ, zero, suc, Bool-cases, Option-cases, ◌+◌, ◌-◌,
  ◌*◌, ◌/◌, ◌%◌, ◌^◌, ◌≤◌, ◌<◌, ◌≡◌, ◌≢◌, ◌⊎◌, inl, inr, refl, sym, ap, true, false, Bool, not,
  List, [], ◌∷◌, ◌++◌, Bytes, length, length-append, replicate, length-replicate, All, All-append,
  ltb, leb, ◌==◌, map, if◌then◌else◌, arith, append-nil, append_assoc, ◌&&◌, ◌||◌, codes, Option,
  none, some, ℤ, pos, negsuc, Ends, Ends-bind, Ends-mono, Ends-ne-stuck,
}

-- The fields that `gcli_parse_diff` sets of `struct gcli_diff`; file_mode may stay null.
pub record ParsedDiff : Type 0 where
  pub file_a : Bytes
  pub file_b : Bytes
  pub new_file_mode : ℤ
  pub hash_a : Bytes
  pub hash_b : Bytes
  pub file_mode : Option Bytes
  pub r_file : Bytes
  pub a_file : Bytes
  pub hunks : List ParsedHunk

-- `gcli_parse_diff`
unfoldable pub parse_diff : Parser → Result (ParsedDiff × Parser)
parse_diff parser = do
  ((file_a, file_b), p1) ← parse_diff_header parser
  (new_file_mode, p2) ← try_parse_new_file_mode p1
  (((hash_a, hash_b), file_mode), p3) ← parse_diff_index_line p2
  (r_file, p4) ← parse_hunk_a_or_r_file b'a' p3
  (a_file, p5) ← parse_hunk_a_or_r_file b'b' p4
  (hunks, p6) ← parse_diff_hunks p5
  ok (
    record {
      file_a = file_a;
      file_b = file_b;
      new_file_mode = new_file_mode;
      hash_a = hash_a;
      hash_b = hash_b;
      file_mode = file_mode;
      r_file = r_file;
      a_file = a_file;
      hunks = hunks;
    },
    p6,
  )

-- `struct gcli_patch`
pub record Patch : Type 0 where
  pub prelude : Bytes
  pub commit_hash : Option Bytes
  pub diffs : List ParsedDiff

-- `struct gcli_patch_series`
pub record PatchSeries : Type 0 where
  pub prelude : Bytes
  pub patches : List Patch

-- `hd[0] == c`
abbrev pub starts_by : ℕ → Bytes → Bool
starts_by c [] = false
starts_by c (d ∷ text) = d == c

-- The line with which the prelude of a patch ends.
abbrev pub ends_prelude : Token → Bool
ends_prelude line = not (is_shorter line 6) && starts_with line.start (codes "diff ")

-- `while (parser->hd[0] == 'd')`, on fuel.
unfoldable pub diffs_loop : ℕ → Parser → Result (List ParsedDiff × Parser)
diffs_loop zero parser = stuck
diffs_loop (suc fuel) parser =
    let more = parse_diff parser >>= λ (diff, parser').
    diffs_loop fuel parser' >>= λ (diffs, end). ok (diff ∷ diffs, end) in
    if starts_by b'd' parser.hd then more else ok ([], parser)

-- The bodies of the hunks, given anew.
abbrev pub set_bodies : List ParsedHunk → List Bytes → List ParsedHunk
set_bodies (hunk ∷ hunks) (body ∷ bodies) = record hunk { body = body } ∷ set_bodies hunks bodies
set_bodies hunks bodies = hunks

abbrev pub set_all_bodies : List ParsedDiff → List (List Bytes) → List ParsedDiff
set_all_bodies (diff ∷ diffs) (bodies ∷ more) =
    record diff { hunks = set_bodies diff.hunks bodies } ∷ set_all_bodies diffs more
set_all_bodies diffs bodies = diffs

abbrev pub bodies_of : ParsedDiff → List Bytes
bodies_of diff = map (λ (hunk : ParsedHunk). hunk.body) diff.hunks

unfoldable pub fixup_diffs : List ParsedDiff → Result (List ParsedDiff)
fixup_diffs diffs =
    fixup_last_diff_in_patch (map bodies_of diffs) >>= λ bodies. ok (set_all_bodies diffs bodies)

-- The loop of `patch_series_read_prelude`, on fuel.
unfoldable pub series_prelude_loop : ℕ → Bytes → Result Bytes
series_prelude_loop zero hd = stuck
series_prelude_loop (suc fuel) hd = elim (nextline hd) as (λ _. Result Bytes) [
  | none ↦ ok hd
  | some line ↦
      let more = series_prelude_loop fuel (drop 1 line.end) in
      if is_patch_separator line then ok hd else more
]

-- `patch_series_read_prelude`
unfoldable pub patch_series_read_prelude : Parser → Result (Bytes × Parser)
patch_series_read_prelude parser = series_prelude_loop (suc (length parser.hd)) parser.hd >>= λ hd.
    ok (between parser.hd hd, record parser { hd = hd })

-- sn_strndup answers `none` for a null pointer.
module _ (sn_strndup : Bytes → ℕ → Option Bytes) where
  -- `read_commit_hash_from_separator`
  unfoldable pub read_commit_hash_from_separator : Token → Result (Option Bytes)
  read_commit_hash_from_separator line = do
    first ← or_failed (strchr line.start b' ')
    let start_of_hash = drop 1 first
    end_of_hash ← or_failed (strchr start_of_hash b' ')
    ok (sn_strndup start_of_hash (length start_of_hash - length end_of_hash))

  -- `if (!out->commit_hash)`, on a line of a prelude.
  unfoldable pub note_commit_hash : Option Bytes → Token → Result (Option Bytes)
  note_commit_hash (some hash) line = ok (some hash)
  note_commit_hash none line =
      if is_patch_separator line then read_commit_hash_from_separator line else ok none

  -- The loop of `gcli_patch_parse_prelude`, on fuel.
  unfoldable pub prelude_loop : ℕ → Option Bytes → Bytes → Result (Option Bytes × Bytes)
  prelude_loop zero hash hd = stuck
  prelude_loop (suc fuel) hash hd = elim (nextline hd) as (λ _. Result (Option Bytes × Bytes)) [
    | none ↦ ok (hash, hd)
    | some line ↦
        let more =
          note_commit_hash hash line >>= λ hash'. prelude_loop fuel hash' (drop 1 line.end) in
        if ends_prelude line then ok (hash, hd) else more
  ]

  -- `gcli_patch_parse_prelude`: the prelude and the commit hash.
  unfoldable pub patch_parse_prelude : Parser → Result ((Bytes × Option Bytes) × Parser)
  patch_parse_prelude parser =
      prelude_loop (suc (length parser.hd)) none parser.hd >>= λ (hash, hd).
      ok ((between parser.hd hd, hash), record parser { hd = hd })

  -- `gcli_parse_patch`
  unfoldable pub parse_patch : Parser → Result (Patch × Parser)
  parse_patch parser = do
    ((prelude, hash), parser') ← patch_parse_prelude parser
    (diffs, end) ← diffs_loop (suc (length parser'.hd)) parser'
    fixed ← fixup_diffs diffs
    ok (record { prelude = prelude; commit_hash = hash; diffs = fixed }, end)

  -- `while (parser->hd[0] != '\0')`, on fuel.
  unfoldable pub patches_loop : ℕ → Parser → Result (List Patch × Parser)
  patches_loop zero parser = stuck
  patches_loop (suc fuel) parser = elim parser.hd as (λ _. Result (List Patch × Parser)) [
    | [] ↦ ok ([], parser)
    | c ∷ text ↦ parse_patch parser >>= λ (patch, parser').
        patches_loop fuel parser' >>= λ (patches, end). ok (patch ∷ patches, end)
  ]

  -- `gcli_parse_patch_series`
  unfoldable pub parse_patch_series : Parser → Result (PatchSeries × Parser)
  parse_patch_series parser = do
    (prelude, parser') ← patch_series_read_prelude parser
    (patches, end) ← patches_loop (suc (length parser'.hd)) parser'
    ok (record { prelude = prelude; patches = patches }, end)
