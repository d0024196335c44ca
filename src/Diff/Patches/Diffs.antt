-- ===== src/Diff/Patches/Diffs.antt =====
-- src/diffutil.c: the diffs of a patch are read back.
use ghcli.CString.{starts_with}
use ghcli.Diff.Headers.{strchr}
use ghcli.Diff.Headers.Names.{at}
use ghcli.Diff.Headers.Files.{parse_removed-show, parse_added-show}
use ghcli.Diff.Headers.Index.{index-nextline, parse_diff_index_line-show}
use ghcli.Diff.Headers.RoundTrip.{parse_diff_header-show, try_parse_new_file_mode-show}
use ghcli.Diff.Headers.Written.{show_new_mode, show_index, show_removed, show_added}
use ghcli.Diff.Hunks.Lines.{nextline-start}
use ghcli.Diff.Hunks.RoundTrip.{
  WrittenHunk, IsWrittenHunk, show_hunks, IsBehindHunks, offset_behind, parse_diff_hunks-append,
}
use ghcli.Diff.Patches.{parse_diff, starts_by, diffs_loop}
use ghcli.Diff.Patches.Written.{
  WrittenDiff, IsWrittenDiff, AreHunks, show_files, show_diff, parsed_diff, show_diffs, is_dashes,
}
use ghcli.Prelude.{
  ok, ℕ, zero, suc, ◌<◌, ◌≡◌, inr, refl, false, List, [], ◌∷◌, ◌++◌, Bytes, length, All, map, arith,
  codes, Option, none, some,
}

new_mode-space :
    (mode : Option Bytes) (rest : Bytes) (hash_a hash_b : Bytes) (file_mode : Option Bytes)
    → (space : Bytes) × (strchr (show_new_mode mode (show_index hash_a hash_b file_mode rest)) b' '
        ≡ some space)
unfolding strchr
new_mode-space none rest hash_a hash_b file_mode = (_, refl)
new_mode-space (some mode) rest hash_a hash_b file_mode = (_, refl)

removed-space :
    (removed : Option Bytes) (rest : Bytes)
    → (space : Bytes) × (strchr (show_removed removed rest) b' ' ≡ some space)
unfolding strchr
removed-space none rest = (_, refl)
removed-space (some file) rest = (_, refl)

All-first :
    (hunks : List WrittenHunk)
    → All (λ w. IsWrittenHunk w × All (λ line. is_dashes line ≡ false) w.lines) hunks
    → All IsWrittenHunk hunks
All-first [] h = tt
All-first (w ∷ hunks) (h, more) = (h.0, All-first hunks more)

AreHunks-All : (hunks : List WrittenHunk) → AreHunks hunks → All IsWrittenHunk hunks
AreHunks-All [] h = absurd h
AreHunks-All (w ∷ hunks) h = All-first (w ∷ hunks) h

index-other :
    (hash_a hash_b : Bytes) (mode : Option Bytes) (rest : Bytes)
    → starts_with (show_index hash_a hash_b mode rest) (codes "new file mode ") ≡ false
unfolding starts_with
index-other hash_a hash_b mode rest = refl

parse_diff-show :
    (w : WrittenDiff) (rest : Bytes) (offset : ℕ)
    → IsWrittenDiff w
    → IsBehindHunks rest
    → parse_diff (at (show_diff w rest) offset)
      ≡ ok (parsed_diff w, at rest (offset_behind w.hunks 0))
unfolding parse_diff
parse_diff-show w rest offset h at_end =
    let files = show_files w rest in
    let index = show_index w.hash_a w.hash_b w.file_mode files in
    let (space, found) = new_mode-space w.new_mode files w.hash_a w.hash_b w.file_mode in
    let (space', found') =
      removed-space w.removed (show_added w.added (show_hunks w.hunks ++ rest)) in
    rw
      (
        parse_diff_header-show w.file_a w.file_b (show_new_mode w.new_mode index) space offset h.a
            h.b found,
        try_parse_new_file_mode-show w.new_mode index (b'\n' ∷ files) offset h.new
            (index-nextline w.hash_a w.hash_b w.file_mode files h.hashed_a h.hashed_b h.mode)
            (index-other w.hash_a w.hash_b w.file_mode files),
        parse_diff_index_line-show w.hash_a w.hash_b w.file_mode files offset h.hashed_a h.hashed_b
            h.mode (space', found'),
        parse_removed-show w.removed (show_added w.added (show_hunks w.hunks ++ rest)) offset h.r,
        parse_added-show w.added (show_hunks w.hunks ++ rest) offset h.p,
        parse_diff_hunks-append w.hunks rest offset at_end (AreHunks-All w.hunks h.written),
      )
      refl

-- Behind the diffs of a patch.
abbrev pub IsBehindDiffs : Bytes → Type 0
IsBehindDiffs rest = IsBehindHunks rest × (starts_by b'd' rest ≡ false)

show_diffs-IsBehindHunks :
    (diffs : List WrittenDiff) (rest : Bytes)
    → IsBehindDiffs rest
    → IsBehindHunks (show_diffs diffs rest)
unfolding starts_with
show_diffs-IsBehindHunks [] rest h = h.0
show_diffs-IsBehindHunks (w ∷ diffs) rest h =
    let text = show_diff w (show_diffs diffs rest) in
    let (end, e) = nextline-start b'd' _ in
    (inr (record { start = text; end = end }, (e, refl)), refl)

pub diffs_loop-show :
    (fuel : ℕ) (diffs : List WrittenDiff) (rest : Bytes) (offset : ℕ)
    → length diffs < fuel
    → All IsWrittenDiff diffs
    → IsBehindDiffs rest
    → (offset' : ℕ) × (diffs_loop fuel (at (show_diffs diffs rest) offset)
        ≡ ok (map parsed_diff diffs, at rest offset'))
unfolding diffs_loop
diffs_loop-show zero diffs rest offset lt h at_end = absurd (omega arith)
diffs_loop-show (suc fuel) [] rest offset lt h at_end = (offset, rw (at_end.1) refl)
diffs_loop-show (suc fuel) (w ∷ diffs) rest offset lt (h, more) at_end =
    let (offset', ran) =
      diffs_loop-show fuel diffs rest (offset_behind w.hunks 0) (omega arith) more at_end in
    (
      offset',
      rw
          (
            parse_diff-show w (show_diffs diffs rest) offset h
                (show_diffs-IsBehindHunks diffs rest at_end),
            ran,
          )
          refl,
    )
