-- ===== src/Diff/Patches/RoundTrip.antt =====
-- src/diffutil.c: a patch series is read back from its text.
use ghcli.Diff.Headers.Names.{at}
use ghcli.Diff.Patches.{patch_parse_prelude, parse_patch}
use ghcli.Diff.Patches.Lengths.{diffs_fit}
use ghcli.Diff.Patches.Diffs.{diffs_loop-show, IsBehindDiffs}
use ghcli.Diff.Patches.Kept.{fixup_diffs-kept}
use ghcli.Diff.Patches.Written.{IsWrittenDiff, WrittenDiff, parsed_diff, show_diff, show_diffs}
use ghcli.Prelude.{ok, ℕ, suc, ◌≡◌, refl, List, ◌∷◌, Bytes, length, All, map, arith, Option}

module _ (sn_strndup : Bytes → ℕ → Option Bytes) where
  -- The diffs behind a prelude.
  pub parse_patch-diffs :
      (prelude : Bytes) (hash : Option Bytes) (text : Bytes) (w : WrittenDiff)
      (diffs : List WrittenDiff) (rest : Bytes) (offset : ℕ)
      → patch_parse_prelude sn_strndup (at text offset)
        ≡ ok ((prelude, hash), at (show_diffs (w ∷ diffs) rest) offset)
      → All IsWrittenDiff (w ∷ diffs)
      → IsBehindDiffs rest
      → (offset' : ℕ) × (parse_patch sn_strndup (at text offset)
          ≡ ok (
            record { prelude = prelude; commit_hash = hash; diffs = map parsed_diff (w ∷ diffs) },
            at rest offset',
          ))
  unfolding parse_patch
  parse_patch-diffs prelude hash text w diffs rest offset read written at_end =
      let fit = diffs_fit (w ∷ diffs) rest in
      let (offset', ran) =
        diffs_loop-show (suc (length (show_diff w (show_diffs diffs rest)))) (w ∷ diffs) rest offset
          (omega arith) written at_end in
      (offset', rw (read, ran, fixup_diffs-kept (w ∷ diffs) written) refl)
