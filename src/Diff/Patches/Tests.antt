-- ===== src/Diff/Patches/Tests.antt =====
-- src/diffutil.c: runs of the parsers of patches, and the theorems about them at a series.
use ghcli.Decimal.{show, show_onto}
use ghcli.Diff.Comments.{take}
use ghcli.Diff.Headers.Names.{at}
use ghcli.Diff.Hunks.RoundTrip.{WrittenHunk}
use ghcli.Diff.Lines.{Parser}
use ghcli.Diff.Patches.{PatchSeries, parse_patch_series}
use ghcli.Diff.Patches.Termination.{parse_patch_series-Ends}
use ghcli.Diff.Patches.Written.{WrittenDiff, WrittenSeries, show_series}
use ghcli.Prelude.{ℕ, zero, suc, Option, ◌≡◌, refl, [], ◌∷◌, Bytes, codes, none, some, Ends}

-- As sn.c does it for texts without a NUL.
abbrev strndup : Bytes → ℕ → Option Bytes
strndup text zero = none
strndup text (suc n) = some (take (suc n) text)

abbrev hunk : WrittenHunk
hunk = record {
  r_start = 1;
  r_length = some 1;
  a_start = 1;
  a_length = some 2;
  context = none;
  lines = codes " a" ∷ (codes "Why?" ∷ (codes "+b" ∷ []));
}

abbrev diff : WrittenDiff
diff = record {
  file_a = codes "x";
  file_b = codes "y";
  new_mode = some (codes "100644");
  hash_a = codes "12";
  hash_b = codes "34";
  file_mode = none;
  removed = none;
  added = codes "y";
  hunks = hunk ∷ [];
}

abbrev series : WrittenSeries
series = record {
  lines = codes "hi" ∷ [];
  patches = record { hash = codes "abc"; lines = codes "s" ∷ ([] ∷ []); diffs = diff ∷ [] } ∷ [];
}

text_of :
    show_series series
    ≡ codes
        "hi\nFrom abc Mon Sep 17 00:00:00 2001\ns\n\ndiff --git a/x b/y\nnew file mode 100644\nindex 12..34\n--- /dev/null\n+++ b/y\n@@ -1,1 +1,2 @@\n a\nWhy?\n+b\n"
unfolding show show_onto
text_of = refl

parse_patch_series-Ends_example :
    Ends
      (λ (r : PatchSeries × Parser). r.1.hd ≡ [])
      (parse_patch_series strndup (at (show_series series) 0))
parse_patch_series-Ends_example = parse_patch_series-Ends strndup (at (show_series series) 0)
