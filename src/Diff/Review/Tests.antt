-- ===== src/Diff/Review/Tests.antt =====
-- src/cmd/pull_reviews.c: a review, and what is extracted from it.
use ghcli.CString.{starts_with}
use ghcli.Diff.Comments.{take}
use ghcli.Diff.Hunks.RoundTrip.{WrittenHunk}
use ghcli.Diff.Patches.Written.{WrittenDiff}
use ghcli.Diff.Review.{process_series_prelude, process_loop, take_line}
use ghcli.Diff.Lines.{find_newline}
use ghcli.Diff.Comments.{between}
use ghcli.Prelude.{
  ok, ℕ, ◌≡◌, refl, List, [], ◌∷◌, Bytes, codes, none, some, Option, if◌then◌else◌, ◌==◌,
}

abbrev strndup : Bytes → ℕ → Option Bytes
strndup text n = if n == 0 then none else some (take n text)

abbrev hunk : WrittenHunk
hunk = record {
  r_start = 1;
  r_length = some 1;
  a_start = 1;
  a_length = some 2;
  context = none;
  lines = codes " a" ∷ (codes "Why?" ∷ (codes "+b" ∷ []));
}

abbrev diff : WrittenDiff
diff = record {
  file_a = codes "x";
  file_b = codes "y";
  new_mode = some (codes "100644");
  hash_a = codes "12";
  hash_b = codes "34";
  file_mode = none;
  removed = none;
  added = codes "y";
  hunks = hunk ∷ [];
}

abbrev lines : List Bytes
lines = codes "Hi" ∷ (codes "GCLI: ok" ∷ [])

parts : process_series_prelude (codes "Hi\nGCLI: ok\n\n") ≡ ok (codes "Hi\n\n", codes "ok" ∷ [])
unfolding process_series_prelude process_loop take_line find_newline starts_with between take
parts = refl
