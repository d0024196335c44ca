-- ===== src/Diff/Hunks/Tests.antt =====
-- Hunks: runs and examples.
use ghcli.Diff.Hunks.RoundTrip.{WrittenHunk, show_hunks}
use ghcli.Decimal.{show, show_onto}
use ghcli.Prelude.{◌≡◌, refl, List, [], ◌∷◌, codes, none, some}

abbrev hunks : List WrittenHunk
hunks =
    record {
      r_start = 1;
      r_length = some 2;
      a_start = 1;
      a_length = none;
      context = none;
      lines = codes " a" ∷ (codes "Why?" ∷ (codes "-b" ∷ []));
    }
    ∷ (record {
      r_start = 9;
      r_length = none;
      a_start = 8;
      a_length = some 1;
      context = some (codes "f");
      lines = codes "+c" ∷ [];
    }
        ∷ [])

shown : show_hunks hunks ≡ codes "@@ -1,2 +1 @@\n a\nWhy?\n-b\n@@ -9 +8,1 @@ f\n+c\n"
unfolding show show_onto
shown = refl
