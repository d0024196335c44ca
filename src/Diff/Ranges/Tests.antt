-- ===== src/Diff/Ranges/Tests.antt =====
-- Lines and ranges: runs and examples.
use ghcli.CString.{starts_with}
use ghcli.Decimal.{read_digits}
use ghcli.Diff.Comments.{between, take}
use ghcli.Diff.Lines.{
  Parser, find_newline, nextline, expect_prefix, is_patch_separator, body_loop, read_hunk_body,
}
use ghcli.Diff.Lines.Body.{IsBoundary, Passes, read_hunk_body-split}
use ghcli.Diff.Ranges.{
  to_int, read_number, read_range, read_context, parse_line, parse_hunk_range_info,
}
use ghcli.Prelude.{ok, ◌≡◌, refl, ◌++◌, Bytes, codes, some, pos}

abbrev at : Bytes → Parser
at text = record { hd = text; diff_line_offset = 0 }

range_run :
    parse_hunk_range_info (at (codes "@@ -1,5 +12 @@ int main\n a\n"))
    ≡ some (
      record {
        range_r_start = pos 1;
        range_r_length = pos 5;
        range_a_start = pos 12;
        range_a_length = pos 0;
        context_info = codes "int main";
      },
      record { hd = codes " a\n"; diff_line_offset = 1 },
    )
unfolding parse_hunk_range_info parse_line read_context read_range read_number to_int expect_prefix
    nextline find_newline starts_with read_digits between take
range_run = refl

body_run :
    read_hunk_body (at (codes " a\nWhy?\n+b\n@@ -1 +1 @@\n"))
    ≡ ok ((codes " a\nWhy?\n+b\n", 0), record { hd = codes "@@ -1 +1 @@\n"; diff_line_offset = 2 })
unfolding read_hunk_body body_loop is_patch_separator nextline find_newline starts_with between take
body_run = refl

read_hunk_body-split_example :
    (body : Bytes) × (parser' : Parser) × ((read_hunk_body (at (codes " a\n@@ -1 +1 @@\n"))
        ≡ ok ((body, 0), parser'))
      × ((codes " a\n@@ -1 +1 @@\n" ≡ body ++ parser'.hd)
          × (IsBoundary parser'.hd × Passes (at (codes " a\n@@ -1 +1 @@\n")) parser')))
read_hunk_body-split_example = read_hunk_body-split (at (codes " a\n@@ -1 +1 @@\n"))
