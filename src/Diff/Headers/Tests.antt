-- ===== src/Diff/Headers/Tests.antt =====
-- src/diffutil.c: runs of the readers of the lines in front of hunks.
use ghcli.CString.{starts_with}
use ghcli.Diff.Comments.{take, between}
use ghcli.Diff.Headers.{parse_diff_header, parse_hunk_a_or_r_file}
use ghcli.Diff.Headers.{copy_chunks, file_part, name_end, read_side, readfilename, strchr}
use ghcli.Diff.Headers.Names.{at}
use ghcli.Diff.Lines.{expect_prefix, find_newline, nextline}
use ghcli.Prelude.{ok, failed, fault, ◌≡◌, refl, codes}

-- The space of an escaped name is lost, and its backslash stays.
escaped_name :
    parse_diff_header (at (codes "diff --git a/a\\ b b/c\n \n") 0)
    ≡ ok ((codes "a\\b", codes "c"), at (codes " \n") 0)
unfolding parse_diff_header read_side readfilename name_end copy_chunks strchr between take nextline
    find_newline starts_with
escaped_name = refl

-- A file that is deleted, and a line that is too short.
deleted_file : parse_hunk_a_or_r_file b'b' (at (codes "+++ /dev/null\n") 0) ≡ failed
unfolding parse_hunk_a_or_r_file file_part expect_prefix nextline find_newline starts_with
deleted_file = refl

short_line : parse_hunk_a_or_r_file b'b' (at (codes "+++ \n") 0) ≡ fault
unfolding parse_hunk_a_or_r_file file_part expect_prefix nextline find_newline starts_with
short_line = refl
