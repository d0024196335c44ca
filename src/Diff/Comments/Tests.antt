-- ===== src/Diff/Comments/Tests.antt =====
-- Comments of a hunk: runs and examples.
use ghcli.Diff.Comments.{
  Diff, Hunk, Comment, after_newline, line_text, make_comment, skip_unprefixed,
  read_comment_unprefixed, read_comment, between, take, line_length, skip_prefixed, copy_prefixed,
  read_comment_prefixed,
}
use ghcli.Diff.Comments.Loop.{
  hunk_get_comments, hunk_loop, step, code_line, open_range, close_range,
}
use ghcli.Diff.Comments.Termination.{hunk_get_comments-ne-stuck}
use ghcli.Prelude.{
  Result, ok, fault, stuck, ℕ, ◌≡◌, ◌≢◌, refl, List, [], ◌∷◌, Bytes, map, codes, Option, none, some,
  pos,
}

abbrev pub diff : Diff
diff = record {
  file_a = codes "a.c";
  file_b = codes "b.c";
  hash_b = codes "12ab";
  patch_hash = none;
}

abbrev pub hunk_of : Bytes → Hunk
hunk_of body = record {
  range_a_start = pos 10;
  range_r_start = pos 10;
  body = body;
  diff_line_offset = 1;
}

-- The text and the line of a comment.
abbrev shown : Result (List Comment) → List (Bytes × (Option Bytes × ℕ))
shown (ok comments) = map (λ c. (c.comment, (c.diff_text, c.diff_line_offset))) comments
shown _ = []

comment_run :
    shown (hunk_get_comments diff (hunk_of (codes " a\nWhy?\nReally.\n+b\n c\n")) [])
    ≡ (codes "Why?\nReally.\n", (some (codes "+b\n"), 2)) ∷ []
unfolding hunk_get_comments hunk_loop step code_line open_range close_range read_comment
    read_comment_unprefixed skip_unprefixed after_newline make_comment line_text between take
comment_run = refl

-- The prefix is left out, of an empty line too.
prefixed_run :
    shown (hunk_get_comments diff (hunk_of (codes "> Why?\n>\n> -\n+b\n")) [])
    ≡ (codes "Why?\n\n-\n", (some (codes "+b\n"), 1)) ∷ []
unfolding hunk_get_comments hunk_loop step code_line open_range close_range read_comment
    read_comment_prefixed skip_prefixed copy_prefixed line_length after_newline make_comment
    line_text between take
prefixed_run = refl

-- A range of lines.
range_run :
    shown (hunk_get_comments diff (hunk_of (codes "Why?\n{\n+b\n-c\n}\n d\n")) [])
    ≡ (codes "Why?\n", (some (codes "+b\n-c\n"), 1)) ∷ []
unfolding hunk_get_comments hunk_loop step code_line open_range close_range read_comment
    read_comment_unprefixed skip_unprefixed after_newline make_comment line_text between take
range_run = refl

-- A comment without a newline at the end of the body.
unterminated_run : hunk_get_comments diff (hunk_of (codes "+b\nWhy?")) [] ≡ fault
unfolding hunk_get_comments hunk_loop step code_line open_range close_range read_comment
    read_comment_unprefixed skip_unprefixed after_newline make_comment line_text between take
unterminated_run = refl

-- An empty line in a prefixed comment, in front of a line of context: more is copied than allocated.
overflow_run : hunk_get_comments diff (hunk_of (codes "> Why?\n\n b\n")) [] ≡ fault
unfolding hunk_get_comments hunk_loop step code_line open_range close_range read_comment
    read_comment_prefixed skip_prefixed copy_prefixed line_length after_newline make_comment
    line_text between take
overflow_run = refl

hunk_get_comments-ne-stuck_example :
    hunk_get_comments diff (hunk_of (codes "> Why?\n\n b\n")) [] ≢ stuck
hunk_get_comments-ne-stuck_example =
    hunk_get_comments-ne-stuck diff (hunk_of (codes "> Why?\n\n b\n")) []
