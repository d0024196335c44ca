-- ===== src/Diff/Review/Comments.antt =====
-- src/cmd/pull_reviews.c: what the text of a review says, and what is extracted from it.
use ghcli.Diff.Comments.{Diff}
use ghcli.Diff.Comments.Annotated.{Item, is_head, IsItem}
use ghcli.Diff.Comments.Series.{Written}
use ghcli.Diff.Hunks.Lines.{count_lines}
use ghcli.Diff.Hunks.RoundTrip.{WrittenHunk, parsed}
use ghcli.Diff.Patches.Written.{WrittenDiff, parsed_diff}
use ghcli.Diff.Review.{read_hunk, read_diff}
use ghcli.Prelude.{◌<◌, ◌^◌, length, ℕ, ◌+◌, ◌≡◌, List, [], ◌∷◌, ◌++◌, Bytes, All, if◌then◌else◌}

-- The lines of a hunk, as lines of the diff with the lines of a comment in front of them.
abbrev pub items : List Bytes → List Bytes → List Item
items note [] = []
items note ([] ∷ lines) = items (note ++ ([] ∷ [])) lines
items note ((c ∷ text) ∷ lines) =
    let item = record { note = note; hd = c; text = text } ∷ items [] lines in
    let more = items (note ++ ((c ∷ text) ∷ [])) lines in if is_head c then item else more

-- No comment is left at the end.
abbrev pub IsClosed : List Bytes → List Bytes → Type 0
IsClosed note [] = note ≡ []
IsClosed note ([] ∷ lines) = IsClosed (note ++ ([] ∷ [])) lines
IsClosed note ((c ∷ text) ∷ lines) =
    IsClosed (if is_head c then [] else note ++ ((c ∷ text) ∷ [])) lines

-- The lines of a hunk are those of a review, and its rows fit an `int`.
abbrev pub IsReviewed : WrittenHunk → Type 0
IsReviewed w =
    (IsClosed [] w.lines × All IsItem (items [] w.lines))
    × ((w.a_start + length w.lines < 2 ^ 31) × (w.r_start + length w.lines < 2 ^ 31))

-- The hunks as the comments are looked for in them, with their items.
abbrev pub reviewed_hunks : List WrittenHunk → ℕ → List Written
reviewed_hunks [] offset = []
reviewed_hunks (w ∷ hunks) offset =
    (read_hunk (parsed w offset), items [] w.lines)
    ∷ reviewed_hunks hunks (count_lines w.lines (offset + 1))

abbrev pub reviewed_diff : WrittenDiff → Diff × List Written
reviewed_diff w = ((read_diff (parsed_diff w)).0, reviewed_hunks w.hunks 0)
