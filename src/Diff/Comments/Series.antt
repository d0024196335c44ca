-- ===== src/Diff/Comments/Series.antt =====
-- src/diffutil.c: the comments of a patch series, in the order of the patches.
use ghcli.Diff.Comments.{Diff, Hunk, Comment}
use ghcli.Diff.Comments.Loop.{
  diff_get_comments, patch_get_comments, series_loop, series_get_comments, Patch, is_taken,
}
use ghcli.Diff.Comments.Annotated.{Item, render, add_note, annotate, IsItem}
use ghcli.Diff.Comments.Refine.{hunk_get_comments-annotate}
use mathlib.Core.List.{reverse}
use ghcli.Prelude.{
  Result, ok, ◌>>=◌, ◌∙◌, ℕ, ◌≡◌, refl, ap, true, List, [], ◌∷◌, Bytes, All, map, ℤ,
}

-- A hunk with what its body consists of.
abbrev pub Written : Type 0
Written = Hunk × List Item

abbrev pub IsWritten : Written → Type 0
IsWritten (hunk, items) = (hunk.body ≡ render items) × All IsItem items

-- The diffs of the patches of a series, with their hunks.
abbrev pub Series : Type 0
Series = List (List (Diff × List Written))

abbrev pub diff_of : Diff × List Written → Diff × List Hunk
diff_of (diff, hunks) = (diff, map (λ (w : Written). w.0) hunks)

abbrev pub patch_of : List (Diff × List Written) → Patch
patch_of = map diff_of

abbrev pub annotate_hunks : Diff → List Written → List Comment → List Comment
annotate_hunks diff [] comments = comments
annotate_hunks diff ((hunk, items) ∷ hunks) comments =
    annotate_hunks diff hunks
      (annotate diff items hunk.range_a_start hunk.range_r_start hunk.diff_line_offset comments)

abbrev pub annotate_patch : List (Diff × List Written) → List Comment → List Comment
annotate_patch [] comments = comments
annotate_patch ((diff, hunks) ∷ diffs) comments =
    annotate_patch diffs (annotate_hunks diff hunks comments)

abbrev pub annotate_series : Series → List Comment → List Comment
annotate_series [] comments = comments
annotate_series (patch ∷ patches) comments = annotate_series patches (annotate_patch patch comments)

add_note-taken :
    (diff : Diff) (item : Item) (note : List Bytes) (p o : ℤ) (n : ℕ) (comments : List Comment)
    → is_taken comments ≡ true
    → is_taken (add_note diff (record item { note = note }) p o n comments) ≡ true
add_note-taken diff item [] p o n comments taken = taken
add_note-taken diff item (line ∷ lines) p o n comments taken = refl

annotate-taken :
    (diff : Diff) (items : List Item) (p o : ℤ) (n : ℕ) (comments : List Comment)
    → is_taken comments ≡ true
    → is_taken (annotate diff items p o n comments) ≡ true
annotate-taken diff [] p o n comments taken = taken
annotate-taken diff (item ∷ items) p o n comments taken =
    annotate-taken diff items _ _ _ (add_note diff item p o n comments)
      (add_note-taken diff item item.note p o n comments taken)

hunks_step :
    (diff : Diff) (hunks : List Written) (comments : List Comment)
    → All IsWritten hunks
    → is_taken comments ≡ true
    → (diff_get_comments diff (map (λ (w : Written). w.0) hunks) comments
        ≡ ok (annotate_hunks diff hunks comments))
      × (is_taken (annotate_hunks diff hunks comments) ≡ true)
unfolding diff_get_comments
hunks_step diff [] comments h taken = (refl, taken)
hunks_step diff ((hunk, items) ∷ hunks) comments ((body, whole), more) taken =
    let first = hunk_get_comments-annotate diff hunk items comments whole body taken in
    let next =
      annotate diff items hunk.range_a_start hunk.range_r_start hunk.diff_line_offset comments in
    let rest = hunks_step diff hunks next more (annotate-taken diff items _ _ _ comments taken) in
    (
      ap
            (λ (r : Result (List Comment)).
              r >>= λ cs. diff_get_comments diff (map (λ (w : Written). w.0) hunks) cs)
            first
          ∙ rest.0,
      rest.1,
    )

pub patch_step :
    (diffs : List (Diff × List Written)) (comments : List Comment)
    → All (λ d. All IsWritten d.1) diffs
    → is_taken comments ≡ true
    → (patch_get_comments (patch_of diffs) comments ≡ ok (annotate_patch diffs comments))
      × (is_taken (annotate_patch diffs comments) ≡ true)
unfolding patch_get_comments
patch_step [] comments h taken = (refl, taken)
patch_step ((diff, hunks) ∷ diffs) comments (h, more) taken =
    let (first, kept) = hunks_step diff hunks comments h taken in
    let rest = patch_step diffs (annotate_hunks diff hunks comments) more kept in
    (
      ap (λ (r : Result (List Comment)). r >>= λ cs. patch_get_comments (patch_of diffs) cs) first
          ∙ rest.0,
      rest.1,
    )

series_step :
    (patches : Series) (comments : List Comment)
    → All (λ patch. All (λ d. All IsWritten d.1) patch) patches
    → is_taken comments ≡ true
    → series_loop (map patch_of patches) comments ≡ ok (annotate_series patches comments)
series_step [] comments h taken = refl
series_step (patch ∷ patches) comments (h, more) taken =
    let (first, kept) = patch_step patch comments h taken in
    ap (λ (r : Result (List Comment)). r >>= λ cs. series_loop (map patch_of patches) cs) first
    ∙ series_step patches (annotate_patch patch comments) more kept

-- For a patch series in which the body of every hunk consists of lines of the diff (a space, "+" or
-- "-" and a text), each with the lines of a comment without "> " in front of it or none (the first
-- starts with no byte of " +-\{}>", the others with none of " +-{"), gcli_patch_series_get_comments
-- succeeds, and its list has exactly these comments in the order in which they stand: each with its
-- text, the rows of both files and the offset in the diff of the line behind it, and that line.
pub series_get_comments-annotate :
    (patches : Series)
    → All (λ patch. All (λ d. All IsWritten d.1) patch) patches
    → series_get_comments (map patch_of patches) ≡ ok (reverse (annotate_series patches []))
unfolding series_get_comments
series_get_comments-annotate patches h =
    ap (λ (r : Result (List Comment)). r >>= λ cs. ok (reverse cs)) (series_step patches [] h refl)
