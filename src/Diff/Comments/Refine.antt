-- ===== src/Diff/Comments/Refine.antt =====
-- src/diffutil.c: the comments found in a hunk are those written between its lines.
use ghcli.Diff.Comments.{Diff, Hunk, Comment, Reader, inc, line_text, make_comment}
use ghcli.Diff.Comments.Loop.{
  with_newest, code_line, attach_line, mark_range, start_comment, hunk_loop, reader_at,
  hunk_get_comments, is_taken, is_none,
}
use ghcli.Diff.Comments.Annotated.{
  Item, unlines, render, comment_at, annotate, NoNewline, is_head, IsNote, IsItem, line_text-append,
}
use ghcli.Prelude.{
  Result, ok, ◌>>=◌, ◌∙◌, ℕ, zero, suc, Bool-cases, ◌+◌, ◌<◌, ◌≡◌, inl, inr, refl, sym, ap, true,
  false, Bool, not, List, [], ◌∷◌, ◌++◌, Bytes, length, length-append, All, ◌==◌, if◌then◌else◌,
  arith, ◌&&◌, ◌||◌,
}
use ghcli.Diff.Comments.Scan.{noted, loop_note, loop_code, head_cases}
use mathlib.Core.Path.{subst}

-- What the loop comes to, up to the state that the caller does not see.
abbrev comments_of : Result Reader → Result (List Comment)
comments_of r = r >>= λ r'. ok r'.comments

-- The claim for some fuel, to be used as an induction hypothesis.
abbrev Annotates : ℕ → Diff → List Item → Type 0
Annotates fuel diff items =
    (r : Reader)
    → is_taken r.comments ≡ true
    → r.in_multiline_comment ≡ false
    → comments_of (hunk_loop fuel diff (record r { front = render items }))
      ≡ ok (annotate diff items r.patched_line r.original_line r.diff_line_offset r.comments)

code_step :
    (fuel : ℕ) (diff : Diff) (items : List Item) (r : Reader) (hd : ℕ) (text : Bytes)
    (comments : List Comment)
    → Annotates fuel diff items
    → is_head hd ≡ true
    → NoNewline text
    → r.in_multiline_comment ≡ false
    → (code_line hd (record r { front = hd ∷ (text ++ (b'\n' ∷ render items)) })).comments
      ≡ comments
    → is_taken comments ≡ true
    → comments_of
        (hunk_loop (suc fuel) diff (record r { front = hd ∷ (text ++ (b'\n' ∷ render items)) }))
      ≡ ok (
          annotate diff items
            (if hd == b'+' || hd == b' ' then inc r.patched_line else r.patched_line)
            (if hd == b'-' || hd == b' ' then inc r.original_line else r.original_line)
            (r.diff_line_offset + 1)
            comments)
unfolding code_line
code_step fuel diff items r hd text comments rest h newline single e taken =
    let here : Reader = record r { front = hd ∷ (text ++ (b'\n' ∷ render items)) } in
    let next : Reader = record (code_line hd here) { front = render items } in
    ap comments_of (loop_code fuel diff r hd text (render items) h newline)
    ∙ rest next (subst (λ cs. is_taken cs ≡ true) (sym e) taken) single
    ∙ ap
        (λ cs.
          ok (annotate diff items next.patched_line next.original_line (r.diff_line_offset + 1) cs))
        e

with_newest-id :
    (f : Comment → Comment) (comments : List Comment)
    → ((c : Comment) → is_none c.diff_text ≡ false → f c ≡ c)
    → is_taken comments ≡ true
    → with_newest f comments ≡ comments
with_newest-id f [] h taken = refl
with_newest-id f (c ∷ comments) h taken = elim (Bool-cases (is_none c.diff_text)) [
  | inl free ↦ absurd (not_taken free taken)
  | inr full ↦ ap (λ d. d ∷ comments) (h c full)
]
  where
    not_taken : {b : Bool} → b ≡ true → not b ≡ true → ⊥
    not_taken {b} e k = ground arith

and_false : (b : Bool) → (b && false) ≡ false
and_false true = refl
and_false false = refl

untouched :
    (inside multi first new : Bool) (text : Bytes) (c : Comment)
    → multi ≡ false
    → is_none c.diff_text ≡ false
    → mark_range (inside && multi) first new (attach_line multi new text c) ≡ c
untouched inside multi first new text c single full = rw (single, and_false inside, full) refl

-- A line without a comment in front of it leaves the comments alone.
keep_taken :
    (r : Reader) (hd : ℕ)
    → is_taken r.comments ≡ true
    → r.in_multiline_comment ≡ false
    → (code_line hd r).comments ≡ r.comments
unfolding code_line
keep_taken r hd taken single =
    with_newest-id _ r.comments
      (λ c full.
        untouched r.in_comment r.in_multiline_comment r.is_first_line (hd == b'+')
          (line_text r.front) c single full)
      taken

-- A line behind a comment becomes its text.
attach_note :
    (diff : Diff) (r : Reader) (note : List Bytes) (hd : ℕ) (text rest : Bytes)
    → is_head hd ≡ true
    → NoNewline text
    → (code_line hd (start_comment (noted diff r note (hd ∷ (text ++ (b'\n' ∷ rest)))))).comments
      ≡ comment_at diff
          (record { note = note; hd = hd; text = text })
          r.patched_line
          r.original_line
          r.diff_line_offset
        ∷ r.comments
unfolding code_line make_comment
attach_note diff r note hd text rest h newline =
    rw (line_text-append (hd ∷ text) rest ((head_cases hd h).1.1, newline)) refl

-- The claim for every fuel that is enough.
abbrev AnnotatesAll : Diff → List Item → Type 0
AnnotatesAll diff items = (fuel : ℕ) → length (render items) < fuel → Annotates fuel diff items

item_step :
    (diff : Diff) (items : List Item) (note : List Bytes) (hd : ℕ) (text : Bytes)
    → AnnotatesAll diff items
    → IsNote note
    → is_head hd ≡ true
    → NoNewline text
    → AnnotatesAll diff (record { note = note; hd = hd; text = text } ∷ items)
item_step diff items note hd text rest h head newline zero lt r taken single = absurd (omega arith)
item_step diff items [] hd text rest h head newline (suc fuel) lt r taken single =
    let tail = b'\n' ∷ render items in
    let long = length-append text tail in
    let none_read : r.diff_line_offset + 0 ≡ r.diff_line_offset = omega arith in
    rw none_read (
      code_step fuel diff items r hd text r.comments (rest fuel (omega arith)) head newline single
        (keep_taken (record r { front = hd ∷ (text ++ tail) }) hd taken single) taken)
item_step diff items ([] ∷ lines) hd text rest h head newline (suc fuel) lt r taken single =
    absurd h
item_step diff items ((c ∷ line) ∷ lines) hd text rest h head newline (suc zero) lt r taken single =
    absurd (omega arith)
item_step diff items ((c ∷ line) ∷ lines) hd text rest h head newline (suc (suc fuel)) lt r taken
      single =
    let note = (c ∷ line) ∷ lines in
    let tail = b'\n' ∷ render items in
    let long = length-append text tail in
    let longer = length-append (line ++ (b'\n' ∷ unlines lines)) (hd ∷ (text ++ tail)) in
    ap comments_of
      (loop_note (suc fuel) diff r c line lines hd (text ++ tail) h (head_cases hd head).0)
    ∙ code_step fuel diff items (start_comment (noted diff r note (hd ∷ (text ++ tail)))) hd text
        (comment_at diff (record { note = note; hd = hd; text = text }) r.patched_line
            r.original_line r.diff_line_offset
          ∷ r.comments)
        (rest fuel (omega arith)) head newline refl
        (attach_note diff r note hd text (render items) head newline) refl

hunk_loop-annotate : (diff : Diff) (items : List Item) → All IsItem items → AnnotatesAll diff items
unfolding hunk_loop
hunk_loop-annotate diff [] h zero lt r taken single = absurd (omega arith)
hunk_loop-annotate diff [] h (suc fuel) lt r taken single = refl
hunk_loop-annotate diff (item ∷ items) (h, more) fuel lt r taken single =
    item_step diff items item.note item.hd item.text (hunk_loop-annotate diff items more) h.0 h.1.0
      h.1.1 fuel lt r taken single

-- For a hunk whose body consists of lines of the diff (a space, "+" or "-" and a text), each with the
-- lines of a comment without "> " in front of it or none (the first starts with no byte of
-- " +-\\{}>", the others with none of " +-{"), if the newest comment found before has its line,
-- gcli_hunk_get_comments succeeds and finds exactly these comments: each with its text, the rows of
-- both files and the offset in the diff of the line behind it, and that line.
pub hunk_get_comments-annotate :
    (diff : Diff) (hunk : Hunk) (items : List Item) (comments : List Comment)
    → All IsItem items
    → hunk.body ≡ render items
    → is_taken comments ≡ true
    → hunk_get_comments diff hunk comments
      ≡ ok
          (annotate diff items hunk.range_a_start hunk.range_r_start hunk.diff_line_offset comments)
unfolding hunk_get_comments
hunk_get_comments-annotate diff hunk items comments h body taken =
    let whole =
      hunk_loop-annotate diff items h (suc (length (render items))) (omega arith)
        (reader_at hunk comments) taken refl in
    subst
      (λ text.
        comments_of
          (hunk_loop (suc (length text)) diff (record (reader_at hunk comments) { front = text }))
        ≡ ok (
            annotate diff items hunk.range_a_start hunk.range_r_start hunk.diff_line_offset
              comments))
      (sym body) whole
