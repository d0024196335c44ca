-- ===== src/Diff/Comments/Loop.antt =====
-- src/diffutil.c: `gcli_hunk_get_comments` and the loops over hunks, diffs and patches around it.
use ghcli.Diff.Comments.{
  Diff, Hunk, Side, Comment, Reader, inc, dec, int_eq, after_newline, drop, between, line_text,
  read_comment,
}
use ghcli.Prelude.{
  Result, ok, failed, fault, stuck, ◌>>=◌, ℕ, zero, suc, ◌+◌, true, false, Bool, not, List, [], ◌∷◌,
  Bytes, length, ◌==◌, if◌then◌else◌, ◌&&◌, ◌||◌, Option, none, some, ℤ,
}
use mathlib.Core.List.{reverse}

-- A change of the newest comment, if there is one.
abbrev pub with_newest : (Comment → Comment) → List Comment → List Comment
with_newest f [] = []
with_newest f (c ∷ comments) = f c ∷ comments

abbrev pub is_none : Option Bytes → Bool
is_none none = true
is_none (some text) = false

-- `if (c && !c->diff_text && !in_multiline_comment) { … }`
abbrev pub attach_line : Bool → Bool → Bytes → Comment → Comment
attach_line in_multiline new text c =
    if is_none c.diff_text && not in_multiline
    then record c { diff_text = some text; start_is_in_new = new; end_is_in_new = new }
    else c

-- `if (c && in_comment && in_multiline_comment) { … }`
abbrev pub mark_range : Bool → Bool → Bool → Comment → Comment
mark_range inside first new c =
    if inside
    then record c {
      end_is_in_new = new;
      start_is_in_new = if first then new else c.start_is_in_new;
    }
    else c

-- `case '+': case ' ': case '-': case '\\':`
unfoldable pub code_line : ℕ → Reader → Reader
code_line hd r =
    let new = hd == b'+' in
    record r {
      diff_line_offset = r.diff_line_offset + 1;
      last_line_is_new = new;
      patched_line = if new || hd == b' ' then inc r.patched_line else r.patched_line;
      original_line = if hd == b'-' || hd == b' ' then inc r.original_line else r.original_line;
      comments =
          with_newest
            (λ c.
              mark_range (r.in_comment && r.in_multiline_comment) r.is_first_line new
                (attach_line r.in_multiline_comment new (line_text r.front) c))
            r.comments;
      is_first_line = false;
    }

-- `!c || c->diff_text`
abbrev pub is_taken : List Comment → Bool
is_taken [] = true
is_taken (c ∷ comments) = not (is_none c.diff_text)

-- `case '{':`
unfoldable pub open_range : Reader → Result Reader
open_range r =
    if is_taken r.comments
    then failed
    else ok (record r { range_start = some r.front; in_multiline_comment = true })

-- `if (side.end_row != line) side.end_row = line - 1;`
abbrev pub close_side : ℤ → Side → Side
close_side line side = if int_eq side.end_row line then side else record side { end_row = dec line }

abbrev pub no_comment : List Comment → Bool
no_comment [] = true
no_comment (c ∷ comments) = false

-- `case '}':`; the assertion comes first.
unfoldable pub close_range : Reader → Result Reader
close_range r = elim r.range_start as (λ _. Result Reader) [
  | none ↦ fault
  | some start ↦
      if no_comment r.comments || (not r.in_comment || not r.in_multiline_comment)
      then failed
      else ok (record r {
        comments =
            with_newest
              (λ c. record c {
                diff_text = some (between (drop 2 start) r.front);
                after = close_side r.patched_line c.after;
                before = close_side r.original_line c.before;
              })
              r.comments;
        range_start = some (drop 2 start);
        in_comment = false;
      })
]

abbrev pub is_code : ℕ → Bool
is_code c = c == b'+' || (c == b' ' || (c == b'-' || c == b'\\'))

-- `default:` the line is the first one of a comment.
abbrev pub start_comment : Reader → Reader
start_comment r = record r { in_comment = true; in_multiline_comment = false; is_first_line = true }

-- The switch: the new state, and `false` after the `continue`.
unfoldable pub step : Diff → ℕ → Reader → Result (Reader × Bool)
step diff hd r =
    if is_code hd
    then ok (code_line hd r, true)
    else if hd == b'{'
    then (open_range r >>= λ r'. ok (r', true))
    else if hd == b'}'
    then (close_range r >>= λ r'. ok (r', true))
    else if hd == b'\n'
    then ok (r, true)
    else read_comment diff r >>= λ r'. ok (start_comment r', false)

-- The end of a round: `continue`, or the next line.
abbrev pub continue_loop : (Reader → Result Reader) → Reader × Bool → Result Reader
continue_loop loop (r, false) = loop r
continue_loop loop (r, true) = elim (after_newline r.front) as (λ _. Result Reader) [
  | none ↦ ok r
  | some rest ↦ loop (record r { front = rest })
]

-- The loop of `gcli_hunk_get_comments`, on fuel.
unfoldable pub hunk_loop : ℕ → Diff → Reader → Result Reader
hunk_loop zero diff r = stuck
hunk_loop (suc fuel) diff r = elim r.front as (λ _. Result Reader) [
  | [] ↦ ok r
  | c ∷ text ↦ step diff c r >>= continue_loop (hunk_loop fuel diff)
]

abbrev pub reader_at : Hunk → List Comment → Reader
reader_at hunk comments = record {
  comments = comments;
  front = hunk.body;
  patched_line = hunk.range_a_start;
  original_line = hunk.range_r_start;
  diff_line_offset = hunk.diff_line_offset;
  last_line_is_new = false;
  range_start = none;
  in_comment = false;
  in_multiline_comment = false;
  is_first_line = true;
}

-- The comments, newest first, with those of the earlier hunks behind them. Each round takes a byte
-- of the body at least.
unfoldable pub hunk_get_comments : Diff → Hunk → List Comment → Result (List Comment)
hunk_get_comments diff hunk comments = do
  r ← hunk_loop (suc (length hunk.body)) diff (reader_at hunk comments)
  ok r.comments

-- `gcli_diff_get_comments`, over the hunks of a diff.
unfoldable pub diff_get_comments : Diff → List Hunk → List Comment → Result (List Comment)
diff_get_comments diff [] comments = ok comments
diff_get_comments diff (hunk ∷ hunks) comments =
    hunk_get_comments diff hunk comments >>= λ comments'. diff_get_comments diff hunks comments'

abbrev pub Patch : Type 0
Patch = List (Diff × List Hunk)

-- `gcli_patch_get_comments`, over the diffs of a patch.
unfoldable pub patch_get_comments : Patch → List Comment → Result (List Comment)
patch_get_comments [] comments = ok comments
patch_get_comments ((diff, hunks) ∷ diffs) comments =
    diff_get_comments diff hunks comments >>= λ comments'. patch_get_comments diffs comments'

abbrev pub series_loop : List Patch → List Comment → Result (List Comment)
series_loop [] comments = ok comments
series_loop (patch ∷ patches) comments =
    patch_get_comments patch comments >>= λ comments'. series_loop patches comments'

-- `gcli_patch_series_get_comments`: the comments in order.
unfoldable pub series_get_comments : List Patch → Result (List Comment)
series_get_comments patches = do comments ← series_loop patches []; ok (reverse comments)
