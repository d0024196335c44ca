-- ===== src/Diff/Comments/Termination.antt =====
-- src/diffutil.c: `gcli_hunk_get_comments` returns, whatever the body of the hunk is.
use ghcli.Diff.Comments.Ends.{
  after_newline-shorter, IsWithin, skip_unprefixed-shorter, skip_prefixed-shorter,
  copy_prefixed-Ends,
}
use ghcli.Diff.Comments.{
  Diff, Hunk, Comment, Reader, after_newline, ends_comment, End, comment_text, copy_until,
  add_comment, read_comment_unprefixed, read_comment_prefixed, is_prefixed, read_comment,
}
use ghcli.Prelude.{
  Ends, Ends-bind, Ends-ne-stuck, stuck, ℕ, zero, suc, Bool-cases, Option-cases, ◌≤◌, ◌<◌, ◌≡◌, ◌≢◌,
  inl, inr, refl, true, false, Bool, not, List, [], ◌∷◌, Bytes, length, ◌==◌, arith, ◌&&◌, ◌||◌,
  Option, none, some,
}
use ghcli.Diff.Comments.Loop.{
  code_line, open_range, close_range, is_code, step, hunk_loop, reader_at, hunk_get_comments,
  is_taken, no_comment, continue_loop,
}

-- The text left to read has at most `n` bytes.
abbrev IsLeft : ℕ → Reader → Type 0
IsLeft n r = length r.front ≤ n

add_comment-IsLeft :
    (diff : Diff) (r : Reader) (text : Bytes) (n : ℕ) (end : End)
    → IsWithin n end
    → Ends (IsLeft n) (add_comment diff r text end)
add_comment-IsLeft diff r text n (none, offset) h = tt
add_comment-IsLeft diff r text n (some front, offset) h = h

copy_until-Ends :
    (len : ℕ) (start : Bytes) (end : Option Bytes) → Ends (λ _. Unit) (copy_until len start end)
copy_until-Ends len start none = tt
copy_until-Ends len start (some front) =
    copy_prefixed-Ends (suc (length start)) len front start [] (omega arith)

and_false : (b : Bool) → (b && false) ≡ false
and_false true = refl
and_false false = refl

abbrev at_text : Reader → Bytes → Reader
at_text r front = record r { front = front }

read_comment_prefixed-Ends :
    (diff : Diff) (r : Reader) (c : ℕ) (text : Bytes)
    → ends_comment c ≡ false
    → Ends (IsLeft (length text)) (read_comment_prefixed diff (at_text r (c ∷ text)))
unfolding read_comment_prefixed
read_comment_prefixed-Ends diff r c text goes =
    Ends-bind (λ found. IsWithin (length text) found.0) (IsLeft (length text)) _ _
      (skip_prefixed-shorter (suc (suc (length text))) c text r.diff_line_offset 0 (omega arith)
        (rw goes (and_false _)))
      (λ (end, len) within.
        Ends-bind (λ _. Unit) (IsLeft (length text)) _ _ (copy_until-Ends len (c ∷ text) end.0)
          (λ copied _.
            add_comment-IsLeft diff (at_text r (c ∷ text)) copied (length text) end within))

read_comment_unprefixed-Ends :
    (diff : Diff) (r : Reader) (c : ℕ) (text : Bytes)
    → ends_comment c ≡ false
    → Ends (IsLeft (length text)) (read_comment_unprefixed diff (at_text r (c ∷ text)))
unfolding read_comment_unprefixed
read_comment_unprefixed-Ends diff r c text goes =
    Ends-bind (IsWithin (length text)) (IsLeft (length text)) _ _
      (skip_unprefixed-shorter (suc (suc (length text))) c text r.diff_line_offset (omega arith)
        goes)
      (λ end within.
        add_comment-IsLeft diff (at_text r (c ∷ text)) (comment_text (c ∷ text) end.0) (length text)
          end within)

read_comment-Ends :
    (diff : Diff) (r : Reader) (c : ℕ) (text : Bytes)
    → ends_comment c ≡ false
    → Ends (IsLeft (length text)) (read_comment diff (at_text r (c ∷ text)))
unfolding read_comment
read_comment-Ends diff r c text goes = elim (Bool-cases (is_prefixed (c ∷ text))) [
  | inl prefixed ↦ rw prefixed (read_comment_prefixed-Ends diff r c text goes)
  | inr bare ↦ rw bare (read_comment_unprefixed-Ends diff r c text goes)
]

-- After a step the text is the same, or, behind a comment, shorter.
abbrev IsDone : ℕ → Reader × Bool → Type 0
IsDone n (r, true) = length r.front ≡ suc n
IsDone n (r, false) = length r.front ≤ n

abbrev IsSame : ℕ → Reader → Type 0
IsSame n r = length r.front ≡ suc n

open_range-Ends :
    (r : Reader) (text : Bytes) (c : ℕ)
    → Ends (IsSame (length text)) (open_range (at_text r (c ∷ text)))
unfolding open_range
open_range-Ends r text c = elim (Bool-cases (is_taken r.comments)) [
  | inl taken ↦ rw taken tt
  | inr free ↦ rw free refl
]

close_range-Ends :
    (r : Reader) (text : Bytes) (c : ℕ)
    → Ends (IsSame (length text)) (close_range (at_text r (c ∷ text)))
unfolding close_range
close_range-Ends r text c = elim (Option-cases r.range_start) [
  | inl unset ↦ rw unset tt
  | inr (start, e) ↦
      rw e
        (elim (Bool-cases
          (no_comment r.comments || (not r.in_comment || not r.in_multiline_comment))) [
            | inl bad ↦ rw bad tt
            | inr good ↦ rw good refl
          ])
]

goes_on : (c : ℕ) → is_code c ≡ false → (c == b'{') ≡ false → ends_comment c ≡ false
goes_on c other h = ground arith

pub step-Ends :
    (diff : Diff) (r : Reader) (c : ℕ) (text : Bytes)
    → Ends (IsDone (length text)) (step diff c (at_text r (c ∷ text)))
unfolding step code_line
step-Ends diff r c text = elim (Bool-cases (is_code c)) [
  | inl code ↦ rw code refl
  | inr other ↦ rw other (elim (Bool-cases (c == b'{')) [
    | inl opens ↦ rw opens (
        Ends-bind (IsSame (length text)) (IsDone (length text)) _ _ (open_range-Ends r text c)
          (λ r' e. e))
    | inr h1 ↦ rw h1 (elim (Bool-cases (c == b'}')) [
      | inl closes ↦ rw closes (
          Ends-bind (IsSame (length text)) (IsDone (length text)) _ _ (close_range-Ends r text c)
            (λ r' e. e))
      | inr h2 ↦ rw h2 (elim (Bool-cases (c == b'\n')) [
        | inl newline ↦ rw newline refl
        | inr h3 ↦ rw h3 (
            Ends-bind (IsLeft (length text)) (IsDone (length text)) _ _
              (read_comment-Ends diff r c text (goes_on c other h1)) (λ r' e. e))
      ])
    ])
  ])
]

abbrev LoopEnds : ℕ → Diff → Type 0
LoopEnds fuel diff =
    (r : Reader) (front : Bytes)
    → length front < fuel
    → Ends (λ _. Unit) (hunk_loop fuel diff (at_text r front))

-- The rest of a round, with the loop known to end on less text.
continue-Ends :
    (fuel : ℕ) (diff : Diff) (n : ℕ) (r : Reader) (next : Bool)
    → LoopEnds fuel diff
    → n < fuel
    → IsDone n (r, next)
    → Ends (λ _. Unit) (continue_loop (hunk_loop fuel diff) (r, next))
continue-Ends fuel diff n r false ends h done = ends r r.front (omega arith)
continue-Ends fuel diff n r true ends h done = elim (Option-cases (after_newline r.front)) [
  | inl last ↦ rw (last, continue_loop) tt
  | inr (rest, e) ↦
      let shorter = after_newline-shorter r.front rest e in
      rw (e, continue_loop) (ends r rest (omega arith))
]

hunk_loop-Ends : (fuel : ℕ) (diff : Diff) → LoopEnds fuel diff
unfolding hunk_loop
hunk_loop-Ends zero diff r front h = absurd (omega arith)
hunk_loop-Ends (suc fuel) diff r [] h = tt
hunk_loop-Ends (suc fuel) diff r (c ∷ text) h =
    Ends-bind (IsDone (length text)) (λ _. Unit) (step diff c (at_text r (c ∷ text))) _
      (step-Ends diff r c text)
      (λ (r', next).
        continue-Ends fuel diff (length text) r' next (hunk_loop-Ends fuel diff) (omega arith))

-- Whatever the body of the hunk and the comments already found, the loops of
-- gcli_hunk_get_comments, read_comment_unprefixed and read_comment_prefixed end within a round for
-- every byte of the body: they come to a result.
pub hunk_get_comments-ne-stuck :
    (diff : Diff) (hunk : Hunk) (comments : List Comment)
    → hunk_get_comments diff hunk comments ≢ stuck
unfolding hunk_get_comments
hunk_get_comments-ne-stuck diff hunk comments =
    Ends-ne-stuck (λ _. Unit) _
      (Ends-bind (λ _. Unit) (λ _. Unit) _ _
        (hunk_loop-Ends (suc (length hunk.body)) diff (reader_at hunk comments) hunk.body
          (omega arith))
        (λ r _. tt))
