-- ===== src/Diff/Comments/Annotated.antt =====
-- src/diffutil.c: hunks with review comments, and the comments that they hold.
use ghcli.Diff.Comments.{
  Diff, Comment, inc, after_newline, take, between, line_text, make_comment, ends_comment,
}
use ghcli.Prelude.{
  ℕ, ◌+◌, ◌-◌, ◌≡◌, ◌≢◌, refl, ap, true, false, Bool, not, List, [], ◌∷◌, ◌++◌, Bytes, length,
  length-append, All, ◌==◌, if◌then◌else◌, arith, ◌||◌, codes, some, ℤ,
}

-- A line of the diff with the lines of a comment in front of it, or none.
pub record Item : Type 0 where
  pub note : List Bytes
  pub hd : ℕ
  pub text : Bytes

abbrev pub unlines : List Bytes → Bytes
unlines [] = []
unlines (line ∷ lines) = line ++ (b'\n' ∷ unlines lines)

abbrev pub render_line : Item → Bytes → Bytes
render_line item rest = item.hd ∷ (item.text ++ (b'\n' ∷ rest))

abbrev pub render : List Item → Bytes
render [] = []
render (item ∷ items) = unlines item.note ++ render_line item (render items)

-- The comments of the items, newest first, with those of `comments` behind them.
module _ (diff : Diff) where
  abbrev pub comment_at : Item → ℤ → ℤ → ℕ → Comment
  comment_at item patched original offset =
      record (make_comment diff (unlines item.note) patched original offset) {
        diff_text = some (item.hd ∷ (item.text ++ codes "\n"));
        start_is_in_new = item.hd == b'+';
        end_is_in_new = item.hd == b'+';
      }

  abbrev pub add_note : Item → ℤ → ℤ → ℕ → List Comment → List Comment
  add_note item patched original offset comments = elim item.note as (λ _. List Comment) [
    | [] ↦ comments
    | line ∷ lines ↦ comment_at item patched original offset ∷ comments
  ]

  abbrev pub annotate : List Item → ℤ → ℤ → ℕ → List Comment → List Comment
  annotate [] patched original offset comments = comments
  annotate (item ∷ items) patched original offset comments =
      annotate items (if item.hd == b'+' || item.hd == b' ' then inc patched else patched)
        (if item.hd == b'-' || item.hd == b' ' then inc original else original)
        (offset + length item.note + 1) (add_note item patched original offset comments)

abbrev pub NoNewline : Bytes → Type 0
NoNewline = All (λ c. c ≢ b'\n')

-- ' ', '+' or '-'
abbrev pub is_head : ℕ → Bool
is_head c = c == b' ' || (c == b'+' || c == b'-')

-- No byte that has a meaning of its own at the start of a line.
abbrev pub is_plain : ℕ → Bool
is_plain c =
    not (is_head c || (c == b'\\' || (c == b'{' || (c == b'}' || (c == b'\n' || c == b'>')))))

-- A further line of a comment.
abbrev pub IsMore : Bytes → Type 0
IsMore [] = Unit
IsMore (c ∷ line) = (ends_comment c ≡ false) × NoNewline (c ∷ line)

abbrev pub IsNote : List Bytes → Type 0
IsNote [] = Unit
IsNote ([] ∷ lines) = ⊥
IsNote ((c ∷ line) ∷ lines) = (is_plain c ≡ true) × (NoNewline (c ∷ line) × All IsMore lines)

abbrev pub IsItem : Item → Type 0
IsItem item = IsNote item.note × ((is_head item.hd ≡ true) × NoNewline item.text)

pub after_newline-append :
    (line rest : Bytes) → NoNewline line → after_newline (line ++ (b'\n' ∷ rest)) ≡ some rest
unfolding after_newline
after_newline-append [] rest h = refl
after_newline-append (c ∷ line) rest h = ground (arith, after_newline-append line rest h.1, h.0)

pub line_text-append :
    (line rest : Bytes) → NoNewline line → line_text (line ++ (b'\n' ∷ rest)) ≡ line ++ codes "\n"
unfolding line_text
line_text-append [] rest h = refl
line_text-append (c ∷ line) rest h = ground (arith, line_text-append line rest h.1, h.0)

pub take-append : (xs ys : Bytes) → take (length xs) (xs ++ ys) ≡ xs
unfolding take
take-append [] ys = refl
take-append (x ∷ xs) ys = ap (λ zs. x ∷ zs) (take-append xs ys)

pub between-append : (xs ys : Bytes) → between (xs ++ ys) ys ≡ xs
unfolding between
between-append xs ys = rw (length-append xs ys) (
    let same : length xs + length ys - length ys ≡ length xs = omega arith in
    rw same (take-append xs ys))
