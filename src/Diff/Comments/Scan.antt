-- ===== src/Diff/Comments/Scan.antt =====
-- src/diffutil.c: the steps of `gcli_hunk_get_comments` over a comment and over a line of the diff.
use ghcli.Diff.Comments.{
  Diff, Reader, make_comment, ends_comment, End, skip_unprefixed, comment_text, add_comment,
  read_comment_unprefixed, is_prefixed, read_comment,
}
use ghcli.Diff.Comments.Loop.{code_line, is_code, start_comment, step, hunk_loop, continue_loop}
use ghcli.Diff.Comments.Annotated.{
  unlines, NoNewline, is_head, is_plain, IsMore, IsNote, after_newline-append, between-append,
}
use ghcli.Prelude.{
  Result, ok, ◌>>=◌, ◌∙◌, ℕ, zero, suc, ◌+◌, ◌≤◌, ◌<◌, ◌≡◌, ◌≢◌, refl, ap, true, false, Bool, List,
  [], ◌∷◌, ◌++◌, Bytes, length, length-append, All, ◌==◌, arith, append_assoc, some,
}

skip_line :
    (fuel : ℕ) (line rest : Bytes) (offset : ℕ)
    → IsMore line
    → skip_unprefixed (suc fuel) (line ++ (b'\n' ∷ rest)) offset
      ≡ skip_unprefixed fuel rest (offset + 1)
unfolding skip_unprefixed
skip_line fuel [] rest offset h = rw (after_newline-append [] rest tt) refl
skip_line fuel (c ∷ line) rest offset (goes, plain) =
    rw (goes, after_newline-append (c ∷ line) rest plain) refl

skip_more :
    (fuel : ℕ) (lines : List Bytes) (hd : ℕ) (rest : Bytes) (offset : ℕ)
    → All IsMore lines
    → ends_comment hd ≡ true
    → length lines < fuel
    → skip_unprefixed fuel (unlines lines ++ (hd ∷ rest)) offset
      ≡ ok (some (hd ∷ rest), offset + length lines)
unfolding skip_unprefixed
skip_more zero lines hd rest offset h ends lt = absurd (omega arith)
skip_more (suc fuel) [] hd rest offset h ends lt =
    let none_read : offset + 0 ≡ offset = omega arith in rw (ends, none_read) refl
skip_more (suc fuel) (line ∷ lines) hd rest offset (h, more) ends lt =
    let front = unlines lines ++ (hd ∷ rest) in
    let split : (line ++ (b'\n' ∷ unlines lines)) ++ (hd ∷ rest) ≡ line ++ (b'\n' ∷ front) =
      append_assoc line (b'\n' ∷ unlines lines) (hd ∷ rest) in
    let count : offset + 1 + length lines ≡ offset + length (line ∷ lines) = omega arith in
    ap (λ text. skip_unprefixed (suc fuel) text offset) split
    ∙ skip_line fuel line front offset h
    ∙ skip_more fuel lines hd rest (offset + 1) more ends (omega arith)
    ∙ ap (λ n. ok (some (hd ∷ rest), n)) count

plain_cases :
    (c : ℕ)
    → is_plain c ≡ true
    → (ends_comment c ≡ false)
      × ((is_code c ≡ false)
          × (((c == b'{') ≡ false)
              × (((c == b'}') ≡ false) × (((c == b'\n') ≡ false) × ((c == b'>') ≡ false)))))
plain_cases c h =
    (ground arith, (ground arith, (ground arith, (ground arith, (ground arith, ground arith)))))

pub head_cases :
    (c : ℕ) → is_head c ≡ true → (ends_comment c ≡ true) × ((is_code c ≡ true) × (c ≢ b'\n'))
head_cases c h = (ground arith, (ground arith, ground arith))

is_prefixed-plain : (c : ℕ) (text : Bytes) → (c == b'>') ≡ false → is_prefixed (c ∷ text) ≡ false
is_prefixed-plain c [] h = refl
is_prefixed-plain c (d ∷ text) h = rw h refl

pub lines_fit : (lines : List Bytes) (rest : Bytes) → length lines ≤ length (unlines lines ++ rest)
lines_fit [] rest = omega arith
lines_fit (line ∷ lines) rest =
    rw
      (
        append_assoc line (b'\n' ∷ unlines lines) rest,
        length-append line (b'\n' ∷ (unlines lines ++ rest)),
      )
      (omega (arith, lines_fit lines rest))

note-IsMore : (note : List Bytes) → IsNote note → All IsMore note
note-IsMore [] h = tt
note-IsMore ([] ∷ lines) h = absurd h
note-IsMore ((c ∷ line) ∷ lines) (plain, (newline, more)) =
    (((plain_cases c plain).0, newline), more)

-- The reader behind a comment.
abbrev pub noted : Diff → Reader → List Bytes → Bytes → Reader
noted diff r note rest = record r {
  comments =
      make_comment diff (unlines note) r.patched_line r.original_line r.diff_line_offset
      ∷ r.comments;
  front = rest;
  diff_line_offset = r.diff_line_offset + length note;
}

read_unprefixed :
    (diff : Diff) (r : Reader) (note : List Bytes) (hd : ℕ) (rest : Bytes)
    → All IsMore note
    → ends_comment hd ≡ true
    → read_comment_unprefixed diff (record r { front = unlines note ++ (hd ∷ rest) })
      ≡ ok (noted diff r note (hd ∷ rest))
unfolding read_comment_unprefixed
read_unprefixed diff r note hd rest more ends =
    let front = unlines note ++ (hd ∷ rest) in
    let fit = lines_fit note (hd ∷ rest) in
    let here : Reader = record r { front = front } in
    ap (λ (end : Result End). end >>= λ e. add_comment diff here (comment_text front e.0) e)
      (skip_more (suc (length front)) note hd rest r.diff_line_offset more ends (omega arith))
    ∙ ap (λ text. add_comment diff here text (some (hd ∷ rest), r.diff_line_offset + length note))
        (between-append (unlines note) (hd ∷ rest))

read_note :
    (diff : Diff) (r : Reader) (c : ℕ) (line : Bytes) (lines : List Bytes) (hd : ℕ) (rest : Bytes)
    → IsNote ((c ∷ line) ∷ lines)
    → ends_comment hd ≡ true
    → read_comment diff (record r { front = unlines ((c ∷ line) ∷ lines) ++ (hd ∷ rest) })
      ≡ ok (noted diff r ((c ∷ line) ∷ lines) (hd ∷ rest))
unfolding read_comment
read_note diff r c line lines hd rest h ends =
    let (a0, (a1, (a2, (a3, (a4, bare))))) = plain_cases c h.0 in
    rw (is_prefixed-plain c _ bare) (
      read_unprefixed diff r ((c ∷ line) ∷ lines) hd rest (note-IsMore ((c ∷ line) ∷ lines) h) ends)

-- A round of the loop that reads a comment.
pub loop_note :
    (fuel : ℕ) (diff : Diff) (r : Reader) (c : ℕ) (line : Bytes) (lines : List Bytes) (hd : ℕ)
    (rest : Bytes)
    → IsNote ((c ∷ line) ∷ lines)
    → ends_comment hd ≡ true
    → hunk_loop (suc fuel) diff (record r { front = unlines ((c ∷ line) ∷ lines) ++ (hd ∷ rest) })
      ≡ hunk_loop fuel diff (start_comment (noted diff r ((c ∷ line) ∷ lines) (hd ∷ rest)))
unfolding hunk_loop step
loop_note fuel diff r c line lines hd rest h ends =
    let (a0, (a1, (a2, (a3, (a4, bare))))) = plain_cases c h.0 in
    rw (a1, a2, a3, a4)
      (ap
        (λ (read : Result Reader).
          (read >>= λ r'. ok (start_comment r', false)) >>= continue_loop (hunk_loop fuel diff))
        (read_note diff r c line lines hd rest h ends))

step_code :
    (diff : Diff) (r : Reader) (hd : ℕ)
    → is_code hd ≡ true
    → step diff hd r ≡ ok (code_line hd r, true)
unfolding step
step_code diff r hd code = rw code refl

next_line :
    (loop : Reader → Result Reader) (r : Reader) (line rest : Bytes)
    → NoNewline line
    → continue_loop loop (record r { front = line ++ (b'\n' ∷ rest) }, true)
      ≡ loop (record r { front = rest })
next_line loop r line rest h = rw (after_newline-append line rest h, continue_loop) refl

-- A round of the loop over a line of the diff.
pub loop_code :
    (fuel : ℕ) (diff : Diff) (r : Reader) (hd : ℕ) (text rest : Bytes)
    → is_head hd ≡ true
    → NoNewline text
    → hunk_loop (suc fuel) diff (record r { front = hd ∷ (text ++ (b'\n' ∷ rest)) })
      ≡ hunk_loop fuel diff
          (record (code_line hd (record r { front = hd ∷ (text ++ (b'\n' ∷ rest)) })) {
            front = rest;
          })
unfolding hunk_loop code_line
loop_code fuel diff r hd text rest h newline =
    let (ends, (code, other)) = head_cases hd h in
    let here : Reader = record r { front = hd ∷ (text ++ (b'\n' ∷ rest)) } in
    ap (λ (s : Result (Reader × Bool)). s >>= continue_loop (hunk_loop fuel diff))
      (step_code diff here hd code)
    ∙ next_line (hunk_loop fuel diff) (code_line hd here) (hd ∷ text) rest (other, newline)
