-- ===== src/Diff/Comments.antt =====
-- src/diffutil.c, "Comment Extraction": review comments between the lines of a hunk.
-- A pointer into the body of the hunk is the text from there on. `int`s that count lines of a text
-- are natural numbers, and the rows, whose start comes from the hunk's header, integers.
pub mod Loop
pub mod Ends
pub mod Termination
pub mod Annotated
pub mod Scan
pub mod Refine
pub mod Series
mod Tests
use ghcli.Prelude.{
  Result, ok, failed, fault, stuck, ◌>>=◌, Result, ok, failed, fault, stuck, ◌>>=◌, ◌∙◌, ℕ, zero,
  suc, Bool-cases, ◌+◌, ◌-◌, ◌*◌, ◌/◌, ◌%◌, ◌^◌, ◌≤◌, ◌<◌, ◌≡◌, ◌≢◌, ◌⊎◌, inl, inr, refl, sym, ap,
  true, false, Bool, not, List, [], ◌∷◌, ◌++◌, Bytes, length, length-append, replicate,
  length-replicate, All, All-append, ltb, leb, ◌==◌, map, if◌then◌else◌, arith, append-nil,
  append_assoc, ◌&&◌, ◌||◌, codes, Option, none, some, ℤ, pos, negsuc,
}

-- What is used of `struct gcli_diff`: `patch_hash` is `patch->commit_hash`.
pub record Diff : Type 0 where
  pub file_a : Bytes
  pub file_b : Bytes
  pub hash_b : Bytes
  pub patch_hash : Option Bytes

-- What is used of `struct gcli_diff_hunk`.
pub record Hunk : Type 0 where
  pub range_a_start : ℤ
  pub range_r_start : ℤ
  pub body : Bytes
  pub diff_line_offset : ℕ

-- The anonymous struct of `before` and `after`.
pub record Side : Type 0 where
  pub filename : Bytes
  pub start_row : ℤ
  pub end_row : ℤ

-- `struct gcli_diff_comment`
pub record Comment : Type 0 where
  pub before : Side
  pub after : Side
  pub start_is_in_new : Bool
  pub end_is_in_new : Bool
  pub diff_line_offset : ℕ
  pub commit_hash : Bytes
  pub comment : Bytes
  pub diff_text : Option Bytes

-- `struct comment_read_ctx` and the local variables of `gcli_hunk_get_comments`. The comments are
-- listed newest first.
pub record Reader : Type 0 where
  pub comments : List Comment
  pub front : Bytes
  pub patched_line : ℤ
  pub original_line : ℤ
  pub diff_line_offset : ℕ
  pub last_line_is_new : Bool
  pub range_start : Option Bytes
  pub in_comment : Bool
  pub in_multiline_comment : Bool
  pub is_first_line : Bool

-- `line + 1` and `line - 1`, as an `int` that wraps around.
abbrev pub inc : ℤ → ℤ
inc (pos n) = if ltb (suc n) (2 ^ 31) then pos (suc n) else negsuc (2 ^ 31 - 1)
inc (negsuc zero) = pos 0
inc (negsuc (suc n)) = negsuc n

abbrev pub dec : ℤ → ℤ
dec (pos zero) = negsuc 0
dec (pos (suc n)) = pos n
dec (negsuc n) = if ltb (suc n) (2 ^ 31) then negsuc (suc n) else pos (2 ^ 31 - 1)

abbrev pub int_eq : ℤ → ℤ → Bool
int_eq (pos m) (pos n) = m == n
int_eq (negsuc m) (negsuc n) = m == n
int_eq _ _ = false

-- `strchr(text, '\n')`, one byte further on.
unfoldable pub after_newline : Bytes → Option Bytes
after_newline [] = none
after_newline (c ∷ text) = if c == b'\n' then some text else after_newline text

-- The bytes in front of the newline, or all.
unfoldable pub line_length : Bytes → ℕ
line_length [] = 0
line_length (c ∷ text) = if c == b'\n' then 0 else suc (line_length text)

unfoldable pub take : ℕ → Bytes → Bytes
take zero text = []
take (suc n) [] = []
take (suc n) (c ∷ text) = c ∷ take n text

abbrev pub drop : ℕ → Bytes → Bytes
drop zero text = text
drop (suc n) [] = []
drop (suc n) (c ∷ text) = drop n text

-- The bytes from one pointer up to a later one.
unfoldable pub between : Bytes → Bytes → Bytes
unfolding take
between start end = take (length start - length end) start

-- The line with its newline; without one, the rest of the text.
unfoldable pub line_text : Bytes → Bytes
line_text [] = []
line_text (c ∷ text) = if c == b'\n' then c ∷ [] else c ∷ line_text text

-- `make_comment`
unfoldable pub make_comment : Diff → Bytes → ℤ → ℤ → ℕ → Comment
make_comment diff text patched original offset = record {
  before = record { filename = diff.file_a; start_row = original; end_row = original };
  after = record { filename = diff.file_b; start_row = patched; end_row = patched };
  start_is_in_new = false;
  end_is_in_new = false;
  diff_line_offset = offset;
  commit_hash = elim diff.patch_hash as (λ _. Bytes) [ some hash ↦ hash | none ↦ diff.hash_b ];
  comment = text;
  diff_text = none;
}

-- `c == ' ' || c == '+' || c == '-' || c == '{'`
abbrev pub ends_comment : ℕ → Bool
ends_comment c = c == b' ' || (c == b'+' || (c == b'-' || c == b'{'))

-- Where a comment ends: at a text, or (`none`) with `front` null; and the line offset there.
abbrev pub End : Type 0
End = Option Bytes × ℕ

-- The loop of `read_comment_unprefixed`, on fuel.
unfoldable pub skip_unprefixed : ℕ → Bytes → ℕ → Result End
skip_unprefixed zero front offset = stuck
skip_unprefixed (suc fuel) [] offset = failed
skip_unprefixed (suc fuel) (c ∷ text) offset =
    let more = elim (after_newline (c ∷ text)) as (λ _. Result End) [
      | none ↦ ok (none, offset)
      | some rest ↦ skip_unprefixed fuel rest (offset + 1)
    ] in
    if ends_comment c then ok (some (c ∷ text), offset) else more

-- `ctx->front ? ctx->front - start : strlen(start)` bytes from `start`.
abbrev pub comment_text : Bytes → Option Bytes → Bytes
comment_text start none = start
comment_text start (some front) = between start front

-- `size_t` arithmetic.
abbrev pub add_size : ℕ → ℕ → ℕ
add_size a b = (a + b) % 2 ^ 64

-- `c[1] == ' ' ? 2 : 1`
abbrev pub prefix_length : Bytes → ℕ
prefix_length (c ∷ d ∷ text) = if d == b' ' then 2 else 1
prefix_length _ = 1

-- `line_end - (start + prefix_len) + 1` as a `size_t`.
abbrev pub chunk_length : Bytes → ℕ
chunk_length start = (line_length start + 1 + 2 ^ 64 - prefix_length start) % 2 ^ 64

-- The first loop of `read_comment_prefixed`, on fuel: it also adds up `comment_len`.
unfoldable pub skip_prefixed : ℕ → Bytes → ℕ → ℕ → Result (End × ℕ)
skip_prefixed zero front offset len = stuck
skip_prefixed (suc fuel) [] offset len = failed
skip_prefixed (suc fuel) (c ∷ text) offset len =
    let more = elim (after_newline (c ∷ text)) as (λ _. Result (End × ℕ)) [
      | none ↦ ok ((none, offset), len)
      | some rest ↦ skip_prefixed fuel rest (offset + 1) (add_size len (chunk_length (c ∷ text)))
    ] in
    if not (c == b'>') && ends_comment c then ok ((some (c ∷ text), offset), len) else more

-- The second loop, while `start < front`: `strncat` of each line behind its prefix. The buffer has
-- `len + 1` bytes.
unfoldable pub copy_prefixed : ℕ → ℕ → Bytes → Bytes → Bytes → Result Bytes
copy_prefixed zero len front start text = stuck
copy_prefixed (suc fuel) len front start text =
    let text' = text ++ take (chunk_length start) (drop (prefix_length start) start) in
    let more = elim (after_newline start) as (λ _. Result Bytes) [
      | none ↦ fault
      | some rest ↦ copy_prefixed fuel len front rest text'
    ] in
    if not (ltb (length front) (length start))
    then ok text
    else if ltb len (length text')
    then fault
    else more

-- With `front` null nothing is copied.
abbrev pub copy_until : ℕ → Bytes → Option Bytes → Result Bytes
copy_until len start none = ok []
copy_until len start (some front) = copy_prefixed (suc (length start)) len front start []

-- `make_comment` and `TAILQ_INSERT_TAIL`; the main loop then reads through `front`, so that a null
-- pointer is a fault.
abbrev pub add_comment : Diff → Reader → Bytes → End → Result Reader
add_comment diff r text (none, offset) = fault
add_comment diff r text (some front, offset) = ok (record r {
  comments = make_comment diff text r.patched_line r.original_line r.diff_line_offset ∷ r.comments;
  front = front;
  diff_line_offset = offset;
})

unfoldable pub read_comment_unprefixed : Diff → Reader → Result Reader
read_comment_unprefixed diff r = do
  end ← skip_unprefixed (suc (length r.front)) r.front r.diff_line_offset
  add_comment diff r (comment_text r.front end.0) end

unfoldable pub read_comment_prefixed : Diff → Reader → Result Reader
read_comment_prefixed diff r = do
  (end, len) ← skip_prefixed (suc (length r.front)) r.front r.diff_line_offset 0
  text ← copy_until len r.front end.0
  add_comment diff r text end

-- `strncmp(ctx->front, "> ", 2) == 0`
abbrev pub is_prefixed : Bytes → Bool
is_prefixed (c ∷ d ∷ text) = c == b'>' && d == b' '
is_prefixed _ = false

unfoldable pub read_comment : Diff → Reader → Result Reader
read_comment diff r =
    if is_prefixed r.front then read_comment_prefixed diff r else read_comment_unprefixed diff r
