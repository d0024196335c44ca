-- ===== src/Diff/Ranges/RoundTrip.antt =====
-- src/diffutil.c: the line in front of a hunk, written and read back.
use ghcli.Decimal.{show, show-All}
use ghcli.Diff.Comments.Annotated.{NoNewline}
use ghcli.Diff.Lines.{find_newline, nextline}
use ghcli.Diff.Ranges.{parse_line, parse_hunk_range_info}
use ghcli.Prelude.{
  ℕ, ◌+◌, ◌^◌, ◌<◌, ◌≡◌, ◌≢◌, refl, [], ◌∷◌, ◌++◌, Bytes, All-append, arith, append_assoc, codes,
  Option, none, some, pos,
}
use ghcli.Diff.Ranges.Fields.{
  show_range, show_context, show_line, or_zero, or_empty, IsInt, expect_prefix-append,
  read_range-show, read_context-show,
}

parse_line-show :
    (r_start : ℕ) (r_length : Option ℕ) (a_start : ℕ) (a_length : Option ℕ) (context : Option Bytes)
    (end : Bytes)
    → r_start < 2 ^ 31
    → IsInt r_length
    → a_start < 2 ^ 31
    → IsInt a_length
    → parse_line
        (record { start = show_line r_start r_length a_start a_length context ++ end; end = end })
      ≡ some (record {
        range_r_start = pos r_start;
        range_r_length = or_zero r_length;
        range_a_start = pos a_start;
        range_a_length = or_zero a_length;
        context_info = or_empty context;
      })
unfolding parse_line
parse_line-show r_start r_length a_start a_length context end h1 h2 h3 h4 =
    let last = codes " @@" ++ show_context context in
    let second = show_range a_start a_length ++ last in
    let first = show_range r_start r_length ++ (codes " +" ++ second) in
    rw
      (
        expect_prefix-append (codes "@@ -") first end,
        append_assoc (show_range r_start r_length) (codes " +" ++ second) end,
        read_range-show r_start r_length (b'+' ∷ (second ++ end)) end h1 h2,
        expect_prefix-append (codes " +") second end,
        append_assoc (show_range a_start a_length) last end,
        read_range-show a_start a_length (b'@' ∷ b'@' ∷ (show_context context ++ end)) end h3 h4,
        expect_prefix-append (codes " @@") (show_context context) end,
        read_context-show context end,
      )
      refl

pub find_newline-append :
    (line rest : Bytes)
    → NoNewline line
    → find_newline (line ++ (b'\n' ∷ rest)) ≡ some (b'\n' ∷ rest)
unfolding find_newline
find_newline-append [] rest h = refl
find_newline-append (c ∷ line) rest h = ground (arith, find_newline-append line rest h.1, h.0)

show-NoNewline : (n : ℕ) → NoNewline (show n)
show-NoNewline n = show-All (λ c. c ≢ b'\n') (λ d h. omega arith) n

show_range-NoNewline : (start : ℕ) (len : Option ℕ) → NoNewline (show_range start len)
show_range-NoNewline start none = show-NoNewline start
show_range-NoNewline start (some len) =
    All-append _ (show start) _ (show-NoNewline start) (omega arith, show-NoNewline len)

-- No newline in the context, if there is one.
abbrev pub IsContext : Option Bytes → Type 0
IsContext none = Unit {0}
IsContext (some context) = NoNewline context

show_context-NoNewline :
    (context : Option Bytes) → IsContext context → NoNewline (show_context context)
show_context-NoNewline none h = tt
show_context-NoNewline (some context) h = (omega arith, h)

show_line-NoNewline :
    (r_start : ℕ) (r_length : Option ℕ) (a_start : ℕ) (a_length : Option ℕ) (context : Option Bytes)
    → IsContext context
    → NoNewline (show_line r_start r_length a_start a_length context)
show_line-NoNewline r_start r_length a_start a_length context h =
    All-append (λ c. c ≢ b'\n') (codes "@@ -") _
      (omega arith, (omega arith, (omega arith, (omega arith, tt))))
      (All-append _ (show_range r_start r_length) _ (show_range-NoNewline r_start r_length) (
        omega arith,
        (
          omega arith,
          All-append _ (show_range a_start a_length) _ (show_range-NoNewline a_start a_length)
              (omega arith, (omega arith, (omega arith, show_context-NoNewline context h))),
        ),
      ))

pub nextline-append :
    (c : ℕ) (line rest : Bytes)
    → NoNewline (c ∷ line)
    → nextline ((c ∷ line) ++ (b'\n' ∷ rest))
      ≡ some (record { start = (c ∷ line) ++ (b'\n' ∷ rest); end = b'\n' ∷ rest })
unfolding nextline
nextline-append c line rest h = rw (find_newline-append (c ∷ line) rest h, nextline) refl

-- For starts and lengths that an int holds, with or without each length, and with or without a context
-- that has no newline: parse_hunk_range_info reads back the line "@@ -r,r +a,a @@ context", takes 0
-- for a length that is not given, stops behind the newline, and counts the line.
pub parse_hunk_range_info-show :
    (r_start : ℕ) (r_length : Option ℕ) (a_start : ℕ) (a_length : Option ℕ) (context : Option Bytes)
    (rest : Bytes) (offset : ℕ)
    → r_start < 2 ^ 31
    → IsInt r_length
    → a_start < 2 ^ 31
    → IsInt a_length
    → IsContext context
    → parse_hunk_range_info (record {
      hd = show_line r_start r_length a_start a_length context ++ (b'\n' ∷ rest);
      diff_line_offset = offset;
    })
      ≡ some (
        record {
          range_r_start = pos r_start;
          range_r_length = or_zero r_length;
          range_a_start = pos a_start;
          range_a_length = or_zero a_length;
          context_info = or_empty context;
        },
        record { hd = rest; diff_line_offset = offset + 1 },
      )
unfolding parse_hunk_range_info
parse_hunk_range_info-show r_start r_length a_start a_length context rest offset h1 h2 h3 h4 h5 =
    let first =
      show_range r_start r_length
      ++ (codes " +" ++ (show_range a_start a_length ++ (codes " @@" ++ show_context context))) in
    rw
      (
        nextline-append b'@' (codes "@ -" ++ first) rest
            (show_line-NoNewline r_start r_length a_start a_length context h5),
        parse_line-show r_start r_length a_start a_length context (b'\n' ∷ rest) h1 h2 h3 h4,
      )
      refl
