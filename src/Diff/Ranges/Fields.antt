-- ===== src/Diff/Ranges/Fields.antt =====
-- src/diffutil.c: the fields of the line in front of a hunk, written and read back.
use ghcli.CString.{starts_with}
use ghcli.Decimal.{show, is_digit, read_digits, NoDigit, read_digits-show, show-head}
use ghcli.Diff.Comments.{drop}
use ghcli.Diff.Comments.Annotated.{between-append}
use ghcli.Diff.Lines.{expect_prefix}
use ghcli.Diff.Ranges.{to_int, is_space, read_number, read_range, read_context}
use mathlib.Core.Path.{subst}
use ghcli.Prelude.{
  ◌∙◌, ℕ, suc, ◌+◌, ◌^◌, ◌<◌, ◌≡◌, refl, ap, true, false, [], ◌∷◌, ◌++◌, Bytes, length,
  length-append, ltb, ◌==◌, arith, append_assoc, codes, Option, none, some, ℤ, pos,
}

-- A start and a length, or a start alone.
abbrev pub show_range : ℕ → Option ℕ → Bytes
show_range start none = show start
show_range start (some len) = show start ++ (b',' ∷ show len)

abbrev pub show_context : Option Bytes → Bytes
show_context none = []
show_context (some context) = b' ' ∷ context

-- The line that git writes.
abbrev pub show_line : ℕ → Option ℕ → ℕ → Option ℕ → Option Bytes → Bytes
show_line r_start r_length a_start a_length context =
    codes "@@ -"
    ++ (show_range r_start r_length
        ++ (codes " +" ++ (show_range a_start a_length ++ (codes " @@" ++ show_context context))))

abbrev pub or_zero : Option ℕ → ℤ
or_zero none = pos 0
or_zero (some n) = pos n

abbrev pub or_empty : Option Bytes → Bytes
or_empty none = []
or_empty (some text) = text

pub starts_with-append : (prefix text : Bytes) → starts_with (prefix ++ text) prefix ≡ true
unfolding starts_with
starts_with-append [] text = refl
starts_with-append (p ∷ prefix) text = ground (arith, starts_with-append prefix text)

pub drop-append : (prefix text : Bytes) → drop (length prefix) (prefix ++ text) ≡ text
drop-append [] text = refl
drop-append (p ∷ prefix) text = drop-append prefix text

pub expect_prefix-append :
    (prefix text end : Bytes)
    → expect_prefix (record { start = prefix ++ (text ++ end); end = end }) prefix
      ≡ some (record { start = text ++ end; end = end })
unfolding expect_prefix
expect_prefix-append prefix text end =
    let long = length-append prefix (text ++ end) in
    let longer = length-append text end in
    let enough : ltb (length (prefix ++ (text ++ end))) (length end + length prefix) ≡ false =
      ground arith in
    rw (enough, starts_with-append prefix (text ++ end), drop-append prefix (text ++ end)) refl

digit_cases :
    (c : ℕ)
    → is_digit c ≡ true
    → (is_space c ≡ false) × (((c == b'-') ≡ false) × ((c == b'+') ≡ false))
digit_cases c h = (ground arith, (ground arith, ground arith))

pub to_int-pos : (n : ℕ) → n < 2 ^ 31 → to_int false n ≡ pos n
unfolding to_int
to_int-pos n h = ground arith

read_number_digits :
    (c : ℕ) (text end : Bytes)
    → is_digit c ≡ true
    → read_number (record { start = c ∷ text; end = end })
      ≡ some (
        to_int false (read_digits 0 (c ∷ text)).0,
        record { start = (read_digits 0 (c ∷ text)).1; end = end },
      )
unfolding read_number
read_number_digits c text end h =
    let (space, (minus, plus)) = digit_cases c h in rw (space, minus, plus, h) refl

read_number-show :
    (n : ℕ) (rest end : Bytes)
    → n < 2 ^ 31
    → NoDigit rest
    → read_number (record { start = show n ++ rest; end = end })
      ≡ some (pos n, record { start = rest; end = end })
read_number-show n rest end lt h =
    let (c, text, (e, digit)) = show-head n in
    let whole : show n ++ rest ≡ c ∷ (text ++ rest) = ap (λ xs. xs ++ rest) e in
    let read = subst (λ xs. read_digits 0 xs ≡ (n, rest)) whole (read_digits-show n rest h) in
    ap (λ xs. read_number (record { start = xs; end = end })) whole
    ∙ read_number_digits c (text ++ rest) end digit
    ∙ ap (λ (r : ℕ × Bytes). some (to_int false r.0, record { start = r.1; end = end })) read
    ∙ ap (λ i. some (i, record { start = rest; end = end })) (to_int-pos n lt)

-- A length that an `int` holds.
abbrev pub IsInt : Option ℕ → Type 0
IsInt none = Unit {0}
IsInt (some n) = n < 2 ^ 31

pub read_range-show :
    (start : ℕ) (len : Option ℕ) (rest end : Bytes)
    → start < 2 ^ 31
    → IsInt len
    → read_range (record { start = show_range start len ++ (b' ' ∷ rest); end = end })
      ≡ some (pos start, or_zero len, record { start = b' ' ∷ rest; end = end })
unfolding read_range
read_range-show start none rest end lt h =
    rw (read_number-show start (b' ' ∷ rest) end lt refl) refl
read_range-show start (some len) rest end lt h =
    rw
      (
        append_assoc (show start) (b',' ∷ show len) (b' ' ∷ rest),
        read_number-show start (b',' ∷ (show len ++ (b' ' ∷ rest))) end lt refl,
        read_number-show len (b' ' ∷ rest) end h refl,
      )
      refl

pub read_context-show :
    (context : Option Bytes) (end : Bytes)
    → read_context (record { start = show_context context ++ end; end = end })
      ≡ some (or_empty context)
unfolding read_context
read_context-show none [] = refl
read_context-show none (c ∷ end) =
    let same : (length (c ∷ end) == length (c ∷ end)) ≡ true = ground arith in rw same refl
read_context-show (some context) end =
    let long = length-append context end in
    let other : (suc (length (context ++ end)) == length end) ≡ false = ground arith in
    rw (other, between-append context end) refl
