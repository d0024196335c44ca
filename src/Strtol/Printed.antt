-- ===== src/Strtol/Printed.antt =====
-- `strtol` of the C library on the numbers that printf writes.
use ghcli.CString.{is_space}
use ghcli.Decimal.{is_digit, read_digits, read_digits-show, show, show_int, show-head}
use ghcli.Strtol.{
  digit_value, digits, magnitude, skip_prefix, skip_space, sign, signed, found, scan, negate,
  strtol, long_of,
}
use ghcli.Prelude.{
  ◌∙◌, ℕ, suc, Bool-cases, ◌+◌, ◌-◌, ◌*◌, ◌^◌, ◌<◌, ◌≡◌, inl, inr, refl, sym, ap, true, false, Bool,
  [], ◌∷◌, Bytes, ltb, ◌==◌, arith, append-nil, some, ℤ, pos, negsuc,
}

-- A number that a long holds.
abbrev pub IsLong : ℤ → Type 0
IsLong (pos n) = n < 2 ^ 63
IsLong (negsuc n) = n < 2 ^ 63

less-is_digit : (c : ℕ) → ltb (digit_value c) 10 ≡ is_digit c
less-is_digit c = ground arith

digits-read_digits : (acc : ℕ) (text : Bytes) → digits 10 acc text ≡ read_digits acc text
unfolding digits read_digits
digits-read_digits acc [] = refl
digits-read_digits acc (c ∷ text) = elim (Bool-cases (is_digit c)) [
  | inl digit ↦ rw (less-is_digit c, digit) (digits-read_digits (acc * 10 + (c - b'0')) text)
  | inr other ↦ rw (less-is_digit c, other) refl
]

digits-show : (n : ℕ) → digits 10 0 (show n) ≡ (n, [])
digits-show n =
    digits-read_digits 0 (show n) ∙ (rw (sym (append-nil (show n))) (read_digits-show n [] tt))

skip_prefix-id : (text : Bytes) → skip_prefix 10 text ≡ text
skip_prefix-id [] = refl
skip_prefix-id (a ∷ []) = refl
skip_prefix-id (a ∷ b ∷ []) = refl
skip_prefix-id (a ∷ b ∷ c ∷ text) = refl

signed-show : (negative : Bool) (n : ℕ) → signed 10 (negative, show n) ≡ some (negative, n, [])
signed-show negative n =
    let (c, text, (e, digit)) = show-head n in
    let read : magnitude 10 (c ∷ text) ≡ some (digits 10 0 (c ∷ text)) =
      rw (less-is_digit c, digit) refl in
    ap (λ t. found negative (magnitude 10 t)) (skip_prefix-id (show n) ∙ e)
    ∙ ap (found negative) (read ∙ ap (λ t. some (digits 10 0 t)) (sym e))
    ∙ ap (λ x. found negative (some x)) (digits-show n)

scan-show : (n : ℕ) → scan 10 (show n) ≡ some (false, n, [])
unfolding scan skip_space
scan-show n =
    let (c, text, (e, digit)) = show-head n in
    let space : is_space c ≡ false = ground arith in
    let minus : (c == b'-') ≡ false = ground arith in
    let plus : (c == b'+') ≡ false = ground arith in
    let front : sign (skip_space (c ∷ text)) ≡ (false, c ∷ text) = rw (space, minus, plus) refl in
    ap (λ t. signed 10 (sign (skip_space t))) e
    ∙ ap (signed 10) (front ∙ ap (λ t. (false, t)) (sym e))
    ∙ signed-show false n

scan-minus : (n : ℕ) → scan 10 (b'-' ∷ show n) ≡ some (true, n, [])
unfolding scan skip_space
scan-minus n = signed-show true n

-- strtol reads back a printed number in the range of a long.
pub strtol-show_int : (z : ℤ) → IsLong z → strtol 10 (show_int z) ≡ (z, [])
unfolding strtol show_int
strtol-show_int (pos n) h =
    let fits : ltb n (2 ^ 63) ≡ true = ground arith in
    ap (long_of (show n)) (scan-show n) ∙ rw fits refl
strtol-show_int (negsuc n) h =
    let fits : ltb (2 ^ 63) (n + 1) ≡ false = ground arith in
    let one : n + 1 ≡ suc n = omega arith in
    ap (long_of (b'-' ∷ show (n + 1))) (scan-minus (n + 1))
    ∙ rw fits (ap (λ (k : ℕ). (negate k, [])) one)
