-- ===== src/Strtol/Octal.antt =====
-- `strtol` with base 8, on octal digits and a newline.
use ghcli.CString.{is_space}
use ghcli.Strtol.{digit_value, digits, skip_prefix, skip_space, scan, strtol}
use ghcli.Prelude.{
  ℕ, ◌+◌, ◌-◌, ◌*◌, ◌^◌, ◌≤◌, ◌<◌, ◌≡◌, refl, true, false, [], ◌∷◌, ◌++◌, Bytes, All, ltb, ◌==◌,
  arith, pos,
}

-- Octal digits and their value.
abbrev pub IsOctal : Bytes → Type 0
IsOctal = All (λ c. (b'0' ≤ c) × (c < b'8'))

abbrev pub octal_value : ℕ → Bytes → ℕ
octal_value acc [] = acc
octal_value acc (c ∷ text) = octal_value (acc * 8 + (c - b'0')) text

digits-octal :
    (acc : ℕ) (text rest : Bytes)
    → IsOctal text
    → digits 8 acc (text ++ (b'\n' ∷ rest)) ≡ (octal_value acc text, b'\n' ∷ rest)
unfolding digits
digits-octal acc [] rest h = refl
digits-octal acc (c ∷ text) rest ((low, high), more) =
    let digit : digit_value c ≡ c - b'0' = ground arith in
    let less : ltb (digit_value c) 8 ≡ true = ground arith in
    rw (less, digit) (digits-octal (acc * 8 + (c - b'0')) text rest more)

skip_prefix-octal : (text : Bytes) → skip_prefix 8 text ≡ text
skip_prefix-octal [] = refl
skip_prefix-octal (a ∷ []) = refl
skip_prefix-octal (a ∷ b ∷ []) = refl
skip_prefix-octal (a ∷ b ∷ c ∷ text) = refl

pub strtol-octal :
    (c : ℕ) (text rest : Bytes)
    → IsOctal (c ∷ text)
    → octal_value 0 (c ∷ text) < 2 ^ 63
    → strtol 8 ((c ∷ text) ++ (b'\n' ∷ rest)) ≡ (pos (octal_value 0 (c ∷ text)), b'\n' ∷ rest)
unfolding strtol scan skip_space
strtol-octal c text rest h fits =
    let ((low, high), more) = h in
    let whole = text ++ (b'\n' ∷ rest) in
    let plain : is_space c ≡ false = ground arith in
    let minus : (c == b'-') ≡ false = ground arith in
    let plus : (c == b'+') ≡ false = ground arith in
    let less : ltb (digit_value c) 8 ≡ true = ground arith in
    let long : ltb (octal_value 0 (c ∷ text)) (2 ^ 63) ≡ true = ground arith in
    rw
      (
        plain,
        minus,
        plus,
        skip_prefix-octal (c ∷ whole),
        less,
        digits-octal 0 (c ∷ text) rest h,
        long,
      )
      refl
