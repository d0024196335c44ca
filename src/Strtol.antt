-- ===== src/Strtol.antt =====
-- `strtol` and `strtoul` of the C library, with 64 bits, for the bases 8, 10 and 16 that the program
-- uses.
pub mod Printed
pub mod Octal
use ghcli.CString.{is_space}
use ghcli.Decimal.{is_digit}
use ghcli.Prelude.{
  ◌∙◌, ℕ, zero, suc, Bool-cases, ◌+◌, ◌-◌, ◌*◌, ◌/◌, ◌%◌, ◌^◌, ◌<◌, ◌≡◌, inl, inr, refl, ap, true,
  false, Bool, [], ◌∷◌, ◌++◌, Bytes, ltb, leb, ◌==◌, if◌then◌else◌, arith, ◌&&◌, ◌||◌, Option, none,
  some, ℤ, pos, negsuc,
}

-- The value of a digit or letter, or 36.
abbrev pub digit_value : ℕ → ℕ
digit_value c =
    if is_digit c
    then c - b'0'
    else if leb b'a' c && leb c b'z'
    then c - b'a' + 10
    else if leb b'A' c && leb c b'Z'
    then c - b'A' + 10
    else 36

-- The digits in front of a text, added to what was read, and the rest.
unfoldable pub digits : ℕ → ℕ → Bytes → ℕ × Bytes
digits base acc [] = (acc, [])
digits base acc (c ∷ text) =
    let more = digits base (acc * base + digit_value c) text in
    if ltb (digit_value c) base then more else (acc, c ∷ text)

-- One digit at least.
abbrev pub magnitude : ℕ → Bytes → Option (ℕ × Bytes)
magnitude base [] = none
magnitude base (c ∷ text) =
    if ltb (digit_value c) base then some (digits base 0 (c ∷ text)) else none

-- `0x` in front of a digit.
abbrev pub skip_prefix : ℕ → Bytes → Bytes
skip_prefix base (z ∷ x ∷ d ∷ text) =
    if base == 16 && (z == b'0' && ((x == b'x' || x == b'X') && ltb (digit_value d) 16))
    then d ∷ text
    else z ∷ x ∷ d ∷ text
skip_prefix base text = text

unfoldable pub skip_space : Bytes → Bytes
skip_space [] = []
skip_space (c ∷ text) = let rest = skip_space text in if is_space c then rest else c ∷ text

-- Whether there is a minus sign, and what is behind the sign.
abbrev pub sign : Bytes → Bool × Bytes
sign [] = (false, [])
sign (c ∷ text) =
    if c == b'-' then (true, text) else if c == b'+' then (false, text) else (false, c ∷ text)

abbrev pub found : Bool → Option (ℕ × Bytes) → Option (Bool × ℕ × Bytes)
found negative none = none
found negative (some (n, end)) = some (negative, n, end)

-- Whether the number is negative, its magnitude and the rest, unless there is no number.
abbrev pub signed : ℕ → Bool × Bytes → Option (Bool × ℕ × Bytes)
signed base (negative, rest) = found negative (magnitude base (skip_prefix base rest))

unfoldable pub scan : ℕ → Bytes → Option (Bool × ℕ × Bytes)
scan base text = signed base (sign (skip_space text))

abbrev pub negate : ℕ → ℤ
negate zero = pos 0
negate (suc n) = negsuc n

-- Out of range the result is LONG_MIN or LONG_MAX.
abbrev pub to_long : Bool → ℕ → ℤ
to_long true n = if ltb (2 ^ 63) n then negate (2 ^ 63) else negate n
to_long false n = if ltb n (2 ^ 63) then pos n else pos (2 ^ 63 - 1)

-- Out of range the result is ULONG_MAX; a minus sign negates modulo 2 ^ 64.
abbrev pub to_ulong : Bool → ℕ → ℕ
to_ulong negative n =
    if ltb n (2 ^ 64) then (if negative then (2 ^ 64 - n) % 2 ^ 64 else n) else 2 ^ 64 - 1

abbrev pub long_of : Bytes → Option (Bool × ℕ × Bytes) → ℤ × Bytes
long_of text none = (pos 0, text)
long_of text (some (negative, n, end)) = (to_long negative n, end)

-- `strtol(text, &end, base)`, with `end` as the text that it points to.
unfoldable pub strtol : ℕ → Bytes → ℤ × Bytes
strtol base text = long_of text (scan base text)

abbrev pub ulong_of : Bytes → Option (Bool × ℕ × Bytes) → ℕ × Bytes
ulong_of text none = (0, text)
ulong_of text (some (negative, n, end)) = (to_ulong negative n, end)

-- `strtoul(text, &end, base)`
unfoldable pub strtoul : ℕ → Bytes → ℕ × Bytes
strtoul base text = ulong_of text (scan base text)

-- A hexadecimal digit, with small or capital letters.
abbrev pub hex_char : Bool → ℕ → ℕ
hex_char capital d = if ltb d 10 then d + b'0' else if capital then d - 10 + b'A' else d - 10 + b'a'

-- A byte as two hexadecimal digits.
abbrev pub hex_byte : Bool → ℕ → Bytes
hex_byte capital n = hex_char capital (n / 16) ∷ (hex_char capital (n % 16) ∷ [])

digit_value-hex_char : (capital : Bool) (d : ℕ) → d < 16 → digit_value (hex_char capital d) ≡ d
digit_value-hex_char true d h = ground arith
digit_value-hex_char false d h = ground arith

-- `rrggbb`
abbrev pub hex_colour : Bool → ℕ → ℕ → ℕ → Bytes
hex_colour capital r g b = hex_byte capital r ++ (hex_byte capital g ++ hex_byte capital b)

hex_char-IsPlain :
    (capital : Bool) (d : ℕ)
    → d < 16
    → (is_space (hex_char capital d) ≡ false)
      × (((hex_char capital d == b'-') ≡ false)
          × (((hex_char capital d == b'+') ≡ false)
              × (((hex_char capital d == b'x') ≡ false) × ((hex_char capital d == b'X') ≡ false))))
hex_char-IsPlain true d h =
    (ground arith, (ground arith, (ground arith, (ground arith, ground arith))))
hex_char-IsPlain false d h =
    (ground arith, (ground arith, (ground arith, (ground arith, ground arith))))

-- A character that is the digit `d`, and no space, sign or x.
abbrev IsDigit : ℕ → ℕ → Type 0
IsDigit c d =
    ((digit_value c ≡ d) × (ltb d 16 ≡ true))
    × ((is_space c ≡ false)
        × (((c == b'-') ≡ false)
            × (((c == b'+') ≡ false) × (((c == b'x') ≡ false) × ((c == b'X') ≡ false)))))

hex_char-IsDigit : (capital : Bool) (d : ℕ) → d < 16 → IsDigit (hex_char capital d) d
hex_char-IsDigit capital d h =
    ((digit_value-hex_char capital d h, ground arith), hex_char-IsPlain capital d h)

digits_step :
    (acc c d : ℕ) (text : Bytes)
    → IsDigit c d
    → digits 16 acc (c ∷ text) ≡ digits 16 (acc * 16 + d) text
unfolding digits
digits_step acc c d text ((value, less), plain) = rw (value, less) refl

skip_space-IsDigit : (c d : ℕ) (text : Bytes) → IsDigit c d → skip_space (c ∷ text) ≡ c ∷ text
unfolding skip_space
skip_space-IsDigit c d text (value, (space, more)) = rw space refl

sign-IsDigit : (c d : ℕ) (text : Bytes) → IsDigit c d → sign (c ∷ text) ≡ (false, c ∷ text)
sign-IsDigit c d text (value, (space, (minus, (plus, no_x)))) = rw (minus, plus) refl

skip_prefix-IsDigit :
    (c c' d' e : ℕ) (text : Bytes)
    → IsDigit c' d'
    → skip_prefix 16 (c ∷ c' ∷ e ∷ text) ≡ c ∷ c' ∷ e ∷ text
skip_prefix-IsDigit c c' d' e text (value, (space, (minus, (plus, (small, big))))) =
    elim (Bool-cases (c == b'0')) [
      | inl same ↦ rw (small, big, same) refl
      | inr other ↦ rw (small, big, other) refl
    ]

magnitude-IsDigit :
    (c d : ℕ) (text : Bytes) → IsDigit c d → magnitude 16 (c ∷ text) ≡ some (digits 16 0 (c ∷ text))
magnitude-IsDigit c d text ((value, less), plain) = rw (value, less) refl

scan-IsDigit :
    (c d c' d' e : ℕ) (text : Bytes)
    → IsDigit c d
    → IsDigit c' d'
    → scan 16 (c ∷ c' ∷ e ∷ text)
      ≡ found false (some (digits 16 ((0 * 16 + d) * 16 + d') (e ∷ text)))
unfolding scan
scan-IsDigit c d c' d' e text h h' =
    ap (λ t. signed 16 (sign t)) (skip_space-IsDigit c d (c' ∷ e ∷ text) h)
    ∙ ap (signed 16) (sign-IsDigit c d (c' ∷ e ∷ text) h)
    ∙ ap (λ t. found false (magnitude 16 t)) (skip_prefix-IsDigit c c' d' e text h')
    ∙ ap (found false) (magnitude-IsDigit c d (c' ∷ e ∷ text) h)
    ∙ ap (λ r. found false (some r))
        (digits_step 0 c d (c' ∷ e ∷ text) h ∙ digits_step (0 * 16 + d) c' d' (e ∷ text) h')

-- `rrggbb` as strtol and strtoul scan it.
pub scan-hex_colour :
    (capital : Bool) (r g b : ℕ)
    → r < 256
    → g < 256
    → b < 256
    → scan 16 (hex_colour capital r g b) ≡ some (false, (r * 256 + g) * 256 + b, [])
unfolding digits
scan-hex_colour capital r g b hr hg hb =
    let one : (d : ℕ) → d < 16 → IsDigit (hex_char capital d) d = hex_char-IsDigit capital in
    let sum : (((((0 * 16 + r / 16) * 16 + r % 16) * 16 + g / 16) * 16 + g % 16) * 16 + b / 16) * 16
          + b % 16
        ≡ (r * 256 + g) * 256 + b =
      omega arith in
    scan-IsDigit (hex_char capital (r / 16)) (r / 16) (hex_char capital (r % 16)) (r % 16) _ _
      (one (r / 16) (omega arith)) (one (r % 16) (omega arith))
    ∙ ap (λ x. found false (some x))
        (digits_step ((0 * 16 + r / 16) * 16 + r % 16) (hex_char capital (g / 16)) (g / 16)
            (hex_char capital (g % 16) ∷ hex_byte capital b) (one (g / 16) (omega arith))
          ∙ digits_step (((0 * 16 + r / 16) * 16 + r % 16) * 16 + g / 16)
              (hex_char capital (g % 16)) (g % 16) (hex_byte capital b) (one (g % 16) (omega arith))
          ∙ digits_step ((((0 * 16 + r / 16) * 16 + r % 16) * 16 + g / 16) * 16 + g % 16)
              (hex_char capital (b / 16)) (b / 16) (hex_char capital (b % 16) ∷ [])
              (one (b / 16) (omega arith))
          ∙ digits_step
              (((((0 * 16 + r / 16) * 16 + r % 16) * 16 + g / 16) * 16 + g % 16) * 16 + b / 16)
              (hex_char capital (b % 16)) (b % 16) [] (one (b % 16) (omega arith)))
    ∙ ap (λ (n : ℕ). some (false, n, [])) sum

pub strtol_colour :
    (capital : Bool) (r g b : ℕ)
    → r < 256
    → g < 256
    → b < 256
    → strtol 16 (hex_colour capital r g b) ≡ (pos ((r * 256 + g) * 256 + b), [])
unfolding strtol
strtol_colour capital r g b hr hg hb =
    let fits : ltb ((r * 256 + g) * 256 + b) (2 ^ 63) ≡ true = ground arith in
    rw (scan-hex_colour capital r g b hr hg hb, strtol, fits) refl

pub strtoul_colour :
    (capital : Bool) (r g b : ℕ)
    → r < 256
    → g < 256
    → b < 256
    → strtoul 16 (hex_colour capital r g b) ≡ ((r * 256 + g) * 256 + b, [])
unfolding strtoul
strtoul_colour capital r g b hr hg hb =
    let fits : ltb ((r * 256 + g) * 256 + b) (2 ^ 64) ≡ true = ground arith in
    rw (scan-hex_colour capital r g b hr hg hb, strtoul, fits) refl
