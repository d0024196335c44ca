-- ===== src/UrlEncode/RoundTrip.antt =====
-- src/curl.c: what `gcli_urlencode` promises to whoever decodes the text.
use ghcli.UrlEncode.{is_alnum, hex_digit, percent, urlencode_char, urlencode}
use ghcli.Prelude.{
  ℕ, Bool-cases, ◌+◌, ◌-◌, ◌*◌, ◌/◌, ◌%◌, ◌≤◌, ◌<◌, ◌≡◌, inl, inr, refl, ap, true, false, not, [],
  ◌∷◌, ◌++◌, Bytes, length, length-append, All, All-append, leb, ◌==◌, if◌then◌else◌, arith, ◌&&◌,
  ◌||◌, Option, none, some,
}

-- A hexadecimal digit, in either case.
abbrev unhex : ℕ → Option ℕ
unhex c =
    if leb b'0' c && leb c b'9'
    then some (c - b'0')
    else if leb b'A' c && leb c b'F'
    then some (c - b'A' + 10)
    else if leb b'a' c && leb c b'f'
    then some (c - b'a' + 10)
    else none

abbrev add_byte : Option ℕ → Option ℕ → Option Bytes → Option Bytes
add_byte (some hi) (some lo) (some rest) = some ((hi * 16 + lo) ∷ rest)
add_byte _ _ _ = none

abbrev add_plain : ℕ → Option Bytes → Option Bytes
add_plain c none = none
add_plain c (some rest) = some (c ∷ rest)

-- Percent-decoding by RFC 3986, section 2.1.
unfoldable pub urldecode : Bytes → Option Bytes
urldecode [] = some []
urldecode (c ∷ []) = if c == b'%' then none else some (c ∷ [])
urldecode (c ∷ h ∷ []) = if c == b'%' then none else add_plain c (urldecode (h ∷ []))
urldecode (c ∷ h ∷ l ∷ text) =
    let escaped = add_byte (unhex h) (unhex l) (urldecode text) in
    let plain = add_plain c (urldecode (h ∷ l ∷ text)) in if c == b'%' then escaped else plain

abbrev pub IsByte : ℕ → Type 0
IsByte b = b < 256

-- Letters, digits, `-`, `_` and `%`: no character that has a meaning in a URL.
abbrev pub IsUrlSafe : ℕ → Type 0
IsUrlSafe c = (is_alnum c || (c == b'-' || (c == b'_' || c == b'%'))) ≡ true

unhex-hex_digit : (n : ℕ) → n < 16 → unhex (hex_digit n) ≡ some n
unfolding hex_digit
unhex-hex_digit n h = ground arith

urldecode-percent :
    (c : ℕ) (text out : Bytes)
    → IsByte c
    → urldecode text ≡ some out
    → urldecode (percent c ++ text) ≡ some (c ∷ out)
unfolding urldecode percent
urldecode-percent c text out h e =
    rw (unhex-hex_digit (c / 16) (omega arith), unhex-hex_digit (c % 16) (omega arith), e)
      (ap (λ n. some (n ∷ out)) (omega arith))

pub urldecode_plain :
    (c : ℕ) (text out : Bytes)
    → (c == b'%') ≡ false
    → urldecode text ≡ some out
    → urldecode (c ∷ text) ≡ some (c ∷ out)
unfolding urldecode
urldecode_plain c [] out h e = ground arith
urldecode_plain c (x ∷ []) out h e = rw (h, e)
urldecode_plain c (x ∷ y ∷ text) out h e = rw (h, e)

pub urldecode-urlencode_char :
    (c : ℕ) (text out : Bytes)
    → IsByte c
    → urldecode text ≡ some out
    → urldecode (urlencode_char c ++ text) ≡ some (c ∷ out)
unfolding urlencode_char
urldecode-urlencode_char c text out h e =
    elim (Bool-cases (not (is_alnum c) && (not (c == b'-') && not (c == b'_')))) [
      | inl special ↦ rw special (urldecode-percent c text out h e)
      | inr plain ↦ rw plain (urldecode_plain c text out (ground arith) e)
    ]

-- Percent-decoding gives back every sequence of bytes.
pub urldecode-urlencode :
    (input : Bytes) → All IsByte input → urldecode (urlencode input) ≡ some input
unfolding urlencode
urldecode-urlencode [] h = unfold urldecode in refl
urldecode-urlencode (c ∷ input) (h, hs) =
    urldecode-urlencode_char c (urlencode input) input h (urldecode-urlencode input hs)

urlencode_char-IsUrlSafe : (c : ℕ) → IsByte c → All IsUrlSafe (urlencode_char c)
unfolding urlencode_char percent hex_digit
urlencode_char-IsUrlSafe c h =
    elim (Bool-cases (not (is_alnum c) && (not (c == b'-') && not (c == b'_')))) [
      | inl special ↦
          rw special
            (refl, (digit_safe (c / 16) (omega arith), (digit_safe (c % 16) (omega arith), tt)))
      | inr plain ↦ rw plain (ground arith, tt)
    ]
  where
    digit_safe : (n : ℕ) → n < 16 → IsUrlSafe (hex_digit n)
    digit_safe n k = ground arith

length-urlencode_char : (c : ℕ) → length (urlencode_char c) ≤ 3
unfolding urlencode_char percent
length-urlencode_char c = ground arith

-- The encoded text has no character but letters, digits, `-`, `_` and `%`, and fits the
-- `3 * length + 1` bytes allocated for it, with its NUL.
pub urlencode_safe :
    (input : Bytes)
    → All IsByte input
    → All IsUrlSafe (urlencode input) × (length (urlencode input) < 3 * length input + 1)
unfolding urlencode
urlencode_safe [] h = (tt, omega arith)
urlencode_safe (c ∷ input) (h, hs) =
    let (safe, fits) = urlencode_safe input hs in
    (
      All-append IsUrlSafe (urlencode_char c) (urlencode input) (urlencode_char-IsUrlSafe c h) safe,
      omega
          (arith, length-append {0} (urlencode_char c) (urlencode input), length-urlencode_char c),
    )
