-- ===== src/UrlEncode.antt =====
-- src/curl.c: `gcli_urlencode_sv` and `gcli_urlencode`. `isalnum` is that of the C locale.
pub mod RoundTrip
mod Tests
use ghcli.Prelude.{
  ◌∙◌, ℕ, zero, suc, Bool-cases, ◌+◌, ◌-◌, ◌*◌, ◌/◌, ◌%◌, ◌^◌, ◌≤◌, ◌<◌, ◌≡◌, ◌≢◌, ◌⊎◌, inl, inr,
  refl, sym, ap, true, false, Bool, not, List, [], ◌∷◌, ◌++◌, Bytes, length, length-append,
  replicate, length-replicate, All, All-append, ltb, leb, ◌==◌, map, if◌then◌else◌, arith,
  append-nil, append_assoc, ◌&&◌, ◌||◌, codes, Option, none, some, ℤ, pos, negsuc,
}

abbrev pub is_alnum : ℕ → Bool
is_alnum c =
    (leb b'0' c && leb c b'9') || ((leb b'A' c && leb c b'Z') || (leb b'a' c && leb c b'z'))

-- A digit of `%X`.
unfoldable pub hex_digit : ℕ → ℕ
hex_digit n = if ltb n 10 then n + b'0' else n - 10 + b'A'

-- `snprintf(…, 4, "%%%2.2X", val)` of a byte.
unfoldable pub percent : ℕ → Bytes
percent val = b'%' ∷ hex_digit (val / 16) ∷ hex_digit (val % 16) ∷ []

-- One round of the loop.
unfoldable pub urlencode_char : ℕ → Bytes
urlencode_char c =
    if not (is_alnum c) && (not (c == b'-') && not (c == b'_')) then percent c else c ∷ []

-- `gcli_urlencode_sv`; `gcli_urlencode` is the same on the bytes of a C string.
unfoldable pub urlencode : Bytes → Bytes
unfolding urlencode_char percent hex_digit
urlencode [] = []
urlencode (c ∷ input) = urlencode_char c ++ urlencode input
