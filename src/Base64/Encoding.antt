-- ===== src/Base64/Encoding.antt =====
-- The base64 encoding of RFC 4648, section 4, and how src/base64.c looks its characters up.
use ghcli.Prelude.{
  if◌then◌else◌, ℕ, zero, suc, ◌+◌, ◌*◌, ◌/◌, ◌%◌, ◌<◌, ◌≡◌, refl, true, false, Bool, [], ◌∷◌,
  Bytes, ◌==◌, if◌then◌else◌, arith,
}
use ghcli.Base64.{digits, index_of, sextet_of}

-- The character of a sextet: its place in the alphabet.
nth : Bytes → ℕ → ℕ
nth [] n = 0
nth (d ∷ ds) zero = d
nth (d ∷ ds) (suc n) = nth ds n

unfoldable pub char_of : ℕ → ℕ
unfolding nth
char_of n = nth digits n

-- The encoding of RFC 4648: three bytes make four sextets, from the top bits down, and a last
-- group of one or two bytes is padded by `=`.
unfoldable pub encode : Bytes → Bytes
encode [] = []
encode (a ∷ []) = char_of (a / 4) ∷ char_of (a % 4 * 16) ∷ b'=' ∷ b'=' ∷ []
encode (a ∷ b ∷ []) =
    char_of (a / 4) ∷ char_of (a % 4 * 16 + b / 16) ∷ char_of (b % 16 * 4) ∷ b'=' ∷ []
encode (a ∷ b ∷ c ∷ bytes) =
    char_of (a / 4)
    ∷ char_of (a % 4 * 16 + b / 16)
    ∷ char_of (b % 16 * 4 + c / 64)
    ∷ char_of (c % 64)
    ∷ encode bytes

-- A byte that is not NUL.
abbrev pub IsTextByte : ℕ → Type 0
IsTextByte b = (0 < b) × (b < 256)

-- A test passes at every number under a bound.
passes : (ℕ → Bool) → ℕ → Bool
passes test zero = true
passes test (suc bound) = if test bound then passes test bound else false

passes-lt : (test : ℕ → Bool) (bound k : ℕ) → k < bound → passes test bound ≡ true → test k ≡ true
unfolding passes
passes-lt test zero k small h = elim small [ ]
passes-lt test (suc bound) k small h = ground (arith, passes-lt test bound k)

abbrev is_digit_of : ℕ → Bool
is_digit_of n = sextet_of (char_of n) == n

alphabet : passes is_digit_of 64 ≡ true
unfolding passes sextet_of index_of char_of
alphabet = refl

-- Each sextet is found again at its character.
pub sextet_of-char_of : (n : ℕ) → n < 64 → sextet_of (char_of n) ≡ n
sextet_of-char_of n h = let e = passes-lt is_digit_of 64 n h alphabet in ground arith

abbrev is_no_padding : ℕ → Bool
is_no_padding n = if char_of n == b'=' then false else true

no_padding : passes is_no_padding 64 ≡ true
unfolding passes char_of
no_padding = refl

pub char_of-ne-padding : (n : ℕ) → n < 64 → (char_of n == b'=') ≡ false
char_of-ne-padding n h = let e = passes-lt is_no_padding 64 n h no_padding in ground arith
