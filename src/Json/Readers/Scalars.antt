-- ===== src/Json/Readers/Scalars.antt =====
-- src/json_util.c: the readers of colours and of numbers in strings.
use ghcli.Decimal.{show_int}
use ghcli.Strtol.Printed.{IsLong, strtol-show_int}
use ghcli.Strtol.{hex_colour, strtol_colour, strtoul_colour}
use ghcli.Json.Readers.{
  get_string, get_github_style_colour, get_gitlab_style_colour, get_int_to_string, get_long,
  to_signed, get_parse_int,
}
use ghcli.Json.Readers.Members.{Leaves}
use ghcli.Json.Stream.{string, Pdjson, Token, text, num, IsLawful}
use ghcli.Prelude.{ℕ, ◌+◌, ◌*◌, ◌<◌, ◌≡◌, refl, Bool, List, ◌∷◌, Bytes, arith, ℤ, pos, negsuc}
use ghcli.Prelude.{ok}

to_signed-IsLong : (z : ℤ) → IsLong z → to_signed 63 z ≡ ok z
to_signed-IsLong (pos n) h = ground arith
to_signed-IsLong (negsuc n) h = ground arith

module _ (P : Pdjson) (laws : IsLawful P) where
  get_string-text :
      (s : P.Stream) (b : Bytes)
      → ((P.next s).0 ≡ string)
      → P.get_string (P.next s).1 ≡ b
      → get_string P s ≡ ok (b, (P.next s).1)
  unfolding get_string
  get_string-text s b type shows = rw (type, shows) refl

  -- If pdjson does what it promises: from the string `rrggbb` get_github_style_colour reads the number
  -- 0xrrggbb00, and so does get_gitlab_style_colour from the string with one more byte in front.
  pub get_github_style_colour-hex_colour :
      (capital : Bool) (r g b c : ℕ) (s : P.Stream) (s' : P.Stream) (rest : List (Token P.Number))
      → r < 256
      → g < 256
      → b < 256
      → laws.Yields s (text (hex_colour capital r g b) ∷ rest)
      → laws.Yields s' (text (c ∷ hex_colour capital r g b) ∷ rest)
      → Leaves P laws (get_github_style_colour P s) (ok (((r * 256 + g) * 256 + b) * 256)) rest
        × Leaves P laws (get_gitlab_style_colour P s') (ok (((r * 256 + g) * 256 + b) * 256)) rest
  unfolding get_github_style_colour get_gitlab_style_colour
  get_github_style_colour-hex_colour capital r g b c s s' rest hr hg hb yields yields' =
      let (type, shows, goes) = laws.next-token (text (hex_colour capital r g b)) yields in
      let (type', shows', goes') = laws.next-token (text (c ∷ hex_colour capital r g b)) yields' in
      (
        rw (get_string-text s _ type shows, strtoul_colour capital r g b hr hg hb)
            (omega arith, goes),
        rw (get_string-text s' _ type' shows', strtol_colour capital r g b hr hg hb)
            (omega arith, goes'),
      )

  -- If pdjson does what it promises: get_parse_int_ reads back the number that get_int_to_string_ prints,
  -- for every long that pdjson yields.
  pub get_parse_int-get_int_to_string :
      (n : P.Number) (s s' : P.Stream) (rest rest' : List (Token P.Number))
      → IsLong (P.truncate n)
      → laws.Yields s (num n ∷ rest)
      → laws.Yields s' (text (show_int (P.truncate n)) ∷ rest')
      → Leaves P laws (get_int_to_string P s) (ok (show_int (P.truncate n))) rest
        × Leaves P laws (get_parse_int P s') (ok (P.truncate n)) rest'
  unfolding get_int_to_string get_parse_int get_long
  get_parse_int-get_int_to_string n s s' rest rest' fits yields yields' =
      let (type, shows, goes) = laws.next-token (num n) yields in
      let (type', shows', goes') = laws.next-token (text (show_int (P.truncate n))) yields' in
      (
        rw (type, shows, to_signed-IsLong (P.truncate n) fits) (refl, goes),
        rw (get_string-text s' _ type' shows', strtol-show_int (P.truncate n) fits) (refl, goes'),
      )
