-- ===== src/Colour.antt =====
-- src/cmd/colour.c: terminal escape sequences, and the cache of the 24-bit ones. `have_colours` is
-- what `gcli_config_have_colours` answers.
pub mod Cache
mod Tests
use ghcli.Decimal.{show}
use Prim.Native.Nat.{bit_and}
use ghcli.Prelude.{
  ◌∙◌, ℕ, zero, suc, Bool-cases, ◌+◌, ◌-◌, ◌*◌, ◌/◌, ◌%◌, ◌^◌, ◌≤◌, ◌<◌, ◌≡◌, ◌≢◌, ◌⊎◌, inl, inr,
  refl, sym, ap, true, false, Bool, not, List, [], ◌∷◌, ◌++◌, Bytes, length, length-append,
  replicate, length-replicate, All, All-append, ltb, leb, ◌==◌, map, if◌then◌else◌, arith,
  append-nil, append_assoc, ◌&&◌, ◌||◌, codes, Option, none, some, ℤ, pos, negsuc,
}

-- `colour_table[0 .. colour_table_size)`: codes with their sequences, oldest first.
abbrev pub Cache : Type 0
Cache = List (ℕ × Bytes)

-- The size of the static array.
abbrev pub cache_size : ℕ
cache_size = 1024

-- `fault` is no value of the C code: an entry was written behind the end of the array.
pub data Result {ℓ} (A : Type ℓ) : Type ℓ where
  ok : A → Result A
  fault : Result A

unfoldable pub cache_lookup : Cache → ℕ → Option Bytes
cache_lookup [] code = none
cache_lookup ((c, sequence) ∷ table) code =
    if c == code then some sequence else cache_lookup table code

unfoldable pub cache_insert : Cache → ℕ → Bytes → Result Cache
cache_insert table code sequence =
    if ltb (length table) cache_size then ok (table ++ ((code, sequence) ∷ [])) else fault

-- `%02d` of a number below 100 or more.
unfoldable pub two_digits : ℕ → Bytes
two_digits n = if ltb n 10 then b'0' ∷ show n else show n

abbrev pub escape : Bytes → Bytes
escape text = 0x1b ∷ text

-- `"\033[48;2;%02d;%02d;%02dm"` of the three bytes of a 32-bit code.
unfoldable pub sequence_of : ℕ → Bytes
sequence_of code =
    escape (codes "[48;2;")
    ++ (two_digits (bit_and code 0xFF000000 / 2 ^ 24)
        ++ (codes ";"
            ++ (two_digits (bit_and code 0x00FF0000 / 2 ^ 16)
                ++ (codes ";" ++ (two_digits (bit_and code 0x0000FF00 / 2 ^ 8) ++ codes "m")))))

-- The sequence, and the cache with it.
unfoldable pub setcolour256 : Bool → Cache → ℕ → Result (Cache × Bytes)
setcolour256 have_colours table code =
    if have_colours
    then elim (cache_lookup table code) as (λ _. Result (Cache × Bytes)) [
      | some oldresult ↦ ok (table, oldresult)
      | none ↦ elim (cache_insert table code (sequence_of code)) as (λ _. Result (Cache × Bytes)) [
        | ok table' ↦ ok (table', sequence_of code)
        | fault ↦ fault
      ]
    ]
    else ok (table, [])

-- `GCLI_COLOR_…`
pub data Colour : Type 0 where
  black red green yellow blue magenta cyan white default_colour : Colour

unfoldable pub colour_sequence : Colour → Bytes
colour_sequence black = escape (codes "[30m")
colour_sequence red = escape (codes "[31m")
colour_sequence green = escape (codes "[32m")
colour_sequence yellow = escape (codes "[33m")
colour_sequence blue = escape (codes "[34m")
colour_sequence magenta = escape (codes "[35m")
colour_sequence cyan = escape (codes "[36m")
colour_sequence white = escape (codes "[37m")
colour_sequence default_colour = escape (codes "[39m")

unfoldable pub setcolour : Bool → Colour → Bytes
unfolding colour_sequence
setcolour have_colours code = if have_colours then colour_sequence code else []

unfoldable pub resetcolour : Bool → Bytes
resetcolour have_colours = if have_colours then escape (codes "[m") else []

unfoldable pub setbold : Bool → Bytes
setbold have_colours = if have_colours then escape (codes "[1m") else []

unfoldable pub resetbold : Bool → Bytes
resetbold have_colours = if have_colours then escape (codes "[22m") else []

abbrev pub state_colour_table : List (Bytes × Colour)
state_colour_table =
    (codes "open", green)
    ∷ (codes "Open", green)
    ∷ (codes "active", green)
    ∷ (codes "success", green)
    ∷ (codes "APPROVED", green)
    ∷ (codes "merged", magenta)
    ∷ (codes "closed", red)
    ∷ (codes "Closed", red)
    ∷ (codes "failed", red)
    ∷ (codes "canceled", red)
    ∷ (codes "failure", red)
    ∷ (codes "running", blue)
    ∷ (codes "created", blue)
    ∷ (codes "New", blue)
    ∷ (codes "COMMENTED", blue)
    ∷ (codes "pending", cyan)
    ∷ (codes "In Progress", cyan)
    ∷ []

-- `sn_sv_has_prefix` of the sn library is an argument, `has_prefix`.
module _ (has_prefix : Bytes → Bytes → Bool) where
  unfoldable pub find_state : List (Bytes × Colour) → Bytes → Colour
  find_state [] state = default_colour
  find_state ((name, code) ∷ table) state =
      if has_prefix state name then code else find_state table state

  -- The state is never the null view here: `gcli_state_colour_str` answers that by "" before.
  unfoldable pub state_colour_sv : Bool → Bytes → Bytes
  unfolding find_state setcolour
  state_colour_sv have_colours state = setcolour have_colours (find_state state_colour_table state)

  unfoldable pub state_colour_str : Bool → Option Bytes → Bytes
  unfolding state_colour_sv
  state_colour_str have_colours none = []
  state_colour_str have_colours (some it) = state_colour_sv have_colours it
