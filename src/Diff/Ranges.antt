-- ===== src/Diff/Ranges.antt =====
-- src/diffutil.c: `parse_hunk_range_info`, the line in front of a hunk.
pub mod Fields
pub mod RoundTrip
mod Tests
use ghcli.Decimal.{show, is_digit, read_digits}
use ghcli.Diff.Comments.{between, drop}
use ghcli.Diff.Lines.{Parser, Token, nextline, expect_prefix}
use ghcli.Prelude.{
  ◌∙◌, ℕ, zero, suc, Bool-cases, ◌+◌, ◌-◌, ◌*◌, ◌/◌, ◌%◌, ◌^◌, ◌≤◌, ◌<◌, ◌≡◌, ◌≢◌, ◌⊎◌, inl, inr,
  refl, sym, ap, true, false, Bool, not, List, [], ◌∷◌, ◌++◌, Bytes, length, length-append,
  replicate, length-replicate, All, All-append, ltb, leb, ◌==◌, map, if◌then◌else◌, arith,
  append-nil, append_assoc, ◌&&◌, ◌||◌, codes, Option, none, some, ℤ, pos, negsuc,
}

-- `none` is the -1.
infixl 5 ◌>>=◌
abbrev ◌>>=◌ {ℓ κ} : {A : Type ℓ} {B : Type κ} → Option A → (A → Option B) → Option B
none >>= f = none
some a >>= f = f a

-- What the parser fills in of `struct gcli_diff_hunk`; a length that is not given stays 0.
pub record Range : Type 0 where
  pub range_r_start : ℤ
  pub range_r_length : ℤ
  pub range_a_start : ℤ
  pub range_a_length : ℤ
  pub context_info : Bytes

-- The value of `strtol`, a `long` where out of range gives the bound, as an `int`.
unfoldable pub to_int : Bool → ℕ → ℤ
to_int negative n =
    let m =
      if negative
      then (2 ^ 64 - (if ltb (2 ^ 63) n then 2 ^ 63 else n)) % 2 ^ 32
      else (if leb (2 ^ 63) n then 2 ^ 63 - 1 else n) % 2 ^ 32 in
    if ltb m (2 ^ 31) then pos m else negsuc (2 ^ 32 - 1 - m)

-- `isspace` in the C locale.
abbrev is_space : ℕ → Bool
is_space c = c == b' ' || (leb 9 c && leb c 13)

abbrev skip_space : Bytes → Bytes
skip_space [] = []
skip_space (c ∷ text) = let rest = skip_space text in if is_space c then rest else c ∷ text

abbrev read_sign : Bytes → Bool × Bytes
read_sign [] = (false, [])
read_sign (c ∷ text) =
    if c == b'-' then (true, text) else if c == b'+' then (false, text) else (false, c ∷ text)

abbrev starts_digit : Bytes → Bool
starts_digit [] = false
starts_digit (c ∷ text) = is_digit c

-- `read_number(t, 10, out)`
unfoldable pub read_number : Token → Option (ℤ × Token)
read_number t =
    let signed = read_sign (skip_space t.start) in
    let digits = read_digits 0 signed.1 in
    if starts_digit signed.1
    then some (to_int signed.0 digits.0, record t { start = digits.1 })
    else none

-- A start, and behind a comma a length.
unfoldable pub read_range : Token → Option (ℤ × ℤ × Token)
read_range t = read_number t >>= λ (start, t'). elim t'.start as (λ _. Option (ℤ × ℤ × Token)) [
  | [] ↦ none
  | delim ∷ text ↦
      let with_length =
        read_number (record t' { start = text }) >>= λ (len, t''). some (start, len, t'') in
      if delim == b',' then with_length else if delim == b' ' then some (start, pos 0, t') else none
]

-- Behind the second "@@": nothing, or a space and the context.
unfoldable pub read_context : Token → Option Bytes
read_context t = elim t.start as (λ _. Option Bytes) [
  | [] ↦ some []
  | c ∷ text ↦
      if length t.start == length t.end
      then some []
      else if c == b' '
      then some (between text t.end)
      else none
]

unfoldable pub parse_line : Token → Option Range
parse_line line = do
  t1 ← expect_prefix line (codes "@@ -")
  (r_start, r_length, t2) ← read_range t1
  t3 ← expect_prefix t2 (codes " +")
  (a_start, a_length, t4) ← read_range t3
  t5 ← expect_prefix t4 (codes " @@")
  context ← read_context t5
  some (record {
    range_r_start = r_start;
    range_r_length = r_length;
    range_a_start = a_start;
    range_a_length = a_length;
    context_info = context;
  })

abbrev pub starts_at : Bytes → Bool
starts_at [] = false
starts_at (c ∷ text) = c == b'@'

-- `parse_hunk_range_info`
unfoldable pub parse_hunk_range_info : Parser → Option (Range × Parser)
parse_hunk_range_info parser =
    let parsed = nextline parser.hd >>= λ line. parse_line line >>= λ range.
    some (range, record { hd = drop 1 line.end; diff_line_offset = parser.diff_line_offset + 1 }) in
    if starts_at parser.hd then parsed else none
