-- ===== src/Json/Stream.antt =====
-- The token stream of the vendored library pdjson, as a record of operations and laws.
use ghcli.Prelude.{true, false, ℕ, ◌≡◌, Bool, List, ◌∷◌, Bytes, ◌==◌, ℤ}

-- `enum json_type`
pub data JsonType : Type 0 where
  error done object object_end array array_end string number true_value false_value null_value :
      JsonType

-- The numbers of the enumeration.
abbrev number_of : JsonType → ℕ
number_of error = 1
number_of done = 2
number_of object = 3
number_of object_end = 4
number_of array = 5
number_of array_end = 6
number_of string = 7
number_of number = 8
number_of true_value = 9
number_of false_value = 10
number_of null_value = 11

-- `==` on `enum json_type`
abbrev pub same : JsonType → JsonType → Bool
same a b = number_of a == number_of b

-- The functions of pdjson. A number is a `double`, with the conversion to an integer of C, and the
-- comparison with zero. A string is the one in front of the first NUL.
pub record Pdjson : Type 1 where
  pub Stream : Type 0
  pub Number : Type 0
  pub zero_number : Number
  pub truncate : Number → ℤ
  pub is_zero : Number → Bool
  pub next : Stream → JsonType × Stream
  pub peek : Stream → JsonType × Stream
  pub skip_until : JsonType → Stream → Stream
  pub get_string : Stream → Bytes
  pub get_number : Stream → Number

-- A token and its data.
pub data Token (N : Type 0) : Type 0 where
  plain : JsonType → Token N
  text : Bytes → Token N
  num : N → Token N

abbrev pub type_of : {N : Type 0} → Token N → JsonType
type_of (plain t) = t
type_of (text b) = string
type_of (num n) = number

-- JSON values without parts.
pub data Scalar (N : Type 0) : Type 0 where
  written : Bytes → Scalar N
  numeral : N → Scalar N
  truth : Bool → Scalar N
  nothing : Scalar N

abbrev pub token_of : {N : Type 0} → Scalar N → Token N
token_of (written b) = text b
token_of (numeral n) = num n
token_of (truth true) = plain true_value
token_of (truth false) = plain false_value
token_of nothing = plain null_value

-- JSON values.
mutual
  pub data Value (N : Type 0) : Type 0 where
    atom : Scalar N → Value N
    list : Values N → Value N
    obj : Members N → Value N

  pub data Values (N : Type 0) : Type 0 where
    nil : Values N
    cons : Value N → Values N → Values N

  pub data Members (N : Type 0) : Type 0 where
    none_left : Members N
    member : Bytes → Value N → Members N → Members N

unfoldable mutual
  pub tokens_of : {N : Type 0} → Value N → List (Token N) → List (Token N)
  tokens_of (atom a) rest = token_of a ∷ rest
  tokens_of (list vs) rest = plain array ∷ tokens_of_values vs (plain array_end ∷ rest)
  tokens_of (obj ms) rest = plain object ∷ tokens_of_members ms (plain object_end ∷ rest)

  pub tokens_of_values : {N : Type 0} → Values N → List (Token N) → List (Token N)
  tokens_of_values nil rest = rest
  tokens_of_values (cons v vs) rest = tokens_of v (tokens_of_values vs rest)

  pub tokens_of_members : {N : Type 0} → Members N → List (Token N) → List (Token N)
  tokens_of_members none_left rest = rest
  tokens_of_members (member k v ms) rest = text k ∷ tokens_of v (tokens_of_members ms rest)

-- The data that can be read behind a token.
abbrev pub Shows : (P : Pdjson) → Pdjson.Stream P → Token (Pdjson.Number P) → Type 0
Shows P s (plain t) = Unit {0}
Shows P s (text b) = Pdjson.get_string P s ≡ b
Shows P s (num n) = Pdjson.get_number P s ≡ n

-- What pdjson promises: `Yields s tokens` says that the stream goes on with these tokens.
pub record IsLawful (P : Pdjson) : Type 1 where
  pub Yields : P.Stream → List (Token P.Number) → Type 0
  pub next-token :
      {s : P.Stream} (t : Token P.Number) {ts : List (Token P.Number)}
      → Yields s (t ∷ ts)
      → ((P.next s).0 ≡ type_of t) × (Shows P (P.next s).1 t) × (Yields (P.next s).1 ts)
  pub peek-token :
      {s : P.Stream} (t : Token P.Number) {ts : List (Token P.Number)}
      → Yields s (t ∷ ts)
      → ((P.peek s).0 ≡ type_of t) × (Yields (P.peek s).1 (t ∷ ts))
  pub skip_until-array :
      {s : P.Stream} (vs : Values P.Number) {ts : List (Token P.Number)}
      → Yields s (tokens_of_values vs (plain array_end ∷ ts))
      → Yields (P.skip_until array_end s) ts
  pub skip_until-object :
      {s : P.Stream} (ms : Members P.Number) {ts : List (Token P.Number)}
      → Yields s (tokens_of_members ms (plain object_end ∷ ts))
      → Yields (P.skip_until object_end s) ts
