-- ===== src/Json/Readers/Advance.antt =====
-- src/json_util.c: `gcli_json_advance` as a match of the tokens in front.
use ghcli.Json.Readers.{or_failed}
use ghcli.Json.Readers.Members.{IsToken}
use ghcli.Json.Readers.Objects.{advance_one, json_advance}
use ghcli.CString.{str_eq}
use ghcli.Json.Stream.{
  JsonType, object, object_end, array, array_end, string, number, same, Pdjson, Token, plain, text,
  num, type_of, IsLawful, Shows,
}
use ghcli.Prelude.{
  ℕ, ◌≤◌, ◌≡◌, true, false, Bool, List, [], ◌∷◌, Bytes, length, All, map, if◌then◌else◌, arith,
}
use ghcli.Prelude.{Result, ok, failed, ◌>>=◌}

-- What a character of a format, with its argument, stands for.
pub data Pattern : Type 0 where
  array_begin array_finish object_begin object_finish integer : Pattern
  exactly : Bytes → Pattern

-- The character.
abbrev pub char_of : Pattern → ℕ
char_of array_begin = b'['
char_of array_finish = b']'
char_of object_begin = b'{'
char_of object_finish = b'}'
char_of integer = b'i'
char_of (exactly it) = b's'

-- The arguments behind the format.
abbrev pub arguments : List Pattern → List Bytes
arguments [] = []
arguments (exactly it ∷ ps) = it ∷ arguments ps
arguments (array_begin ∷ ps) = arguments ps
arguments (array_finish ∷ ps) = arguments ps
arguments (object_begin ∷ ps) = arguments ps
arguments (object_finish ∷ ps) = arguments ps
arguments (integer ∷ ps) = arguments ps

-- The token of a pattern without an argument.
abbrev type_for : Pattern → JsonType
type_for array_begin = array
type_for array_finish = array_end
type_for object_begin = object
type_for object_finish = object_end
type_for integer = number
type_for (exactly it) = string

abbrev pub has_text : {N : Type 0} → Bytes → Token N → Bool
has_text it (text b) = str_eq it b
has_text it (plain t) = false
has_text it (num n) = false

abbrev pub accepts : {N : Type 0} → Pattern → Token N → Bool
accepts (exactly it) t = has_text it t
accepts array_begin t = same (type_of t) array
accepts array_finish t = same (type_of t) array_end
accepts object_begin t = same (type_of t) object
accepts object_finish t = same (type_of t) object_end
accepts integer t = same (type_of t) number

-- The tokens behind those that the patterns accept one by one.
abbrev pub match_tokens : {N : Type 0} → List Pattern → List (Token N) → Result (List (Token N))
match_tokens [] ts = ok ts
match_tokens (p ∷ ps) [] = failed
match_tokens (p ∷ ps) (t ∷ ts) =
    let rest = match_tokens ps ts in if accepts p t then rest else failed

module _ (P : Pdjson) (laws : IsLawful P) where
  -- The call succeeds, and the stream goes on with these tokens; or it fails.
  abbrev pub Reaches : Result P.Stream → Result (List (Token P.Number)) → Type 0
  Reaches (ok s) (ok ts) = laws.Yields s ts
  Reaches failed failed = Unit
  Reaches _ _ = ⊥

  chosen :
      (b : Bool) (args : List Bytes) (s : P.Stream) (loop : List Bytes → P.Stream → Result P.Stream)
      (result : Result (List (Token P.Number)))
      → Reaches (loop args s) result
      → Reaches
          ((or_failed b (ok s) >>= λ s'. ok (args, s')) >>= λ (args', s'). loop args' s')
          (if b then result else failed)
  chosen true args s loop result h = h
  chosen false args s loop result h = tt

  chosen_text :
      (b : Bool) (args : List Bytes) (s : P.Stream) (loop : List Bytes → P.Stream → Result P.Stream)
      (result : Result (List (Token P.Number)))
      → Reaches (loop args s) result
      → Reaches
          (or_failed b (ok (args, s)) >>= λ (args', s'). loop args' s')
          (if b then result else failed)
  chosen_text true args s loop result h = h
  chosen_text false args s loop result h = tt

  one_token :
      (p : Pattern) (ps : List Pattern) (t : Token P.Number) (s : P.Stream)
      (loop : List Bytes → P.Stream → Result P.Stream) (result : Result (List (Token P.Number)))
      → IsToken t
      → ((P.next s).0 ≡ type_of t)
      → Shows P (P.next s).1 t
      → Reaches (loop (arguments ps) (P.next s).1) result
      → Reaches
          (advance_one P (char_of p) (arguments (p ∷ ps)) s >>= λ (args, s'). loop args s')
          (if accepts p t then result else failed)
  one_token array_begin ps t s loop result good type shows h =
      rw type (chosen (same (type_of t) array) _ _ loop result h)
  one_token array_finish ps t s loop result good type shows h =
      rw type (chosen (same (type_of t) array_end) _ _ loop result h)
  one_token object_begin ps t s loop result good type shows h =
      rw type (chosen (same (type_of t) object) _ _ loop result h)
  one_token object_finish ps t s loop result good type shows h =
      rw type (chosen (same (type_of t) object_end) _ _ loop result h)
  one_token integer ps t s loop result good type shows h =
      rw type (chosen (same (type_of t) number) _ _ loop result h)
  one_token (exactly it) ps (plain t) s loop result good type shows h = rw (type, good) tt
  one_token (exactly it) ps (num n) s loop result good type shows h = rw type tt
  one_token (exactly it) ps (text b) s loop result good type shows h =
      rw (type, shows) (chosen_text (str_eq it b) _ _ loop result h)

  -- If pdjson does what it promises and there are tokens enough: gcli_json_advance with the format and
  -- the arguments of a list of patterns succeeds exactly if the tokens in front match the patterns one
  -- by one, and then the stream goes on behind them; otherwise it fails.
  pub json_advance-match_tokens :
      (ps : List Pattern) (ts : List (Token P.Number)) (s : P.Stream)
      → length ps ≤ length ts
      → All IsToken ts
      → laws.Yields s ts
      → Reaches (json_advance P (map char_of ps) (arguments ps) s) (match_tokens ps ts)
  unfolding json_advance
  json_advance-match_tokens [] ts s le good yields = yields
  json_advance-match_tokens (p ∷ ps) [] s le good yields = absurd (omega arith)
  json_advance-match_tokens (p ∷ ps) (t ∷ ts) s le (good, more) yields =
      let (type, shows, goes) = laws.next-token t yields in
      one_token p ps t s (λ args s'. json_advance P (map char_of ps) args s') (match_tokens ps ts)
        good type shows (json_advance-match_tokens ps ts _ (omega arith) more goes)
