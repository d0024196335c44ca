-- ===== src/Json/Readers/Members.antt =====
-- src/json_util.c: `get_user_` and `get_label_` on an object.
use ghcli.Json.Readers.{Read, or_failed}
use ghcli.Json.Readers.Objects.{string_loop, get_user, get_label}
use ghcli.CString.{str_eq}
use ghcli.Json.Stream.{
  object, object_end, string, same, Pdjson, Token, plain, text, num, type_of, IsLawful, Shows,
}
use ghcli.Prelude.{
  ℕ, zero, suc, ◌<◌, ◌≡◌, refl, sym, ap, true, false, Bool, List, [], ◌∷◌, ◌++◌, Bytes, length, All,
  if◌then◌else◌, arith, codes, Option, none, some,
}
use ghcli.Prelude.{Result, ok, failed, fault, ◌>>=◌}

-- A key, and the one token that is read for its value.
abbrev pub Pair : Type 0 → Type 0
Pair N = Bytes × Token N

abbrev pub pair_tokens : {N : Type 0} → List (Pair N) → List (Token N) → List (Token N)
pair_tokens [] rest = rest
pair_tokens ((key, token) ∷ pairs) rest = text key ∷ (token ∷ pair_tokens pairs rest)

abbrev pub string_of : {N : Type 0} → Token N → Result (Option Bytes)
string_of (text b) = ok (some b)
string_of (plain t) = failed
string_of (num n) = failed

-- The string at the last of the members with a key, if all of these have strings.
abbrev pub last_string : {N : Type 0} → Bytes → List (Pair N) → Option Bytes → Result (Option Bytes)
last_string key [] out = ok out
last_string key ((k, token) ∷ pairs) out =
    if str_eq key k
    then (string_of token >>= λ out'. last_string key pairs out')
    else last_string key pairs out

-- No token of a string without its text.
abbrev pub IsToken : {N : Type 0} → Token N → Type 0
IsToken (plain t) = same t string ≡ false
IsToken (text b) = Unit
IsToken (num n) = Unit

pair_tokens-append :
    {N : Type 0} (pairs more : List (Pair N)) (rest : List (Token N))
    → pair_tokens (pairs ++ more) rest ≡ pair_tokens pairs (pair_tokens more rest)
pair_tokens-append [] more rest = refl
pair_tokens-append ((k, token) ∷ pairs) more rest =
    ap (λ ts. text k ∷ (token ∷ ts)) (pair_tokens-append pairs more rest)

last_string_other :
    {N : Type 0} (key k : Bytes) (token : Token N) (pairs more : List (Pair N)) (out : Option Bytes)
    → str_eq key k ≡ false
    → last_string key (pairs ++ ((k, token) ∷ more)) out ≡ last_string key (pairs ++ more) out
last_string_other key k token [] more out other = rw other refl
last_string_other key k token ((k', plain t) ∷ pairs) more out other =
    rw (last_string_other key k token pairs more out other) refl
last_string_other key k token ((k', num n) ∷ pairs) more out other =
    rw (last_string_other key k token pairs more out other) refl
last_string_other key k token ((k', text b) ∷ pairs) more out other =
    rw
      (
        last_string_other key k token pairs more (some b) other,
        last_string_other key k token pairs more out other,
      )
      refl

module _ (P : Pdjson) (laws : IsLawful P) where
  -- The call comes to the result, and the stream goes on with `rest`.
  abbrev pub Leaves : {A : Type 0} → Read P A → Result A → List (Token P.Number) → Type 0
  Leaves (ok (a, s)) (ok b) rest = (a ≡ b) × laws.Yields s rest
  Leaves failed failed rest = Unit
  Leaves fault fault rest = Unit
  Leaves _ _ rest = ⊥

  -- The body of the loop, if the rest of the loop does what it should.
  member_step :
      (key : Bytes) (pairs : List (Pair P.Number)) (s : P.Stream) (out : Option Bytes)
      (rest : List (Token P.Number)) (loop : P.Stream → Option Bytes → Read P (Option Bytes))
      (token : Token P.Number) (b : Bool)
      → Shows P s token
      → IsToken token
      → ((out' : Option Bytes) → Leaves (loop s out') (last_string key pairs out') rest)
      → Leaves
          ((if b
              then or_failed (same (type_of token) string) (ok (some (P.get_string s), s))
              else ok (out, s))
            >>= λ (out', s'). loop s' out')
          (if b
            then (string_of token >>= λ out'. last_string key pairs out')
            else last_string key pairs out)
          rest
  member_step key pairs s out rest loop token false shows good goes = goes out
  member_step key pairs s out rest loop (plain t) true shows good goes = rw good tt
  member_step key pairs s out rest loop (num n) true shows good goes = tt
  member_step key pairs s out rest loop (text b) true shows good goes = rw shows (goes (some b))

  string_loop-last_string :
      (key : Bytes) (pairs : List (Pair P.Number)) (fuel : ℕ) (s : P.Stream) (out : Option Bytes)
      (end : Token P.Number) (rest : List (Token P.Number))
      → length pairs < fuel
      → All (λ p. IsToken p.1) pairs
      → same (type_of end) string ≡ false
      → laws.Yields s (pair_tokens pairs (end ∷ rest))
      → Leaves (string_loop P key fuel s out) (last_string key pairs out) rest
  unfolding string_loop
  string_loop-last_string key pairs zero s out end rest lt tokens stop yields = absurd (omega arith)
  string_loop-last_string key [] (suc fuel) s out end rest lt tokens stop yields =
      let (type, shows, goes) = laws.next-token end yields in rw (type, stop) (refl, goes)
  string_loop-last_string key ((k, token) ∷ pairs) (suc fuel) s out end rest lt (good, tokens) stop
        yields =
      let (type, shows, goes) = laws.next-token (text k) yields in
      let (type', shows', goes') = laws.next-token token goes in
      rw (type, shows, type')
        (member_step key pairs _ out rest (string_loop P key fuel) token (str_eq key k) shows' good
          (λ out'.
            string_loop-last_string key pairs fuel _ out' end rest (omega arith) tokens stop goes'))

  -- The object with these members.
  abbrev object_tokens : List (Pair P.Number) → List (Token P.Number) → List (Token P.Number)
  object_tokens pairs rest = plain object ∷ pair_tokens pairs (plain object_end ∷ rest)

  -- If pdjson does what it promises, on an object whose members have one token each, with a round of
  -- fuel more than there are members: get_user_ and get_label_ come to the string at the last member
  -- with the key of the forge, or with the key "name", and to an error if the value of such a member
  -- is no string; without such a member nothing is written. The stream goes on behind the object.
  pub get_user-last_string :
      (key : Bytes) (pairs : List (Pair P.Number)) (fuel : ℕ) (s : P.Stream)
      (rest : List (Token P.Number))
      → length pairs < fuel
      → All (λ p. IsToken p.1) pairs
      → laws.Yields s (object_tokens pairs rest)
      → Leaves (get_user P fuel key s) (last_string key pairs none) rest
        × Leaves (get_label P fuel s) (last_string (codes "name") pairs none) rest
  unfolding get_user get_label
  get_user-last_string key pairs fuel s rest lt tokens yields =
      let (type, shows, goes) = laws.next-token (plain object) yields in
      rw type (
        string_loop-last_string key pairs fuel _ none (plain object_end) rest lt tokens refl goes,
        string_loop-last_string (codes "name") pairs fuel _ none (plain object_end) rest lt tokens
            refl goes,
      )

  -- If a member of the object has an object as its value (whose key is another one), then get_user_ takes
  -- the members of that object for members of the user, and leaves the stream behind the inner object:
  -- the members after it are not read.
  pub get_user_nested :
      (key k : Bytes) (pairs inner more : List (Pair P.Number)) (fuel : ℕ) (s : P.Stream)
      (rest : List (Token P.Number))
      → length (pairs ++ ((k, plain object) ∷ inner)) < fuel
      → All (λ p. IsToken p.1) (pairs ++ ((k, plain object) ∷ inner))
      → str_eq key k ≡ false
      → laws.Yields s (
          plain object
          ∷ pair_tokens pairs
              (text k ∷ object_tokens inner (pair_tokens more (plain object_end ∷ rest))))
      → Leaves
          (get_user P fuel key s)
          (last_string key (pairs ++ inner) none)
          (pair_tokens more (plain object_end ∷ rest))
  unfolding get_user
  get_user_nested key k pairs inner more fuel s rest lt tokens other yields =
      let (type, shows, goes) = laws.next-token (plain object) yields in
      let end = pair_tokens more (plain object_end ∷ rest) in
      let split = pair_tokens-append pairs ((k, plain object) ∷ inner) (plain object_end ∷ end) in
      rw (type, sym (last_string_other key k (plain object) pairs inner none other))
        (string_loop-last_string key (pairs ++ ((k, plain object) ∷ inner)) fuel _ none
          (plain object_end) end lt tokens refl (rw split goes))
