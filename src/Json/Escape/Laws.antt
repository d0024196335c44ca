-- ===== src/Json/Escape/Laws.antt =====
-- src/json_util.c: what `gcli_json_escape` promises to a reader of the string.
use ghcli.Prelude.{
  ◌∙◌, ap, true, Bool, not, ltb, ◌&&◌, ◌||◌, ℕ, Bool-cases, ◌+◌, ◌*◌, ◌≤◌, ◌<◌, ◌≡◌, ◌≢◌, inl, inr,
  refl, false, [], ◌∷◌, ◌++◌, Bytes, length, length-append, ◌==◌, if◌then◌else◌, arith,
  append_assoc, Option, none, some,
}
use ghcli.Json.Escape.{escape_table, escape_char, escape}

-- The letter behind a backslash, by RFC 8259 (without \b, \f, \/ and \u, which are never written).
abbrev unescape : ℕ → Option ℕ
unescape c =
    if c == b'n'
    then some b'\n'
    else if c == b't'
    then some b'\t'
    else if c == b'r'
    then some b'\r'
    else if c == b'\\'
    then some b'\\'
    else if c == b'"'
    then some b'"'
    else none

abbrev cons_to : Option ℕ → Option (Bytes × Bytes) → Option (Bytes × Bytes)
cons_to (some c) (some (cs, rest)) = some (c ∷ cs, rest)
cons_to _ _ = none

-- The characters that `gcli_json_escape` does not leave as a raw control character.
abbrev pub is_writable : ℕ → Bool
is_writable c = not (ltb c 32) || (c == b'\n' || (c == b'\t' || c == b'\r'))

abbrev pub all_writable : Bytes → Bool
all_writable [] = true
all_writable (c ∷ it) = is_writable c && all_writable it

-- A reader of the characters of a JSON string behind the opening quote, by RFC 8259, section 7, which
-- has no raw control characters: the string, and the text behind the closing quote.
unfoldable pub read_string : Bytes → Option (Bytes × Bytes)
read_string [] = none
read_string (c ∷ []) = if c == b'"' then some ([], []) else none
read_string (c ∷ d ∷ cs) =
    let more : Option (Bytes × Bytes) = cons_to (some c) (read_string (d ∷ cs)) in
    let plain : Option (Bytes × Bytes) = if ltb c 32 then none else more in
    let special : Option (Bytes × Bytes) = cons_to (unescape d) (read_string cs) in
    if c == b'"' then some ([], d ∷ cs) else if c == b'\\' then special else plain

length-escape_char : (c : ℕ) → length (escape_char escape_table c) ≤ 2
unfolding escape_char
length-escape_char c = ground arith

-- The result fits the `2 * length + 1` bytes that are allocated for it, with its NUL.
pub length-escape : (it : Bytes) → length (escape it) < 2 * length it + 1
unfolding escape
length-escape [] = omega arith
length-escape (c ∷ it) = omega (
  arith,
  length-append {0} (escape_char escape_table c) (escape it),
  length-escape_char c,
  length-escape it,
)

-- A character is written as a backslash and a letter that stands for it, or as itself.
data Written (c : ℕ) : Bytes → Type 0 where
  special : (d : ℕ) → unescape d ≡ some c → is_writable c ≡ true → Written c (b'\\' ∷ d ∷ [])
  plain :
      (c == b'"') ≡ false
      → (c == b'\\') ≡ false
      → ltb c 32 ≡ not (is_writable c)
      → Written c (c ∷ [])

escape_char-Written : (c : ℕ) → Written c (escape_char escape_table c)
unfolding escape_char
escape_char-Written c = elim (Bool-cases (b'\n' == c)) [
  | inl h ↦ rw h (special b'n' (ground arith) (ground arith))
  | inr h₁ ↦ rw h₁ (elim (Bool-cases (b'\t' == c)) [
    | inl h ↦ rw h (special b't' (ground arith) (ground arith))
    | inr h₂ ↦ rw h₂ (elim (Bool-cases (b'\r' == c)) [
      | inl h ↦ rw h (special b'r' (ground arith) (ground arith))
      | inr h₃ ↦ rw h₃ (elim (Bool-cases (b'\\' == c)) [
        | inl h ↦ rw h (special b'\\' (ground arith) (ground arith))
        | inr h₄ ↦ rw h₄ (elim (Bool-cases (b'"' == c)) [
          | inl h ↦ rw h (special b'"' (ground arith) (ground arith))
          | inr h₅ ↦ rw h₅ (plain (ground arith) (ground arith) (ground arith))
        ])
      ])
    ])
  ])
]

unless-if :
    (b writable : Bool) (o : Option (Bytes × Bytes))
    → b ≡ not writable
    → (if b then none else o) ≡ (if writable then o else none)
unless-if true true o h = absurd (ground arith)
unless-if true false o h = refl
unless-if false true o h = refl
unless-if false false o h = absurd (ground arith)

read_string-Written :
    (c : ℕ) {w : Bytes} (e : Bytes)
    → Written c w
    → e ≢ []
    → read_string (w ++ e) ≡ (if is_writable c then cons_to (some c) (read_string e) else none)
unfolding read_string
read_string-Written c [] w ne = absurd (ne refl)
read_string-Written c (x ∷ e) (special d u k) ne = rw (u, k) refl
read_string-Written c (x ∷ e) (plain u v k) ne = rw (u, v) (unless-if _ (is_writable c) _ k)

escaped-ne-nil : (it rest : Bytes) → escape it ++ (b'"' ∷ rest) ≢ []
unfolding escape escape_char
escaped-ne-nil [] rest e = cc
escaped-ne-nil (c ∷ it) rest e = ground arith

-- What a reader finds, by what is written.
abbrev pub found_if : Bool → Bytes → Bytes → Option (Bytes × Bytes)
found_if writable it rest = if writable then some (it, rest) else none

cons_to-found_if :
    (a b : Bool) (c : ℕ) (it rest : Bytes)
    → (if a then cons_to (some c) (found_if b it rest) else none) ≡ found_if (a && b) (c ∷ it) rest
cons_to-found_if true true c it rest = refl
cons_to-found_if true false c it rest = refl
cons_to-found_if false b c it rest = refl

-- Whatever the string and the text behind it, a reader of JSON strings by RFC 8259 finds in the escaped
-- and quoted text exactly the string that was escaped, and stops at the closing quote, if each of its
-- control characters (below 0x20) is a newline, a tab or a carriage return; if it has another one,
-- which gcli_json_escape leaves as it is, the reader refuses the text.
pub read_string-escape :
    (it rest : Bytes)
    → read_string (escape it ++ (b'"' ∷ rest)) ≡ found_if (all_writable it) it rest
unfolding escape
read_string-escape [] [] = unfold read_string in refl
read_string-escape [] (r ∷ rest) = unfold read_string in refl
read_string-escape (c ∷ it) rest = rw append_assoc (
    read_string-Written c (escape it ++ (b'"' ∷ rest)) (escape_char-Written c)
      (escaped-ne-nil it rest)
    ∙ ap (λ (o : Option (Bytes × Bytes)). if is_writable c then cons_to (some c) o else none)
        (read_string-escape it rest)
    ∙ cons_to-found_if (is_writable c) (all_writable it) c it rest)
