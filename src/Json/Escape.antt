-- ===== src/Json/Escape.antt =====
-- src/json_util.c: `gcli_json_escape`.
pub mod Laws
use ghcli.Prelude.{ℕ, List, [], ◌∷◌, ◌++◌, Bytes, ◌==◌, if◌then◌else◌, codes}

-- `json_escape_table`: the character, and what it is replaced with.
abbrev pub escape_table : List (ℕ × Bytes)
escape_table =
    (b'\n', b'\\' ∷ b'n' ∷ [])
    ∷ (b'\t', b'\\' ∷ b't' ∷ [])
    ∷ (b'\r', b'\\' ∷ b'r' ∷ [])
    ∷ (b'\\', b'\\' ∷ b'\\' ∷ [])
    ∷ (b'"', b'\\' ∷ b'"' ∷ [])
    ∷ []

-- The inner loop: the first entry for the character, or the character itself.
unfoldable pub escape_char : List (ℕ × Bytes) → ℕ → Bytes
escape_char [] c = c ∷ []
escape_char ((special, with_) ∷ table) c = if special == c then with_ else escape_char table c

-- The data of the result; its `length` is that of the list.
unfoldable pub escape : Bytes → Bytes
escape [] = []
escape (c ∷ it) = escape_char escape_table c ++ escape it
