-- ===== src/Json/Gen.antt =====
-- src/json_gen.c: the JSON generator, a buffer with a stack of the open scopes.
-- A function that may fail returns the generator with `true` for the C code's 0 and `false` for its
-- -1. The code puts an `assert(0)` in front of each -1: with assertions on it aborts there instead.
pub mod Calls
mod Buffer
mod Growth
pub mod Bounds
pub mod Document
mod Render
pub mod Refine
pub mod Misuse
mod Tests
use ghcli.Decimal.{show, show_int}
use ghcli.Json.Escape.{escape}
use ghcli.Prelude.{
  ℕ, zero, suc, ◌+◌, ◌-◌, ◌*◌, ◌%◌, ◌^◌, Bool, true, false, not, ◌&&◌, List, [], ◌∷◌, ◌++◌, Bytes,
  codes, length, ltb, leb, if◌then◌else◌, ℤ,
}

-- `GCLI_JSONGEN_ARRAY`, `GCLI_JSONGEN_OBJECT`.
pub data Scope : Type 0 where
  array object : Scope

-- `struct gcli_jsongen`. `buffer` holds the `buffer_size` bytes written so far; `scopes` is the
-- stack `scopes[0 .. scopes_size)`, its top first.
pub record Gen : Type 0 where
  pub buffer : Bytes
  pub buffer_capacity : ℕ
  pub scopes : List Scope
  pub await_object_value : Bool
  pub first_elem : Bool

abbrev pub Reply : Type 0
Reply = Gen × Bool

-- One call after another, up to the first that fails.
infixl 5 ◌then_on◌
abbrev pub ◌then_on◌ : Reply → (Gen → Reply) → Reply
(g, true) then_on f = f g
(g, false) then_on f = (g, false)

-- `sizeof(gen->scopes) / sizeof(*gen->scopes)`
abbrev pub max_scopes : ℕ
max_scopes = 32

-- `buffer_capacity *= 2` on a `size_t`.
abbrev pub grow_buffer : ℕ → ℕ
grow_buffer capacity = capacity * 2 % 2 ^ 64

unfoldable pub init : Gen
init = record {
  buffer = [];
  buffer_capacity = grow_buffer 16;
  scopes = [];
  await_object_value = false;
  first_elem = true;
}

unfoldable pub free : Gen → Gen
free gen = record gen { buffer = []; buffer_capacity = 0; scopes = [] }

unfoldable pub to_string : Gen → Bytes
to_string gen = gen.buffer

-- `while (buffer_capacity - buffer_size < n_chars) grow_buffer(gen);`, on fuel.
unfoldable pub fit_loop : ℕ → ℕ → ℕ → ℕ → ℕ
fit_loop zero size n_chars capacity = capacity
fit_loop (suc fuel) size n_chars capacity =
    let more = fit_loop fuel size n_chars (grow_buffer capacity) in
    if ltb (capacity - size) n_chars then more else capacity

-- Each round adds a byte at least, so `n_chars` rounds are enough.
unfoldable pub fit : Gen → ℕ → Gen
fit gen n_chars = record gen {
  buffer_capacity = fit_loop n_chars (length gen.buffer) n_chars gen.buffer_capacity;
}

abbrev push_scope : Gen → Scope → Reply
push_scope gen scope =
    if leb max_scopes (length gen.scopes)
    then (gen, false)
    else (record gen { scopes = scope ∷ gen.scopes }, true)

-- `scopes_size == 0` answers -1, which is no scope.
abbrev pub top_is : Scope → List Scope → Bool
top_is array (array ∷ scopes) = true
top_is object (object ∷ scopes) = true
top_is _ _ = false

abbrev pub tail : List Scope → List Scope
tail [] = []
tail (s ∷ scopes) = scopes

-- `pop_scope(gen) == scope`: the scope is popped whatever it is.
abbrev pop_scope : Gen → Scope → Reply
pop_scope gen scope = (record gen { scopes = tail gen.scopes }, top_is scope gen.scopes)

abbrev pub is_array_or_object_scope : Gen → Bool
is_array_or_object_scope gen = ltb 0 (length gen.scopes)

abbrev pub is_object_scope : Gen → Bool
is_object_scope gen = top_is object gen.scopes

unfoldable pub append_str : Gen → Bytes → Gen
unfolding fit
append_str gen str = record (fit gen (length str)) { buffer = gen.buffer ++ str }

-- `append_strf`, of the formatted text: there must be room for its NUL too. The text has fewer than
-- 2 ^ 31 bytes, so that vsnprintf returns its length; it answers -1 for a longer one.
unfoldable pub append_strf : Gen → Bytes → Gen
unfolding fit
append_strf gen str = record (fit gen (length str + 1)) { buffer = gen.buffer ++ str }

unfoldable pub put_comma_if_needed : Gen → Gen
unfolding append_str
put_comma_if_needed gen =
    let comma = append_str gen (codes ", ") in
    record (if not gen.await_object_value && not gen.first_elem && is_array_or_object_scope gen
      then comma
      else gen) { first_elem = false }

-- What `begin_object` and `begin_array` share; they differ in the scope and the bracket.
unfoldable pub begin_scope : Scope → Bytes → Gen → Reply
unfolding put_comma_if_needed append_str
begin_scope scope bracket gen =
    if is_object_scope gen && not gen.await_object_value
    then (gen, false)
    else push_scope (put_comma_if_needed gen) scope then_on λ gen'.
        (record (append_str gen' bracket) { first_elem = true }, true)

-- What `end_object` and `end_array` share.
unfoldable pub end_scope : Scope → Bytes → Gen → Reply
unfolding append_str
end_scope scope bracket gen = pop_scope gen scope then_on λ gen'.
    (record (append_str gen' bracket) { await_object_value = false; first_elem = false }, true)

unfoldable pub begin_object : Gen → Reply
unfolding begin_scope
begin_object = begin_scope object (codes "{")

unfoldable pub end_object : Gen → Reply
unfolding end_scope
end_object = end_scope object (codes "}")

unfoldable pub begin_array : Gen → Reply
unfolding begin_scope
begin_array = begin_scope array (codes "[")

unfoldable pub end_array : Gen → Reply
unfolding end_scope
end_array = end_scope array (codes "]")

unfoldable pub objmember : Bytes → Gen → Reply
unfolding put_comma_if_needed append_strf
objmember key gen = if not (is_object_scope gen) then (gen, false) else (
  record (append_strf (put_comma_if_needed gen) (b'"' ∷ (escape key ++ codes "\": "))) {
    first_elem = false;
    await_object_value = true;
  },
  true,
)

-- What the calls for a single value share: the text of the value, and the flags.
unfoldable pub put_value : Bytes → Gen → Reply
unfolding put_comma_if_needed append_strf
put_value text gen = (
  record (append_strf (put_comma_if_needed gen) text) {
    await_object_value = false;
    first_elem = false;
  },
  true,
)

unfoldable pub number : ℤ → Gen → Reply
unfolding put_value
number n = put_value (show_int n)

unfoldable pub id : ℕ → Gen → Reply
unfolding put_value
id n = put_value (show n)

unfoldable pub bool : Bool → Gen → Reply
unfolding put_value
bool value = put_value (if value then codes "true" else codes "false")

unfoldable pub string : Bytes → Gen → Reply
unfolding put_value
string value = put_value (b'"' ∷ (escape value ++ codes "\""))

-- `append_str`, which leaves no room for a NUL.
unfoldable pub null : Gen → Reply
unfolding put_comma_if_needed append_str
null gen = (
  record (append_str (put_comma_if_needed gen) (codes "null")) {
    await_object_value = false;
    first_elem = false;
  },
  true,
)
