-- ===== src/Base64.antt =====
-- src/base64.c: the base64 decoder. `gcli_decode_base64` is `decode`, and
-- `gcli_base64_decode_print` is `decode_print`.
pub mod Bounds
pub mod Encoding
mod Groups
pub mod RoundTrip
mod Tests
use ghcli.Prelude.{
  ℕ, zero, suc, ◌+◌, ◌-◌, ◌*◌, ◌/◌, ◌%◌, ◌^◌, [], ◌∷◌, Bytes, codes, length, set, replicate, ltb,
  ◌==◌, if◌then◌else◌,
}

-- What the decoder reports by `gcli_error`.
pub data Error : Type 0 where
  invalid_input null_character : Error

-- `fault` is no value of the C code: a byte was written outside the buffer.
pub data Result {ℓ} (A : Type ℓ) : Type ℓ where
  ok : A → Result A
  err : Error → Result A
  fault : Result A

infixl 5 ◌>>=◌
abbrev pub ◌>>=◌ {ℓ κ} : {A : Type ℓ} {B : Type κ} → Result A → (A → Result B) → Result B
ok a >>= f = f a
err e >>= f = err e
fault >>= f = fault

abbrev pub digits : Bytes
digits = codes "ABCDEFGHIJKLMNOPQRSTUVWXYZabcdefghijklmnopqrstuvwxyz0123456789+/"

-- The linear search for `digit`: the index of the first match, or the length (64) if there is none.
unfoldable pub index_of : Bytes → ℕ → ℕ
index_of [] digit = 0
index_of (d ∷ ds) digit = if d == digit then 0 else suc (index_of ds digit)

unfoldable pub sextet_of : ℕ → ℕ
unfolding index_of
sextet_of = index_of digits

-- `buffer[i] = v`
unfoldable pub store : Bytes → ℕ → ℕ → Result Bytes
store buffer i v = if ltb i (length buffer) then ok (set buffer i v) else fault

-- `while (bits_rem > 0)`: the first argument is `bits_rem / 8`, and `bits_rem` is a multiple of 8
-- at both places where the loop is entered. Returns `octets` and the buffer.
unfoldable pub flush : ℕ → ℕ → ℕ → Bytes → Result (ℕ × Bytes)
flush zero octets len buffer = ok (octets, buffer)
flush (suc k) octets len buffer =
    if octets % 256 == 0
    then err null_character
    else store buffer (len + suc k - 1) (octets % 256) >>= λ buffer'.
        flush k (octets / 256) len buffer'

-- The `do … while (bits_rem % 8 != 0)` over the padding; the head of the list is `digit`, and the
-- end of the list is the NUL. Returns `octets`, `bits_rem` and what stands from `digit` on.
unfoldable pub skip_padding : Bytes → ℕ → ℕ → Result (ℕ × ℕ × Bytes)
skip_padding [] octets bits_rem = err invalid_input
skip_padding (digit ∷ input) octets bits_rem =
    let again = skip_padding input (octets / 4) (bits_rem - 2) in
    if digit == b'='
    then (if (bits_rem - 2) % 8 == 0 then ok (octets / 4, bits_rem - 2, input) else again)
    else err invalid_input

-- `if (digit) return gcli_error(…)`, then the last bytes.
unfoldable pub finish_padding : Bytes → ℕ → ℕ → ℕ → Bytes → Result Bytes
finish_padding (digit ∷ input) octets bits_rem len buffer = err invalid_input
finish_padding [] octets bits_rem len buffer = do
  (octets', buffer') ← flush (bits_rem / 8) octets len buffer
  ok buffer'

-- `if (digit == '=') { … }`, with the input from that digit on.
unfoldable pub decode_padding : Bytes → ℕ → ℕ → ℕ → Bytes → Result Bytes
decode_padding input octets bits_rem len buffer =
    if bits_rem % 8 == 0
    then err invalid_input
    else skip_padding input octets bits_rem >>= λ (octets', bits_rem', rest).
        finish_padding rest octets' bits_rem' len buffer

-- `while ((digit = *input++))`. `octets` is a 64-bit word; the six low bits that the shift frees
-- are 0, so the `|` is a `+`.
unfoldable pub decode_loop : Bytes → ℕ → ℕ → ℕ → Bytes → Result Bytes
decode_loop [] octets bits_rem len buffer = if ltb 0 bits_rem then err invalid_input else ok buffer
decode_loop (digit ∷ input) octets bits_rem len buffer =
    let sextet = sextet_of digit in
    let octets' = octets * 64 % 2 ^ 64 + sextet in
    let full = flush 3 octets' len buffer >>= λ (octets'', buffer').
    decode_loop input octets'' 0 (len + 3) buffer' in
    let more = decode_loop input octets' (bits_rem + 6) len buffer in
    if digit == b'='
    then decode_padding (digit ∷ input) octets bits_rem len buffer
    else if sextet == 64
    then err invalid_input
    else if bits_rem + 6 == 24
    then full
    else more

unfoldable pub decode : Bytes → ℕ → Result Bytes
decode input buffer_size = decode_loop input 0 0 0 (replicate buffer_size 0)

-- What `gcli_base64_decode_print` writes to `out`.
unfoldable pub decode_print : Bytes → Result Bytes
decode_print input = decode input (length input / 4 * 3)
