-- ===== src/Base64/Groups.antt =====
-- src/base64.c, step by step: the decoder over one group of characters.
use ghcli.Prelude.{
  ◌∙◌, ℕ, suc, ◌+◌, ◌-◌, ◌*◌, ◌/◌, ◌%◌, ◌^◌, ◌<◌, ◌≡◌, refl, ap, false, [], ◌∷◌, ◌++◌, Bytes,
  length, length-append, set, ◌==◌, arith,
}
use ghcli.Base64.{ok, flush, skip_padding, finish_padding, decode_padding, decode_loop, ◌>>=◌}
use native.Mathlib.Nat.{zero-add, suc-add}
use ghcli.Base64.Bounds.{store_lem}
use ghcli.Base64.Encoding.{char_of, encode, IsTextByte, sextet_of-char_of, char_of-ne-padding}

set-append :
    (out rest : Bytes) (i v : ℕ) → set (out ++ rest) (length out + i) v ≡ out ++ set rest i v
set-append [] rest i v = rw (zero-add)
set-append (x ∷ out) rest i v = rw (suc-add, set-append out rest i v)

flush_step :
    (k octets v : ℕ) (out rest : Bytes)
    → 0 < v
    → v < 256
    → octets % 256 ≡ v
    → k < length rest
    → flush (suc k) octets (length out) (out ++ rest)
      ≡ flush k (octets / 256) (length out) (out ++ set rest k v)
unfolding flush
flush_step k octets v out rest h0 h h% hk =
    let e : length out + suc k - 1 ≡ length out + k = omega arith in
    let text : (v == 0) ≡ false = ground arith in
    rw (
      h%,
      e,
      text,
      store_lem (out ++ rest) (length out + k) v (omega (arith, length-append out rest)),
      set-append out rest k v,
    )

flush_three :
    (a b c x y z : ℕ) (out rest : Bytes)
    → IsTextByte a
    → IsTextByte b
    → IsTextByte c
    → flush 3 (a * 65536 + b * 256 + c) (length out) (out ++ (x ∷ y ∷ z ∷ rest))
      ≡ ok (0, out ++ (a ∷ b ∷ c ∷ rest))
unfolding flush
flush_three a b c x y z out rest (a0, ha) (b0, hb) (c0, hc) =
    let o = a * 65536 + b * 256 + c in
    let done : o / 256 / 256 / 256 ≡ 0 = omega arith in
    flush_step 2 o c out (x ∷ y ∷ z ∷ rest) c0 hc (omega arith) (omega arith)
    ∙ flush_step 1 (o / 256) b out (x ∷ y ∷ c ∷ rest) b0 hb (omega arith) (omega arith)
    ∙ flush_step 0 (o / 256 / 256) a out (x ∷ b ∷ c ∷ rest) a0 ha (omega arith) (omega arith)
    ∙ ap (λ n. ok (n, out ++ (a ∷ b ∷ c ∷ rest))) done

flush_two :
    (a b x y : ℕ) (out rest : Bytes)
    → IsTextByte a
    → IsTextByte b
    → flush 2 (a * 256 + b) (length out) (out ++ (x ∷ y ∷ rest)) ≡ ok (0, out ++ (a ∷ b ∷ rest))
unfolding flush
flush_two a b x y out rest (a0, ha) (b0, hb) =
    let o = a * 256 + b in
    let done : o / 256 / 256 ≡ 0 = omega arith in
    flush_step 1 o b out (x ∷ y ∷ rest) b0 hb (omega arith) (omega arith)
    ∙ flush_step 0 (o / 256) a out (x ∷ b ∷ rest) a0 ha (omega arith) (omega arith)
    ∙ ap (λ n. ok (n, out ++ (a ∷ b ∷ rest))) done

flush_one :
    (a x : ℕ) (out rest : Bytes)
    → IsTextByte a
    → flush 1 a (length out) (out ++ (x ∷ rest)) ≡ ok (0, out ++ (a ∷ rest))
unfolding flush
flush_one a x out rest (a0, ha) =
    let done : a / 256 ≡ 0 = omega arith in
    flush_step 0 a a out (x ∷ rest) a0 ha (omega arith) (omega arith)
    ∙ ap (λ n. ok (n, out ++ (a ∷ rest))) done

digit_step :
    (n octets bits_rem len : ℕ) (input buffer : Bytes)
    → n < 64
    → bits_rem < 18
    → octets < 2 ^ 18
    → decode_loop (char_of n ∷ input) octets bits_rem len buffer
      ≡ decode_loop input (octets * 64 + n) (bits_rem + 6) len buffer
unfolding decode_loop
digit_step n octets bits_rem len input buffer hn hb ho =
    let w : octets * 64 % 2 ^ 64 ≡ octets * 64 = omega arith in
    rw (char_of-ne-padding n hn, sextet_of-char_of n hn, w) (ground arith)

last_digit_step :
    (n octets len : ℕ) (input buffer : Bytes)
    → n < 64
    → octets < 2 ^ 18
    → decode_loop (char_of n ∷ input) octets 18 len buffer ≡ (
        flush 3 (octets * 64 + n) len buffer >>= λ (octets', buffer').
        decode_loop input octets' 0 (len + 3) buffer')
unfolding decode_loop
last_digit_step n octets len input buffer hn ho =
    let w : octets * 64 % 2 ^ 64 ≡ octets * 64 = omega arith in
    rw (char_of-ne-padding n hn, sextet_of-char_of n hn, w) (ground arith)

-- A whole group of four characters.
pub group_step :
    (a b c x y z : ℕ) (input out rest : Bytes)
    → IsTextByte a
    → IsTextByte b
    → IsTextByte c
    → decode_loop
        (char_of (a / 4)
          ∷ char_of (a % 4 * 16 + b / 16)
          ∷ char_of (b % 16 * 4 + c / 64)
          ∷ char_of (c % 64)
          ∷ input)
        0
        0
        (length out)
        (out ++ (x ∷ y ∷ z ∷ rest))
      ≡ decode_loop input 0 0 (length out + 3) (out ++ (a ∷ b ∷ c ∷ rest))
group_step a b c x y z input out rest ta tb tc =
    let s₁ = a / 4 in
    let s₂ = a % 4 * 16 + b / 16 in
    let s₃ = b % 16 * 4 + c / 64 in
    let buffer : Bytes = out ++ (x ∷ y ∷ z ∷ rest) in
    let o : ((0 * 64 + s₁) * 64 + s₂) * 64 + s₃ ≡ a * 1024 + b * 4 + c / 64 = omega arith in
    let o' : (a * 1024 + b * 4 + c / 64) * 64 + c % 64 ≡ a * 65536 + b * 256 + c = omega arith in
    digit_step s₁ 0 0 (length out) _ buffer (omega arith) (omega arith) (omega arith)
    ∙ digit_step s₂ (0 * 64 + s₁) 6 (length out) _ buffer (omega arith) (omega arith) (omega arith)
    ∙ digit_step s₃ ((0 * 64 + s₁) * 64 + s₂) 12 (length out) _ buffer (omega arith) (omega arith)
        (omega arith)
    ∙ ap (λ n. decode_loop (char_of (c % 64) ∷ input) n 18 (length out) buffer) o
    ∙ last_digit_step (c % 64) (a * 1024 + b * 4 + c / 64) (length out) input buffer (omega arith)
        (omega arith)
    ∙ rw (o', flush_three a b c x y z out rest ta tb tc)

last_pad :
    (octets len : ℕ) (buffer : Bytes)
    → decode_loop (b'=' ∷ []) octets 18 len buffer
      ≡ (flush 2 (octets / 4) len buffer >>= λ (o, buffer'). ok buffer')
unfolding decode_loop decode_padding skip_padding finish_padding
last_pad octets len buffer = refl

two_pads :
    (octets len : ℕ) (buffer : Bytes)
    → decode_loop (b'=' ∷ b'=' ∷ []) octets 12 len buffer
      ≡ (flush 1 (octets / 4 / 4) len buffer >>= λ (o, buffer'). ok buffer')
unfolding decode_loop decode_padding skip_padding finish_padding
two_pads octets len buffer = refl

-- The padded group of two bytes, and of one.
pub pad_two :
    (a b x y : ℕ) (out rest : Bytes)
    → IsTextByte a
    → IsTextByte b
    → decode_loop (encode (a ∷ b ∷ [])) 0 0 (length out) (out ++ (x ∷ y ∷ rest))
      ≡ ok (out ++ (a ∷ b ∷ rest))
unfolding encode
pad_two a b x y out rest ta tb =
    let s₁ = a / 4 in
    let s₂ = a % 4 * 16 + b / 16 in
    let s₃ = b % 16 * 4 in
    let buffer : Bytes = out ++ (x ∷ y ∷ rest) in
    let o : (((0 * 64 + s₁) * 64 + s₂) * 64 + s₃) / 4 ≡ a * 256 + b = omega arith in
    digit_step s₁ 0 0 (length out) _ buffer (omega arith) (omega arith) (omega arith)
    ∙ digit_step s₂ (0 * 64 + s₁) 6 (length out) _ buffer (omega arith) (omega arith) (omega arith)
    ∙ digit_step s₃ ((0 * 64 + s₁) * 64 + s₂) 12 (length out) _ buffer (omega arith) (omega arith)
        (omega arith)
    ∙ last_pad (((0 * 64 + s₁) * 64 + s₂) * 64 + s₃) (length out) buffer
    ∙ rw (o, flush_two a b x y out rest ta tb)

pub pad_one :
    (a x : ℕ) (out rest : Bytes)
    → IsTextByte a
    → decode_loop (encode (a ∷ [])) 0 0 (length out) (out ++ (x ∷ rest)) ≡ ok (out ++ (a ∷ rest))
unfolding encode
pad_one a x out rest ta =
    let s₁ = a / 4 in
    let s₂ = a % 4 * 16 in
    let buffer : Bytes = out ++ (x ∷ rest) in
    let o : ((0 * 64 + s₁) * 64 + s₂) / 4 / 4 ≡ a = omega arith in
    digit_step s₁ 0 0 (length out) _ buffer (omega arith) (omega arith) (omega arith)
    ∙ digit_step s₂ (0 * 64 + s₁) 6 (length out) _ buffer (omega arith) (omega arith) (omega arith)
    ∙ two_pads ((0 * 64 + s₁) * 64 + s₂) (length out) buffer
    ∙ rw (o, flush_one a x out rest ta)
