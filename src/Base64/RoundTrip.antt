-- ===== src/Base64/RoundTrip.antt =====
-- src/base64.c: the decoder inverts the base64 encoding of RFC 4648, section 4.
use ghcli.Prelude.{
  ◌∙◌, ℕ, zero, suc, ◌+◌, ◌-◌, ◌*◌, ◌/◌, ◌%◌, ◌≤◌, ◌≡◌, refl, ap, [], ◌∷◌, ◌++◌, Bytes, length,
  length-append, replicate, All, arith, append_assoc,
}
use ghcli.Base64.{ok, decode_loop, decode, decode_print}
use native.Mathlib.Nat.{zero-add, suc-add}
use ghcli.Base64.Encoding.{encode, IsTextByte}
use ghcli.Base64.Groups.{group_step, pad_two, pad_one}

-- A buffer filled up to `out`, over what is left to decode.
decode_loop-encode :
    (bytes out rest : Bytes) (k : ℕ)
    → All IsTextByte bytes
    → k ≡ length bytes
    → decode_loop (encode bytes) 0 0 (length out) (out ++ (replicate k 0 ++ rest))
      ≡ ok (out ++ (bytes ++ rest))
unfolding encode
decode_loop-encode [] out rest k t h = rw h (unfold decode_loop in refl)
decode_loop-encode (a ∷ []) out rest k (ta, t) h = rw h (pad_one a 0 out rest ta)
decode_loop-encode (a ∷ b ∷ []) out rest k (ta, (tb, t)) h = rw h (pad_two a b 0 0 out rest ta tb)
decode_loop-encode (a ∷ b ∷ c ∷ bytes) out rest k (ta, (tb, (tc, t))) h = rw h (
    group_step a b c 0 0 0 (encode bytes) out (replicate (length bytes) 0 ++ rest) ta tb tc
    ∙ (rw (length-append, append_assoc, append_assoc) at
        (decode_loop-encode bytes (out ++ (a ∷ b ∷ c ∷ [])) rest (length bytes) t refl)))

replicate-add : (k m : ℕ) → replicate {A = ℕ} (k + m) 0 ≡ replicate k 0 ++ replicate m 0
replicate-add zero m = rw zero-add
replicate-add (suc k) m = rw (suc-add, replicate-add k m)

-- Any text without NUL bytes is read back from its encoding, and zeros fill the rest of the
-- buffer, if the buffer has room for the text.
pub decode-encode :
    (bytes : Bytes) (n : ℕ)
    → All IsTextByte bytes
    → length bytes ≤ n
    → decode (encode bytes) n ≡ ok (bytes ++ replicate (n - length bytes) 0)
unfolding decode
decode-encode bytes n t h =
    let k = length bytes in
    let e : n ≡ k + (n - k) = omega arith in
    ap (λ m. decode_loop (encode bytes) 0 0 0 (replicate m 0)) e
    ∙ rw (replicate-add k (n - k)) (decode_loop-encode bytes [] (replicate (n - k) 0) k t refl)

length-encode : (bytes : Bytes) → length (encode bytes) ≡ (length bytes + 2) / 3 * 4
unfolding encode
length-encode [] = refl
length-encode (a ∷ []) = refl
length-encode (a ∷ b ∷ []) = refl
length-encode (a ∷ b ∷ c ∷ bytes) = omega (arith, length-encode bytes)

-- What is printed for the encoding of a text without NUL bytes: the text, and behind it one zero
-- byte for every padding character, since the whole buffer is written.
pub decode_print-encode :
    (bytes : Bytes)
    → All IsTextByte bytes
    → decode_print (encode bytes) ≡ ok (bytes ++ replicate ((3 - length bytes % 3) % 3) 0)
unfolding decode_print
decode_print-encode bytes t =
    let l = length bytes in
    let size : length (encode bytes) / 4 * 3 - l ≡ (3 - l % 3) % 3 =
      omega (arith, length-encode bytes) in
    decode-encode bytes (length (encode bytes) / 4 * 3) t (omega (arith, length-encode bytes))
    ∙ ap (λ k. ok (bytes ++ replicate k 0)) size
