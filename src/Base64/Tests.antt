-- ===== src/Base64/Tests.antt =====
-- Runs of the decoder of src/base64.c, and its theorems at concrete inputs.
use ghcli.Prelude.{◌%◌, ◌≡◌, ◌≢◌, refl, [], ◌∷◌, ◌++◌, length, All, arith, codes}
use ghcli.Base64.{
  ok, err, fault, null_character, invalid_input, sextet_of, store, flush, skip_padding,
  finish_padding, decode_padding, decode_loop, decode, decode_print,
}
use ghcli.Base64.Bounds.{IsBase64Char, decode-ne-fault, decode-eq-ok}
use ghcli.Base64.Encoding.{encode}
use ghcli.Base64.RoundTrip.{decode-encode, decode_print-encode}

decode_hello : decode (codes "aGVsbG8=") 6 ≡ ok (codes "hello" ++ (0 ∷ []))
unfolding decode decode_loop decode_padding skip_padding finish_padding flush store sextet_of
decode_hello = refl

-- A single sextet with three padding characters is accepted, and gives no byte.
decode_short : decode (codes "A===") 3 ≡ ok (0 ∷ 0 ∷ 0 ∷ [])
unfolding decode decode_loop decode_padding skip_padding finish_padding flush store sextet_of
decode_short = refl

decode_nul : decode (codes "QQBB") 3 ≡ err null_character
unfolding decode decode_loop decode_padding skip_padding finish_padding flush store sextet_of
decode_nul = refl

decode_cut : decode (codes "QUJD" ++ codes "Q") 3 ≡ err invalid_input
unfolding decode decode_loop decode_padding skip_padding finish_padding flush store sextet_of
decode_cut = refl

decode-ne-fault_example : decode (codes "aGVsbG8=") 6 ≢ fault
decode-ne-fault_example = decode-ne-fault (codes "aGVsbG8=") 6 (omega arith)

decode-eq-ok_example :
    (8 % 4 ≡ 0) × (length (codes "hello" ++ (0 ∷ [])) ≡ 6) × All IsBase64Char (codes "aGVsbG8=")
decode-eq-ok_example =
    decode-eq-ok (codes "aGVsbG8=") 6 (codes "hello" ++ (0 ∷ [])) (omega arith) decode_hello

decode-encode_example : decode (encode (codes "hello")) 6 ≡ ok (codes "hello" ++ (0 ∷ []))
decode-encode_example = decode-encode (codes "hello") 6 (omega arith) (omega arith)

decode_print-encode_example : decode_print (encode (codes "hello")) ≡ ok (codes "hello" ++ (0 ∷ []))
decode_print-encode_example = decode_print-encode (codes "hello") (omega arith)
