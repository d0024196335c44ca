-- ===== src/Base64/Bounds.antt =====
-- src/base64.c: every byte that the decoder writes lies in the buffer that
-- `gcli_base64_decode_print` allocates, and what inputs it accepts.
use ghcli.Prelude.{
  ◌∙◌, ℕ, zero, suc, Bool-cases, ◌+◌, ◌-◌, ◌*◌, ◌/◌, ◌%◌, ◌^◌, ◌≤◌, ◌<◌, ◌≡◌, ◌≢◌, ◌⊎◌, inl, inr,
  refl, [], ◌∷◌, Bytes, length, length-set, length-replicate, set, replicate, All, ltb, ◌==◌, arith,
}
use mathlib.Core.Path.{subst}
use ghcli.Base64.{
  Result, ◌>>=◌, ok, err, fault, null_character, digits, index_of, sextet_of, store, flush,
  skip_padding, finish_padding, decode_padding, decode_loop, decode,
}

-- A digit of the alphabet, or padding.
abbrev pub IsBase64Char : ℕ → Type 0
IsBase64Char c = (sextet_of c < 64) ⊎ (c ≡ b'=')

index_of-le : (ds : Bytes) (d : ℕ) → index_of ds d ≤ length ds
unfolding index_of
index_of-le [] d = omega arith
index_of-le (x ∷ ds) d = ground (arith, index_of-le ds d)

sextet_of-le : (d : ℕ) → sextet_of d ≤ 64
unfolding sextet_of
sextet_of-le d = index_of-le digits d

pub store_lem :
    (buffer : Bytes) (i v : ℕ) → i < length buffer → store buffer i v ≡ ok (set buffer i v)
unfolding store
store_lem buffer i v h = ground arith

-- A run over `k` bytes that fit ends with `octets >> 8 * k`, or at a zero byte.
pub flush-cases :
    (k octets len : ℕ) (buffer : Bytes)
    → len + k ≤ length buffer
    → (flush k octets len buffer ≡ err null_character)
      ⊎ ((o : ℕ) × (b : Bytes) × (flush k octets len buffer ≡ ok (o, b))
          × (length b ≡ length buffer))
unfolding flush
flush-cases zero octets len buffer h = inr (octets, buffer, refl, refl)
flush-cases (suc k) octets len buffer h =
    let i = len + suc k - 1 in
    let v = octets % 256 in
    ground (
      arith,
      store_lem buffer i v,
      length-set buffer i v,
      flush-cases k (octets / 256) len (set buffer i v),
    )

-- `8 * q + 2 * p` bits wait for `p` padding characters, and `q` whole bytes are left.
pub skip_padding-eq-ok :
    (input : Bytes) (p q octets bits_rem o b : ℕ) (rest : Bytes)
    → 1 ≤ p
    → p ≤ 3
    → bits_rem ≡ 8 * q + 2 * p
    → skip_padding input octets bits_rem ≡ ok (o, b, rest)
    → (b ≡ 8 * q) × (length input ≡ p + length rest)
unfolding skip_padding
skip_padding-eq-ok [] p q octets bits_rem o b rest h1 h3 hb e = cc
skip_padding-eq-ok (d ∷ input) p q octets bits_rem o b rest h1 h3 hb e =
    ground (arith, skip_padding-eq-ok input (p - 1) q (octets / 4) (bits_rem - 2) o b rest)

skip_padding-IsBase64Char :
    (input : Bytes) (octets bits_rem o b : ℕ)
    → skip_padding input octets bits_rem ≡ ok (o, b, [])
    → All IsBase64Char input
unfolding skip_padding
skip_padding-IsBase64Char [] octets bits_rem o b e = tt
skip_padding-IsBase64Char (d ∷ input) octets bits_rem o b e =
    ground (arith, skip_padding-IsBase64Char input (octets / 4) (bits_rem - 2) o b)

skip_padding-ne-fault :
    (input : Bytes) (octets bits_rem : ℕ) → skip_padding input octets bits_rem ≢ fault
unfolding skip_padding
skip_padding-ne-fault [] octets bits_rem e = cc
skip_padding-ne-fault (d ∷ input) octets bits_rem e =
    ground (arith, skip_padding-ne-fault input (octets / 4) (bits_rem - 2))

-- What a run over `input` promises, with `size` bytes of buffer and `j` sextets of the current
-- group read: no fault, and a success only on whole groups of base64 characters.
abbrev Outcome : ℕ → ℕ → Bytes → Result Bytes → Type 0
Outcome size j input (ok buffer) =
    ((j + length input) % 4 ≡ 0) × (length buffer ≡ size) × All IsBase64Char input
Outcome size j input (err e) = Unit
Outcome size j input fault = ⊥

finish_padding-Outcome :
    (input : Bytes) (j o b len : ℕ) (buffer : Bytes)
    → b ≡ 8 * (j - 1)
    → j ≤ 3
    → (j + length input) % 4 ≡ 0
    → All IsBase64Char input
    → len + (j - 1) ≤ length buffer
    → Outcome (length buffer) j input (finish_padding [] o b len buffer)
unfolding finish_padding
finish_padding-Outcome input j o b len buffer hb hj h4 all fits =
    elim (flush-cases (b / 8) o len buffer (omega arith)) [
      | inl e ↦ rw e tt
      | inr (o', buffer', e, same) ↦ rw e (h4, same, all)
    ]

skipped-Outcome :
    (r : Result (ℕ × ℕ × Bytes)) (input : Bytes) (j octets len : ℕ) (buffer : Bytes)
    → skip_padding input octets (6 * j) ≡ r
    → 1 ≤ j
    → j ≤ 3
    → len + 3 * ((j + length input) / 4) ≤ length buffer
    → Outcome
        (length buffer)
        j
        input
        (r >>= λ (octets', bits_rem', rest). finish_padding rest octets' bits_rem' len buffer)
skipped-Outcome (ok (o, b, [])) input j octets len buffer e h1 h3 fits =
    let (hb, hl) =
      skip_padding-eq-ok input (4 - j) (j - 1) octets (6 * j) o b [] (omega arith) (omega arith)
        (omega arith) e in
    finish_padding-Outcome input j o b len buffer hb h3 (omega arith)
      (skip_padding-IsBase64Char input octets (6 * j) o b e) (omega arith)
skipped-Outcome (ok (o, b, d ∷ rest)) input j octets len buffer e h1 h3 fits =
    unfold finish_padding in tt
skipped-Outcome (err x) input j octets len buffer e h1 h3 fits = tt
skipped-Outcome fault input j octets len buffer e h1 h3 fits =
    skip_padding-ne-fault input octets (6 * j) e

decode_padding-Outcome :
    (input : Bytes) (j octets len : ℕ) (buffer : Bytes)
    → j ≤ 3
    → len + 3 * ((j + length input) / 4) ≤ length buffer
    → Outcome (length buffer) j input (decode_padding input octets (6 * j) len buffer)
unfolding decode_padding
decode_padding-Outcome input j octets len buffer h fits = elim (Bool-cases (6 * j % 8 == 0)) [
  | inl none ↦ rw none tt
  | inr some ↦ rw some (skipped-Outcome _ input j octets len buffer refl (ground arith) h fits)
]

-- One more digit in front.
Outcome-cons :
    (r : Result Bytes) (size j : ℕ) (d : ℕ) (input : Bytes)
    → IsBase64Char d
    → Outcome size (j + 1) input r
    → Outcome size j (d ∷ input) r
Outcome-cons (ok buffer) size j d input h (h4, same, all) = (omega arith, same, (h, all))
Outcome-cons (err e) size j d input h o = tt
Outcome-cons fault size j d input h o = o

Outcome-group :
    (r : Result Bytes) (size size' j : ℕ) (input : Bytes)
    → size ≡ size'
    → j ≡ 4
    → Outcome size 0 input r
    → Outcome size' j input r
Outcome-group (ok buffer) size size' j input hs hj (h4, same, all) = (omega arith, same ∙ hs, all)
Outcome-group (err e) size size' j input hs hj o = tt
Outcome-group fault size size' j input hs hj o = o

decode_loop-Outcome :
    (input : Bytes) (j octets len : ℕ) (buffer : Bytes)
    → j ≤ 3
    → len + 3 * ((j + length input) / 4) ≤ length buffer
    → Outcome (length buffer) j input (decode_loop input octets (6 * j) len buffer)
unfolding decode_loop
decode_loop-Outcome [] j octets len buffer h fits = elim (Bool-cases (ltb 0 (6 * j))) [
  | inl more ↦ rw more tt
  | inr done ↦ rw done (ground arith, refl, tt)
]
decode_loop-Outcome (d ∷ input) j octets len buffer h fits = elim (Bool-cases (d == b'=')) [
  | inl pad ↦ rw pad (decode_padding-Outcome (d ∷ input) j octets len buffer h fits)
  | inr digit ↦ rw digit (elim (Bool-cases (sextet_of d == 64)) [
    | inl bad ↦ rw bad tt
    | inr good ↦ rw good (
        Outcome-cons _ (length buffer) j d input (inl (ground (arith, sextet_of-le d)))
          (elim (Bool-cases (6 * j + 6 == 24)) [
            | inl full ↦
                rw full
                  (elim (flush-cases 3 (octets * 64 % 2 ^ 64 + sextet_of d) len buffer
                    (ground arith)) [
                      | inl e ↦ rw e tt
                      | inr (o, buffer', e, same) ↦ rw e (
                          Outcome-group _ (length buffer') (length buffer) (j + 1) input same
                            (ground arith)
                            (decode_loop-Outcome input 0 o (len + 3) buffer' (omega arith)
                              (ground arith)))
                    ])
            | inr more ↦ rw more (
                subst
                  (λ b.
                    Outcome (length buffer) (j + 1) input
                      (decode_loop input (octets * 64 % 2 ^ 64 + sextet_of d) b len buffer))
                  (omega arith)
                  (decode_loop-Outcome input (j + 1) (octets * 64 % 2 ^ 64 + sextet_of d) len buffer
                    (ground arith) (omega arith)))
          ]))
  ])
]

decode-Outcome :
    (input : Bytes) (n : ℕ) → length input / 4 * 3 ≤ n → Outcome n 0 input (decode input n)
unfolding decode
decode-Outcome input n h =
    let e = length-replicate {A = ℕ} n 0 in
    rw e at (decode_loop-Outcome input 0 0 0 (replicate n 0) (omega arith) (omega (arith, e)))

Outcome-ne-fault : (r : Result Bytes) (n : ℕ) (input : Bytes) → Outcome n 0 input r → r ≢ fault
Outcome-ne-fault fault n input h e = h
Outcome-ne-fault (ok buffer) n input h e = cc
Outcome-ne-fault (err x) n input h e = cc

-- Whatever the input, a buffer of three bytes for every four characters, as
-- `gcli_base64_decode_print` allocates, is never written outside its bounds.
pub decode-ne-fault : (input : Bytes) (n : ℕ) → length input / 4 * 3 ≤ n → decode input n ≢ fault
decode-ne-fault input n h = Outcome-ne-fault _ n input (decode-Outcome input n h)

-- If the decoder succeeds on a buffer of at least that size, then the input consists of base64
-- characters, its length is a multiple of four, and the buffer keeps its size.
pub decode-eq-ok :
    (input : Bytes) (n : ℕ) (buffer : Bytes)
    → length input / 4 * 3 ≤ n
    → decode input n ≡ ok buffer
    → (length input % 4 ≡ 0) × (length buffer ≡ n) × All IsBase64Char input
decode-eq-ok input n buffer h e = ground (arith, rw e at (decode-Outcome input n h))
