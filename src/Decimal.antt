-- ===== src/Decimal.antt =====
-- Decimal numbers as printf and strtol of the C library write and read them.
use native.Mathlib.Nat.{zero-add}
use ghcli.Prelude.{
  All, ◌∙◌, ℕ, zero, suc, Bool-cases, ◌+◌, ◌-◌, ◌*◌, ◌/◌, ◌%◌, ◌<◌, ◌≡◌, inl, inr, refl, ap, true,
  false, Bool, [], ◌∷◌, ◌++◌, Bytes, leb, ◌==◌, if◌then◌else◌, arith, ◌&&◌, ℤ, pos, negsuc,
}

-- The digits of `n`, the last one behind `tail`'s front; each round takes one digit off.
unfoldable pub show_onto : ℕ → ℕ → Bytes → Bytes
show_onto zero n tail = tail
show_onto (suc fuel) n tail =
    let digit = n % 10 + b'0' in
    let more = show_onto fuel (n / 10) (digit ∷ tail) in if n / 10 == 0 then digit ∷ tail else more

-- `%u`, `%lu`, `%zu`: a number has no more digits than its value plus one.
unfoldable pub show : ℕ → Bytes
unfolding show_onto
show n = show_onto (suc n) n []

-- `%d`, `%ld`, `%lld`.
unfoldable pub show_int : ℤ → Bytes
unfolding show
show_int (pos n) = show n
show_int (negsuc n) = b'-' ∷ show (n + 1)

abbrev pub is_digit : ℕ → Bool
is_digit c = leb b'0' c && leb c b'9'

-- The digits in front of a text, added to what was read, and the rest of the text.
unfoldable pub read_digits : ℕ → Bytes → ℕ × Bytes
read_digits acc [] = (acc, [])
read_digits acc (c ∷ cs) =
    let rest = read_digits (acc * 10 + (c - b'0')) cs in if is_digit c then rest else (acc, c ∷ cs)

abbrev pub NoDigit : Bytes → Type 0
NoDigit [] = Unit {0}
NoDigit (c ∷ cs) = is_digit c ≡ false

read_digits-NoDigit : (acc : ℕ) (rest : Bytes) → NoDigit rest → read_digits acc rest ≡ (acc, rest)
unfolding read_digits
read_digits-NoDigit acc [] h = refl
read_digits-NoDigit acc (c ∷ cs) h = rw h

read_digits_digit :
    (acc d : ℕ) (rest : Bytes)
    → d < 10
    → read_digits acc ((d + b'0') ∷ rest) ≡ read_digits (acc * 10 + d) rest
unfolding read_digits
read_digits_digit acc d rest h =
    let e : d + b'0' - b'0' ≡ d = omega arith in
    let t : is_digit (d + b'0') ≡ true = ground arith in rw (t, e)

-- `10 ^ k` for the `k` digits in front of `tail`.
shift_digits : ℕ → ℕ → ℕ → ℕ
shift_digits zero n acc = acc
shift_digits (suc fuel) n acc =
    let more = shift_digits fuel (n / 10) acc * 10 in if n / 10 == 0 then acc * 10 else more

read_digits-show_onto :
    (fuel n acc : ℕ) (tail : Bytes)
    → n < fuel
    → read_digits acc (show_onto fuel n tail) ≡ read_digits (shift_digits fuel n acc + n) tail
unfolding show_onto shift_digits
read_digits-show_onto zero n acc tail h = absurd (omega arith)
read_digits-show_onto (suc fuel) n acc tail h = elim (Bool-cases (n / 10 == 0)) [
  | inl last ↦
      let e : n % 10 ≡ n = ground arith in
      rw (last, e) (read_digits_digit acc n tail (ground arith))
  | inr more ↦ rw more (
      read_digits-show_onto fuel (n / 10) acc ((n % 10 + b'0') ∷ tail) (ground arith)
      ∙ read_digits_digit (shift_digits fuel (n / 10) acc + n / 10) (n % 10) tail (omega arith)
      ∙ ap (λ k. read_digits k tail) (omega arith))
]

shift_digits-zero : (fuel n : ℕ) → shift_digits fuel n 0 ≡ 0
unfolding shift_digits
shift_digits-zero zero n = refl
shift_digits-zero (suc fuel) n = ground (arith, shift_digits-zero fuel (n / 10))

show_onto-append :
    (fuel n : ℕ) (tail rest : Bytes)
    → show_onto fuel n tail ++ rest ≡ show_onto fuel n (tail ++ rest)
unfolding show_onto
show_onto-append zero n tail rest = refl
show_onto-append (suc fuel) n tail rest =
    ground (arith, show_onto-append fuel (n / 10) ((n % 10 + b'0') ∷ tail) rest)

-- A printed number is read back, up to the first byte that is no digit.
pub read_digits-show :
    (n : ℕ) (rest : Bytes) → NoDigit rest → read_digits 0 (show n ++ rest) ≡ (n, rest)
unfolding show
read_digits-show n rest h = rw (show_onto-append (suc n) n [] rest) (
    read_digits-show_onto (suc n) n 0 rest (omega arith)
    ∙ rw (shift_digits-zero (suc n) n, zero-add) (read_digits-NoDigit n rest h))

show_onto-All :
    (P : ℕ → Type 0)
    → ((d : ℕ) → d < 10 → P (d + b'0'))
    → (fuel n : ℕ) (tail : Bytes) → All P tail
    → All P (show_onto fuel n tail)
unfolding show_onto
show_onto-All P digit zero n tail h = h
show_onto-All P digit (suc fuel) n tail h =
    let first = digit (n % 10) (omega arith) in
    elim (Bool-cases (n / 10 == 0)) [
      | inl last ↦ rw last (first, h)
      | inr more ↦ rw more (show_onto-All P digit fuel (n / 10) ((n % 10 + b'0') ∷ tail) (first, h))
    ]

-- A printed number consists of digits.
pub show-All : (P : ℕ → Type 0) → ((d : ℕ) → d < 10 → P (d + b'0')) → (n : ℕ) → All P (show n)
unfolding show
show-All P digit n = show_onto-All P digit (suc n) n [] tt

show_onto-head :
    (fuel n : ℕ) (tail : Bytes)
    → n < fuel
    → (c : ℕ) × (text : Bytes) × ((show_onto fuel n tail ≡ c ∷ text) × (is_digit c ≡ true))
unfolding show_onto
show_onto-head zero n tail h = absurd (omega arith)
show_onto-head (suc fuel) n tail h =
    let digit : is_digit (n % 10 + b'0') ≡ true = ground arith in
    elim (Bool-cases (n / 10 == 0)) [
      | inl last ↦ (n % 10 + b'0', tail, (rw last refl, digit))
      | inr more ↦
          let (c, text, (e, d)) =
            show_onto-head fuel (n / 10) ((n % 10 + b'0') ∷ tail) (ground arith) in
          (c, text, (rw more e, d))
    ]

-- The first byte of a printed number is a digit.
pub show-head : (n : ℕ) → (c : ℕ) × (text : Bytes) × ((show n ≡ c ∷ text) × (is_digit c ≡ true))
unfolding show
show-head n = show_onto-head (suc n) n [] (omega arith)
