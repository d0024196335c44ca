-- ===== src/Colour/Tests.antt =====
-- Sequences of src/cmd/colour.c, and the theorems on its cache at concrete codes.
use ghcli.Prelude.{
  ℕ, zero, suc, ◌<◌, ◌≡◌, ◌≢◌, refl, ap, true, List, [], ◌∷◌, length, All, map, arith, codes, some,
}
use ghcli.CString.{starts_with}
use ghcli.Decimal.{show}
use ghcli.Colour.{
  Cache, ok, fault, sequence_of, two_digits, escape, state_colour_str, setcolour, green,
}
use ghcli.Colour.Cache.{setcolours, Distinct, setcolours_cached, setcolours_overflow}

orange : sequence_of 0xFFA50500 ≡ escape (codes "[48;2;255;165;05m")
unfolding sequence_of two_digits show
orange = refl

open_is_green : state_colour_str starts_with true (some (codes "opened")) ≡ setcolour true green
unfolding state_colour_str starts_with
open_is_green = refl

setcolours_cached_example :
    (table : Cache) × (setcolours [] (1 ∷ 2 ∷ 1 ∷ [])
      ≡ ok (table, map sequence_of (1 ∷ 2 ∷ 1 ∷ [])))
setcolours_cached_example = setcolours_cached (1 ∷ 2 ∷ 1 ∷ []) (omega arith)

-- n, n - 1, …, 1
down_from : ℕ → List ℕ
down_from zero = []
down_from (suc n) = suc n ∷ down_from n

down_from-ne : (n m : ℕ) → n < m → All (λ d. m ≢ d) (down_from n)
unfolding down_from
down_from-ne zero m h = tt
down_from-ne (suc n) m h = ((λ e. omega arith), down_from-ne n m (omega arith))

down_from-Distinct : (n : ℕ) → Distinct (down_from n)
unfolding down_from
down_from-Distinct zero = tt
down_from-Distinct (suc n) = (down_from-ne n (suc n) (omega arith), down_from-Distinct n)

length-down_from : (n : ℕ) → length (down_from n) ≡ n
unfolding down_from
length-down_from zero = refl
length-down_from (suc n) = ap suc (length-down_from n)

setcolours_overflow_example : setcolours [] (down_from 1025) ≡ fault
setcolours_overflow_example =
    setcolours_overflow (down_from 1025) (down_from-Distinct 1025)
      (omega (arith, length-down_from 1025))
