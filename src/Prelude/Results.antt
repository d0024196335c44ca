-- ===== src/Prelude/Results.antt =====
-- What a call comes to, and predicates on it.
use mathlib.Core.Logic.{◌≢◌}

-- `failed` is the -1. `fault` is no value of the C code: it reads through a null pointer, writes
-- outside an allocation, or aborts by `assert`. `stuck` stands for a loop that ran out of fuel.
pub data Result {ℓ} (A : Type ℓ) : Type ℓ where
  ok : A → Result A
  failed fault stuck : Result A

infixl 5 ◌>>=◌
abbrev pub ◌>>=◌ {ℓ κ} : {A : Type ℓ} {B : Type κ} → Result A → (A → Result B) → Result B
ok a >>= f = f a
failed >>= f = failed
fault >>= f = fault
stuck >>= f = stuck

-- Never out of fuel, and a result satisfies P.
abbrev pub Ends {ℓ} : {A : Type ℓ} → (A → Type 0) → Result A → Type 0
Ends P (ok a) = P a
Ends P failed = Unit
Ends P fault = Unit
Ends P stuck = ⊥

module _ {ℓ κ} {A : Type ℓ} {B : Type κ} (P : A → Type 0) (Q : B → Type 0) where
  pub Ends-bind :
      (result : Result A) (next : A → Result B)
      → Ends P result
      → ((a : A) → P a → Ends Q (next a))
      → Ends Q (result >>= next)
  Ends-bind (ok a) next first then = then a first
  Ends-bind failed next first then = tt
  Ends-bind fault next first then = tt
  Ends-bind stuck next first then = first

pub Ends-mono {ℓ} :
    {A : Type ℓ} (P Q : A → Type 0) (r : Result A) → ((a : A) → P a → Q a) → Ends P r → Ends Q r
Ends-mono P Q (ok a) k h = k a h
Ends-mono P Q failed k h = tt
Ends-mono P Q fault k h = tt
Ends-mono P Q stuck k h = h

pub Ends-ne-stuck {ℓ} : {A : Type ℓ} (P : A → Type 0) (r : Result A) → Ends P r → r ≢ stuck
Ends-ne-stuck P (ok a) h e = cc
Ends-ne-stuck P failed h e = cc
Ends-ne-stuck P fault h e = cc
Ends-ne-stuck P stuck h e = h
