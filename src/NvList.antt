-- ===== src/NvList.antt =====
-- src/nvlist.c: a list of named values, newest last. A key or a value is a C string; `free` and
-- `init` both leave the empty list, and that `calloc` fails is an argument of `append`.
mod Tests
use ghcli.CString.{str_eq, str_eq_iff}
use ghcli.Prelude.{
  ℕ, ◌≡◌, refl, Bool, true, false, List, [], ◌∷◌, ◌++◌, Bytes, if◌then◌else◌, Option, none, some,
  arith,
}

-- `struct gcli_nvpair`
pub record NvPair : Type 0 where
  pub key : Bytes
  pub value : Bytes

abbrev pub NvList : Type 0
NvList = List NvPair

unfoldable pub init : NvList
init = []

unfoldable pub free : NvList → NvList
free list = []

-- The list, and whether the call returned 0.
unfoldable pub append : Bool → NvList → Bytes → Bytes → NvList × Bool
append false list key value = (list, false)
append true list key value = (list ++ (record { key = key; value = value } ∷ []), true)

unfoldable pub find : NvList → Bytes → Option Bytes
find [] key = none
find (pair ∷ list) key = if str_eq pair.key key then some pair.value else find list key

unfoldable pub find_or : NvList → Bytes → Bytes → Bytes
unfolding find
find_or list key alternative = elim (find list key) [ some result ↦ result | none ↦ alternative ]

-- Pairs added one after the other, with `calloc` succeeding.
unfoldable pub append_all : NvList → List (Bytes × Bytes) → NvList
unfolding append
append_all list [] = list
append_all list ((k, v) ∷ pairs) = append_all (append true list k v).0 pairs

-- The first value given for a key.
abbrev pub first_value : List (Bytes × Bytes) → Bytes → Option Bytes
first_value [] key = none
first_value ((k, v) ∷ pairs) key = if str_eq k key then some v else first_value pairs key

abbrev or_else : Option Bytes → Option Bytes → Option Bytes
or_else (some v) o = some v
or_else none o = o

find-append :
    (list : NvList) (k v key : Bytes)
    → find (append true list k v).0 key
      ≡ or_else (find list key) (if str_eq k key then some v else none)
unfolding find append
find-append [] k v key = refl
find-append (pair ∷ list) k v key = ground (arith, find-append list k v key)

find_from :
    (pairs : List (Bytes × Bytes)) (list : NvList) (key : Bytes)
    → find (append_all list pairs) key ≡ or_else (find list key) (first_value pairs key)
unfolding append_all
find_from [] list key = or_else-none (find list key)
  where
    or_else-none : (o : Option Bytes) → o ≡ or_else o none
    or_else-none (some v) = refl
    or_else-none none = refl
find_from ((k, v) ∷ pairs) list key =
    ground (arith, find_from pairs (append true list k v).0 key, find-append list k v key)

-- In a list filled by appends, a key leads to the first value that was given for it, and to the
-- alternative if there is none: a later pair with the same key is never found.
pub find_or-append_all :
    (pairs : List (Bytes × Bytes)) (key alternative : Bytes)
    → find_or (append_all init pairs) key alternative
      ≡ (elim (first_value pairs key) as (λ _. Bytes) [ some v ↦ v | none ↦ alternative ])
unfolding find_or init
find_or-append_all pairs key alternative = ground (arith, find_from pairs [] key)
