-- ===== src/Subcommands/Sorted.antt =====
-- src/cmd/gcli.c: what the lookup finds in a sorted table.
use ghcli.CString.{starts_with}
use ghcli.Subcommands.Lookup.{
  Subcommand, Lookup, found, no_such_cmd, ambiguous, str_le, is_unique_match, list_candidates,
  find_subcommand,
}
use ghcli.Prelude.{
  Bool-cases, ◌≡◌, inl, inr, refl, ap, true, false, List, [], ◌∷◌, Bytes, All, if◌then◌else◌, arith,
}

-- Sorted by `strcmp`, as `presort_subcommands` leaves it.
abbrev pub IsSorted : List Subcommand → Type 0
IsSorted [] = Unit {0}
IsSorted (sc ∷ rest) = All (λ next. str_le sc.cmd_name next.cmd_name ≡ true) rest × IsSorted rest

-- The subcommands whose name starts with the text.
abbrev pub matching : List Subcommand → Bytes → List Subcommand
matching [] name = []
matching (sc ∷ rest) name =
    let more = matching rest name in if starts_with sc.cmd_name name then sc ∷ more else more

-- What a lookup should answer, given the subcommands that match.
abbrev pub outcome : List Subcommand → Lookup
outcome [] = no_such_cmd
outcome (sc ∷ []) = found sc
outcome (sc ∷ next ∷ rest) = ambiguous (sc ∷ next ∷ rest)

-- Between two texts with a prefix every text has it.
starts_with-between :
    (a b c p : Bytes)
    → str_le a b ≡ true
    → str_le b c ≡ true
    → starts_with a p ≡ true
    → starts_with c p ≡ true
    → starts_with b p ≡ true
unfolding starts_with str_le
starts_with-between a b c [] h k s t = refl
starts_with-between (x ∷ a) (y ∷ b) (z ∷ c) (p ∷ prefix) h k s t =
    ground (arith, starts_with-between a b c prefix)
starts_with-between [] b c (p ∷ prefix) h k s t = cc
starts_with-between (x ∷ a) [] c (p ∷ prefix) h k s t = cc
starts_with-between (x ∷ a) (y ∷ b) [] (p ∷ prefix) h k s t = cc

-- Behind a subcommand that does not match, in a table whose front does, none does.
matching-nil :
    (a : Bytes) (next : Subcommand) (rest : List Subcommand) (name : Bytes)
    → starts_with a name ≡ true
    → starts_with next.cmd_name name ≡ false
    → str_le a next.cmd_name ≡ true
    → All (λ sc. str_le next.cmd_name sc.cmd_name ≡ true) rest
    → matching rest name ≡ []
matching-nil a next [] name s f h k = refl
matching-nil a next (sc ∷ rest) name s f h k = elim (Bool-cases (starts_with sc.cmd_name name)) [
  | inl t ↦ let both = starts_with-between a next.cmd_name sc.cmd_name name h k.0 s t in cc
  | inr t ↦ rw t (matching-nil a next rest name s f h k.1)
]

list_candidates-matching :
    (a : Bytes) (table : List Subcommand) (name : Bytes)
    → IsSorted table
    → All (λ sc. str_le a sc.cmd_name ≡ true) table
    → starts_with a name ≡ true
    → list_candidates table name ≡ matching table name
unfolding list_candidates
list_candidates-matching a [] name sorted h s = refl
list_candidates-matching a (sc ∷ rest) name sorted h s =
    elim (Bool-cases (starts_with sc.cmd_name name)) [
      | inl t ↦ rw t (ap (λ xs. sc ∷ xs) (list_candidates-matching a rest name sorted.1 h.1 s))
      | inr t ↦ rw (t, matching-nil a sc rest name s t h.0 sorted.0) refl
    ]

find_subcommand-front :
    (sc : Subcommand) (rest : List Subcommand) (name : Bytes)
    → IsSorted (sc ∷ rest)
    → starts_with sc.cmd_name name ≡ true
    → find_subcommand (sc ∷ rest) name ≡ outcome (matching (sc ∷ rest) name)
unfolding find_subcommand is_unique_match list_candidates
find_subcommand-front sc [] name sorted s = rw s refl
find_subcommand-front sc (next ∷ rest) name sorted s =
    elim (Bool-cases (starts_with next.cmd_name name)) [
      | inl t ↦
          rw (s, t)
            (ap (λ xs. ambiguous (sc ∷ next ∷ xs))
              (list_candidates-matching sc.cmd_name rest name sorted.1.1 sorted.0.1 s))
      | inr t ↦ rw (s, t, matching-nil sc.cmd_name next rest name s t sorted.0.0 sorted.1.0) refl
    ]

-- In a table sorted by name, find_subcommand answers by the subcommands whose name starts with the
-- text: with none it finds none, one alone is found, and several are refused as ambiguous, with
-- exactly these listed.
pub find_subcommand-outcome :
    (table : List Subcommand) (name : Bytes)
    → IsSorted table
    → find_subcommand table name ≡ outcome (matching table name)
unfolding find_subcommand
find_subcommand-outcome [] name sorted = refl
find_subcommand-outcome (sc ∷ rest) name sorted = elim (Bool-cases (starts_with sc.cmd_name name)) [
  | inl s ↦ find_subcommand-front sc rest name sorted s
  | inr s ↦ rw s (find_subcommand-outcome rest name sorted.1)
]
