-- ===== src/Subcommands/Aliases.antt =====
-- src/cmd/gcli.c: the table after `install_aliases`.
use ghcli.Subcommands.Lookup.{
  Subcommand, Lookup, found, no_such_cmd, ambiguous, find_subcommand, default_subcommands,
  add_subcommand_alias, add_aliases, install_aliases,
}
use ghcli.Prelude.{
  ◌∙◌, Option-cases, ◌≡◌, ◌⊎◌, inl, inr, refl, sym, ap, List, [], ◌∷◌, ◌++◌, Bytes, map, append-nil,
  append_assoc, codes, Option, none, some,
}
use mathlib.Core.Path.{subst}

abbrev pub names : List Subcommand → List Bytes
names = map (λ sc. sc.cmd_name)

names-snoc :
    (table : List Subcommand) (sc : Subcommand)
    → names (table ++ (sc ∷ [])) ≡ names table ++ (sc.cmd_name ∷ [])
names-snoc [] sc = refl
names-snoc (t ∷ table) sc = ap (λ xs. t.cmd_name ∷ xs) (names-snoc table sc)

-- No table, or one with these names.
abbrev pub HasNames : List Bytes → Option (List Subcommand) → Type 0
HasNames xs none = Unit
HasNames xs (some table) = names table ≡ xs

lookup_cases :
    (r : Lookup)
    → (r ≡ no_such_cmd)
      ⊎ (((sc : Subcommand) × (r ≡ found sc)) ⊎ ((list : List Subcommand) × (r ≡ ambiguous list)))
lookup_cases (found sc) = inr (inl (sc, refl))
lookup_cases no_such_cmd = inl refl
lookup_cases (ambiguous list) = inr (inr (list, refl))

add_subcommand_alias-HasNames :
    (table : List Subcommand) (alias_name alias_for : Bytes)
    → HasNames (names table ++ (alias_name ∷ [])) (add_subcommand_alias table alias_name alias_for)
unfolding add_subcommand_alias
add_subcommand_alias-HasNames table alias_name alias_for =
    elim (lookup_cases (find_subcommand table alias_for)) [
      | inl e ↦ rw (e, add_subcommand_alias) tt
      | inr (inl (sc, e)) ↦ rw (e, add_subcommand_alias) (names-snoc table _)
      | inr (inr (list, e)) ↦ rw (e, add_subcommand_alias) tt
    ]

add_aliases-HasNames :
    (entries : List (Bytes × Bytes)) (table : List Subcommand)
    → HasNames (names table ++ map (λ e. e.0) entries) (add_aliases table entries)
add_aliases-HasNames [] table = sym (append-nil (names table))
add_aliases-HasNames ((alias_name, alias_for) ∷ entries) table =
    let first = add_subcommand_alias-HasNames table alias_name alias_for in
    elim (Option-cases (add_subcommand_alias table alias_name alias_for)) [
      | inl e ↦ rw (e, add_aliases) tt
      | inr (next, e) ↦
          let added : names next ≡ names table ++ (alias_name ∷ []) =
            subst (HasNames (names table ++ (alias_name ∷ []))) e first in
          let tail = map {A = Bytes × Bytes} (λ e. e.0) entries in
          let whole : names next ++ tail ≡ names table ++ (alias_name ∷ tail) =
            ap (λ xs. xs ++ tail) added ∙ append_assoc (names table) (alias_name ∷ []) tail in
          rw (e, add_aliases)
            (subst (λ xs. HasNames xs (add_aliases next entries)) whole
              (add_aliases-HasNames entries next))
    ]

-- install_aliases exits, or leaves a table with the names of the default subcommands, "pr", and the
-- names of the configured aliases, in this order: it neither drops nor replaces an entry.
pub install_aliases-HasNames :
    (entries : List (Bytes × Bytes))
    → HasNames
        (names default_subcommands ++ (codes "pr" ∷ map (λ e. e.0) entries))
        (install_aliases entries)
unfolding install_aliases
install_aliases-HasNames entries =
    add_aliases-HasNames ((codes "pr", codes "pulls") ∷ entries) default_subcommands
