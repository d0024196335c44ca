-- ===== src/Subcommands/Tests.antt =====
-- Subcommands: runs and examples.
use ghcli.CString.{starts_with}
use ghcli.Subcommands.Lookup.{
  Subcommand, found, ambiguous, str_le, is_unique_match, list_candidates, find_subcommand,
  default_subcommands, install_aliases, subcommand_issues, subcommand_pulls, subcommand_pipelines,
  Function,
}
use ghcli.Subcommands.Sorted.{IsSorted, matching, outcome, find_subcommand-outcome}
use ghcli.Subcommands.Aliases.{names, HasNames, install_aliases-HasNames}
use ghcli.Prelude.{◌≡◌, refl, List, [], ◌∷◌, ◌++◌, Bytes, codes}

abbrev named : Bytes → Function → Subcommand
named name fn = record { cmd_name = name; docstring = []; fn = fn }

-- The alias "is" for "issues", in a sorted table.
abbrev table : List Subcommand
table =
    named (codes "is") subcommand_issues
    ∷ (named (codes "issues") subcommand_issues
        ∷ (named (codes "pipelines") subcommand_pipelines
            ∷ (named (codes "pulls") subcommand_pulls ∷ [])))

table-IsSorted : IsSorted table
unfolding str_le
table-IsSorted = ((refl, (refl, (refl, tt))), ((refl, (refl, tt)), ((refl, tt), (tt, tt))))

find_abbreviation :
    find_subcommand table (codes "pu") ≡ found (named (codes "pulls") subcommand_pulls)
unfolding find_subcommand is_unique_match starts_with list_candidates
find_abbreviation = refl

-- The name "is" is the whole name of a subcommand, and refused.
find_exact :
    find_subcommand table (codes "is")
    ≡ ambiguous
        (named (codes "is") subcommand_issues ∷ (named (codes "issues") subcommand_issues ∷ []))
unfolding find_subcommand is_unique_match starts_with list_candidates
find_exact = refl

find_subcommand-outcome_example :
    find_subcommand table (codes "p") ≡ outcome (matching table (codes "p"))
find_subcommand-outcome_example = find_subcommand-outcome table (codes "p") table-IsSorted

install_aliases-HasNames_example :
    HasNames
      (names default_subcommands ++ (codes "pr" ∷ (codes "is" ∷ [])))
      (install_aliases ((codes "is", codes "issues") ∷ []))
install_aliases-HasNames_example = install_aliases-HasNames ((codes "is", codes "issues") ∷ [])
