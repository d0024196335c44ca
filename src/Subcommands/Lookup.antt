-- ===== src/Subcommands/Lookup.antt =====
-- src/cmd/gcli.c: the table of subcommands, its aliases, and `find_subcommand`. What goes to stderr is
-- modelled as the subcommands listed there.
use ghcli.CString.{starts_with}
use ghcli.Prelude.{
  true, false, Bool, not, List, [], ◌∷◌, ◌++◌, Bytes, ltb, ◌==◌, if◌then◌else◌, ◌&&◌, ◌||◌, codes,
  Option, none, some,
}

-- The functions that `fn` points to.
pub data Function : Type 0 where
  subcommand_ci subcommand_comment subcommand_config subcommand_forks subcommand_gists : Function
  subcommand_issues subcommand_labels subcommand_milestones subcommand_pipelines : Function
  subcommand_pulls subcommand_releases subcommand_repos subcommand_snippets : Function
  subcommand_status subcommand_attachments subcommand_api subcommand_version : Function

-- `struct subcommand`
pub record Subcommand : Type 0 where
  pub cmd_name : Bytes
  pub docstring : Bytes
  pub fn : Function

abbrev entry : Bytes → Bytes → Function → Subcommand
entry name docstring fn = record { cmd_name = name; docstring = docstring; fn = fn }

abbrev pub default_subcommands : List Subcommand
default_subcommands =
    entry (codes "ci") (codes "GitHub CI status info") subcommand_ci
    ∷ (entry (codes "comment") (codes "Comment under issues and PRs") subcommand_comment
        ∷ (entry (codes "config") (codes "Configure forges") subcommand_config
            ∷ (entry (codes "forks") (codes "Create, delete and list repository forks")
                  subcommand_forks
                ∷ (entry (codes "gists") (codes "Create, fetch and list GitHub Gists")
                      subcommand_gists
                    ∷ (entry (codes "issues") (codes "Manage issues") subcommand_issues
                        ∷ (entry (codes "labels") (codes "Manage issue and PR labels")
                              subcommand_labels
                            ∷ (entry (codes "milestones") (codes "Milestone handling")
                                  subcommand_milestones
                                ∷ (entry (codes "pipelines") (codes "GitLab CI management")
                                      subcommand_pipelines
                                    ∷ (entry (codes "pulls") (codes "Create, view and manage PRs")
                                          subcommand_pulls
                                        ∷ (entry (codes "releases")
                                              (codes "Manage releases of repositories")
                                              subcommand_releases
                                            ∷ (entry (codes "repos")
                                                  (codes "Remote Repository management")
                                                  subcommand_repos
                                                ∷ (entry (codes "snippets")
                                                      (codes "Fetch and list GitLab snippets")
                                                      subcommand_snippets
                                                    ∷ (entry (codes "status")
                                                          (codes
                                                            "General user status and notifications")
                                                          subcommand_status
                                                        ∷ (entry (codes "attachments")
                                                            (codes
                                                            "Bugzilla Attachments management")
                                                            subcommand_attachments
                                                            ∷ (entry (codes "api")
                                                            (codes
                                                            "Fetch plain JSON info from an API (for debugging purposes)")
                                                            subcommand_api
                                                            ∷ (entry (codes "version")
                                                            (codes "Print version")
                                                            subcommand_version
                                                            ∷ []))))))))))))))))

-- `subcommand_compare(a, b) <= 0`, by `strcmp` of the names.
unfoldable pub str_le : Bytes → Bytes → Bool
str_le [] b = true
str_le (x ∷ a) [] = false
str_le (x ∷ a) (y ∷ b) = ltb x y || (x == y && str_le a b)

-- `is_unique_match`, with the subcommands behind the one that matches: the loop over them stops in
-- its first round.
unfoldable pub is_unique_match : List Subcommand → Bytes → Bool
is_unique_match [] name = true
is_unique_match (next ∷ rest) name = not (starts_with next.cmd_name name)

-- The subcommands that `is_unique_match` lists for an ambiguous name.
unfoldable pub list_candidates : List Subcommand → Bytes → List Subcommand
list_candidates [] name = []
list_candidates (sc ∷ rest) name =
    let more = list_candidates rest name in if starts_with sc.cmd_name name then sc ∷ more else []

-- What `find_subcommand` answers: a subcommand, LOOKUP_NOSUCHCMD, or LOOKUP_AMBIGUOUS with the
-- subcommands listed.
pub data Lookup : Type 0 where
  found : Subcommand → Lookup
  no_such_cmd : Lookup
  ambiguous : List Subcommand → Lookup

unfoldable pub find_subcommand : List Subcommand → Bytes → Lookup
find_subcommand [] name = no_such_cmd
find_subcommand (sc ∷ rest) name =
    let more = find_subcommand rest name in
    if starts_with sc.cmd_name name
    then if is_unique_match rest name
      then found sc
      else ambiguous (list_candidates (sc ∷ rest) name)
    else more

-- `add_subcommand_alias`; `none` for the exit when the subcommand is not found.
unfoldable pub add_subcommand_alias : List Subcommand → Bytes → Bytes → Option (List Subcommand)
add_subcommand_alias table alias_name alias_for =
    elim (find_subcommand table alias_for) as (λ _. Option (List Subcommand)) [
      | found old_sc ↦
          some (table ++ (entry alias_name (codes "Alias for " ++ alias_for) old_sc.fn ∷ []))
      | no_such_cmd ↦ none
      | ambiguous list ↦ none
    ]

abbrev pub add_aliases : List Subcommand → List (Bytes × Bytes) → Option (List Subcommand)
add_aliases table [] = some table
add_aliases table ((alias_name, alias_for) ∷ entries) =
    elim (add_subcommand_alias table alias_name alias_for) as (λ _. Option (List Subcommand)) [
      | none ↦ none
      | some table' ↦ add_aliases table' entries
    ]

-- `setup_subcommand_table` and `install_aliases`, with the entries of the section "aliases" of the
-- configuration.
unfoldable pub install_aliases : List (Bytes × Bytes) → Option (List Subcommand)
install_aliases entries = add_aliases default_subcommands ((codes "pr", codes "pulls") ∷ entries)
