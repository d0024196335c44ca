-- ===== src/Requests/Gitea.antt =====
-- src/gitea: the requests that change issues and pull requests. Gitea takes over many of GitHub.
use ghcli.CString.{str_eq}
use ghcli.Decimal.{show}
use ghcli.Requests.{
  ItemPath, by_default, by_url, Request, payload, object_calls, string_field, string_calls,
}
use ghcli.Requests.Github.{to_url, issue_set_milestone}
use ghcli.Requests.Gitlab.{array_calls}
use ghcli.Json.Gen.Calls.{objmember_call, string_call, bool_call}
use ghcli.Prelude.{ℕ, Bool, List, [], ◌∷◌, ◌++◌, Bytes, if◌then◌else◌, codes, Option, none, some}
use ghcli.Prelude.{Result, ok, failed, ◌>>=◌}

-- `get_id_of_label`, in a list of names and ids.
abbrev pub get_id_of_label : List (Bytes × ℕ) → Bytes → Option Bytes
get_id_of_label [] name = none
get_id_of_label ((label, id) ∷ list) name =
    let rest = get_id_of_label list name in if str_eq label name then some (show id) else rest

abbrev cons_id : Option Bytes → Result (List Bytes) → Result (List Bytes)
cons_id none ids = failed
cons_id (some id) ids = ids >>= λ more. ok (id ∷ more)

-- The loop of `label_names_to_ids`.
abbrev pub ids_of : List (Bytes × ℕ) → List Bytes → Result (List Bytes)
ids_of list [] = ok []
ids_of list (name ∷ names) = cons_id (get_id_of_label list name) (ids_of list names)

-- `label_names_to_ids`: for no names it returns NULL.
abbrev pub label_names_to_ids : List (Bytes × ℕ) → List Bytes → Result (List Bytes)
label_names_to_ids list [] = failed
label_names_to_ids list (name ∷ names) = ids_of list (name ∷ names)

module _ (apibase : Bytes) where
  -- `gitea_issue_make_url`, `gitea_pull_make_url`
  unfoldable pub issue_make_url : ItemPath → Bytes → Result Bytes
  issue_make_url (by_default owner repo id) suffix =
      ok (to_url apibase owner repo (codes "/issues/" ++ (show id ++ suffix)))
  issue_make_url (by_url url) suffix = ok (url ++ suffix)
  issue_make_url _ suffix = failed

  unfoldable pub pull_make_url : ItemPath → Bytes → Result Bytes
  pull_make_url (by_default owner repo id) suffix =
      ok (to_url apibase owner repo (codes "/pulls/" ++ (show id ++ suffix)))
  pull_make_url (by_url url) suffix = ok (url ++ suffix)
  pull_make_url _ suffix = failed

  abbrev request : Bytes → Bytes → Option Bytes → Result Request
  request method url body = ok (record { method = method; url = url; body = body })

  -- `gitea_issue_patch_state`
  unfoldable pub issue_patch_state : ItemPath → Bytes → Result Request
  issue_patch_state path state = issue_make_url path [] >>= λ url.
      request (codes "PATCH") url
        (some (payload (object_calls (string_field (codes "state") state))))

  unfoldable pub issue_close : ItemPath → Result Request
  issue_close path = issue_patch_state path (codes "closed")

  unfoldable pub issue_reopen : ItemPath → Result Request
  issue_reopen path = issue_patch_state path (codes "open")

  -- `gitea_issue_assign`
  unfoldable pub issue_assign : ItemPath → Bytes → Result Request
  issue_assign path assignee = issue_make_url path [] >>= λ url.
      request (codes "PATCH") url (
        some (payload (object_calls (array_calls (codes "assignees") (string_call assignee ∷ [])))))

  -- `gitea_issue_add_labels`, with the labels that the repository has.
  unfoldable pub issue_add_labels : List (Bytes × ℕ) → ItemPath → List Bytes → Result Request
  issue_add_labels list path labels = label_names_to_ids list labels >>= λ ids.
      issue_make_url path (codes "/labels") >>= λ url.
      request (codes "POST") url
        (some (payload (object_calls (array_calls (codes "labels") (string_calls ids)))))

  -- `gitea_issue_clear_milestone`
  unfoldable pub issue_clear_milestone : ItemPath → Result Request
  issue_clear_milestone path = issue_set_milestone apibase path 0

  -- `gitea_pull_merge`, with the flags `squash` and `delete_branch`.
  unfoldable pub pull_merge : ItemPath → Bool → Bool → Result Request
  pull_merge path squash delete_branch =
      let members =
        string_field (codes "Do") (if squash then codes "squash" else codes "merge")
        ++ (objmember_call (codes "delete_branch_after_merge") ∷ (bool_call delete_branch ∷ [])) in
      pull_make_url path (codes "/merge") >>= λ url.
      request (codes "POST") url (some (payload (object_calls members)))

  -- `gitea_pulls_patch_state`
  unfoldable pub pulls_patch_state : ItemPath → Bytes → Result Request
  pulls_patch_state path state = pull_make_url path [] >>= λ url.
      request (codes "PATCH") url (some (codes "{ \"state\": \"" ++ (state ++ codes "\"}")))

  unfoldable pub pull_close : ItemPath → Result Request
  pull_close path = pulls_patch_state path (codes "closed")

  unfoldable pub pull_reopen : ItemPath → Result Request
  pull_reopen path = pulls_patch_state path (codes "open")
