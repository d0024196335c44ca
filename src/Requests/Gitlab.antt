-- ===== src/Requests/Gitlab.antt =====
-- src/gitlab: the requests that change issues, merge requests, labels and comments.
pub mod Operations
pub mod Paths
pub mod Bodies
pub mod Meaning
use ghcli.Decimal.{show}
use ghcli.Requests.{
  ItemPath, by_default, by_url, by_bugzilla, by_id, by_pid_id, Request, payload, object_calls,
  string_field, optional_field, string_calls,
}
use ghcli.Requests.Github.{show_colour}
use ghcli.UrlEncode.{urlencode}
use ghcli.Json.Gen.Calls.{
  Call, begin_object_call, end_object_call, begin_array_call, end_array_call, null_call,
  objmember_call, string_call, number_call, id_call, bool_call, run_call, run,
}
use ghcli.Prelude.{
  ◌∙◌, ℕ, zero, suc, Bool-cases, Option-cases, ◌+◌, ◌-◌, ◌*◌, ◌/◌, ◌%◌, ◌^◌, ◌≤◌, ◌<◌, ◌≡◌, ◌≢◌,
  ◌⊎◌, inl, inr, refl, sym, ap, true, false, Bool, not, List, [], ◌∷◌, ◌++◌, Bytes, length,
  length-append, replicate, length-replicate, All, All-append, ltb, leb, ◌==◌, map, if◌then◌else◌,
  arith, append-nil, append_assoc, ◌&&◌, ◌||◌, codes, Option, none, some, ℤ, pos, negsuc,
}
use ghcli.Prelude.{
  Result, ok, failed, fault, stuck, ◌>>=◌, Ends, Ends-bind, Ends-mono, Ends-ne-stuck,
}

-- `enum comment_target_type`
pub data Kind : Type 0 where
  issues merge_requests : Kind

-- The loop over the reviewers.
abbrev pub number_calls : List ℤ → List Call
number_calls [] = []
number_calls (n ∷ ns) = number_call n ∷ number_calls ns

abbrev pub array_calls : Bytes → List Call → List Call
array_calls key values = objmember_call key ∷ (begin_array_call ∷ (values ++ (end_array_call ∷ [])))

-- `sn_join_with` of the vendored library sn is an argument.
module _ (apibase : Bytes) (join_with : List Bytes → Bytes → Bytes) where
  abbrev pub to_url : Bytes → Bytes → Bytes → Bytes
  to_url owner repo rest =
      apibase
      ++ (codes "/projects/" ++ (urlencode owner ++ (codes "%2F" ++ (urlencode repo ++ rest))))

  -- `gitlab_repo_make_url`
  unfoldable pub repo_make_url : ItemPath → Bytes → Result Bytes
  repo_make_url (by_default owner repo id) suffix = ok (to_url owner repo suffix)
  repo_make_url (by_url url) suffix = ok (url ++ suffix)
  repo_make_url _ suffix = failed

  -- `gitlab_issue_make_url`
  unfoldable pub issue_make_url : ItemPath → Bytes → Result Bytes
  issue_make_url (by_default owner repo id) suffix =
      ok (to_url owner repo (codes "/issues/" ++ (show id ++ suffix)))
  issue_make_url (by_pid_id project_id id) suffix = ok (
      apibase
      ++ (codes "/projects/" ++ (show project_id ++ (codes "/issues/" ++ (show id ++ suffix)))))
  issue_make_url (by_url url) suffix = ok (url ++ suffix)
  issue_make_url _ suffix = failed

  -- `gitlab_mr_make_url`
  unfoldable pub mr_make_url : ItemPath → Bytes → Result Bytes
  mr_make_url (by_default owner repo id) suffix =
      ok (to_url owner repo (codes "/merge_requests/" ++ (show id ++ suffix)))
  mr_make_url (by_pid_id project_id id) suffix = ok (
      apibase
      ++ (codes "/projects/"
          ++ (show project_id ++ (codes "/merge_requests/" ++ (show id ++ suffix)))))
  mr_make_url (by_url url) suffix = ok (url ++ suffix)
  mr_make_url _ suffix = failed

  abbrev request : Bytes → Bytes → Option Bytes → Result Request
  request method url body = ok (record { method = method; url = url; body = body })

  -- A PUT of an object to an issue, or to a merge request.
  abbrev put_issue : ItemPath → List Call → Result Request
  put_issue path members = issue_make_url path [] >>= λ url.
      request (codes "PUT") url (some (payload (object_calls members)))

  abbrev put_mr : ItemPath → List Call → Result Request
  put_mr path members = mr_make_url path [] >>= λ url.
      request (codes "PUT") url (some (payload (object_calls members)))

  -- `gitlab_issue_patch_state`, `gitlab_mr_patch_state`
  unfoldable pub issue_patch_state : ItemPath → Bytes → Result Request
  issue_patch_state path new_state = put_issue path (string_field (codes "state_event") new_state)

  unfoldable pub mr_patch_state : ItemPath → Bytes → Result Request
  mr_patch_state path new_state = put_mr path (string_field (codes "state_event") new_state)

  unfoldable pub issue_close : ItemPath → Result Request
  issue_close path = issue_patch_state path (codes "close")

  unfoldable pub issue_reopen : ItemPath → Result Request
  issue_reopen path = issue_patch_state path (codes "reopen")

  unfoldable pub mr_close : ItemPath → Result Request
  mr_close path = mr_patch_state path (codes "close")

  unfoldable pub mr_reopen : ItemPath → Result Request
  mr_reopen path = mr_patch_state path (codes "reopen")

  -- `gitlab_perform_submit_issue`, with the owner, the repository, the title and the body.
  unfoldable pub perform_submit_issue : Bytes → Bytes → Bytes → Option Bytes → Result Request
  perform_submit_issue owner repo title body =
      let calls = string_field (codes "title") title ++ optional_field (codes "description") body in
      request (codes "POST") (to_url owner repo (codes "/issues"))
        (some (payload (object_calls calls)))

  -- `gitlab_issue_assign`, with what `gitlab_user_id` returns.
  unfoldable pub issue_assign : ItemPath → ℤ → Result Request
  issue_assign path (negsuc n) = failed
  issue_assign path (pos assignee_uid) =
      put_issue path (array_calls (codes "assignee_ids") (number_call (pos assignee_uid) ∷ []))

  -- `gitlab_issues_update_labels`, `gitlab_mr_update_labels`
  unfoldable pub issues_update_labels : ItemPath → List Bytes → Bytes → Result Request
  issues_update_labels path labels what =
      put_issue path (string_field what (join_with labels (codes ",")))

  unfoldable pub mr_update_labels : ItemPath → List Bytes → Bytes → Result Request
  mr_update_labels path labels update_action =
      put_mr path (string_field update_action (join_with labels (codes ",")))

  unfoldable pub issue_add_labels : ItemPath → List Bytes → Result Request
  issue_add_labels path labels = issues_update_labels path labels (codes "add_labels")

  unfoldable pub issue_remove_labels : ItemPath → List Bytes → Result Request
  issue_remove_labels path labels = issues_update_labels path labels (codes "remove_labels")

  unfoldable pub mr_add_labels : ItemPath → List Bytes → Result Request
  mr_add_labels path labels = mr_update_labels path labels (codes "add_labels")

  unfoldable pub mr_remove_labels : ItemPath → List Bytes → Result Request
  mr_remove_labels path labels = mr_update_labels path labels (codes "remove_labels")

  unfoldable pub issue_set_milestone : ItemPath → ℕ → Result Request
  issue_set_milestone path milestone =
      issue_make_url path (codes "?milestone_url=" ++ show milestone) >>= λ url.
      request (codes "PUT") url none

  unfoldable pub issue_clear_milestone : ItemPath → Result Request
  issue_clear_milestone path = issue_make_url path [] >>= λ url.
      request (codes "PUT") url (some (codes "{ \"milestone_id\": null }"))

  unfoldable pub mr_set_milestone : ItemPath → ℕ → Result Request
  mr_set_milestone path milestone_id =
      put_mr path (objmember_call (codes "milestone_id") ∷ (id_call milestone_id ∷ []))

  unfoldable pub mr_clear_milestone : ItemPath → Result Request
  mr_clear_milestone path = mr_set_milestone path 0

  unfoldable pub issue_set_title : ItemPath → Bytes → Result Request
  issue_set_title path new_title = put_issue path (string_field (codes "title") new_title)

  unfoldable pub mr_set_title : ItemPath → Bytes → Result Request
  mr_set_title path new_title = put_mr path (string_field (codes "title") new_title)

  -- `gitlab_mr_add_reviewer`, with the reviewers that there are and what `gitlab_user_id` returns: for an
  -- error of the latter it returns 0, without a request.
  unfoldable pub mr_add_reviewer : ItemPath → List ℤ → ℤ → Result (Option Request)
  mr_add_reviewer path reviewers (negsuc n) = ok none
  mr_add_reviewer path reviewers (pos uid) =
      put_mr path (
        array_calls (codes "reviewer_ids") (number_calls reviewers ++ (number_call (pos uid) ∷ [])))
      >>= λ r. ok (some r)

  -- `gitlab_perform_submit_comment`
  unfoldable pub perform_submit_comment : Kind → ItemPath → Bytes → Result Request
  perform_submit_comment issues target message = issue_make_url target (codes "/notes") >>= λ url.
      request (codes "POST") url
        (some (payload (object_calls (string_field (codes "body") message))))
  perform_submit_comment merge_requests target message =
      mr_make_url target (codes "/notes") >>= λ url.
      request (codes "POST") url
        (some (payload (object_calls (string_field (codes "body") message))))

  -- `gitlab_create_label`, with the name, the description and the colour.
  unfoldable pub create_label : ItemPath → Bytes → Bytes → ℕ → Result Request
  create_label path name description colour =
      let calls =
        string_field (codes "name") name
        ++ (string_field (codes "color") (b'#' ∷ show_colour colour)
            ++ string_field (codes "description") description) in
      repo_make_url path (codes "/labels") >>= λ url.
      request (codes "POST") url (some (payload (object_calls calls)))

  -- `gitlab_delete_label`
  unfoldable pub delete_label : ItemPath → Bytes → Result Request
  delete_label path label = repo_make_url path (codes "/labels/" ++ urlencode label) >>= λ url.
      request (codes "DELETE") url none
