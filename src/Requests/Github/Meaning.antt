-- ===== src/Requests/Github/Meaning.antt =====
-- src/github: where the requests go, and what they say.
use ghcli.Requests.Github.{
  repo_make_url, issue_make_url, issue_patch_state, issue_close, issue_reopen, perform_submit_issue,
  issue_assign, issue_add_labels, issue_remove_labels, issue_set_milestone, issue_clear_milestone,
  issue_set_title, perform_submit_comment, create_label, delete_label,
}
use ghcli.UrlEncode.RoundTrip.{IsByte}
use ghcli.Prelude.{ℕ, refl, ◌∷◌, Bytes, All, codes, none, some}
use ghcli.Requests.Github.Operations.{
  Operation, close, reopen, clear_milestone, submit, assign, remove_label, set_title, comment,
  delete, add_labels, set_milestone, create, perform, method_of, segments_of, document_of, HasBytes,
  Asks,
}
use ghcli.Requests.Github.Paths.{to_url-decoded, rest_of-decoded}
use ghcli.Requests.Github.Bodies.{body_of-Says}

-- Every operation on an issue, its comments and the labels of a repository sends its request with its
-- method to the path below the API whose segments are, percent-decoded, the repository with its owner,
-- whatever bytes are in their names, and then the issue or the label: "lables" is what the deletion of a
-- label asks for. The body says what the document of the operation says, or there is none.
pub perform-Asks :
    (base owner repo : Bytes) (id : ℕ) (op : Operation)
    → All IsByte owner
    → All IsByte repo
    → HasBytes op
    → Asks base
        (perform base owner repo id op)
        (method_of op)
        (codes "repos" ∷ (owner ∷ (repo ∷ segments_of id op)))
        (document_of op)
unfolding issue_make_url repo_make_url issue_patch_state issue_close issue_reopen
    perform_submit_issue issue_assign issue_add_labels issue_remove_labels issue_set_milestone
    issue_clear_milestone issue_set_title perform_submit_comment create_label delete_label
perform-Asks base owner repo id close h k b =
    ((refl, body_of-Says close), to_url-decoded base owner repo _ h k (rest_of-decoded id close b))
perform-Asks base owner repo id reopen h k b = (
  (refl, body_of-Says reopen),
  to_url-decoded base owner repo _ h k (rest_of-decoded id reopen b),
)
perform-Asks base owner repo id clear_milestone h k b = (
  (refl, body_of-Says clear_milestone),
  to_url-decoded base owner repo _ h k (rest_of-decoded id clear_milestone b),
)
perform-Asks base owner repo id (set_milestone n) h k b = (
  (refl, body_of-Says (set_milestone n)),
  to_url-decoded base owner repo _ h k (rest_of-decoded id (set_milestone n) b),
)
perform-Asks base owner repo id (set_title title) h k b = (
  (refl, body_of-Says (set_title title)),
  to_url-decoded base owner repo _ h k (rest_of-decoded id (set_title title) b),
)
perform-Asks base owner repo id (remove_label label) h k b = (
  (refl, body_of-Says (remove_label label)),
  to_url-decoded base owner repo _ h k (rest_of-decoded id (remove_label label) b),
)
perform-Asks base owner repo id (delete label) h k b = (
  (refl, body_of-Says (delete label)),
  to_url-decoded base owner repo _ h k (rest_of-decoded id (delete label) b),
)
perform-Asks base owner repo id (submit title none) h k b = (
  (refl, body_of-Says (submit title none)),
  to_url-decoded base owner repo _ h k (rest_of-decoded id (submit title none) b),
)
perform-Asks base owner repo id (submit title (some body)) h k b = (
  (refl, body_of-Says (submit title (some body))),
  to_url-decoded base owner repo _ h k (rest_of-decoded id (submit title (some body)) b),
)
perform-Asks base owner repo id (assign user) h k b = (
  (refl, body_of-Says (assign user)),
  to_url-decoded base owner repo _ h k (rest_of-decoded id (assign user) b),
)
perform-Asks base owner repo id (comment message) h k b = (
  (refl, body_of-Says (comment message)),
  to_url-decoded base owner repo _ h k (rest_of-decoded id (comment message) b),
)
perform-Asks base owner repo id (add_labels label labels) h k b = (
  (refl, body_of-Says (add_labels label labels)),
  to_url-decoded base owner repo _ h k (rest_of-decoded id (add_labels label labels) b),
)
perform-Asks base owner repo id (create name description colour) h k b = (
  (refl, body_of-Says (create name description colour)),
  to_url-decoded base owner repo _ h k (rest_of-decoded id (create name description colour) b),
)
