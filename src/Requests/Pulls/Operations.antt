-- ===== src/Requests/Pulls/Operations.antt =====
-- src/github/pulls.c and src/gitea: the operations, and what is asked for by each.
use ghcli.Decimal.{show}
use ghcli.Diff.Comments.{Comment, int_eq}
use ghcli.Requests.{ItemPath, Request}
use ghcli.Requests.Gitea as Gitea
use ghcli.Requests.Pulls.{
  ReviewState, accept_changes, request_changes, review_comment, pull_close, pull_reopen,
  pull_add_reviewers, pull_set_title, pull_create_review,
}
use ghcli.Requests.Pulls.Plan.{strings}
use ghcli.Json.Gen.Document.{
  Json, truth, integer, ident, text, list, dict, Items, no_items, item, no_fields, field,
}
use ghcli.Prelude.{ℕ, Bool, List, [], ◌∷◌, Bytes, if◌then◌else◌, codes, Option, some}
use ghcli.Prelude.{Result}

-- The states that a review can have.
pub data Review : Type 0 where
  approve refuse remark : Review

abbrev pub state_of : Review → ReviewState
state_of approve = accept_changes
state_of refuse = request_changes
state_of remark = review_comment

abbrev pub word_for : Review → Bytes
word_for approve = codes "APPROVE"
word_for refuse = codes "REQUEST_CHANGES"
word_for remark = codes "COMMENT"

-- The operations on a pull request of GitHub, and then those of Gitea on an issue or a pull request, with
-- their arguments; the labels come with their ids.
pub data Change : Type 0 where
  close_pull reopen_pull : Change
  title_pull : Bytes → Change
  reviewers_pull : List Bytes → Change
  review_pull : Bytes → Review → List Comment → Change
  close_issue reopen_issue unset_milestone shut_pull open_pull : Change
  assign_issue : Bytes → Change
  label_issue : Bytes → ℕ → Change
  merge_pull : Bool → Bool → Change

-- The operation, as the program performs it.
abbrev pub perform_change : Bytes → ItemPath → Change → Result Request
perform_change base path close_pull = pull_close base path
perform_change base path reopen_pull = pull_reopen base path
perform_change base path (title_pull title) = pull_set_title base path title
perform_change base path (reviewers_pull users) = pull_add_reviewers base path users
perform_change base path (review_pull body review comments) =
    pull_create_review base path body (state_of review) comments
perform_change base path close_issue = Gitea.issue_close base path
perform_change base path reopen_issue = Gitea.issue_reopen base path
perform_change base path unset_milestone = Gitea.issue_clear_milestone base path
perform_change base path shut_pull = Gitea.pull_close base path
perform_change base path open_pull = Gitea.pull_reopen base path
perform_change base path (assign_issue user) = Gitea.issue_assign base path user
perform_change base path (label_issue label id) =
    Gitea.issue_add_labels base ((label, id) ∷ []) path (label ∷ [])
perform_change base path (merge_pull squash delete) = Gitea.pull_merge base path squash delete

-- What the forge is asked for: the method, the segments behind the repository, and the document.
abbrev pub change_method : Change → Bytes
change_method (reviewers_pull users) = codes "POST"
change_method (review_pull body review comments) = codes "POST"
change_method (label_issue label id) = codes "POST"
change_method (merge_pull squash delete) = codes "POST"
change_method _ = codes "PATCH"

abbrev pull : ℕ → List Bytes → List Bytes
pull id rest = codes "pulls" ∷ (show id ∷ rest)

abbrev issue : ℕ → List Bytes → List Bytes
issue id rest = codes "issues" ∷ (show id ∷ rest)

abbrev pub change_segments : ℕ → Change → List Bytes
change_segments id close_pull = pull id []
change_segments id reopen_pull = pull id []
change_segments id shut_pull = pull id []
change_segments id open_pull = pull id []
change_segments id (title_pull title) = pull id []
change_segments id (reviewers_pull users) = pull id (codes "requested_reviewers" ∷ [])
change_segments id (review_pull body review comments) = pull id (codes "reviews" ∷ [])
change_segments id (merge_pull squash delete) = pull id (codes "merge" ∷ [])
change_segments id close_issue = issue id []
change_segments id reopen_issue = issue id []
change_segments id unset_milestone = issue id []
change_segments id (assign_issue user) = issue id []
change_segments id (label_issue label i) = issue id (codes "labels" ∷ [])

abbrev one_field : Bytes → Json → Option Json
one_field key j = some (dict (field key j no_fields))

-- The rows of a comment: only the last one, if it is also the first.
abbrev pub comment_document : Comment → Json
comment_document c =
    let start =
      if int_eq c.after.start_row c.after.end_row
      then no_fields
      else field (codes "start_line") (integer c.after.start_row) no_fields in
    dict (
      field (codes "path") (text c.after.filename) (
        field (codes "body") (text c.comment)
          (field (codes "line") (integer c.after.end_row) start)))

abbrev pub comment_documents : List Comment → Items
comment_documents [] = no_items
comment_documents (c ∷ comments) = item (comment_document c) (comment_documents comments)

abbrev pub change_document : Change → Option Json
change_document close_pull = one_field (codes "state") (text (codes "closed"))
change_document reopen_pull = one_field (codes "state") (text (codes "open"))
change_document close_issue = one_field (codes "state") (text (codes "closed"))
change_document reopen_issue = one_field (codes "state") (text (codes "open"))
change_document shut_pull = one_field (codes "state") (text (codes "closed"))
change_document open_pull = one_field (codes "state") (text (codes "open"))
change_document unset_milestone = one_field (codes "milestone") (ident 0)
change_document (title_pull title) = one_field (codes "title") (text title)
change_document (reviewers_pull users) = some (strings (codes "reviewers") users)
change_document (assign_issue user) = some (strings (codes "assignees") (user ∷ []))
change_document (label_issue label id) = some (strings (codes "labels") (show id ∷ []))
change_document (merge_pull squash delete) = some (
    dict (
      field (codes "Do") (text (if squash then codes "squash" else codes "merge"))
        (field (codes "delete_branch_after_merge") (truth delete) no_fields)))
change_document (review_pull body review comments) = some (
    dict (
      field (codes "body") (text body) (
        field (codes "event") (text (word_for review))
          (field (codes "comments") (list (comment_documents comments)) no_fields))))
