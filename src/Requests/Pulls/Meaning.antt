-- ===== src/Requests/Pulls/Meaning.antt =====
-- src/github/pulls.c and src/gitea: where the requests go, and what they say.
use ghcli.Decimal.{show}
use ghcli.Requests.Gitea as Gitea
use ghcli.Requests.Pulls.Operations.{
  Change, reviewers_pull, review_pull, close_issue, reopen_issue, assign_issue, label_issue,
  unset_milestone, merge_pull,
}
use ghcli.Prelude.{ℕ, [], ◌∷◌, ◌++◌, Bytes, codes}

-- The path behind the repository and a slash.
abbrev to_item : Bytes → ℕ → Bytes → Bytes
to_item word id suffix = word ++ (b'/' ∷ (show id ++ suffix))

abbrev change_rest : ℕ → Change → Bytes
change_rest id (reviewers_pull users) = to_item (codes "pulls") id (codes "/requested_reviewers")
change_rest id (review_pull body review comments) = to_item (codes "pulls") id (codes "/reviews")
change_rest id (merge_pull squash delete) = to_item (codes "pulls") id (codes "/merge")
change_rest id (label_issue label i) = to_item (codes "issues") id (codes "/labels")
change_rest id close_issue = to_item (codes "issues") id []
change_rest id reopen_issue = to_item (codes "issues") id []
change_rest id unset_milestone = to_item (codes "issues") id []
change_rest id (assign_issue user) = to_item (codes "issues") id []
change_rest id _ = to_item (codes "pulls") id []
