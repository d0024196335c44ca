-- ===== src/Requests/Pulls.antt =====
-- src/github/pulls.c: the requests that create and change pull requests.
pub mod Plan
pub mod Operations
pub mod Bodies
pub mod Meaning
mod Tests
use ghcli.Decimal.{show}
use ghcli.Diff.Comments.{Comment}
use ghcli.Requests.{
  ItemPath, by_default, by_url, by_bugzilla, by_id, by_pid_id, Request, payload, object_calls,
  string_field, optional_field, string_calls,
}
use ghcli.Requests.Github.{to_url, repo_make_url, issue_add_labels}
use ghcli.Requests.Gitlab.{array_calls}
use ghcli.Diff.Comments.{int_eq}
use ghcli.Json.Gen.Calls.{
  Call, begin_object_call, end_object_call, begin_array_call, end_array_call, null_call,
  objmember_call, string_call, number_call, id_call, bool_call, run_call, run,
}
use ghcli.Prelude.{
  ◌∙◌, ℕ, zero, suc, Bool-cases, Option-cases, ◌+◌, ◌-◌, ◌*◌, ◌/◌, ◌%◌, ◌^◌, ◌≤◌, ◌<◌, ◌≡◌, ◌≢◌,
  ◌⊎◌, inl, inr, refl, sym, ap, true, false, Bool, not, List, [], ◌∷◌, ◌++◌, Bytes, length,
  length-append, replicate, length-replicate, All, All-append, ltb, leb, ◌==◌, map, if◌then◌else◌,
  arith, append-nil, append_assoc, ◌&&◌, ◌||◌, codes, Option, none, some, ℤ, pos, negsuc,
}
use ghcli.Prelude.{
  Result, ok, failed, fault, stuck, ◌>>=◌, Ends, Ends-bind, Ends-mono, Ends-ne-stuck,
}

-- `struct gcli_submit_pull_options`, without what only other forges use.
pub record PullOptions : Type 0 where
  pub target_repo : ItemPath
  pub from : Bytes
  pub target_branch : Bytes
  pub title : Bytes
  pub body : Option Bytes
  pub labels : List Bytes
  pub reviewers : List Bytes
  pub automerge : Bool

-- The states of a review: `GCLI_REVIEW_…`, or another number.
pub data ReviewState : Type 0 where
  accept_changes request_changes review_comment bad_state : ReviewState

-- `"%s"` in the query of `github_pull_set_automerge`.
abbrev pub automerge_query : Bytes → Bytes
automerge_query node_id =
    codes
      "mutation updateAutomergeState {\n   enablePullRequestAutoMerge(input: {\n       pullRequestId: \""
    ++ (node_id
        ++ codes "\",\n       mergeMethod: MERGE\n   }) {\n      clientMutationId\n   }\n}\n")

-- The object of one comment.
abbrev pub comment_calls : Comment → List Call
comment_calls c =
    let start =
      if int_eq c.after.start_row c.after.end_row
      then []
      else objmember_call (codes "start_line") ∷ (number_call c.after.start_row ∷ []) in
    object_calls (
      string_field (codes "path") c.after.filename
      ++ (string_field (codes "body") c.comment
          ++ (objmember_call (codes "line") ∷ (number_call c.after.end_row ∷ start))))

-- `TAILQ_FOREACH(comment, &details->comments, next)`
abbrev pub comments_calls : List Comment → List Call
comments_calls [] = []
comments_calls (c ∷ comments) = comment_calls c ++ comments_calls comments

abbrev pub event_of : ReviewState → Result Bytes
event_of accept_changes = ok (codes "APPROVE")
event_of request_changes = ok (codes "REQUEST_CHANGES")
event_of review_comment = ok (codes "COMMENT")
event_of bad_state = failed

module _ (apibase : Bytes) where
  -- `github_pull_make_url`
  unfoldable pub pull_make_url : ItemPath → Bytes → Result Bytes
  pull_make_url (by_default owner repo id) suffix =
      ok (to_url apibase owner repo (codes "/pulls/" ++ (show id ++ suffix)))
  pull_make_url (by_url url) suffix = ok (url ++ suffix)
  pull_make_url _ suffix = failed

  abbrev request : Bytes → Bytes → List Call → Result Request
  request method url members =
      ok (record { method = method; url = url; body = some (payload (object_calls members)) })

  -- `github_pull_patch_state`
  unfoldable pub pull_patch_state : ItemPath → Bytes → Result Request
  pull_patch_state path new_state = pull_make_url path [] >>= λ url.
      request (codes "PATCH") url (string_field (codes "state") new_state)

  unfoldable pub pull_close : ItemPath → Result Request
  pull_close path = pull_patch_state path (codes "closed")

  unfoldable pub pull_reopen : ItemPath → Result Request
  pull_reopen path = pull_patch_state path (codes "open")

  -- `github_pull_set_automerge`
  unfoldable pub pull_set_automerge : Bytes → Result Request
  pull_set_automerge node_id =
      request (codes "POST") (apibase ++ codes "/graphql")
        (string_field (codes "query") (automerge_query node_id))

  -- `github_pull_add_reviewers`
  unfoldable pub pull_add_reviewers : ItemPath → List Bytes → Result Request
  pull_add_reviewers path users = pull_make_url path (codes "/requested_reviewers") >>= λ url.
      request (codes "POST") url (array_calls (codes "reviewers") (string_calls users))

  unfoldable pub pull_add_reviewer : ItemPath → Bytes → Result Request
  pull_add_reviewer path username = pull_add_reviewers path (username ∷ [])

  -- `github_pull_set_title`
  unfoldable pub pull_set_title : ItemPath → Bytes → Result Request
  pull_set_title path new_title = pull_make_url path [] >>= λ url.
      request (codes "PATCH") url (string_field (codes "title") new_title)

  -- `github_pull_create_review`, with the path, the body, the state and the comments of the details.
  unfoldable pub pull_create_review : ItemPath → Bytes → ReviewState → List Comment → Result Request
  pull_create_review path body review_state comments =
      pull_make_url path (codes "/reviews") >>= λ url. event_of review_state >>= λ event.
      request (codes "POST") url (
        string_field (codes "body") body
        ++ (string_field (codes "event") event
            ++ array_calls (codes "comments") (comments_calls comments)))

-- Whether all requests so far succeeded, and the requests.
abbrev pub Sent : Type 0
Sent = Bool × List Request

abbrev pub is_empty : List Bytes → Bool
is_empty [] = true
is_empty (x ∷ xs) = false

-- What templates/github/pulls.t reads of an answer, of `struct gcli_pull`: "id", "number" and "node_id".
pub record Created : Type 0 where
  pub id : ℕ
  pub number : ℕ
  pub node_id : Bytes

-- What comes of the requests: whether one succeeds, and the pull request in an answer.
module _ (apibase : Bytes) (send : Request → Bool) (parse_pull : Request → Created) where
  -- A request that is only sent if it is wanted and all before it succeeded.
  abbrev pub send_if : Bool → Result Request → Sent → Result Sent
  send_if wanted r (true, sent) =
      if wanted then (r >>= λ r'. ok (send r', sent ++ (r' ∷ []))) else ok (true, sent)
  send_if wanted r (false, sent) = ok (false, sent)

  -- The requests behind the first one, on the pull request that was created.
  abbrev pub follow : PullOptions → ItemPath → Bytes → Sent → Result Sent
  follow o path node_id sent =
      send_if (not (is_empty o.labels)) (issue_add_labels apibase path o.labels) sent >>= λ sent'.
      send_if (not (is_empty o.reviewers)) (pull_add_reviewers apibase path o.reviewers) sent'
      >>= λ sent''. send_if o.automerge (pull_set_automerge apibase node_id) sent''

  -- The part behind `if (rc == 0 && …)`.
  abbrev pub after_first : PullOptions → ItemPath → Request → Result Sent
  after_first o (by_default owner repo id) first =
      if not (is_empty o.labels) || (o.automerge || not (is_empty o.reviewers))
      then follow o (by_default owner repo (parse_pull first).id) (parse_pull first).node_id
          (true, first ∷ [])
      else ok (true, first ∷ [])
  after_first o _ first = ok (true, first ∷ [])

  -- `github_perform_submit_pull`: whether it returns 0, and the requests in their order.
  unfoldable pub perform_submit_pull : PullOptions → Result Sent
  perform_submit_pull o =
      let members =
        string_field (codes "head") o.from
        ++ (string_field (codes "base") o.target_branch
            ++ (string_field (codes "title") o.title ++ optional_field (codes "body") o.body)) in
      repo_make_url apibase o.target_repo (codes "/pulls") >>= λ url.
      request apibase (codes "POST") url members >>= λ first.
      if send first then after_first o o.target_repo first else ok (false, first ∷ [])
