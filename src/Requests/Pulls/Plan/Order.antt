-- ===== src/Requests/Pulls/Plan/Order.antt =====
-- src/github/pulls.c: `github_perform_submit_pull` sends its requests in order.
use ghcli.Decimal.{show}
use ghcli.Requests.{by_default, Request}
use ghcli.Requests.Github.{to_url, repo_make_url, issue_make_url, issue_add_labels}
use ghcli.Requests.Pulls.{
  Created, PullOptions, automerge_query, pull_make_url, pull_set_automerge, pull_add_reviewers,
  Sent, is_empty, send_if, follow, after_first, perform_submit_pull,
}
use ghcli.Json.Gen.Document.{text, dict, no_fields, field}
use ghcli.Prelude.{
  ℕ, Bool-cases, ◌≡◌, inl, inr, refl, sym, ap, true, false, Bool, not, List, [], ◌∷◌, ◌++◌, Bytes,
  if◌then◌else◌, ◌||◌, codes,
}
use ghcli.Prelude.{Result, ok, fault}
use ghcli.Requests.Pulls.Plan.{
  send_all, if_wanted, post, strings, creation, plan, payload-strings, payload_query, payload_pull,
}
use ghcli.Requests.Pulls.Plan.Steps.{continue_with, continue_with-none, steps-continue_with}

module _ (base owner repo : Bytes) (send : Request → Bool) (parse_pull : Request → Created) where
  abbrev label_post : ℕ → List Bytes → Request
  label_post id labels =
      post (to_url base owner repo (codes "/issues/" ++ (show id ++ codes "/labels")))
        (strings (codes "labels") labels)

  abbrev reviewer_post : ℕ → List Bytes → Request
  reviewer_post id users =
      post (to_url base owner repo (codes "/pulls/" ++ (show id ++ codes "/requested_reviewers")))
        (strings (codes "reviewers") users)

  send_if-unwanted :
      (r r' : Result Request) (st : Sent)
      → send_if base send parse_pull false r st ≡ send_if base send parse_pull false r' st
  send_if-unwanted r r' (true, sent) = refl
  send_if-unwanted r r' (false, sent) = refl

  send_if-label_post :
      (id : ℕ) (labels : List Bytes) (st : Sent)
      → send_if base send parse_pull
          (not (is_empty labels))
          (issue_add_labels base (by_default owner repo id) labels)
          st
        ≡ send_if base send parse_pull (not (is_empty labels)) (ok (label_post id labels)) st
  unfolding issue_add_labels issue_make_url
  send_if-label_post id [] st = send_if-unwanted fault (ok (label_post id [])) st
  send_if-label_post id (label ∷ labels) st =
      rw (payload-strings (codes "labels") (label ∷ labels)) refl

  add_reviewers-reviewer_post :
      (id : ℕ) (users : List Bytes)
      → pull_add_reviewers base (by_default owner repo id) users ≡ ok (reviewer_post id users)
  unfolding pull_add_reviewers pull_make_url
  add_reviewers-reviewer_post id users = rw (payload-strings (codes "reviewers") users) refl

  abbrev query_post : Bytes → Request
  query_post node_id =
      post (base ++ codes "/graphql")
        (dict (field (codes "query") (text (automerge_query node_id)) no_fields))

  set_automerge-query_post :
      (node_id : Bytes) → pull_set_automerge base node_id ≡ ok (query_post node_id)
  unfolding pull_set_automerge
  set_automerge-query_post node_id = rw (payload_query (automerge_query node_id)) refl

  -- The requests behind the creation.
  abbrev rest_of : PullOptions → ℕ → Bytes → List Request
  rest_of o id node_id =
      if_wanted (not (is_empty o.labels)) (label_post id o.labels)
      ++ (if_wanted (not (is_empty o.reviewers)) (reviewer_post id o.reviewers)
          ++ if_wanted o.automerge (query_post node_id))

  follow-rest_of :
      (o : PullOptions) (id : ℕ) (node_id : Bytes) (st : Sent)
      → follow base send parse_pull o (by_default owner repo id) node_id st
        ≡ ok (continue_with send st (rest_of o id node_id))
  follow-rest_of o id node_id st =
      rw
        (
          send_if-label_post id o.labels st,
          add_reviewers-reviewer_post id o.reviewers,
          set_automerge-query_post node_id,
        )
        (steps-continue_with base send parse_pull (not (is_empty o.labels))
          (not (is_empty o.reviewers)) o.automerge (label_post id o.labels)
          (reviewer_post id o.reviewers) (query_post node_id) st)

  guarded :
      (a b c : Bool) (r s t : Request) (st : Sent)
      → (if a || (c || b)
          then ok (continue_with send st (if_wanted a r ++ (if_wanted b s ++ if_wanted c t)))
          else ok st)
        ≡ ok (continue_with send st (if_wanted a r ++ (if_wanted b s ++ if_wanted c t)))
  guarded true b c r s t st = refl
  guarded false b true r s t st = refl
  guarded false true false r s t st = refl
  guarded false false false r s t st = ap ok (sym (continue_with-none send st))

  after_first-rest_of :
      (o : PullOptions) (id : ℕ) (first : Request)
      → after_first base send parse_pull o (by_default owner repo id) first
        ≡ ok (
            continue_with send
              (true, first ∷ [])
              (rest_of o (parse_pull first).id (parse_pull first).node_id))
  after_first-rest_of o id first =
      rw (follow-rest_of o (parse_pull first).id (parse_pull first).node_id (true, first ∷ [])) (
        guarded (not (is_empty o.labels)) (not (is_empty o.reviewers)) o.automerge _ _ _
          (true, first ∷ []))

  -- To a repository by its owner and name, github_perform_submit_pull sends these requests in this
  -- order, and stops behind the first that fails: the creation of the pull request, the labels, the
  -- reviewers and the automatic merge, as far as they are asked for. The labels and the reviewers go to
  -- the path with the "id" of the answer to the creation, where the API has its "number"; the automatic
  -- merge goes to its node. Each body is the text of its document. It returns 0 exactly if none fails.
  pub perform_submit_pull-send_all :
      (o : PullOptions) (id : ℕ)
      → o.target_repo ≡ by_default owner repo id
      → perform_submit_pull base send parse_pull o
        ≡ ok (send_all send (plan base owner repo parse_pull o))
  unfolding perform_submit_pull repo_make_url
  perform_submit_pull-send_all o id e =
      rw (e, payload_pull o)
        (elim (Bool-cases (send (creation base owner repo parse_pull o))) [
          | inl good ↦
              rw (good, after_first-rest_of o id (creation base owner repo parse_pull o)) refl
          | inr bad ↦ rw bad refl
        ])
