-- ===== src/Requests/Pulls/Plan.antt =====
-- src/github/pulls.c: the requests of `github_perform_submit_pull` as a list.
pub mod Steps
pub mod Order
use ghcli.Decimal.{show}
use ghcli.Json.Gen.{max_scopes}
use ghcli.Requests.{
  ItemPath, by_default, Request, payload, object_calls, string_field, optional_field, string_calls,
}
use ghcli.Requests.Body.{payload-calls_of, texts, string_calls-texts, depth_items-texts}
use ghcli.Requests.Github.{to_url, repo_make_url, issue_make_url, issue_add_labels}
use ghcli.Requests.Gitlab.{array_calls}
use ghcli.Requests.Pulls.{
  Created, PullOptions, automerge_query, pull_make_url, pull_set_automerge, pull_add_reviewers,
  Sent, is_empty, send_if, follow, after_first, perform_submit_pull,
}
use ghcli.Json.Gen.Calls.{
  Call, begin_object_call, end_object_call, begin_array_call, end_array_call, null_call,
  objmember_call, string_call, number_call, id_call, bool_call, run_call, run,
}
use ghcli.Json.Gen.Document.{
  Json, nothing, truth, integer, ident, text, list, dict, Items, no_items, item, Fields, no_fields,
  field, calls_of, item_calls, field_calls, render, render_items, render_fields, depth, depth_items,
  depth_fields,
}
use ghcli.Prelude.{
  ◌∙◌, ℕ, zero, suc, Bool-cases, Option-cases, ◌+◌, ◌-◌, ◌*◌, ◌/◌, ◌%◌, ◌^◌, ◌≤◌, ◌<◌, ◌≡◌, ◌≢◌,
  ◌⊎◌, inl, inr, refl, sym, ap, true, false, Bool, not, List, [], ◌∷◌, ◌++◌, Bytes, length,
  length-append, replicate, length-replicate, All, All-append, ltb, leb, ◌==◌, map, if◌then◌else◌,
  arith, append-nil, append_assoc, ◌&&◌, ◌||◌, codes, Option, none, some, ℤ, pos, negsuc,
}
use ghcli.Prelude.{
  Result, ok, failed, fault, stuck, ◌>>=◌, Ends, Ends-bind, Ends-mono, Ends-ne-stuck,
}

-- The requests one after the other, until one fails: whether all succeed, and those that were sent.
abbrev pub send_all : (Request → Bool) → List Request → Sent
send_all send [] = (true, [])
send_all send (r ∷ rs) =
    let rest = send_all send rs in if send r then (rest.0, r ∷ rest.1) else (false, r ∷ [])

abbrev pub if_wanted : Bool → Request → List Request
if_wanted true r = r ∷ []
if_wanted false r = []

abbrev pub post : Bytes → Json → Request
post url j = record { method = codes "POST"; url = url; body = some (render j) }

abbrev pub strings : Bytes → List Bytes → Json
strings key values = dict (field key (list (texts values)) no_fields)

abbrev pub body_field : Option Bytes → Fields
body_field none = no_fields
body_field (some body) = field (codes "body") (text body) no_fields

abbrev pub pull_document : PullOptions → Json
pull_document o = dict (
    field (codes "head") (text o.from) (
      field (codes "base") (text o.target_branch)
        (field (codes "title") (text o.title) (body_field o.body))))

module _ (base owner repo : Bytes) (parse_pull : Request → Created) where
  -- The request that creates the pull request.
  abbrev pub creation : PullOptions → Request
  creation o = post (to_url base owner repo (codes "/pulls")) (pull_document o)

  -- All requests: the creation, the labels, the reviewers and the merge, as far as they are asked for.
  abbrev pub plan : PullOptions → List Request
  plan o =
      let id = (parse_pull (creation o)).id in
      let node_id = (parse_pull (creation o)).node_id in
      creation o
      ∷ (if_wanted (not (is_empty o.labels)) (
            post (to_url base owner repo (codes "/issues/" ++ (show id ++ codes "/labels")))
              (strings (codes "labels") o.labels))
          ++ (if_wanted (not (is_empty o.reviewers)) (
                post
                  (to_url base owner repo
                    (codes "/pulls/" ++ (show id ++ codes "/requested_reviewers")))
                  (strings (codes "reviewers") o.reviewers))
              ++ if_wanted o.automerge (
                  post (base ++ codes "/graphql")
                    (dict (field (codes "query") (text (automerge_query node_id)) no_fields)))))

pub payload-strings :
    (key : Bytes) (values : List Bytes)
    → payload (object_calls (array_calls key (string_calls values))) ≡ render (strings key values)
unfolding calls_of depth
payload-strings key values =
    ap payload (
      rw
        (string_calls-texts values, append-nil (item_calls (texts values) ++ (end_array_call ∷ [])))
        refl)
    ∙ payload-calls_of (strings key values) (rw (depth_items-texts values) (omega arith))

pub payload_query :
    (query : Bytes)
    → payload (object_calls (string_field (codes "query") query))
      ≡ render (dict (field (codes "query") (text query) no_fields))
unfolding calls_of depth
payload_query query =
    payload-calls_of (dict (field (codes "query") (text query) no_fields)) (omega arith)

abbrev pub pull_members : PullOptions → List Call
pull_members o =
    string_field (codes "head") o.from
    ++ (string_field (codes "base") o.target_branch
        ++ (string_field (codes "title") o.title ++ optional_field (codes "body") o.body))

pub payload_pull :
    (o : PullOptions) → payload (object_calls (pull_members o)) ≡ render (pull_document o)
unfolding calls_of depth
payload_pull o = go o.body
  where
    go :
        (body : Option Bytes)
        → payload (object_calls (pull_members (record o { body = body })))
          ≡ render (pull_document (record o { body = body }))
    go none = payload-calls_of (pull_document (record o { body = none })) (omega arith)
    go (some b) = payload-calls_of (pull_document (record o { body = some b })) (omega arith)
