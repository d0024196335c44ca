-- ===== src/Requests/Gitlab/Operations.antt =====
-- src/gitlab: the operations, and what is asked for by each.
use ghcli.Requests.Gitlab.{
  Kind, issues, merge_requests, issue_close, issue_reopen, mr_close, mr_reopen,
  perform_submit_issue, issue_assign, issue_add_labels, issue_remove_labels, mr_add_labels,
  mr_remove_labels, issue_set_milestone, issue_clear_milestone, mr_set_milestone,
  mr_clear_milestone, issue_set_title, mr_set_title, mr_add_reviewer, perform_submit_comment,
  create_label, delete_label,
}
use ghcli.Requests.Github.{show_colour}
use ghcli.Requests.{ItemPath, by_default, by_pid_id, Request}
use ghcli.UrlEncode.RoundTrip.{IsByte}
use ghcli.Decimal.{show}
use ghcli.Json.Gen.Document.{
  Json, nothing, integer, ident, text, list, dict, Items, no_items, item, no_fields, field,
}
use ghcli.Prelude.{ℕ, List, [], ◌∷◌, ◌++◌, Bytes, All, codes, Option, none, some, ℤ, pos}
use ghcli.Prelude.{Result, ok, failed, fault, stuck}

-- The operations with their arguments.
pub data Operation : Type 0 where
  close reopen clear_milestone : Kind → Operation
  set_title comment : Kind → Bytes → Operation
  add_labels remove_labels : Kind → List Bytes → Operation
  set_milestone : Kind → ℕ → Operation
  assign : ℕ → Operation
  add_reviewer : List ℤ → ℕ → Operation
  submit : Bytes → Option Bytes → Operation
  create : Bytes → Bytes → ℕ → Operation
  delete : Bytes → Operation

-- A project by its owner and name, or by its number.
pub data Project : Type 0 where
  named : Bytes → Bytes → Project
  numbered : ℕ → Project

abbrev pub item_of : Project → ℕ → ItemPath
item_of (named owner repo) id = by_default owner repo id
item_of (numbered n) id = by_pid_id n id

-- The segment that stands for the project.
abbrev pub name_of : Project → Bytes
name_of (named owner repo) = owner ++ (b'/' ∷ repo)
name_of (numbered n) = show n

-- The request, if there is one.
abbrev pub only : Result (Option Request) → Result Request
only (ok (some r)) = ok r
only (ok none) = failed
only failed = failed
only fault = fault
only stuck = stuck

module _ (base : Bytes) (join : List Bytes → Bytes → Bytes) where
  -- The operation, as the program performs it.
  abbrev pub perform_item : Project → ℕ → Operation → Result Request
  perform_item project id (close issues) = issue_close base join (item_of project id)
  perform_item project id (reopen issues) = issue_reopen base join (item_of project id)
  perform_item project id (clear_milestone issues) =
      issue_clear_milestone base join (item_of project id)
  perform_item project id (set_title issues title) =
      issue_set_title base join (item_of project id) title
  perform_item project id (add_labels issues labels) =
      issue_add_labels base join (item_of project id) labels
  perform_item project id (remove_labels issues labels) =
      issue_remove_labels base join (item_of project id) labels
  perform_item project id (set_milestone issues n) =
      issue_set_milestone base join (item_of project id) n
  perform_item project id (close merge_requests) = mr_close base join (item_of project id)
  perform_item project id (reopen merge_requests) = mr_reopen base join (item_of project id)
  perform_item project id (clear_milestone merge_requests) =
      mr_clear_milestone base join (item_of project id)
  perform_item project id (set_title merge_requests title) =
      mr_set_title base join (item_of project id) title
  perform_item project id (add_labels merge_requests labels) =
      mr_add_labels base join (item_of project id) labels
  perform_item project id (remove_labels merge_requests labels) =
      mr_remove_labels base join (item_of project id) labels
  perform_item project id (set_milestone merge_requests n) =
      mr_set_milestone base join (item_of project id) n
  perform_item project id (comment kind message) =
      perform_submit_comment base join kind (item_of project id) message
  perform_item project id (assign uid) = issue_assign base join (item_of project id) (pos uid)
  perform_item project id (add_reviewer old uid) =
      only (mr_add_reviewer base join (item_of project id) old (pos uid))
  perform_item project id (create name description colour) =
      create_label base join (item_of project id) name description colour
  perform_item project id (delete label) = delete_label base join (item_of project id) label
  perform_item (named owner repo) id (submit title body) =
      perform_submit_issue base join owner repo title body
  perform_item (numbered n) id (submit title body) = failed

-- What GitLab is asked for: the method, the segments behind the project, and the document.
abbrev pub method_of : Operation → Bytes
method_of (comment kind message) = codes "POST"
method_of (submit title body) = codes "POST"
method_of (create name description colour) = codes "POST"
method_of (delete label) = codes "DELETE"
method_of _ = codes "PUT"

abbrev pub word_of : Kind → Bytes
word_of issues = codes "issues"
word_of merge_requests = codes "merge_requests"

abbrev pub segments_of : ℕ → Operation → List Bytes
segments_of id (close kind) = word_of kind ∷ (show id ∷ [])
segments_of id (reopen kind) = word_of kind ∷ (show id ∷ [])
segments_of id (clear_milestone kind) = word_of kind ∷ (show id ∷ [])
segments_of id (set_title kind title) = word_of kind ∷ (show id ∷ [])
segments_of id (add_labels kind labels) = word_of kind ∷ (show id ∷ [])
segments_of id (remove_labels kind labels) = word_of kind ∷ (show id ∷ [])
segments_of id (set_milestone issues n) =
    codes "issues" ∷ ((show id ++ (codes "?milestone_url=" ++ show n)) ∷ [])
segments_of id (set_milestone merge_requests n) = codes "merge_requests" ∷ (show id ∷ [])
segments_of id (comment kind message) = word_of kind ∷ (show id ∷ (codes "notes" ∷ []))
segments_of id (assign uid) = codes "issues" ∷ (show id ∷ [])
segments_of id (add_reviewer old uid) = codes "merge_requests" ∷ (show id ∷ [])
segments_of id (submit title body) = codes "issues" ∷ []
segments_of id (create name description colour) = codes "labels" ∷ []
segments_of id (delete label) = codes "labels" ∷ (label ∷ [])

abbrev one_field : Bytes → Json → Option Json
one_field key j = some (dict (field key j no_fields))

-- The numbers, and one more behind them.
abbrev pub numbers : List ℤ → ℕ → Items
numbers [] uid = item (integer (pos uid)) no_items
numbers (n ∷ ns) uid = item (integer n) (numbers ns uid)

abbrev pub document_of : (List Bytes → Bytes → Bytes) → Operation → Option Json
document_of join (close kind) = one_field (codes "state_event") (text (codes "close"))
document_of join (reopen kind) = one_field (codes "state_event") (text (codes "reopen"))
document_of join (clear_milestone issues) = one_field (codes "milestone_id") nothing
document_of join (clear_milestone merge_requests) = one_field (codes "milestone_id") (ident 0)
document_of join (set_milestone issues n) = none
document_of join (set_milestone merge_requests n) = one_field (codes "milestone_id") (ident n)
document_of join (set_title kind title) = one_field (codes "title") (text title)
document_of join (add_labels kind labels) =
    one_field (codes "add_labels") (text (join labels (codes ",")))
document_of join (remove_labels kind labels) =
    one_field (codes "remove_labels") (text (join labels (codes ",")))
document_of join (comment kind message) = one_field (codes "body") (text message)
document_of join (assign uid) =
    one_field (codes "assignee_ids") (list (item (integer (pos uid)) no_items))
document_of join (add_reviewer old uid) = one_field (codes "reviewer_ids") (list (numbers old uid))
document_of join (submit title none) = one_field (codes "title") (text title)
document_of join (submit title (some body)) =
    some (
      dict (field (codes "title") (text title) (field (codes "description") (text body) no_fields)))
document_of join (create name description colour) = some (
    dict (
      field (codes "name") (text name) (
        field (codes "color") (text (b'#' ∷ show_colour colour))
          (field (codes "description") (text description) no_fields))))
document_of join (delete label) = none

abbrev pub HasBytes : Project → Type 0
HasBytes (named owner repo) = All IsByte owner × All IsByte repo
HasBytes (numbered n) = Unit

-- The operations on the repository itself need its name.
abbrev pub Fits : Project → Operation → Type 0
Fits (numbered n) (submit title body) = ⊥
Fits (numbered n) (create name description colour) = ⊥
Fits (numbered n) (delete label) = ⊥
Fits (named owner repo) (delete label) = All IsByte label
Fits _ _ = Unit
