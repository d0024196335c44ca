-- ===== src/Requests/Pulls/Bodies.antt =====
-- src/github/pulls.c and src/gitea: the bodies of the requests.
use ghcli.Decimal.{show}
use ghcli.Diff.Comments.{Comment, int_eq}
use ghcli.Json.Escape.{escape, escape_char}
use ghcli.Requests.{payload, object_calls, string_field, string_calls}
use ghcli.Requests.Body.{outside, compact, Says, compact-show, payload_says}
use ghcli.Requests.Gitlab.{array_calls}
use ghcli.Requests.Pulls.{comment_calls, comments_calls}
use ghcli.Requests.Pulls.Plan.{payload-strings}
use ghcli.Requests.Pulls.Operations.{
  Change, close_pull, reopen_pull, title_pull, reviewers_pull, review_pull, close_issue,
  reopen_issue, assign_issue, label_issue, unset_milestone, merge_pull, shut_pull, open_pull,
  word_for, comment_document, comment_documents, change_document,
}
use ghcli.Json.Gen.Calls.{Call, end_array_call, objmember_call, bool_call}
use ghcli.Json.Gen.Document.{
  truth, text, list, dict, no_fields, field, calls_of, item_calls, render, depth, depth_items,
}
use ghcli.Prelude.{
  Bool-cases, ◌≤◌, ◌≡◌, inl, inr, refl, ap, List, [], ◌∷◌, ◌++◌, Bytes, if◌then◌else◌, arith,
  append-nil, codes, Option, some,
}

comment_calls-calls_of : (c : Comment) → comment_calls c ≡ calls_of (comment_document c)
unfolding calls_of
comment_calls-calls_of c = elim (Bool-cases (int_eq c.after.start_row c.after.end_row)) [
  | inl one ↦ rw one refl
  | inr more ↦ rw more refl
]

comments_calls-item_calls :
    (comments : List Comment) → comments_calls comments ≡ item_calls (comment_documents comments)
unfolding calls_of
comments_calls-item_calls [] = refl
comments_calls-item_calls (c ∷ comments) =
    rw (comments_calls-item_calls comments)
      (ap (λ calls. calls ++ item_calls (comment_documents comments)) (comment_calls-calls_of c))

depth-comment_document : (c : Comment) → depth (comment_document c) ≡ 1
unfolding depth
depth-comment_document c = elim (Bool-cases (int_eq c.after.start_row c.after.end_row)) [
  | inl one ↦ rw one refl
  | inr more ↦ rw more refl
]

depth_items-comment_documents :
    (comments : List Comment) → depth_items (comment_documents comments) ≤ 1
unfolding depth
depth_items-comment_documents [] = omega arith
depth_items-comment_documents (c ∷ comments) =
    omega (arith, depth-comment_document c, depth_items-comment_documents comments)

-- The calls of the operations that use the generator.
abbrev members : Change → List Call
members close_pull = string_field (codes "state") (codes "closed")
members reopen_pull = string_field (codes "state") (codes "open")
members close_issue = string_field (codes "state") (codes "closed")
members reopen_issue = string_field (codes "state") (codes "open")
members (title_pull title) = string_field (codes "title") title
members (reviewers_pull users) = array_calls (codes "reviewers") (string_calls users)
members (assign_issue user) = array_calls (codes "assignees") (string_calls (user ∷ []))
members (label_issue label id) = array_calls (codes "labels") (string_calls (show id ∷ []))
members (merge_pull squash delete) =
    string_field (codes "Do") (if squash then codes "squash" else codes "merge")
    ++ (objmember_call (codes "delete_branch_after_merge") ∷ (bool_call delete ∷ []))
members (review_pull body review comments) =
    string_field (codes "body") body
    ++ (string_field (codes "event") (word_for review)
        ++ array_calls (codes "comments") (comments_calls comments))
members _ = []

abbrev pub change_body : Change → Option Bytes
change_body shut_pull = some (codes "{ \"state\": \"closed\"}")
change_body open_pull = some (codes "{ \"state\": \"open\"}")
change_body unset_milestone = some (codes "{ \"milestone\": " ++ (show 0 ++ codes " }"))
change_body op = some (payload (object_calls (members op)))

review-calls_of :
    (body event : Bytes) (comments : List Comment)
    → object_calls (
        string_field (codes "body") body
        ++ (string_field (codes "event") event
            ++ array_calls (codes "comments") (comments_calls comments)))
      ≡ calls_of (
          dict (
            field (codes "body") (text body) (
              field
                (codes "event")
                (text event)
                (field (codes "comments") (list (comment_documents comments)) no_fields))))
unfolding calls_of
review-calls_of body event comments =
    rw
      (
        comments_calls-item_calls comments,
        append-nil (item_calls (comment_documents comments) ++ (end_array_call ∷ [])),
      )
      refl

string-Says :
    (key value : Bytes)
    → Says
        (some (payload (object_calls (string_field key value))))
        (some (dict (field key (text value) no_fields)))
unfolding calls_of depth
string-Says key value = payload_says _ (dict (field key (text value) no_fields)) refl (omega arith)

pub change_body-Says : (op : Change) → Says (change_body op) (change_document op)
unfolding compact render calls_of depth escape escape_char
change_body-Says close_pull = string-Says (codes "state") (codes "closed")
change_body-Says reopen_pull = string-Says (codes "state") (codes "open")
change_body-Says close_issue = string-Says (codes "state") (codes "closed")
change_body-Says reopen_issue = string-Says (codes "state") (codes "open")
change_body-Says shut_pull = refl
change_body-Says open_pull = refl
change_body-Says unset_milestone =
    rw (append-nil (show 0), compact-show 0 (codes " }"), compact-show 0 (codes "}")) refl
change_body-Says (title_pull title) = string-Says (codes "title") title
change_body-Says (reviewers_pull users) =
    ap (compact outside) (payload-strings (codes "reviewers") users)
change_body-Says (assign_issue user) =
    ap (compact outside) (payload-strings (codes "assignees") (user ∷ []))
change_body-Says (label_issue label id) =
    ap (compact outside) (payload-strings (codes "labels") (show id ∷ []))
change_body-Says (merge_pull squash delete) =
    payload_says _
      (dict (
        field (codes "Do") (text (if squash then codes "squash" else codes "merge"))
          (field (codes "delete_branch_after_merge") (truth delete) no_fields)))
      refl (omega arith)
change_body-Says (review_pull body review comments) =
    payload_says _
      (dict (
        field (codes "body") (text body) (
          field (codes "event") (text (word_for review))
            (field (codes "comments") (list (comment_documents comments)) no_fields))))
      (review-calls_of body (word_for review) comments)
      (omega (arith, depth_items-comment_documents comments))
