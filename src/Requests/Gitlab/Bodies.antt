-- ===== src/Requests/Gitlab/Bodies.antt =====
-- src/gitlab: the bodies of the requests.
use ghcli.Requests.Gitlab.{issues, merge_requests, number_calls, array_calls}
use ghcli.Requests.Github.{show_colour}
use ghcli.Requests.{payload, object_calls, string_field, optional_field}
use ghcli.Requests.Gitlab.Operations.{
  Operation, close, reopen, clear_milestone, set_title, comment, add_labels, remove_labels,
  set_milestone, assign, add_reviewer, submit, create, delete, numbers, document_of,
}
use ghcli.Requests.Body.{compact, Says, payload_says}
use ghcli.Json.Escape.{escape, escape_char}
use ghcli.Json.Gen.Calls.{Call, end_array_call, objmember_call, number_call, id_call}
use ghcli.Json.Gen.Document.{
  integer, ident, text, list, dict, no_items, item, no_fields, field, calls_of, item_calls, render,
  depth, depth_items,
}
use ghcli.Prelude.{
  ℕ, ◌≡◌, refl, ap, List, [], ◌∷◌, ◌++◌, Bytes, arith, append-nil, codes, Option, none, some, ℤ,
  pos,
}

module _ (join : List Bytes → Bytes → Bytes) where
  -- The calls of the operations that use the generator.
  abbrev pub members_of : Operation → List Call
  members_of (close kind) = string_field (codes "state_event") (codes "close")
  members_of (reopen kind) = string_field (codes "state_event") (codes "reopen")
  members_of (clear_milestone kind) = objmember_call (codes "milestone_id") ∷ (id_call 0 ∷ [])
  members_of (set_title kind title) = string_field (codes "title") title
  members_of (add_labels kind labels) = string_field (codes "add_labels") (join labels (codes ","))
  members_of (remove_labels kind labels) =
      string_field (codes "remove_labels") (join labels (codes ","))
  members_of (set_milestone kind n) = objmember_call (codes "milestone_id") ∷ (id_call n ∷ [])
  members_of (comment kind message) = string_field (codes "body") message
  members_of (assign uid) = array_calls (codes "assignee_ids") (number_call (pos uid) ∷ [])
  members_of (add_reviewer old uid) =
      array_calls (codes "reviewer_ids") (number_calls old ++ (number_call (pos uid) ∷ []))
  members_of (submit title body) =
      string_field (codes "title") title ++ optional_field (codes "description") body
  members_of (create name description colour) =
      string_field (codes "name") name
      ++ (string_field (codes "color") (b'#' ∷ show_colour colour)
          ++ string_field (codes "description") description)
  members_of (delete label) = []

  abbrev pub body_of : Operation → Option Bytes
  body_of (clear_milestone issues) = some (codes "{ \"milestone_id\": null }")
  body_of (set_milestone issues n) = none
  body_of (delete label) = none
  body_of op = some (payload (object_calls (members_of op)))

  numbers-calls :
      (old : List ℤ) (uid : ℕ)
      → number_calls old ++ (number_call (pos uid) ∷ []) ≡ item_calls (numbers old uid)
  unfolding calls_of
  numbers-calls [] uid = refl
  numbers-calls (n ∷ old) uid = ap (λ calls. number_call n ∷ calls) (numbers-calls old uid)

  depth_items-numbers : (old : List ℤ) (uid : ℕ) → depth_items (numbers old uid) ≡ 0
  unfolding depth
  depth_items-numbers [] uid = refl
  depth_items-numbers (n ∷ old) uid = rw (depth_items-numbers old uid) refl

  add_reviewer-calls :
      (old : List ℤ) (uid : ℕ)
      → object_calls (members_of (add_reviewer old uid))
        ≡ calls_of (dict (field (codes "reviewer_ids") (list (numbers old uid)) no_fields))
  unfolding calls_of
  add_reviewer-calls old uid =
      rw (numbers-calls old uid, append-nil (item_calls (numbers old uid) ++ (end_array_call ∷ [])))
        refl

  -- One member that is a string.
  string-Says :
      (key value : Bytes)
      → Says
          (some (payload (object_calls (string_field key value))))
          (some (dict (field key (text value) no_fields)))
  unfolding calls_of depth
  string-Says key value =
      payload_says _ (dict (field key (text value) no_fields)) refl (omega arith)

  pub body_of-Says : (op : Operation) → Says (body_of op) (document_of join op)
  unfolding compact render calls_of depth escape escape_char
  body_of-Says (close kind) = string-Says (codes "state_event") (codes "close")
  body_of-Says (reopen kind) = string-Says (codes "state_event") (codes "reopen")
  body_of-Says (clear_milestone issues) = refl
  body_of-Says (clear_milestone merge_requests) =
      payload_says _ (dict (field (codes "milestone_id") (ident 0) no_fields)) refl (omega arith)
  body_of-Says (set_title kind title) = string-Says (codes "title") title
  body_of-Says (add_labels kind labels) = string-Says (codes "add_labels") (join labels (codes ","))
  body_of-Says (remove_labels kind labels) =
      string-Says (codes "remove_labels") (join labels (codes ","))
  body_of-Says (set_milestone issues n) = tt
  body_of-Says (set_milestone merge_requests n) =
      payload_says _ (dict (field (codes "milestone_id") (ident n) no_fields)) refl (omega arith)
  body_of-Says (comment kind message) = string-Says (codes "body") message
  body_of-Says (assign uid) =
      payload_says _
        (dict (field (codes "assignee_ids") (list (item (integer (pos uid)) no_items)) no_fields))
        refl (omega arith)
  body_of-Says (add_reviewer old uid) =
      payload_says _ (dict (field (codes "reviewer_ids") (list (numbers old uid)) no_fields))
        (add_reviewer-calls old uid) (rw (depth_items-numbers old uid) (omega arith))
  body_of-Says (submit title none) = string-Says (codes "title") title
  body_of-Says (submit title (some body)) =
      payload_says _
        (dict
          (field (codes "title") (text title) (field (codes "description") (text body) no_fields)))
        refl (omega arith)
  body_of-Says (create name description colour) =
      payload_says _
        (dict (
          field (codes "name") (text name) (
            field (codes "color") (text (b'#' ∷ show_colour colour))
              (field (codes "description") (text description) no_fields))))
        refl (omega arith)
  body_of-Says (delete label) = tt
