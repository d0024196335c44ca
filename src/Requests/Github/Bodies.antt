-- ===== src/Requests/Github/Bodies.antt =====
-- src/github: the bodies of the requests.
use ghcli.Decimal.{show}
use ghcli.Json.Escape.{escape, escape_char}
use ghcli.Requests.{payload, object_calls, string_field, optional_field, string_calls}
use ghcli.Requests.Body.{
  texts, string_calls-texts, depth_items-texts, compact, Says, compact-show, payload_says,
}
use ghcli.Requests.Github.{show_colour}
use ghcli.Json.Gen.Calls.{Call, begin_array_call, end_array_call, objmember_call, string_call}
use ghcli.Json.Gen.Document.{
  text, list, dict, no_fields, field, calls_of, item_calls, render, depth,
}
use ghcli.Prelude.{
  ◌≡◌, refl, List, [], ◌∷◌, ◌++◌, Bytes, arith, append-nil, codes, Option, none, some,
}
use ghcli.Requests.Github.Operations.{
  Operation, close, reopen, clear_milestone, submit, assign, remove_label, set_title, comment,
  delete, add_labels, set_milestone, create, document_of,
}

-- The calls of the operations that use the generator.
abbrev pub members_of : Operation → List Call
members_of (set_title title) = string_field (codes "title") title
members_of (comment message) = string_field (codes "body") message
members_of (submit title body) =
    string_field (codes "title") title ++ optional_field (codes "body") body
members_of (assign user) =
    objmember_call (codes "assignees")
    ∷ (begin_array_call ∷ (string_call user ∷ (end_array_call ∷ [])))
members_of (add_labels label labels) =
    objmember_call (codes "labels")
    ∷ (begin_array_call ∷ (string_calls (label ∷ labels) ++ (end_array_call ∷ [])))
members_of (create name description colour) =
    string_field (codes "name") name
    ++ (string_field (codes "description") description
        ++ string_field (codes "color") (show_colour colour))
members_of _ = []

abbrev pub body_of : Operation → Option Bytes
body_of close = some (codes "{ \"state\": \"closed\"}")
body_of reopen = some (codes "{ \"state\": \"open\"}")
body_of clear_milestone = some (codes "{ \"milestone\": null }")
body_of (set_milestone n) = some (codes "{ \"milestone\": " ++ (show n ++ codes " }"))
body_of (remove_label label) = none
body_of (delete label) = none
body_of op = some (payload (object_calls (members_of op)))

add_labels-calls_of :
    (labels : List Bytes)
    → object_calls (
        objmember_call (codes "labels")
        ∷ (begin_array_call ∷ (string_calls labels ++ (end_array_call ∷ []))))
      ≡ calls_of (dict (field (codes "labels") (list (texts labels)) no_fields))
unfolding calls_of
add_labels-calls_of labels =
    rw (string_calls-texts labels, append-nil (item_calls (texts labels) ++ (end_array_call ∷ [])))
      refl

pub body_of-Says : (op : Operation) → Says (body_of op) (document_of op)
unfolding compact render calls_of depth escape escape_char
body_of-Says close = refl
body_of-Says reopen = refl
body_of-Says clear_milestone = refl
body_of-Says (set_milestone n) =
    rw (append-nil (show n), compact-show n (codes " }"), compact-show n (codes "}")) refl
body_of-Says (remove_label label) = tt
body_of-Says (delete label) = tt
body_of-Says (set_title title) =
    payload_says _ (dict (field (codes "title") (text title) no_fields)) refl (omega arith)
body_of-Says (comment message) =
    payload_says _ (dict (field (codes "body") (text message) no_fields)) refl (omega arith)
body_of-Says (submit title none) =
    payload_says _ (dict (field (codes "title") (text title) no_fields)) refl (omega arith)
body_of-Says (submit title (some body)) =
    payload_says _
      (dict (field (codes "title") (text title) (field (codes "body") (text body) no_fields))) refl
      (omega arith)
body_of-Says (assign user) =
    payload_says _ (dict (field (codes "assignees") (list (texts (user ∷ []))) no_fields)) refl
      (omega arith)
body_of-Says (add_labels label labels) =
    payload_says _ (dict (field (codes "labels") (list (texts (label ∷ labels))) no_fields))
      (add_labels-calls_of (label ∷ labels)) (rw (depth_items-texts labels) (omega arith))
body_of-Says (create name description colour) =
    payload_says _
      (dict (
        field (codes "name") (text name) (
          field (codes "description") (text description)
            (field (codes "color") (text (show_colour colour)) no_fields))))
      refl (omega arith)
