-- ===== src/Requests/Github/Operations.antt =====
-- src/github: the operations, and what is asked for by each.
use ghcli.Decimal.{show}
use ghcli.Requests.{by_default, Request}
use ghcli.Requests.Address.{decoded}
use ghcli.Requests.Body.{texts, Says}
use ghcli.Requests.Github.{
  show_colour, issue_close, issue_reopen, perform_submit_issue, issue_assign, issue_add_labels,
  issue_remove_labels, issue_set_milestone, issue_clear_milestone, issue_set_title,
  perform_submit_comment, create_label, delete_label,
}
use ghcli.UrlEncode.RoundTrip.{IsByte}
use ghcli.Json.Gen.Document.{Json, nothing, ident, text, list, dict, no_fields, field}
use ghcli.Prelude.{ℕ, ◌≡◌, List, [], ◌∷◌, ◌++◌, Bytes, All, codes, Option, none, some}
use ghcli.Prelude.{Result, ok}

-- The operations with their arguments.
pub data Operation : Type 0 where
  close reopen clear_milestone : Operation
  submit : Bytes → Option Bytes → Operation
  assign remove_label set_title comment delete : Bytes → Operation
  add_labels : Bytes → List Bytes → Operation
  set_milestone : ℕ → Operation
  create : Bytes → Bytes → ℕ → Operation

-- The operation on an issue of a repository, as the program performs it.
abbrev pub perform : Bytes → Bytes → Bytes → ℕ → Operation → Result Request
perform base owner repo id close = issue_close base (by_default owner repo id)
perform base owner repo id reopen = issue_reopen base (by_default owner repo id)
perform base owner repo id clear_milestone = issue_clear_milestone base (by_default owner repo id)
perform base owner repo id (submit title body) = perform_submit_issue base owner repo title body
perform base owner repo id (assign user) = issue_assign base (by_default owner repo id) user
perform base owner repo id (remove_label label) =
    issue_remove_labels base (by_default owner repo id) (label ∷ [])
perform base owner repo id (set_title title) = issue_set_title base (by_default owner repo id) title
perform base owner repo id (comment message) =
    perform_submit_comment base (by_default owner repo id) message
perform base owner repo id (delete label) = delete_label base (by_default owner repo id) label
perform base owner repo id (add_labels label labels) =
    issue_add_labels base (by_default owner repo id) (label ∷ labels)
perform base owner repo id (set_milestone n) = issue_set_milestone base (by_default owner repo id) n
perform base owner repo id (create name description colour) =
    create_label base (by_default owner repo id) name description colour

-- What GitHub is asked for: the method, the segments behind the repository, and the document.
abbrev pub method_of : Operation → Bytes
method_of close = codes "PATCH"
method_of reopen = codes "PATCH"
method_of clear_milestone = codes "PATCH"
method_of (set_milestone n) = codes "PATCH"
method_of (set_title title) = codes "PATCH"
method_of (remove_label label) = codes "DELETE"
method_of (delete label) = codes "DELETE"
method_of (submit title body) = codes "POST"
method_of (assign user) = codes "POST"
method_of (comment message) = codes "POST"
method_of (add_labels label labels) = codes "POST"
method_of (create name description colour) = codes "POST"

abbrev pub issue : ℕ → List Bytes → List Bytes
issue id rest = codes "issues" ∷ (show id ∷ rest)

abbrev pub segments_of : ℕ → Operation → List Bytes
segments_of id (assign user) = issue id (codes "assignees" ∷ [])
segments_of id (add_labels label labels) = issue id (codes "labels" ∷ [])
segments_of id (remove_label label) = issue id (codes "labels" ∷ (label ∷ []))
segments_of id (comment message) = issue id (codes "comments" ∷ [])
segments_of id close = issue id []
segments_of id reopen = issue id []
segments_of id clear_milestone = issue id []
segments_of id (set_milestone n) = issue id []
segments_of id (set_title title) = issue id []
segments_of id (submit title body) = codes "issues" ∷ []
segments_of id (create name description colour) = codes "labels" ∷ []
segments_of id (delete label) = codes "lables" ∷ (label ∷ [])

abbrev one_field : Bytes → Json → Option Json
one_field key j = some (dict (field key j no_fields))

abbrev pub document_of : Operation → Option Json
document_of close = one_field (codes "state") (text (codes "closed"))
document_of reopen = one_field (codes "state") (text (codes "open"))
document_of clear_milestone = one_field (codes "milestone") nothing
document_of (set_milestone n) = one_field (codes "milestone") (ident n)
document_of (set_title title) = one_field (codes "title") (text title)
document_of (remove_label label) = none
document_of (delete label) = none
document_of (submit title none) = one_field (codes "title") (text title)
document_of (submit title (some body)) =
    some (dict (field (codes "title") (text title) (field (codes "body") (text body) no_fields)))
document_of (assign user) = one_field (codes "assignees") (list (texts (user ∷ [])))
document_of (comment message) = one_field (codes "body") (text message)
document_of (add_labels label labels) = one_field (codes "labels") (list (texts (label ∷ labels)))
document_of (create name description colour) = some (
    dict (
      field (codes "name") (text name) (
        field (codes "description") (text description)
          (field (codes "color") (text (show_colour colour)) no_fields))))

-- The label in the URL consists of bytes.
abbrev pub HasBytes : Operation → Type 0
HasBytes (remove_label label) = All IsByte label
HasBytes (delete label) = All IsByte label
HasBytes _ = Unit

-- A request with this method and body, whose path below the API has these decoded segments.
abbrev pub Asks : Bytes → Result Request → Bytes → List Bytes → Option Json → Type 0
Asks base (ok r) method segments document =
    ((r.method ≡ method) × Says r.body document)
    × ((path : Bytes) × (r.url ≡ base ++ (b'/' ∷ path)) × (decoded path ≡ some segments))
Asks base _ method segments document = ⊥
