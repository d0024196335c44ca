-- ===== src/Requests/Gitlab/Paths.antt =====
-- src/gitlab: the paths of the requests, decoded.
use ghcli.Requests.Gitlab.{Kind, issues, merge_requests, to_url}
use ghcli.UrlEncode.{urlencode}
use ghcli.Decimal.{show}
use ghcli.Requests.Gitlab.Operations.{
  Operation, close, reopen, clear_milestone, set_title, comment, add_labels, remove_labels,
  set_milestone, assign, add_reviewer, submit, create, delete, Project, named, numbered, name_of,
  word_of, segments_of, Fits, HasBytes,
}
use ghcli.Requests.Address.{
  decoded, Segment, decoded-Segment, decoded_last, urlencode-Segment, show-Segment, is_word-Plain,
  word-Segment, joined-Segment, query-Segment,
}
use ghcli.Prelude.{
  ℕ, ◌≡◌, refl, sym, ap, List, [], ◌∷◌, ◌++◌, Bytes, append-nil, append_assoc, codes, some,
}

-- The path behind the project and a slash.
abbrev to_item : Kind → ℕ → Bytes → Bytes
to_item kind id suffix = word_of kind ++ (b'/' ∷ (show id ++ suffix))

abbrev pub rest_of : ℕ → Operation → Bytes
rest_of id (close kind) = to_item kind id []
rest_of id (reopen kind) = to_item kind id []
rest_of id (clear_milestone kind) = to_item kind id []
rest_of id (set_title kind title) = to_item kind id []
rest_of id (add_labels kind labels) = to_item kind id []
rest_of id (remove_labels kind labels) = to_item kind id []
rest_of id (set_milestone issues n) = to_item issues id (codes "?milestone_url=" ++ show n)
rest_of id (set_milestone merge_requests n) = to_item merge_requests id []
rest_of id (comment kind message) = to_item kind id (codes "/notes")
rest_of id (assign uid) = to_item issues id []
rest_of id (add_reviewer old uid) = to_item merge_requests id []
rest_of id (submit title body) = codes "issues"
rest_of id (create name description colour) = codes "labels"
rest_of id (delete label) = codes "labels/" ++ urlencode label

word_of-Segment : (kind : Kind) → Segment (word_of kind) (word_of kind)
word_of-Segment issues = word-Segment (codes "issues") refl
word_of-Segment merge_requests = word-Segment (codes "merge_requests") refl

to_item-decoded :
    (kind : Kind) (id : ℕ) → decoded (to_item kind id []) ≡ some (word_of kind ∷ (show id ∷ []))
to_item-decoded kind id = rw (append-nil (show id)) (
    decoded-Segment (word_of kind) (show id) (word_of-Segment kind)
      (decoded_last (show-Segment id)))

pub rest_of-decoded :
    (project : Project) (id : ℕ) (op : Operation)
    → Fits project op
    → decoded (rest_of id op) ≡ some (segments_of id op)
rest_of-decoded project id (close kind) b = to_item-decoded kind id
rest_of-decoded project id (reopen kind) b = to_item-decoded kind id
rest_of-decoded project id (clear_milestone kind) b = to_item-decoded kind id
rest_of-decoded project id (set_title kind title) b = to_item-decoded kind id
rest_of-decoded project id (add_labels kind labels) b = to_item-decoded kind id
rest_of-decoded project id (remove_labels kind labels) b = to_item-decoded kind id
rest_of-decoded project id (set_milestone issues n) b =
    decoded-Segment (codes "issues") _ (word_of-Segment issues) (
      decoded_last (
        query-Segment id (codes "?milestone_url=") n
          (is_word-Plain (codes "?milestone_url=") refl)))
rest_of-decoded project id (set_milestone merge_requests n) b = to_item-decoded merge_requests id
rest_of-decoded project id (comment kind message) b =
    decoded-Segment (word_of kind) _ (word_of-Segment kind) (
      decoded-Segment (show id) (codes "notes") (show-Segment id)
        (decoded_last (word-Segment (codes "notes") refl)))
rest_of-decoded project id (assign uid) b = to_item-decoded issues id
rest_of-decoded project id (add_reviewer old uid) b = to_item-decoded merge_requests id
rest_of-decoded project id (submit title body) b = decoded_last (word_of-Segment issues)
rest_of-decoded project id (create name description colour) b =
    decoded_last (word-Segment (codes "labels") refl)
rest_of-decoded (named owner repo) id (delete label) b =
    decoded-Segment (codes "labels") (urlencode label) (word-Segment (codes "labels") refl)
      (decoded_last (urlencode-Segment label b))
rest_of-decoded (numbered n) id (delete label) b = absurd b

module _ (base : Bytes) (join : List Bytes → Bytes → Bytes) where
  abbrev pub project_url : Project → Bytes → Bytes
  project_url (named owner repo) rest = to_url base join owner repo rest
  project_url (numbered n) rest = base ++ (codes "/projects/" ++ (show n ++ rest))

  pub project_url-decoded :
      (project : Project) (rest : Bytes) {ts : List Bytes}
      → HasBytes project
      → decoded rest ≡ some ts
      → (path : Bytes) × (project_url project (b'/' ∷ rest) ≡ base ++ (b'/' ∷ path))
        × (decoded path ≡ some (codes "projects" ∷ (name_of project ∷ ts)))
  project_url-decoded (numbered n) rest h e = (
    codes "projects/" ++ (show n ++ (b'/' ∷ rest)),
    refl,
    decoded-Segment (codes "projects") _ (word-Segment (codes "projects") refl)
        (decoded-Segment (show n) rest (show-Segment n) e),
  )
  project_url-decoded (named owner repo) rest (h, k) e =
      let name = urlencode owner ++ (codes "%2F" ++ urlencode repo) in
      (
        codes "projects/" ++ (name ++ (b'/' ∷ rest)),
        ap (λ t. base ++ (codes "/projects/" ++ t))
            (sym (append_assoc (urlencode owner) (codes "%2F" ++ urlencode repo) (b'/' ∷ rest))),
        decoded-Segment (codes "projects") _ (word-Segment (codes "projects") refl)
            (decoded-Segment name rest (joined-Segment owner repo h k) e),
      )
