-- ===== src/Requests/Github/Paths.antt =====
-- src/github: the paths of the requests, decoded.
use ghcli.Decimal.{show}
use ghcli.Requests.Address.{
  decoded, decoded-Segment, decoded_last, urlencode-Segment, show-Segment, is_word, word-Segment,
}
use ghcli.Requests.Github.{to_url}
use ghcli.UrlEncode.{urlencode}
use ghcli.UrlEncode.RoundTrip.{IsByte}
use ghcli.Prelude.{ℕ, ◌≡◌, refl, true, List, [], ◌∷◌, ◌++◌, Bytes, All, append-nil, codes, some}
use ghcli.Requests.Github.Operations.{
  Operation, close, reopen, clear_milestone, submit, assign, remove_label, set_title, comment,
  delete, add_labels, set_milestone, create, issue, segments_of, HasBytes,
}

pub to_url-decoded :
    (base owner repo rest : Bytes) {ts : List Bytes}
    → All IsByte owner
    → All IsByte repo
    → decoded rest ≡ some ts
    → (path : Bytes) × (to_url base owner repo (b'/' ∷ rest) ≡ base ++ (b'/' ∷ path))
      × (decoded path ≡ some (codes "repos" ∷ (owner ∷ (repo ∷ ts))))
to_url-decoded base owner repo rest h k e = (
  codes "repos/" ++ (urlencode owner ++ (b'/' ∷ (urlencode repo ++ (b'/' ∷ rest)))),
  refl,
  decoded-Segment (codes "repos") _ (word-Segment (codes "repos") refl) (
      decoded-Segment (urlencode owner) _ (urlencode-Segment owner h)
        (decoded-Segment (urlencode repo) rest (urlencode-Segment repo k) e)),
)

issue-decoded : (id : ℕ) → decoded (codes "issues/" ++ (show id ++ [])) ≡ some (issue id [])
issue-decoded id = rw (append-nil (show id)) (
    decoded-Segment (codes "issues") (show id) (word-Segment (codes "issues") refl)
      (decoded_last (show-Segment id)))

issue_rest-decoded :
    (id : ℕ) (rest : Bytes) {ts : List Bytes}
    → decoded rest ≡ some ts
    → decoded (codes "issues/" ++ (show id ++ (b'/' ∷ rest))) ≡ some (issue id ts)
issue_rest-decoded id rest e =
    decoded-Segment (codes "issues") _ (word-Segment (codes "issues") refl)
      (decoded-Segment (show id) rest (show-Segment id) e)

word-decoded : (s : Bytes) → is_word s ≡ true → decoded s ≡ some (s ∷ [])
word-decoded s p = decoded_last (word-Segment s p)

label-decoded :
    (word label : Bytes)
    → is_word word ≡ true
    → All IsByte label
    → decoded (word ++ (b'/' ∷ urlencode label)) ≡ some (word ∷ (label ∷ []))
label-decoded word label p h =
    decoded-Segment word (urlencode label) (word-Segment word p)
      (decoded_last (urlencode-Segment label h))

-- The path behind the repository and a slash.
abbrev pub rest_of : ℕ → Operation → Bytes
rest_of id (assign user) = codes "issues/" ++ (show id ++ codes "/assignees")
rest_of id (add_labels label labels) = codes "issues/" ++ (show id ++ codes "/labels")
rest_of id (remove_label label) =
    codes "issues/" ++ (show id ++ (codes "/labels/" ++ urlencode label))
rest_of id (comment message) = codes "issues/" ++ (show id ++ codes "/comments")
rest_of id (submit title body) = codes "issues"
rest_of id (create name description colour) = codes "labels"
rest_of id (delete label) = codes "lables/" ++ urlencode label
rest_of id _ = codes "issues/" ++ (show id ++ [])

pub rest_of-decoded :
    (id : ℕ) (op : Operation) → HasBytes op → decoded (rest_of id op) ≡ some (segments_of id op)
rest_of-decoded id close b = issue-decoded id
rest_of-decoded id reopen b = issue-decoded id
rest_of-decoded id clear_milestone b = issue-decoded id
rest_of-decoded id (set_milestone n) b = issue-decoded id
rest_of-decoded id (set_title title) b = issue-decoded id
rest_of-decoded id (remove_label label) b =
    issue_rest-decoded id _ (label-decoded (codes "labels") label refl b)
rest_of-decoded id (delete label) b = label-decoded (codes "lables") label refl b
rest_of-decoded id (submit title body) b = word-decoded (codes "issues") refl
rest_of-decoded id (assign user) b = issue_rest-decoded id _ (word-decoded (codes "assignees") refl)
rest_of-decoded id (comment message) b =
    issue_rest-decoded id _ (word-decoded (codes "comments") refl)
rest_of-decoded id (add_labels label labels) b =
    issue_rest-decoded id _ (word-decoded (codes "labels") refl)
rest_of-decoded id (create name description colour) b = word-decoded (codes "labels") refl
