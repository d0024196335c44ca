-- ===== src/Requests/Tests.antt =====
-- Requests to the forges: runs and examples.
use ghcli.Requests.{by_default, by_url}
use ghcli.Requests.Github.{issue_make_url, issue_close, issue_remove_labels, issue_patch_state}
use ghcli.Requests.Github.Meaning.{perform-Asks}
use ghcli.Requests.Github.Operations.{Asks, remove_label, perform, segments_of}
use ghcli.Requests.Gitlab.Operations.{
  set_title as mr_title, segments_of as gitlab_segments, document_of as gitlab_document,
}
use ghcli.Prelude.{◌≡◌, refl, List, [], ◌∷◌, ◌++◌, Bytes, arith, codes, none, some}
use ghcli.Prelude.{ok, failed}

-- The owner "a/b" has a slash in its name.
perform-Asks_example :
    Asks
      (codes "https://x")
      (perform (codes "https://x") (codes "a/b") (codes "r") 7 (remove_label (codes "c d")))
      (codes "DELETE")
      (codes "repos" ∷ (codes "a/b" ∷ (codes "r" ∷ segments_of 7 (remove_label (codes "c d")))))
      none
perform-Asks_example =
    perform-Asks (codes "https://x") (codes "a/b") (codes "r") 7 (remove_label (codes "c d"))
      (omega arith, (omega arith, (omega arith, tt))) (omega arith, tt)
      (omega arith, (omega arith, (omega arith, tt)))

-- Labels as they come, without a separator: any function will do.
abbrev join : List Bytes → Bytes → Bytes
join [] sep = []
join (s ∷ ss) sep = s ++ join ss sep

-- A path by URL.
issue_close_url :
    issue_close (codes "https://x") (by_url (codes "u"))
    ≡ ok (record {
      method = codes "PATCH";
      url = codes "u";
      body = some (codes "{ \"state\": \"closed\"}");
    })
unfolding issue_close issue_patch_state issue_make_url
issue_close_url = refl

-- GitHub takes one label off at a time.
issue_remove_labels_two :
    issue_remove_labels
      (codes "https://x")
      (by_default (codes "a") (codes "r") 7)
      (codes "c" ∷ (codes "d" ∷ []))
    ≡ failed
unfolding issue_remove_labels
issue_remove_labels_two = refl
