-- ===== src/Requests/Github.antt =====
-- src/github: the requests that change issues, labels and comments.
pub mod Operations
pub mod Paths
pub mod Bodies
pub mod Meaning
use ghcli.Decimal.{show}
use ghcli.Requests.{
  ItemPath, by_default, by_url, by_bugzilla, by_id, by_pid_id, Request, payload, object_calls,
  string_field, optional_field, string_calls,
}
use ghcli.Strtol.{hex_colour}
use ghcli.UrlEncode.{urlencode}
use ghcli.Json.Gen.Calls.{
  Call, begin_object_call, end_object_call, begin_array_call, end_array_call, null_call,
  objmember_call, string_call, number_call, id_call, bool_call, run_call, run,
}
use ghcli.Prelude.{
  ◌∙◌, ℕ, zero, suc, Bool-cases, Option-cases, ◌+◌, ◌-◌, ◌*◌, ◌/◌, ◌%◌, ◌^◌, ◌≤◌, ◌<◌, ◌≡◌, ◌≢◌,
  ◌⊎◌, inl, inr, refl, sym, ap, true, false, Bool, not, List, [], ◌∷◌, ◌++◌, Bytes, length,
  length-append, replicate, length-replicate, All, All-append, ltb, leb, ◌==◌, map, if◌then◌else◌,
  arith, append-nil, append_assoc, ◌&&◌, ◌||◌, codes, Option, none, some, ℤ, pos, negsuc,
}
use ghcli.Prelude.{
  Result, ok, failed, fault, stuck, ◌>>=◌, Ends, Ends-bind, Ends-mono, Ends-ne-stuck,
}

-- `sn_asprintf("%06X", colour & 0xFFFFFF)`
abbrev pub show_colour : ℕ → Bytes
show_colour colour = hex_colour true (colour / 2 ^ 16 % 256) (colour / 2 ^ 8 % 256) (colour % 256)

module _ (apibase : Bytes) where
  abbrev pub to_url : Bytes → Bytes → Bytes → Bytes
  to_url owner repo rest =
      apibase ++ (codes "/repos/" ++ (urlencode owner ++ (codes "/" ++ (urlencode repo ++ rest))))

  -- `github_repo_make_url`
  unfoldable pub repo_make_url : ItemPath → Bytes → Result Bytes
  repo_make_url (by_default owner repo id) suffix = ok (to_url owner repo suffix)
  repo_make_url _ suffix = failed

  -- `github_issue_make_url`
  unfoldable pub issue_make_url : ItemPath → Bytes → Result Bytes
  issue_make_url (by_default owner repo id) suffix =
      ok (to_url owner repo (codes "/issues/" ++ (show id ++ suffix)))
  issue_make_url (by_url url) suffix = ok (url ++ suffix)
  issue_make_url _ suffix = failed

  abbrev request : Bytes → Bytes → Option Bytes → Result Request
  request method url body = ok (record { method = method; url = url; body = body })

  -- `github_issue_patch_state`
  unfoldable pub issue_patch_state : ItemPath → Bytes → Result Request
  issue_patch_state path state = issue_make_url path [] >>= λ url.
      request (codes "PATCH") url (some (codes "{ \"state\": \"" ++ (state ++ codes "\"}")))

  unfoldable pub issue_close : ItemPath → Result Request
  issue_close path = issue_patch_state path (codes "closed")

  unfoldable pub issue_reopen : ItemPath → Result Request
  issue_reopen path = issue_patch_state path (codes "open")

  -- `github_perform_submit_issue`, with the owner, the repository, the title and the body.
  unfoldable pub perform_submit_issue : Bytes → Bytes → Bytes → Option Bytes → Result Request
  perform_submit_issue owner repo title body =
      let calls = string_field (codes "title") title ++ optional_field (codes "body") body in
      request (codes "POST") (to_url owner repo (codes "/issues"))
        (some (payload (object_calls calls)))

  unfoldable pub issue_assign : ItemPath → Bytes → Result Request
  issue_assign path assignee =
      let calls =
        objmember_call (codes "assignees")
        ∷ (begin_array_call ∷ (string_call assignee ∷ (end_array_call ∷ []))) in
      issue_make_url path (codes "/assignees") >>= λ url.
      request (codes "POST") url (some (payload (object_calls calls)))

  -- `github_issue_add_labels`, with its assertion.
  unfoldable pub issue_add_labels : ItemPath → List Bytes → Result Request
  issue_add_labels path [] = fault
  issue_add_labels path (label ∷ labels) =
      let calls =
        objmember_call (codes "labels")
        ∷ (begin_array_call ∷ (string_calls (label ∷ labels) ++ (end_array_call ∷ []))) in
      issue_make_url path (codes "/labels") >>= λ url.
      request (codes "POST") url (some (payload (object_calls calls)))

  unfoldable pub issue_remove_labels : ItemPath → List Bytes → Result Request
  issue_remove_labels path (label ∷ []) =
      issue_make_url path (codes "/labels/" ++ urlencode label) >>= λ url.
      request (codes "DELETE") url none
  issue_remove_labels path _ = failed

  unfoldable pub issue_set_milestone : ItemPath → ℕ → Result Request
  issue_set_milestone path milestone = issue_make_url path [] >>= λ url.
      request (codes "PATCH") url
        (some (codes "{ \"milestone\": " ++ (show milestone ++ codes " }")))

  unfoldable pub issue_clear_milestone : ItemPath → Result Request
  issue_clear_milestone path = issue_make_url path [] >>= λ url.
      request (codes "PATCH") url (some (codes "{ \"milestone\": null }"))

  unfoldable pub issue_set_title : ItemPath → Bytes → Result Request
  issue_set_title path new_title = issue_make_url path [] >>= λ url.
      request (codes "PATCH") url
        (some (payload (object_calls (string_field (codes "title") new_title))))

  -- `github_perform_submit_comment`
  unfoldable pub perform_submit_comment : ItemPath → Bytes → Result Request
  perform_submit_comment target message = issue_make_url target (codes "/comments") >>= λ url.
      request (codes "POST") url
        (some (payload (object_calls (string_field (codes "body") message))))

  -- `github_create_label`, with the name, the description and the colour.
  unfoldable pub create_label : ItemPath → Bytes → Bytes → ℕ → Result Request
  create_label path name description colour =
      let calls =
        string_field (codes "name") name
        ++ (string_field (codes "description") description
            ++ string_field (codes "color") (show_colour colour)) in
      repo_make_url path (codes "/labels") >>= λ url.
      request (codes "POST") url (some (payload (object_calls calls)))

  -- `github_delete_label`
  unfoldable pub delete_label : ItemPath → Bytes → Result Request
  delete_label path label = repo_make_url path (codes "/lables/" ++ urlencode label) >>= λ url.
      request (codes "DELETE") url none
