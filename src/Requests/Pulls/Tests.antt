-- ===== src/Requests/Pulls/Tests.antt =====
-- src/github/pulls.c and src/gitea: runs and examples.
use ghcli.Diff.Comments.{Comment}
use ghcli.Requests.{by_default, Request}
use ghcli.Requests.Gitea.{label_names_to_ids}
use ghcli.Requests.Pulls.{Created, PullOptions, perform_submit_pull}
use ghcli.Requests.Pulls.Plan.{send_all, plan}
use ghcli.Requests.Pulls.Plan.Order.{perform_submit_pull-send_all}
use ghcli.CString.{str_eq}
use ghcli.Prelude.{◌≡◌, refl, true, Bool, [], ◌∷◌, codes, none, pos}
use ghcli.Prelude.{ok, failed}

abbrev options : PullOptions
options = record {
  target_repo = by_default (codes "a") (codes "r") 0;
  from = codes "b:x";
  target_branch = codes "main";
  title = codes "t";
  body = none;
  labels = codes "l" ∷ [];
  reviewers = [];
  automerge = true;
}

-- The request to the second URL fails.
abbrev send : Request → Bool
send r = str_eq r.url (codes "https://x/repos/a/r/pulls")

abbrev parse_pull : Request → Created
parse_pull r = record { id = 7000; number = 7; node_id = codes "n" }

perform_submit_pull-send_all_example :
    perform_submit_pull (codes "https://x") send parse_pull options
    ≡ ok (send_all send (plan (codes "https://x") (codes "a") (codes "r") parse_pull options))
perform_submit_pull-send_all_example =
    perform_submit_pull-send_all (codes "https://x") (codes "a") (codes "r") send parse_pull options
      0 refl

-- A comment on the rows 3 to 5 of a file.
abbrev remark_on_f : Comment
remark_on_f = record {
  before = record { filename = codes "f"; start_row = pos 3; end_row = pos 4 };
  after = record { filename = codes "f"; start_row = pos 3; end_row = pos 5 };
  start_is_in_new = true;
  end_is_in_new = true;
  diff_line_offset = 2;
  commit_hash = codes "c0";
  comment = codes "why?";
  diff_text = none;
}

label_names_to_ids_unknown :
    label_names_to_ids ((codes "l", 3) ∷ []) (codes "l" ∷ (codes "m" ∷ [])) ≡ failed
unfolding str_eq
label_names_to_ids_unknown = refl
