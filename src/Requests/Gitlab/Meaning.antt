-- ===== src/Requests/Gitlab/Meaning.antt =====
-- src/gitlab: where the requests go, and what they say.
use ghcli.Requests.Gitlab.Bodies.{body_of}
use ghcli.Requests.Gitlab.Paths.{rest_of, project_url}
use ghcli.Requests.{Request}
use ghcli.Requests.Gitlab.Operations.{Operation, Project, method_of}
use ghcli.Prelude.{ℕ, List, ◌∷◌, Bytes}

module _ (base : Bytes) (join : List Bytes → Bytes → Bytes) where
  abbrev request_of : Project → ℕ → Operation → Request
  request_of project id op = record {
    method = method_of op;
    url = project_url base join project (b'/' ∷ rest_of id op);
    body = body_of join op;
  }
