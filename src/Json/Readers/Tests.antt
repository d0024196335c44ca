-- ===== src/Json/Readers/Tests.antt =====
-- src/json_util.c: runs and examples of the readers.
mod Tokens
use ghcli.Decimal.{show_int}
use ghcli.Strtol.{hex_colour}
use ghcli.Strtol.{strtoul, scan, skip_space, digits}
use ghcli.Json.Readers.{
  get_string, get_github_style_colour, get_gitlab_style_colour, get_int_to_string, get_parse_int,
  get_github_is_pr, get_notification_target_type, get_sv, github_targets, pull_request,
  skip_object_value,
}
use ghcli.Json.Readers.Advance.{
  Pattern, object_begin, exactly, array_begin, Reaches, match_tokens, char_of, arguments,
  json_advance-match_tokens,
}
use ghcli.Json.Readers.Members.{
  Pair, Leaves, last_string, pair_tokens, get_user-last_string, get_user_nested,
}
use ghcli.Json.Readers.Notification.{path_of, get_gitlab_notification_target-path_of}
use ghcli.Json.Readers.Objects.{
  TargetPath, json_advance, get_user, get_label, get_gitlab_notification_target,
}
use ghcli.Json.Readers.Scalars.{get_github_style_colour-hex_colour, get_parse_int-get_int_to_string}
use ghcli.Json.Readers.Tests.Tokens.{skip, tokens, tokens-IsLawful, tokens-Yields}
use ghcli.CString.{str_eq}
use ghcli.Json.Stream.{
  JsonType, object, object_end, array, array_end, string, number, true_value, false_value,
  null_value, same, Pdjson, Token, plain, text, num, type_of, Value, atom, Scalar, written, numeral,
  truth, nothing, token_of, done, list, obj, Values, nil, cons, Members, none_left, member,
  tokens_of, tokens_of_values, tokens_of_members, IsLawful,
}
use ghcli.Prelude.{
  ◌∙◌, ℕ, zero, suc, Bool-cases, Option-cases, ◌+◌, ◌-◌, ◌*◌, ◌/◌, ◌%◌, ◌^◌, ◌≤◌, ◌<◌, ◌≡◌, ◌≢◌,
  ◌⊎◌, inl, inr, refl, sym, ap, true, false, Bool, not, List, [], ◌∷◌, ◌++◌, Bytes, length,
  length-append, replicate, length-replicate, All, All-append, ltb, leb, ◌==◌, map, if◌then◌else◌,
  arith, append-nil, append_assoc, ◌&&◌, ◌||◌, codes, Option, none, some, ℤ, pos, negsuc,
}
use ghcli.Prelude.{
  Result, ok, failed, fault, stuck, ◌>>=◌, Ends, Ends-bind, Ends-mono, Ends-ne-stuck,
}

abbrev stream : List (Token ℤ) → List (Token ℤ) × Token ℤ
stream ts = (ts, plain done)

-- `{"id": 3, "login": "me"}`
abbrev user : List (Pair ℤ)
user = (codes "id", num (pos 3)) ∷ ((codes "login", text (codes "me")) ∷ [])

abbrev user_tokens : List (Token ℤ)
user_tokens = plain object ∷ pair_tokens user (plain object_end ∷ [])

get_user-last_string_example :
    Leaves tokens tokens-IsLawful
      (get_user tokens 3 (codes "login") (stream user_tokens))
      (last_string (codes "login") user none)
      []
    × Leaves tokens tokens-IsLawful
        (get_label tokens 3 (stream user_tokens))
        (last_string (codes "name") user none)
        []
get_user-last_string_example =
    get_user-last_string tokens tokens-IsLawful (codes "login") user 3 (stream user_tokens) []
      (omega arith) (tt, (tt, tt)) (tokens-Yields _ (plain done))

-- `{"plan": {"login": "x"}, "login": "me"}`
abbrev plan : List (Pair ℤ)
plan = (codes "login", text (codes "x")) ∷ []

get_user_nested_example :
    Leaves tokens tokens-IsLawful
      (get_user tokens 3 (codes "login") (
        stream (
          plain object
          ∷ (text (codes "plan")
              ∷ (plain object
                  ∷ pair_tokens plan
                      (plain object_end ∷ pair_tokens user (plain object_end ∷ [])))))))
      (last_string (codes "login") plan none)
      (pair_tokens user (plain object_end ∷ []))
unfolding str_eq
get_user_nested_example =
    get_user_nested tokens tokens-IsLawful (codes "login") (codes "plan") [] plan user 3 _ []
      (omega arith) (refl, (tt, tt)) refl (tokens-Yields _ (plain done))

-- `{"a": [{}], "iid": 3}`
abbrev target : Members ℤ
target =
    member (codes "a") (list (cons (obj none_left) nil))
      (member (codes "iid") (atom (numeral (pos 3))) none_left)

get_gitlab_notification_target-path_of_example :
    Leaves tokens tokens-IsLawful
      (get_gitlab_notification_target tokens 3 (stream (tokens_of (obj target) [])))
      (path_of tokens tokens-IsLawful target (record { project_id = none; id = none }))
      []
get_gitlab_notification_target-path_of_example =
    get_gitlab_notification_target-path_of tokens tokens-IsLawful target 3
      (stream (tokens_of (obj target) [])) [] (omega arith) (tokens-Yields _ (plain done))

abbrev patterns : List Pattern
patterns = object_begin ∷ (exactly (codes "data") ∷ (array_begin ∷ []))

abbrev data_tokens : List (Token ℤ)
data_tokens = plain object ∷ (text (codes "data") ∷ (plain array ∷ (plain array_end ∷ [])))

json_advance-match_tokens_example :
    Reaches tokens tokens-IsLawful
      (json_advance tokens (map char_of patterns) (arguments patterns) (stream data_tokens))
      (match_tokens patterns data_tokens)
json_advance-match_tokens_example =
    json_advance-match_tokens tokens tokens-IsLawful patterns data_tokens (stream data_tokens)
      (omega arith) (refl, (tt, (refl, (refl, tt)))) (tokens-Yields _ (plain done))

-- `1a2b3c`
get_github_style_colour_text :
    get_github_style_colour tokens (stream (text (codes "1a2b3c") ∷ []))
    ≡ ok (439041024, ([], text (codes "1a2b3c")))
unfolding get_github_style_colour get_string strtoul scan skip_space digits
get_github_style_colour_text = refl

-- An object says that there is a pull request, and it is skipped.
get_github_is_pr_object :
    get_github_is_pr tokens (stream (tokens_of (obj target) [])) ≡ ok (true, ([], plain object))
unfolding get_github_is_pr skip_object_value skip tokens_of
get_github_is_pr_object = refl

get_notification_target_type_pull :
    get_notification_target_type tokens github_targets (stream (text (codes "PullRequest") ∷ []))
    ≡ ok (pull_request, ([], text (codes "PullRequest")))
unfolding get_notification_target_type get_sv str_eq
get_notification_target_type_pull = refl
