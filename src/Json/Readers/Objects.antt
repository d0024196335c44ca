-- ===== src/Json/Readers/Objects.antt =====
-- src/json_util.c: the readers of objects, and `gcli_json_advance`.
use ghcli.CString.{str_eq}
use ghcli.Json.Readers.{Read, or_failed, to_unsigned, read_number, skip_object_value}
use ghcli.Json.Stream.{JsonType, object, object_end, array, array_end, string, number, same, Pdjson}
use ghcli.Prelude.{
  ℕ, zero, suc, List, [], ◌∷◌, Bytes, ◌==◌, if◌then◌else◌, codes, Option, none, some,
}
use ghcli.Prelude.{Result, ok, fault, stuck, ◌>>=◌}

-- `as_pid_id` of `struct gcli_path`, with `none` for what is not written.
pub record TargetPath : Type 0 where
  pub project_id : Option ℕ
  pub id : Option ℕ

module _ (P : Pdjson) where
  -- The body of the loops of `get_user_` and `get_label_`, behind a key: the value of the expected
  -- key must be a string, and of another member one token is read.
  abbrev pub string_member : Bytes → P.Stream → Option Bytes → Read P (Option Bytes)
  string_member expected s out =
      let (t, s') = P.next s in
      if str_eq expected (P.get_string s)
      then or_failed (same t string) (ok (some (P.get_string s'), s'))
      else ok (out, s')

  -- The loops, on fuel.
  unfoldable pub string_loop : Bytes → ℕ → P.Stream → Option Bytes → Read P (Option Bytes)
  string_loop expected zero s out = stuck
  string_loop expected (suc fuel) s out =
      let (t, s') = P.next s in
      let more =
        string_member expected s' out >>= λ (out', s''). string_loop expected fuel s'' out' in
      if same t string then more else ok (out, s')

  -- `get_user_`, with the key of the forge. The result is `none` if `*out` is not written.
  unfoldable pub get_user : ℕ → Bytes → P.Stream → Read P (Option Bytes)
  get_user fuel user_object_key s =
      let (t, s') = P.next s in or_failed (same t object) (string_loop user_object_key fuel s' none)

  -- `get_label_`
  unfoldable pub get_label : ℕ → P.Stream → Read P (Option Bytes)
  get_label fuel s =
      let (t, s') = P.next s in or_failed (same t object) (string_loop (codes "name") fuel s' none)

  -- The body of the loop of `get_gitlab_notification_target_`, behind a key.
  abbrev pub target_member : P.Stream → TargetPath → Read P TargetPath
  target_member s path =
      let key = P.get_string s in
      if str_eq (codes "iid") key
      then (read_number P to_unsigned s >>= λ (n, s'). ok (record path { id = some n }, s'))
      else if str_eq (codes "project_id") key
      then (read_number P to_unsigned s >>= λ (n, s'). ok (record path { project_id = some n }, s'))
      else ok (path, skip_object_value P s)

  unfoldable pub target_loop : ℕ → P.Stream → TargetPath → Read P TargetPath
  target_loop zero s path = stuck
  target_loop (suc fuel) s path =
      let (t, s') = P.next s in
      let more = target_member s' path >>= λ (path', s''). target_loop fuel s'' path' in
      if same t string then more else ok (path, s')

  -- `get_gitlab_notification_target_`
  unfoldable pub get_gitlab_notification_target : ℕ → P.Stream → Read P TargetPath
  get_gitlab_notification_target fuel s =
      let (t, s') = P.next s in
      or_failed (same t object) (target_loop fuel s' (record { project_id = none; id = none }))

  -- A character of the format of `gcli_json_advance` that asks for a token.
  abbrev pub expect : JsonType → P.Stream → Result P.Stream
  expect type s = let (t, s') = P.next s in or_failed (same t type) (ok s')

  -- `case 's'`: the next argument, and the others.
  abbrev pub expect_string : List Bytes → P.Stream → Result (List Bytes × P.Stream)
  expect_string [] s = fault
  expect_string (it ∷ args) s =
      expect string s >>= λ s'. or_failed (str_eq it (P.get_string s')) (ok (args, s'))

  -- One round of the loop.
  abbrev pub advance_one : ℕ → List Bytes → P.Stream → Result (List Bytes × P.Stream)
  advance_one c args s =
      if c == b'['
      then (expect array s >>= λ s'. ok (args, s'))
      else if c == b'{'
      then (expect object s >>= λ s'. ok (args, s'))
      else if c == b's'
      then expect_string args s
      else if c == b']'
      then (expect array_end s >>= λ s'. ok (args, s'))
      else if c == b'}'
      then (expect object_end s >>= λ s'. ok (args, s'))
      else if c == b'i'
      then (expect number s >>= λ s'. ok (args, s'))
      else ok (args, s)

  -- `gcli_json_advance`
  unfoldable pub json_advance : Bytes → List Bytes → P.Stream → Result P.Stream
  json_advance [] args s = ok s
  json_advance (c ∷ fmt) args s = advance_one c args s >>= λ (args', s'). json_advance fmt args' s'
