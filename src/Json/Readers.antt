-- ===== src/Json/Readers.antt =====
-- src/json_util.c: the readers. An output parameter and the stream behind the call are the result.
pub mod Objects
pub mod Members
pub mod Notification
pub mod Advance
pub mod Scalars
mod Tests
use ghcli.CString.{str_eq}
use ghcli.Decimal.{show_int}
use ghcli.Strtol.{strtol, strtoul}
use ghcli.Json.Stream.{
  JsonType, object, object_end, array, array_end, string, number, true_value, false_value,
  null_value, same, Pdjson,
}
use ghcli.Prelude.{
  ◌∙◌, ℕ, zero, suc, Bool-cases, Option-cases, ◌+◌, ◌-◌, ◌*◌, ◌/◌, ◌%◌, ◌^◌, ◌≤◌, ◌<◌, ◌≡◌, ◌≢◌,
  ◌⊎◌, inl, inr, refl, sym, ap, true, false, Bool, not, List, [], ◌∷◌, ◌++◌, Bytes, length,
  length-append, replicate, length-replicate, All, All-append, ltb, leb, ◌==◌, map, if◌then◌else◌,
  arith, append-nil, append_assoc, ◌&&◌, ◌||◌, codes, Option, none, some, ℤ, pos, negsuc,
}
use ghcli.Prelude.{
  Result, ok, failed, fault, stuck, ◌>>=◌, Ends, Ends-bind, Ends-mono, Ends-ne-stuck,
}

-- The conversion of a `double` to a signed integer of `w + 1` bits; out of range it is undefined.
abbrev pub to_signed : ℕ → ℤ → Result ℤ
to_signed w (pos n) = if ltb n (2 ^ w) then ok (pos n) else fault
to_signed w (negsuc n) = if ltb n (2 ^ w) then ok (negsuc n) else fault

-- The conversion to an unsigned integer of 64 bits.
abbrev pub to_unsigned : ℤ → Result ℕ
to_unsigned (pos n) = if ltb n (2 ^ 64) then ok n else fault
to_unsigned (negsuc n) = fault

abbrev pub or_failed : {A : Type 0} → Bool → Result A → Result A
or_failed true r = r
or_failed false r = failed

-- `strdup("<empty>")`
abbrev pub empty_text : Bytes
empty_text = codes "<empty>"

-- `enum gcli_notification_target_type`
pub data Target : Type 0 where
  issue pull_request commit epic repository release : Target

-- The names of the notification targets, in the order of the tests.
abbrev pub find_target : List (Bytes × Target) → Bytes → Result Target
find_target [] text = failed
find_target ((name, target) ∷ names) text =
    let rest = find_target names text in if str_eq text name then ok target else rest

abbrev pub github_targets : List (Bytes × Target)
github_targets =
    (codes "Issue", issue)
    ∷ ((codes "PullRequest", pull_request) ∷ ((codes "Release", release) ∷ []))

abbrev pub gitlab_targets : List (Bytes × Target)
gitlab_targets =
    (codes "Issue", issue)
    ∷ ((codes "MergeRequest", pull_request)
        ∷ ((codes "Commit", commit) ∷ ((codes "Epic", epic) ∷ [])))

abbrev pub gitea_targets : List (Bytes × Target)
gitea_targets =
    (codes "Issue", issue)
    ∷ ((codes "Pull", pull_request)
        ∷ ((codes "Commit", commit) ∷ ((codes "Repository", repository) ∷ [])))

module _ (P : Pdjson) where
  -- What a reader comes to: the value in the output parameter, and the stream.
  abbrev pub Read : Type 0 → Type 0
  Read A = Result (A × P.Stream)

  -- A test of the token, and what is read from it.
  abbrev pub read_number : {A : Type 0} → (ℤ → Result A) → P.Stream → Read A
  read_number convert s =
      let (t, s') = P.next s in
      or_failed (same t number) (convert (P.truncate (P.get_number s')) >>= λ a. ok (a, s'))

  -- `get_int_`, `get_id_`, `get_long_`, `get_size_t_`
  unfoldable pub get_int : P.Stream → Read ℤ
  get_int s = read_number (to_signed 31) s

  unfoldable pub get_id : P.Stream → Read ℕ
  get_id s = read_number to_unsigned s

  unfoldable pub get_long : P.Stream → Read ℤ
  get_long s = read_number (to_signed 63) s

  unfoldable pub get_size_t : P.Stream → Read ℕ
  get_size_t s = read_number to_unsigned s

  -- `get_double_`
  unfoldable pub get_double : P.Stream → Read P.Number
  get_double s =
      let (t, s') = P.next s in
      if same t null_value
      then ok (P.zero_number, s')
      else if same t number
      then ok (P.get_number s', s')
      else failed

  -- `get_string_`
  unfoldable pub get_string : P.Stream → Read Bytes
  get_string s =
      let (t, s') = P.next s in
      if same t null_value
      then ok (empty_text, s')
      else or_failed (same t string) (ok (P.get_string s', s'))

  -- `get_bool_`
  unfoldable pub get_bool : P.Stream → Read Bool
  get_bool s =
      let (t, s') = P.next s in
      if same t true_value
      then ok (true, s')
      else if same t false_value || same t null_value
      then ok (false, s')
      else failed

  -- `get_bool_relaxed_`
  unfoldable pub get_bool_relaxed : P.Stream → Read Bool
  get_bool_relaxed s =
      let (t, s') = P.next s in
      if same t true_value
      then ok (true, s')
      else if same t false_value || same t null_value
      then ok (false, s')
      else or_failed (same t number) (ok (not (P.is_zero (P.get_number s')), s'))

  -- `get_sv_`, with `[]` for `SV_NULL`.
  unfoldable pub get_sv : P.Stream → Read Bytes
  get_sv s =
      let (t, s') = P.next s in
      if same t null_value
      then ok ([], s')
      else or_failed (same t string) (ok (P.get_string s', s'))

  -- `get_parse_int_`
  unfoldable pub get_parse_int : P.Stream → Read ℤ
  get_parse_int s = get_string s >>= λ (text, s').
      let (n, end) = strtol 10 text in or_failed (length end == 0) (ok (n, s'))

  -- `get_github_style_colour`
  unfoldable pub get_github_style_colour : P.Stream → Read ℕ
  get_github_style_colour s = get_string s >>= λ (text, s').
      let (colour, end) = strtoul 16 text in
      or_failed (length end == 0) (ok (colour % 2 ^ 32 * 2 ^ 8 % 2 ^ 32, s'))

  -- `(uint32_t)` of a `long`.
  abbrev to_uint32 : ℤ → ℕ
  to_uint32 (pos n) = n % 2 ^ 32
  to_uint32 (negsuc n) = 2 ^ 32 - 1 - n % 2 ^ 32

  -- The text behind the first byte: the NUL has nothing behind it.
  abbrev behind_first : Bytes → Result Bytes
  behind_first [] = fault
  behind_first (c ∷ text) = ok text

  -- `get_gitlab_style_colour`
  unfoldable pub get_gitlab_style_colour : P.Stream → Read ℕ
  get_gitlab_style_colour s = get_string s >>= λ (colour, s'). behind_first colour >>= λ digits.
      let (code, end) = strtol 16 digits in
      or_failed (length end == 0) (ok (to_uint32 code * 2 ^ 8 % 2 ^ 32, s'))

  -- `get_gitea_visibility`
  unfoldable pub get_gitea_visibility : P.Stream → Read Bytes
  get_gitea_visibility s = get_bool s >>= λ (is_private, s').
      ok (if is_private then codes "private" else codes "public", s')

  -- `get_gitlab_can_be_merged`
  unfoldable pub get_gitlab_can_be_merged : P.Stream → Read Bool
  get_gitlab_can_be_merged s =
      get_sv s >>= λ (text, s'). ok (str_eq text (codes "can_be_merged"), s')

  -- `SKIP_OBJECT_VALUE`
  unfoldable pub skip_object_value : P.Stream → P.Stream
  skip_object_value s =
      let (t, s') = P.next s in
      if same t array
      then P.skip_until array_end s'
      else if same t object
      then P.skip_until object_end s'
      else s'

  -- `get_github_is_pr`
  unfoldable pub get_github_is_pr : P.Stream → Read Bool
  get_github_is_pr s =
      let (t, s') = P.peek s in
      ok (same t object, if same t null_value then (P.next s').1 else skip_object_value s')

  -- `get_int_to_string_`, `get_int_to_sv_`
  unfoldable pub get_int_to_string : P.Stream → Read Bytes
  get_int_to_string s = get_long s >>= λ (n, s'). ok (show_int n, s')

  unfoldable pub get_int_to_sv : P.Stream → Read Bytes
  get_int_to_sv s = get_int s >>= λ (n, s'). ok (show_int n, s')

  -- `get_is_string`
  unfoldable pub get_is_string : P.Stream → Bool × P.Stream
  get_is_string s = let (t, s') = P.next s in (same t string, s')

  -- `get_x_notification_target_type`, with the names of the forge.
  unfoldable pub get_notification_target_type : List (Bytes × Target) → P.Stream → Read Target
  get_notification_target_type names s =
      get_sv s >>= λ (text, s'). find_target names text >>= λ target. ok (target, s')

  -- `get_url_path_`, with `none` for a path of zeros.
  unfoldable pub get_url_path : P.Stream → Read (Option Bytes)
  get_url_path s =
      let (t, s') = P.next s in
      if same t null_value
      then ok (none, s')
      else or_failed (same t string) (ok (some (P.get_string s'), s'))
