-- ===== src/Requests.antt =====
-- Requests to the forges: what src/github and src/gitlab pass on to `gcli_fetch_with_method`.
pub mod Body
pub mod Address
pub mod Github
pub mod Gitlab
pub mod Pulls
pub mod Gitea
mod Tests
use ghcli.Json.Gen.{Gen, init, to_string}
use ghcli.Json.Gen.Calls.{
  Call, begin_object_call, end_object_call, begin_array_call, end_array_call, null_call,
  objmember_call, string_call, number_call, id_call, bool_call, run_call, run,
}
use ghcli.Prelude.{
  ◌∙◌, ℕ, zero, suc, Bool-cases, Option-cases, ◌+◌, ◌-◌, ◌*◌, ◌/◌, ◌%◌, ◌^◌, ◌≤◌, ◌<◌, ◌≡◌, ◌≢◌,
  ◌⊎◌, inl, inr, refl, sym, ap, true, false, Bool, not, List, [], ◌∷◌, ◌++◌, Bytes, length,
  length-append, replicate, length-replicate, All, All-append, ltb, leb, ◌==◌, map, if◌then◌else◌,
  arith, append-nil, append_assoc, ◌&&◌, ◌||◌, codes, Option, none, some, ℤ, pos, negsuc,
}
use ghcli.Prelude.{
  Result, ok, failed, fault, stuck, ◌>>=◌, Ends, Ends-bind, Ends-mono, Ends-ne-stuck,
}

-- `struct gcli_path`
pub data ItemPath : Type 0 where
  by_default : Bytes → Bytes → ℕ → ItemPath
  by_url : Bytes → ItemPath
  by_bugzilla : Bytes → Bytes → ItemPath
  by_id : ℕ → ItemPath
  by_pid_id : ℕ → ℕ → ItemPath

-- The method, the URL and the data of a request, with `none` for no data.
pub record Request : Type 0 where
  pub method : Bytes
  pub url : Bytes
  pub body : Option Bytes

-- Calls of the generator whose results are not looked at.
unfoldable pub write : List Call → Gen → Gen
write [] gen = gen
write (call ∷ calls) gen = write calls (run_call call gen).0

-- `gcli_jsongen_init`, the calls and `gcli_jsongen_to_string`.
unfoldable pub payload : List Call → Bytes
payload calls = to_string (write calls init)

-- An object with what is written between its two calls.
abbrev pub object_calls : List Call → List Call
object_calls members = begin_object_call ∷ (members ++ (end_object_call ∷ []))

-- A member that is a string.
abbrev pub string_field : Bytes → Bytes → List Call
string_field key value = objmember_call key ∷ (string_call value ∷ [])

-- A member that is left out if the pointer is null.
abbrev pub optional_field : Bytes → Option Bytes → List Call
optional_field key none = []
optional_field key (some value) = string_field key value

-- The loop over an array of strings.
abbrev pub string_calls : List Bytes → List Call
string_calls [] = []
string_calls (value ∷ values) = string_call value ∷ string_calls values
