-- ===== src/Json/Gen/Tests.antt =====
-- Runs of src/json_gen.c, and its theorems at concrete inputs.
use ghcli.Prelude.{
  ℕ, zero, suc, ◌<◌, ◌≡◌, refl, true, false, [], ◌∷◌, ◌++◌, length, arith, codes, some, negsuc,
}
use ghcli.Json.Gen.{
  object, Gen, ◌then_on◌, init, to_string, begin_object, end_object, begin_array, end_array,
  objmember, number, bool, string, null,
}
use ghcli.Decimal.{show_int}
use ghcli.Json.Escape.{escape, escape_char}
use ghcli.Json.Escape.Laws.{read_string, length-escape, read_string-escape}
use ghcli.Json.Gen.Calls.{
  begin_object_call, begin_array_call, end_array_call, null_call, objmember_call, run_call, run,
}
use ghcli.Json.Gen.Document.{
  Json, nothing, truth, integer, text, list, dict, no_items, item, no_fields, field, calls_of,
  render, depth,
}
use ghcli.Json.Gen.Buffer.{IsValid}
use ghcli.Json.Gen.Bounds.{run-IsValid}
use ghcli.Json.Gen.Refine.{run-calls_of}
use ghcli.Json.Gen.Misuse.{run-calls_of_deep, begin_object_as_key}

-- The body of a request that opens an issue.
abbrev issue : Json
issue = dict (
    field (codes "title") (text (codes "a \"b\"")) (
      field (codes "labels") (list (item (text (codes "bug")) (item (integer (negsuc 6)) no_items)))
        (field (codes "draft") (truth false) no_fields)))

render-issue :
    render issue ≡ codes "{\"title\": \"a \\\"b\\\"\", \"labels\": [\"bug\", -7], \"draft\": false}"
unfolding render escape escape_char show_int
render-issue = refl

run-issue : to_string (run (calls_of issue) init).0 ≡ render issue
unfolding calls_of render run run_call begin_object end_object begin_array end_array objmember
    string number bool init to_string escape escape_char show_int
run-issue = refl

-- A second key with no value in between is written without a comma.
two_keys :
    to_string
      (run
        (begin_object_call ∷ objmember_call (codes "a") ∷ objmember_call (codes "b") ∷ [])
        init).0
    ≡ codes "{\"a\": \"b\": "
unfolding run run_call begin_object objmember init to_string escape escape_char
two_keys = refl

-- A closing bracket of the other kind is refused, and its scope is lost all the same.
wrong_bracket : (run (begin_object_call ∷ end_array_call ∷ []) init).0.scopes ≡ []
unfolding run run_call begin_object end_array init
wrong_bracket = refl

run-IsValid_example : IsValid (run (begin_array_call ∷ null_call ∷ []) init).0
unfolding run run_call begin_array null init
run-IsValid_example = run-IsValid (begin_array_call ∷ null_call ∷ []) (omega arith)

run-calls_of_example :
    ((run (calls_of issue) init).1 ≡ true)
    × (to_string (run (calls_of issue) init).0 ≡ render issue)
    × ((run (calls_of issue) init).0.scopes ≡ [])
unfolding depth
run-calls_of_example = run-calls_of issue (omega arith)

nested : ℕ → Json
nested zero = nothing
nested (suc n) = list (item (nested n) no_items)

run-calls_of_deep_example : (run (calls_of (nested 33)) init).1 ≡ false
unfolding depth nested
run-calls_of_deep_example = run-calls_of_deep (nested 33) (omega arith)

abbrev awaiting : Gen
awaiting = record {
  buffer = codes "{\"a\": ";
  buffer_capacity = 32;
  scopes = object ∷ [];
  await_object_value = true;
  first_elem = false;
}

begin_object_as_key_example :
    let r = begin_object awaiting then_on begin_object in
    (r.1 ≡ true)
    × (r.0.buffer ≡ (codes "{\"a\": " ++ codes "{") ++ codes "{")
    × (r.0.scopes ≡ object ∷ object ∷ object ∷ [])
begin_object_as_key_example = begin_object_as_key awaiting refl (omega arith)

length-escape_example : length (escape (codes "a\"b")) < 7
length-escape_example = length-escape (codes "a\"b")

read_string-escape_example :
    read_string (escape (codes "a\"b") ++ (b'"' ∷ codes ", 1")) ≡ some (codes "a\"b", codes ", 1")
read_string-escape_example = read_string-escape (codes "a\"b") (codes ", 1")
