-- ===== src/Json/Gen/Calls.antt =====
-- The calls of src/json_gen.c as data, and a run of several.
use ghcli.Prelude.{◌∙◌, ℕ, ◌≡◌, refl, sym, ap, true, false, Bool, List, [], ◌∷◌, ◌++◌, Bytes, ℤ}
use mathlib.Core.Path.{fun_ext}
use ghcli.Json.Gen.{
  Gen, Reply, ◌then_on◌, begin_object, end_object, begin_array, end_array, objmember, number, id,
  bool, string, null,
}

pub data Call : Type 0 where
  begin_object_call end_object_call begin_array_call end_array_call null_call : Call
  objmember_call string_call : Bytes → Call
  number_call : ℤ → Call
  id_call : ℕ → Call
  bool_call : Bool → Call

unfoldable pub run_call : Call → Gen → Reply
run_call begin_object_call = begin_object
run_call end_object_call = end_object
run_call begin_array_call = begin_array
run_call end_array_call = end_array
run_call null_call = null
run_call (objmember_call key) = objmember key
run_call (string_call value) = string value
run_call (number_call n) = number n
run_call (id_call n) = id n
run_call (bool_call b) = bool b

-- A client checks each result, and stops at the first that fails.
unfoldable pub run : List Call → Gen → Reply
run [] gen = (gen, true)
run (call ∷ calls) gen = run_call call gen then_on run calls

then_on_assoc :
    (r : Reply) (f h : Gen → Reply) → (r then_on f) then_on h ≡ r then_on λ g. f g then_on h
then_on_assoc (g, true) f h = refl
then_on_assoc (g, false) f h = refl

pub run-append : (xs ys : List Call) (gen : Gen) → run (xs ++ ys) gen ≡ run xs gen then_on run ys
unfolding run
run-append [] ys gen = refl
run-append (x ∷ xs) ys gen =
    ap (λ f. run_call x gen then_on f) (fun_ext (run-append xs ys))
    ∙ sym (then_on_assoc (run_call x gen) (run xs) (run ys))
