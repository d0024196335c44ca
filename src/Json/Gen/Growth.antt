-- ===== src/Json/Gen/Growth.antt =====
-- src/json_gen.c: no call takes back what is written.
use ghcli.Prelude.{ℕ, ◌≤◌, true, false, List, [], ◌∷◌, ◌++◌, Bytes, length, arith, codes}
use ghcli.Json.Gen.{
  Scope, array, object, Gen, Reply, ◌then_on◌, tail, put_comma_if_needed, begin_scope, end_scope,
  begin_object, end_object, begin_array, end_array, objmember, put_value, number, id, bool, string,
  null,
}
use ghcli.Json.Gen.Calls.{
  Call, begin_object_call, end_object_call, begin_array_call, end_array_call, null_call,
  objmember_call, string_call, number_call, id_call, bool_call, run_call, run,
}
use ghcli.Json.Escape.{escape}
use ghcli.Json.Escape.{escape}
use ghcli.Json.Gen.Buffer.{length-append_str, length-append_strf}

-- What was written stays.
length-put_comma : (gen : Gen) → length gen.buffer ≤ length (put_comma_if_needed gen).buffer
unfolding put_comma_if_needed
length-put_comma gen = ground (arith, length-append_str gen (codes ", "))

length-put_value :
    (text : Bytes) (gen : Gen) → length gen.buffer ≤ length (put_value text gen).0.buffer
unfolding put_value
length-put_value text gen =
    omega (arith, length-put_comma gen, length-append_strf (put_comma_if_needed gen) text)

length-begin_scope :
    (scope : Scope) (bracket : Bytes) (gen : Gen)
    → length gen.buffer ≤ length (begin_scope scope bracket gen).0.buffer
unfolding begin_scope
length-begin_scope scope bracket gen =
    let g = put_comma_if_needed gen in
    ground (
      arith,
      length-put_comma gen,
      length-append_str (record g { scopes = scope ∷ g.scopes }) bracket,
    )

length-end_scope :
    (scope : Scope) (bracket : Bytes) (gen : Gen)
    → length gen.buffer ≤ length (end_scope scope bracket gen).0.buffer
unfolding end_scope
length-end_scope scope bracket gen =
    ground (arith, length-append_str (record gen { scopes = tail gen.scopes }) bracket)

length-objmember :
    (key : Bytes) (gen : Gen) → length gen.buffer ≤ length (objmember key gen).0.buffer
unfolding objmember
length-objmember key gen = ground (
  arith,
  length-put_comma gen,
  length-append_strf (put_comma_if_needed gen) (b'"' ∷ (escape key ++ codes "\": ")),
)

length-null : (gen : Gen) → length gen.buffer ≤ length (null gen).0.buffer
unfolding null
length-null gen =
    omega (arith, length-put_comma gen, length-append_str (put_comma_if_needed gen) (codes "null"))

pub length-run_call :
    (call : Call) (gen : Gen) → length gen.buffer ≤ length (run_call call gen).0.buffer
unfolding run_call begin_object end_object begin_array end_array number id bool string
length-run_call begin_object_call = length-begin_scope object (codes "{")
length-run_call end_object_call = length-end_scope object (codes "}")
length-run_call begin_array_call = length-begin_scope array (codes "[")
length-run_call end_array_call = length-end_scope array (codes "]")
length-run_call null_call = length-null
length-run_call (objmember_call key) = length-objmember key
length-run_call (string_call value) = length-put_value _
length-run_call (number_call n) = length-put_value _
length-run_call (id_call n) = length-put_value _
length-run_call (bool_call b) = length-put_value _

length-then_on :
    (r : Reply) (f : Gen → Reply) (n : ℕ)
    → n ≤ length r.0.buffer
    → ((g : Gen) → length g.buffer ≤ length (f g).0.buffer)
    → n ≤ length (r then_on f).0.buffer
length-then_on (g, true) f n h grows = omega (arith, grows g)
length-then_on (g, false) f n h grows = h

pub length-run :
    (calls : List Call) (gen : Gen) → length gen.buffer ≤ length (run calls gen).0.buffer
unfolding run
length-run [] gen = omega arith
length-run (call ∷ calls) gen =
    length-then_on (run_call call gen) (run calls) _ (length-run_call call gen) (length-run calls)
