-- ===== src/Json/Gen/Bounds.antt =====
-- src/json_gen.c: every call keeps the buffer and the stack of scopes within their bounds.
use ghcli.Prelude.{
  Bool-cases, ◌+◌, ◌≤◌, ◌≡◌, inl, inr, true, false, not, List, [], ◌∷◌, Bytes, length, leb, arith,
  ◌&&◌, codes,
}
use ghcli.Json.Gen.{
  Scope, array, object, Gen, Reply, ◌then_on◌, max_scopes, init, top_is, tail, is_object_scope,
  put_comma_if_needed, begin_scope, end_scope, begin_object, end_object, begin_array, end_array,
  objmember, put_value, number, id, bool, string, null,
}
use ghcli.Json.Gen.Calls.{
  Call, begin_object_call, end_object_call, begin_array_call, end_array_call, null_call,
  objmember_call, string_call, number_call, id_call, bool_call, run_call, run,
}
use ghcli.Json.Gen.Growth.{length-run}
use ghcli.Json.Gen.Buffer.{
  max_text, IsValid, flags-IsValid, append_str-IsValid, append_strf-IsValid, put_comma-IsValid,
  length-append_strf, length-append_str,
}

put_value-IsValid :
    (gen : Gen) (text : Bytes)
    → IsValid gen
    → length (put_value text gen).0.buffer + 1 ≤ max_text
    → IsValid (put_value text gen).0
unfolding put_value
put_value-IsValid gen text v h = flags-IsValid false false (
    append_strf-IsValid (put_comma_if_needed gen) text
      (put_comma-IsValid gen v (omega (arith, length-append_strf (put_comma_if_needed gen) text)))
      h)

objmember-IsValid :
    (gen : Gen) (key : Bytes)
    → IsValid gen
    → length (objmember key gen).0.buffer + 1 ≤ max_text
    → IsValid (objmember key gen).0
unfolding objmember
objmember-IsValid gen key v h = elim (Bool-cases (is_object_scope gen)) [
  | inl e ↦ rw e (
      flags-IsValid true false (
        append_strf-IsValid (put_comma_if_needed gen) _
          (put_comma-IsValid gen v
            (omega (arith, rw e at h, length-append_strf (put_comma_if_needed gen) _)))
          (rw e at h)))
  | inr e ↦ rw e v
]

null-IsValid :
    (gen : Gen) → IsValid gen → length (null gen).0.buffer + 1 ≤ max_text → IsValid (null gen).0
unfolding null
null-IsValid gen v h = flags-IsValid false false (
    append_str-IsValid (put_comma_if_needed gen) (codes "null")
      (put_comma-IsValid gen v
        (omega (arith, length-append_str (put_comma_if_needed gen) (codes "null"))))
      (omega arith))

-- A scope on top of a valid generator that has room for it, and one taken off.
push-IsValid :
    {gen : Gen} (scope : Scope)
    → IsValid gen
    → leb max_scopes (length gen.scopes) ≡ false
    → IsValid (record gen { scopes = scope ∷ gen.scopes })
push-IsValid scope v h = record {
  allocated = v.allocated;
  size_t = v.size_t;
  in_buffer = v.in_buffer;
  in_stack = ground arith;
}

length-tail : (scopes : List Scope) → length (tail scopes) ≤ length scopes
length-tail [] = omega arith
length-tail (s ∷ scopes) = omega arith

pop-IsValid : {gen : Gen} → IsValid gen → IsValid (record gen { scopes = tail gen.scopes })
pop-IsValid {gen} v = record {
  allocated = v.allocated;
  size_t = v.size_t;
  in_buffer = v.in_buffer;
  in_stack = omega (arith, length-tail gen.scopes);
}

begin_scope-IsValid :
    (scope : Scope) (bracket : Bytes) (gen : Gen)
    → IsValid gen
    → length (begin_scope scope bracket gen).0.buffer + 1 ≤ max_text
    → IsValid (begin_scope scope bracket gen).0
unfolding begin_scope
begin_scope-IsValid scope bracket gen v h =
    elim (Bool-cases (is_object_scope gen && not gen.await_object_value)) [
      | inl key ↦ rw key v
      | inr value ↦
          let g = put_comma_if_needed gen in
          rw value (elim (Bool-cases (leb max_scopes (length g.scopes))) [
            | inl full ↦ rw full (put_comma-IsValid gen v (omega (arith, rw (value, full) at h)))
            | inr room ↦
                let pushed = record g { scopes = scope ∷ g.scopes } in
                let h' = rw (value, room) at h in
                rw room (
                  flags-IsValid g.await_object_value true (
                    append_str-IsValid pushed bracket
                      (push-IsValid scope
                        (put_comma-IsValid gen v
                          (omega (arith, h', length-append_str pushed bracket)))
                        room)
                      (omega (arith, h'))))
          ])
    ]

end_scope-IsValid :
    (scope : Scope) (bracket : Bytes) (gen : Gen)
    → IsValid gen
    → length (end_scope scope bracket gen).0.buffer + 1 ≤ max_text
    → IsValid (end_scope scope bracket gen).0
unfolding end_scope
end_scope-IsValid scope bracket gen v h =
    let popped = record gen { scopes = tail gen.scopes } in
    elim (Bool-cases (top_is scope gen.scopes)) [
      | inl same ↦ rw same (
          flags-IsValid false false
            (append_str-IsValid popped bracket (pop-IsValid v) (omega (arith, rw same at h))))
      | inr other ↦ rw other (pop-IsValid v)
    ]

run_call-IsValid :
    (call : Call) (gen : Gen)
    → IsValid gen
    → length (run_call call gen).0.buffer + 1 ≤ max_text
    → IsValid (run_call call gen).0
unfolding run_call begin_object end_object begin_array end_array number id bool string
run_call-IsValid begin_object_call gen = begin_scope-IsValid object (codes "{") gen
run_call-IsValid end_object_call gen = end_scope-IsValid object (codes "}") gen
run_call-IsValid begin_array_call gen = begin_scope-IsValid array (codes "[") gen
run_call-IsValid end_array_call gen = end_scope-IsValid array (codes "]") gen
run_call-IsValid null_call gen = null-IsValid gen
run_call-IsValid (objmember_call key) gen = objmember-IsValid gen key
run_call-IsValid (string_call value) gen = put_value-IsValid gen _
run_call-IsValid (number_call n) gen = put_value-IsValid gen _
run_call-IsValid (id_call n) gen = put_value-IsValid gen _
run_call-IsValid (bool_call b) gen = put_value-IsValid gen _

then_on-IsValid :
    (r : Reply) (f : Gen → Reply)
    → ((g : Gen) → length g.buffer ≤ length (f g).0.buffer)
    → (length r.0.buffer + 1 ≤ max_text → IsValid r.0)
    → ((g : Gen) → IsValid g → length (f g).0.buffer + 1 ≤ max_text → IsValid (f g).0)
    → length (r then_on f).0.buffer + 1 ≤ max_text
    → IsValid (r then_on f).0
then_on-IsValid (g, true) f grows v keeps h = keeps g (v (omega (arith, grows g))) h
then_on-IsValid (g, false) f grows v keeps h = v h

run_from-IsValid :
    (calls : List Call) (gen : Gen)
    → IsValid gen
    → length (run calls gen).0.buffer + 1 ≤ max_text
    → IsValid (run calls gen).0
unfolding run
run_from-IsValid [] gen v h = v
run_from-IsValid (call ∷ calls) gen v h =
    then_on-IsValid (run_call call gen) (run calls) (length-run calls) (run_call-IsValid call gen v)
      (run_from-IsValid calls) h

init-IsValid : IsValid init
unfolding init
init-IsValid = omega arith

-- From a fresh generator and over any calls, failing ones included, while the text and its NUL take at
-- most 2 ^ 31 bytes (so that the length of each piece fits the int of vsnprintf): what is written fits
-- the allocated buffer, the capacity does not wrap, and at most 32 scopes are open.
pub run-IsValid :
    (calls : List Call)
    → length (run calls init).0.buffer + 1 ≤ max_text
    → IsValid (run calls init).0
run-IsValid calls h = run_from-IsValid calls init init-IsValid h
