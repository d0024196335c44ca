-- ===== src/Json/Gen/Misuse.antt =====
-- src/json_gen.c on a document that is nested too deeply, and on calls in the wrong order.
use ghcli.Prelude.{
  ◌∙◌, ℕ, ◌+◌, ◌≤◌, ◌<◌, ◌≡◌, ◌⊎◌, inl, inr, refl, sym, ap, true, false, List, [], ◌∷◌, ◌++◌, Bytes,
  length, arith, append_assoc, codes,
}
use ghcli.Json.Gen.{
  Scope, array, object, Gen, Reply, ◌then_on◌, max_scopes, init, fit, append_str,
  put_comma_if_needed, begin_scope, begin_object, begin_array,
}
use ghcli.Json.Gen.Calls.{
  Call, begin_object_call, begin_array_call, objmember_call, run_call, run, run-append,
}
use ghcli.Json.Gen.Document.{
  Json, nothing, truth, integer, ident, text, list, dict, Items, no_items, item, Fields, no_fields,
  field, calls_of, item_calls, field_calls, depth, depth_items, depth_fields,
}
use ghcli.Json.Gen.Render.{sep, objmember-Reaches, Accepts, begin_scope-Reaches, then_on-Reaches}
use ghcli.Json.Gen.Refine.{one, comma_first, sep_left, restate, Accepts-awaiting, calls_of-Reaches}

begin_scope_full :
    (scope : Scope) (bracket : Bytes) (gen : Gen)
    → max_scopes ≤ length gen.scopes
    → (begin_scope scope bracket gen).1 ≡ false
unfolding begin_scope put_comma_if_needed append_str fit
begin_scope_full scope bracket gen h = ground arith

then_on_left : (r : Reply) (f : Gen → Reply) → r.1 ≡ false → (r then_on f).1 ≡ false
then_on_left (g, false) f h = refl
then_on_left (g, true) f h = cc

then_on_right :
    (r : Reply) (f : Gen → Reply) → r.1 ≡ true → (f r.0).1 ≡ false → (r then_on f).1 ≡ false
then_on_right (g, true) f h e = e
then_on_right (g, false) f h e = refl

run-append_left :
    (xs ys : List Call) (gen : Gen) → (run xs gen).1 ≡ false → (run (xs ++ ys) gen).1 ≡ false
run-append_left xs ys gen h = rw (run-append xs ys gen) (then_on_left (run xs gen) (run ys) h)

run-append_right :
    (xs ys : List Call) (gen : Gen)
    → (run xs gen).1 ≡ true
    → (run ys (run xs gen).0).1 ≡ false
    → (run (xs ++ ys) gen).1 ≡ false
run-append_right xs ys gen h e = rw (run-append xs ys gen) (then_on_right (run xs gen) (run ys) h e)

run_first :
    (call : Call) (calls : List Call) (gen : Gen)
    → (run_call call gen).1 ≡ false
    → (run (call ∷ calls) gen).1 ≡ false
unfolding run
run_first call calls gen h = then_on_left (run_call call gen) (run calls) h

le-cases : (a b : ℕ) → (a ≤ b) ⊎ (b < a)
le-cases a b = grind arith

-- A scope that cannot be opened, or whose members fail.
bracket_fails :
    (scope : Scope) (open_call : Call) (left : Bytes) (calls more : List Call) (gen : Gen)
    → run_call open_call ≡ begin_scope scope left
    → Accepts gen
    → ((g : Gen)
        → g.scopes ≡ scope ∷ gen.scopes
        → length gen.scopes < max_scopes
        → (run calls g).1 ≡ false)
    → (run (open_call ∷ (calls ++ more)) gen).1 ≡ false
bracket_fails scope open_call left calls more gen opens h inside =
    elim (le-cases max_scopes (length gen.scopes)) [
      | inl full ↦
          run_first open_call (calls ++ more) gen (rw opens (begin_scope_full scope left gen full))
      | inr room ↦
          let p =
            one open_call gen (sep gen ++ left) (scope ∷ gen.scopes) gen.await_object_value true
              (rw opens (begin_scope-Reaches scope left gen h room)) in
          run-append_right (open_call ∷ []) (calls ++ more) gen p.succeeds (
            run-append_left calls more (run (open_call ∷ []) gen).0
              (inside (run (open_call ∷ []) gen).0 p.scopes_are room))
    ]

mutual
  unfolding calls_of item_calls field_calls depth depth_items depth_fields run_call begin_array
      begin_object

  calls_of_fails :
      (j : Json) (gen : Gen)
      → Accepts gen
      → length gen.scopes ≤ max_scopes
      → max_scopes < length gen.scopes + depth j
      → (run (calls_of j) gen).1 ≡ false
  calls_of_fails nothing gen h l d = absurd (omega arith)
  calls_of_fails (truth b) gen h l d = absurd (omega arith)
  calls_of_fails (integer n) gen h l d = absurd (omega arith)
  calls_of_fails (ident n) gen h l d = absurd (omega arith)
  calls_of_fails (text s) gen h l d = absurd (omega arith)
  calls_of_fails (list xs) gen h l d =
      bracket_fails array begin_array_call (codes "[") (item_calls xs) _ gen refl h (λ g e room.
        item_calls_fails xs g gen.scopes e (omega (arith, ap length e))
          (omega (arith, ap length e)))
  calls_of_fails (dict fs) gen h l d =
      bracket_fails object begin_object_call (codes "{") (field_calls fs) _ gen refl h (λ g e room.
        field_calls_fails fs g gen.scopes e (omega (arith, ap length e))
          (omega (arith, ap length e)))

  item_calls_fails :
      (xs : Items) (gen : Gen) (scopes : List Scope)
      → gen.scopes ≡ array ∷ scopes
      → length gen.scopes ≤ max_scopes
      → max_scopes < length gen.scopes + depth_items xs
      → (run (item_calls xs) gen).1 ≡ false
  item_calls_fails no_items gen scopes h l d = absurd (omega arith)
  item_calls_fails (item x xs) gen scopes h l d =
      elim (le-cases (length gen.scopes + depth x) max_scopes) [
        | inl fits ↦
            let p = calls_of-Reaches x gen (rw h refl) fits in
            run-append_right (calls_of x) (item_calls xs) gen p.succeeds (
              item_calls_fails xs (run (calls_of x) gen).0 scopes (p.scopes_are ∙ h)
                (omega (arith, ap length p.scopes_are)) (omega (arith, ap length p.scopes_are)))
        | inr deep ↦
            run-append_left (calls_of x) (item_calls xs) gen
              (calls_of_fails x gen (rw h refl) l deep)
      ]

  field_calls_fails :
      (fs : Fields) (gen : Gen) (scopes : List Scope)
      → gen.scopes ≡ object ∷ scopes
      → length gen.scopes ≤ max_scopes
      → max_scopes < length gen.scopes + depth_fields fs
      → (run (field_calls fs) gen).1 ≡ false
  field_calls_fails no_fields gen scopes h l d = absurd (omega arith)
  field_calls_fails (field k x fs) gen scopes h l d =
      let m = one (objmember_call k) gen _ _ _ _ (objmember-Reaches gen k (rw h refl)) in
      let g = (run (objmember_call k ∷ []) gen).0 in
      let free_value = Accepts-awaiting g m.await_is in
      let e = ap length m.scopes_are in
      run-append_right (objmember_call k ∷ []) (calls_of x ++ field_calls fs) gen m.succeeds
        (elim (le-cases (length g.scopes + depth x) max_scopes) [
          | inl fits ↦
              let p = calls_of-Reaches x g free_value fits in
              let e' = ap length p.scopes_are in
              run-append_right (calls_of x) (field_calls fs) g p.succeeds (
                field_calls_fails fs (run (calls_of x) g).0 scopes (p.scopes_are ∙ m.scopes_are ∙ h)
                  (omega (arith, e, e')) (omega (arith, e, e')))
          | inr deep ↦
              run-append_left (calls_of x) (field_calls fs) g
                (calls_of_fails x g free_value (omega (arith, e)) deep)
        ])

-- A document with more than 32 scopes open at once is refused: some call for it answers -1.
pub run-calls_of_deep : (j : Json) → max_scopes < depth j → (run (calls_of j) init).1 ≡ false
unfolding init
run-calls_of_deep j h = calls_of_fails j init refl (omega arith) (omega arith)

-- `begin_object` leaves `await_object_value` set when it opens the value of a member. So a second
-- `begin_object` right behind it, where the key of the new object is due, is not refused: it
-- succeeds and writes `{{`, whatever was written before, if two more scopes fit.
pub begin_object_as_key :
    (gen : Gen)
    → gen.await_object_value ≡ true
    → length gen.scopes + 2 ≤ max_scopes
    → let r = begin_object gen then_on begin_object in
      (r.1 ≡ true)
      × (r.0.buffer ≡ (gen.buffer ++ codes "{") ++ codes "{")
      × (r.0.scopes ≡ object ∷ object ∷ gen.scopes)
unfolding begin_object
begin_object_as_key gen h room =
    let p = begin_scope-Reaches object (codes "{") gen (Accepts-awaiting gen h) (omega arith) in
    let g = (begin_scope object (codes "{") gen).0 in
    let q =
      begin_scope-Reaches object (codes "{") g (Accepts-awaiting g (p.await_is ∙ h))
        (omega (arith, ap length p.scopes_are)) in
    let no_comma : sep gen ≡ [] = rw h refl in
    let r =
      then_on-Reaches gen (begin_scope object (codes "{") gen) begin_object _ _ _ _ _ _ _ _
        (restate (ap (λ t. t ++ codes "{") no_comma) refl p)
        (restate
          (ap (λ t. t ++ codes "{")
            (sep_left (begin_scope object (codes "{") gen) p
              (comma_first gen.await_object_value (object ∷ gen.scopes))))
          (ap (◌∷◌ object) p.scopes_are) q) in
    (r.succeeds, r.buffer_is ∙ sym (append_assoc gen.buffer (codes "{") (codes "{")), r.scopes_are)
