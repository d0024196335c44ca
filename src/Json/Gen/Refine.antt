-- ===== src/Json/Gen/Refine.antt =====
-- src/json_gen.c against the text of a document: what the calls for it write.
use ghcli.Prelude.{
  ◌∙◌, ◌+◌, ◌≤◌, ◌<◌, ◌≡◌, refl, sym, ap, true, false, Bool, List, [], ◌∷◌, ◌++◌, Bytes, length,
  arith, append-nil, append_assoc, codes,
}
use ghcli.Json.Gen.{
  Scope, array, object, Gen, Reply, max_scopes, init, to_string, begin_scope, end_scope,
  begin_object, end_object, begin_array, end_array, number, id, bool, string,
}
use ghcli.Json.Gen.Calls.{
  Call, begin_object_call, end_object_call, begin_array_call, end_array_call, null_call,
  objmember_call, string_call, number_call, id_call, bool_call, run_call, run, run-append,
}
use ghcli.Json.Gen.Document.{
  Json, nothing, truth, integer, ident, text, list, dict, Items, no_items, item, Fields, no_fields,
  field, calls_of, item_calls, field_calls, render, render_items, render_fields, depth, depth_items,
  depth_fields,
}
use ghcli.Json.Gen.Render.{
  comma, sep, Reaches, put_value-Reaches, null-Reaches, objmember-Reaches, Accepts,
  begin_scope-Reaches, end_scope-Reaches, then_on-Reaches,
}

-- A run of one call.
pub one :
    (call : Call) (gen : Gen) (t : Bytes) (scopes : List Scope) (await first : Bool)
    → Reaches gen t scopes await first (run_call call gen)
    → Reaches gen t scopes await first (run (call ∷ []) gen)
unfolding run
one call gen t scopes await first p = rw (append-nil t) at (
    then_on-Reaches gen (run_call call gen) (run []) t [] scopes scopes await first await first p
      (record {
        succeeds = refl;
        buffer_is = sym (append-nil _);
        scopes_are = p.scopes_are;
        await_is = p.await_is;
        first_is = p.first_is;
      }))

-- The same text and scopes, written otherwise.
pub restate :
    {gen : Gen} {t u : Bytes} {scopes scopes' : List Scope} {await first : Bool} {r : Reply}
    → t ≡ u
    → scopes ≡ scopes'
    → Reaches gen t scopes await first r
    → Reaches gen u scopes' await first r
restate e s p = record {
  succeeds = p.succeeds;
  buffer_is = p.buffer_is ∙ rw e;
  scopes_are = p.scopes_are ∙ s;
  await_is = p.await_is;
  first_is = p.first_is;
}

pub comma_first : (await : Bool) (scopes : List Scope) → comma await true scopes ≡ []
comma_first await scopes = ground arith

-- After a value inside an array or an object, and after a key.
comma_after :
    (scope : Scope) (scopes : List Scope) → comma false false (scope ∷ scopes) ≡ codes ", "
comma_after scope scopes = ground arith

comma_key : (scopes : List Scope) → comma true false scopes ≡ []
comma_key scopes = refl

-- The separator after a call, from what it left.
pub sep_left :
    {gen : Gen} {t u : Bytes} {scopes : List Scope} {await first : Bool} (r : Reply)
    → Reaches gen t scopes await first r
    → comma await first scopes ≡ u
    → sep r.0 ≡ u
sep_left r p e = rw (p.await_is, p.first_is, p.scopes_are) e

Reaches-self :
    {gen : Gen} {t : Bytes} {scopes : List Scope} {await first : Bool} {r : Reply}
    → Reaches gen t scopes await first r
    → Reaches gen t scopes r.0.await_object_value r.0.first_elem r
Reaches-self p = record {
  succeeds = p.succeeds;
  buffer_is = p.buffer_is;
  scopes_are = p.scopes_are;
  await_is = refl;
  first_is = refl;
}

chain :
    (xs ys : List Call) (gen : Gen) (t u : Bytes) (scopes scopes' : List Scope)
    (await first await' first' : Bool)
    → Reaches gen t scopes await first (run xs gen)
    → Reaches (run xs gen).0 u scopes' await' first' (run ys (run xs gen).0)
    → Reaches gen (t ++ u) scopes' await' first' (run (xs ++ ys) gen)
chain xs ys gen t u scopes scopes' await first await' first' p q =
    rw (run-append xs ys gen)
      (then_on-Reaches gen (run xs gen) (run ys) t u scopes scopes' await first await' first' p q)

pub Accepts-awaiting : (gen : Gen) → gen.await_object_value ≡ true → Accepts gen
Accepts-awaiting gen h = ground arith

pub nothing_run :
    (gen : Gen)
    → Reaches gen [] gen.scopes
        (run [] gen).0.await_object_value
        (run [] gen).0.first_elem
        (run [] gen)
unfolding run
nothing_run gen = record {
  succeeds = refl;
  buffer_is = sym (append-nil gen.buffer);
  scopes_are = refl;
  await_is = refl;
  first_is = refl;
}

-- The calls inside a scope, between the two that open and close it.
bracketed :
    (scope : Scope) (open_call close_call : Call) (left right : Bytes) (calls : List Call)
    (gen : Gen) (inner : Bytes → Bytes)
    → run_call open_call ≡ begin_scope scope left
    → run_call close_call ≡ end_scope scope right
    → Accepts gen
    → length gen.scopes < max_scopes
    → ((g : Gen)
        → g.scopes ≡ scope ∷ gen.scopes
        → Reaches g
            (inner (sep g))
            g.scopes
            (run calls g).0.await_object_value
            (run calls g).0.first_elem
            (run calls g))
    → Reaches gen
        (sep gen ++ (left ++ (inner [] ++ right)))
        gen.scopes
        false
        false
        (run (open_call ∷ (calls ++ (close_call ∷ []))) gen)
bracketed scope open_call close_call left right calls gen inner opens closes h room inside =
    restate (append_assoc (sep gen) left (inner [] ++ right)) refl (
      chain (open_call ∷ []) (calls ++ (close_call ∷ [])) gen _ _ _ _ _ _ _ _ first
        (chain calls (close_call ∷ []) g₁ _ _ _ _ _ _ _ _ middle last))
  where
    first :
        Reaches gen
          (sep gen ++ left)
          (scope ∷ gen.scopes)
          gen.await_object_value
          true
          (run (open_call ∷ []) gen)
    first = one open_call gen _ _ _ _ (rw opens (begin_scope-Reaches scope left gen h room))

    g₁ : Gen
    g₁ = (run (open_call ∷ []) gen).0

    middle :
        Reaches g₁
          (inner [])
          g₁.scopes
          (run calls g₁).0.await_object_value
          (run calls g₁).0.first_elem
          (run calls g₁)
    middle =
        restate
          (ap inner (
            sep_left (run (open_call ∷ []) gen) first
              (comma_first gen.await_object_value (scope ∷ gen.scopes))))
          refl (inside g₁ first.scopes_are)

    last :
        Reaches
          (run calls g₁).0
          right
          gen.scopes
          false
          false
          (run (close_call ∷ []) (run calls g₁).0)
    last = one close_call _ _ _ _ _ (
        rw closes
          (end_scope-Reaches scope right _ gen.scopes (middle.scopes_are ∙ first.scopes_are)))

mutual
  unfolding calls_of item_calls field_calls render render_items render_fields depth depth_items
      depth_fields run_call bool number id string begin_array end_array begin_object end_object

  pub calls_of-Reaches :
      (j : Json) (gen : Gen)
      → Accepts gen
      → length gen.scopes + depth j ≤ max_scopes
      → Reaches gen (sep gen ++ render j) gen.scopes false false (run (calls_of j) gen)
  calls_of-Reaches nothing gen h d = one null_call gen _ _ _ _ (null-Reaches gen)
  calls_of-Reaches (truth b) gen h d = one (bool_call b) gen _ _ _ _ (put_value-Reaches gen _)
  calls_of-Reaches (integer n) gen h d = one (number_call n) gen _ _ _ _ (put_value-Reaches gen _)
  calls_of-Reaches (ident n) gen h d = one (id_call n) gen _ _ _ _ (put_value-Reaches gen _)
  calls_of-Reaches (text s) gen h d = one (string_call s) gen _ _ _ _ (put_value-Reaches gen _)
  calls_of-Reaches (list xs) gen h d =
      bracketed array begin_array_call end_array_call (codes "[") (codes "]") (item_calls xs) gen
        (λ t. render_items t xs) refl refl h (omega arith)
        (λ g e. item_calls-Reaches xs g gen.scopes e (omega (arith, ap length e)))
  calls_of-Reaches (dict fs) gen h d =
      bracketed object begin_object_call end_object_call (codes "{") (codes "}") (field_calls fs)
        gen (λ t. render_fields t fs) refl refl h (omega arith)
        (λ g e. field_calls-Reaches fs g gen.scopes e (omega (arith, ap length e)))

  item_calls-Reaches :
      (xs : Items) (gen : Gen) (scopes : List Scope)
      → gen.scopes ≡ array ∷ scopes
      → length gen.scopes + depth_items xs ≤ max_scopes
      → Reaches gen
          (render_items (sep gen) xs)
          gen.scopes
          (run (item_calls xs) gen).0.await_object_value
          (run (item_calls xs) gen).0.first_elem
          (run (item_calls xs) gen)
  item_calls-Reaches no_items gen scopes h d = nothing_run gen
  item_calls-Reaches (item x xs) gen scopes h d =
      let p = calls_of-Reaches x gen (rw h refl) (omega arith) in
      let q =
        item_calls-Reaches xs (run (calls_of x) gen).0 scopes (p.scopes_are ∙ h)
          (omega (arith, ap length p.scopes_are)) in
      Reaches-self (
        chain (calls_of x) (item_calls xs) gen _ _ _ _ _ _ _ _ p (
          restate
            (ap (λ t. render_items t xs)
              (sep_left (run (calls_of x) gen) p (rw h (comma_after array scopes))))
            p.scopes_are q))

  field_calls-Reaches :
      (fs : Fields) (gen : Gen) (scopes : List Scope)
      → gen.scopes ≡ object ∷ scopes
      → length gen.scopes + depth_fields fs ≤ max_scopes
      → Reaches gen
          (render_fields (sep gen) fs)
          gen.scopes
          (run (field_calls fs) gen).0.await_object_value
          (run (field_calls fs) gen).0.first_elem
          (run (field_calls fs) gen)
  field_calls-Reaches no_fields gen scopes h d = nothing_run gen
  field_calls-Reaches (field k x fs) gen scopes h d =
      let m = one (objmember_call k) gen _ _ _ _ (objmember-Reaches gen k (rw h refl)) in
      let g = (run (objmember_call k ∷ []) gen).0 in
      let p =
        calls_of-Reaches x g (Accepts-awaiting g m.await_is)
          (omega (arith, ap length m.scopes_are)) in
      let q =
        field_calls-Reaches fs (run (calls_of x) g).0 scopes (p.scopes_are ∙ m.scopes_are ∙ h)
          (omega (arith, ap length p.scopes_are, ap length m.scopes_are)) in
      Reaches-self (
        chain (objmember_call k ∷ []) (calls_of x ++ field_calls fs) gen _ _ _ _ _ _ _ _ m (
          chain (calls_of x) (field_calls fs) g _ _ _ _ _ _ _ _
            (restate
              (ap (λ t. t ++ render x)
                (sep_left (run (objmember_call k ∷ []) gen) m (comma_key gen.scopes)))
              m.scopes_are p)
            (restate
              (ap (λ t. render_fields t fs)
                (sep_left (run (calls_of x) g) p
                  (rw (m.scopes_are, h) (comma_after object scopes))))
              (p.scopes_are ∙ m.scopes_are) q)))

-- A document of at most 32 nested scopes is written whole by a fresh generator: every call succeeds,
-- the buffer holds the text of the document, and no scope is left open.
pub run-calls_of :
    (j : Json)
    → depth j ≤ max_scopes
    → ((run (calls_of j) init).1 ≡ true)
      × (to_string (run (calls_of j) init).0 ≡ render j)
      × ((run (calls_of j) init).0.scopes ≡ [])
unfolding init to_string
run-calls_of j h =
    let p = calls_of-Reaches j init refl (omega arith) in (p.succeeds, p.buffer_is, p.scopes_are)
