-- ===== src/Json/Gen/Render.antt =====
-- What each call of src/json_gen.c does in a state that allows it.
use ghcli.Prelude.{
  ◌∙◌, Bool-cases, ◌<◌, ◌≡◌, inl, inr, refl, sym, ap, true, false, Bool, not, List, [], ◌∷◌, ◌++◌,
  Bytes, length, ltb, leb, if◌then◌else◌, arith, append-nil, append_assoc, ◌&&◌, codes,
}
use ghcli.Json.Gen.{
  Scope, array, object, Gen, Reply, ◌then_on◌, max_scopes, fit, top_is, tail,
  is_array_or_object_scope, is_object_scope, append_str, append_strf, put_comma_if_needed,
  begin_scope, end_scope, objmember, put_value, null,
}
use ghcli.Json.Escape.{escape}

-- What `put_comma_if_needed` writes, by the flags and the open scopes.
abbrev pub comma : Bool → Bool → List Scope → Bytes
comma await first scopes =
    if not await && not first && ltb 0 (length scopes) then codes ", " else []

-- A call succeeded: it appended `text`, and left these scopes and flags.
pub record Reaches (gen : Gen) (text : Bytes) (scopes : List Scope) (await first : Bool) (r : Reply)
    : Type 0 where
  pub succeeds : r.1 ≡ true
  pub buffer_is : r.0.buffer ≡ gen.buffer ++ text
  pub scopes_are : r.0.scopes ≡ scopes
  pub await_is : r.0.await_object_value ≡ await
  pub first_is : r.0.first_elem ≡ first

-- The separator in front of what is written next.
abbrev pub sep : Gen → Bytes
sep gen = comma gen.await_object_value gen.first_elem gen.scopes

put_comma-Reaches :
    (gen : Gen)
    → Reaches gen (sep gen) gen.scopes gen.await_object_value false (put_comma_if_needed gen, true)
unfolding put_comma_if_needed append_str fit
put_comma-Reaches gen =
    elim (Bool-cases
      (not gen.await_object_value && not gen.first_elem && is_array_or_object_scope gen)) [
        | inl e ↦ rw e (record {
          succeeds = refl;
          buffer_is = refl;
          scopes_are = refl;
          await_is = refl;
          first_is = refl;
        })
        | inr e ↦ rw e (record {
          succeeds = refl;
          buffer_is = sym (append-nil gen.buffer);
          scopes_are = refl;
          await_is = refl;
          first_is = refl;
        })
      ]

pub put_value-Reaches :
    (gen : Gen) (text : Bytes)
    → Reaches gen (sep gen ++ text) gen.scopes false false (put_value text gen)
unfolding put_value append_strf fit
put_value-Reaches gen text =
    let p = put_comma-Reaches gen in
    record {
      succeeds = refl;
      buffer_is = rw (p.buffer_is) (append_assoc gen.buffer (sep gen) text);
      scopes_are = p.scopes_are;
      await_is = refl;
      first_is = refl;
    }

pub null-Reaches :
    (gen : Gen) → Reaches gen (sep gen ++ codes "null") gen.scopes false false (null gen)
unfolding null append_str fit
null-Reaches gen =
    let p = put_comma-Reaches gen in
    record {
      succeeds = refl;
      buffer_is = rw (p.buffer_is) (append_assoc gen.buffer (sep gen) (codes "null"));
      scopes_are = p.scopes_are;
      await_is = refl;
      first_is = refl;
    }

pub objmember-Reaches :
    (gen : Gen) (key : Bytes)
    → is_object_scope gen ≡ true
    → Reaches gen
        (sep gen ++ (b'"' ∷ (escape key ++ codes "\": ")))
        gen.scopes
        true
        false
        (objmember key gen)
unfolding objmember append_strf fit
objmember-Reaches gen key h =
    let p = put_comma-Reaches gen in
    rw h (record {
      succeeds = refl;
      buffer_is = rw (p.buffer_is) (append_assoc gen.buffer (sep gen) _);
      scopes_are = p.scopes_are;
      await_is = refl;
      first_is = refl;
    })

-- A value may stand here: not where an object's key is due.
abbrev pub Accepts : Gen → Type 0
Accepts gen = (is_object_scope gen && not gen.await_object_value) ≡ false

pub begin_scope-Reaches :
    (scope : Scope) (bracket : Bytes) (gen : Gen)
    → Accepts gen
    → length gen.scopes < max_scopes
    → Reaches gen
        (sep gen ++ bracket)
        (scope ∷ gen.scopes)
        gen.await_object_value
        true
        (begin_scope scope bracket gen)
unfolding begin_scope append_str fit
begin_scope-Reaches scope bracket gen h room =
    let p = put_comma-Reaches gen in
    let fits : leb max_scopes (length (put_comma_if_needed gen).scopes) ≡ false =
      rw p.scopes_are (ground arith) in
    rw (h, fits)
      (record {
        succeeds = refl;
        buffer_is = rw (p.buffer_is) (append_assoc gen.buffer (sep gen) bracket);
        scopes_are = ap (◌∷◌ scope) p.scopes_are;
        await_is = p.await_is;
        first_is = refl;
      })

top_is_self : (scope : Scope) (scopes : List Scope) → top_is scope (scope ∷ scopes) ≡ true
top_is_self array scopes = refl
top_is_self object scopes = refl

pub end_scope-Reaches :
    (scope : Scope) (bracket : Bytes) (gen : Gen) (scopes : List Scope)
    → gen.scopes ≡ scope ∷ scopes
    → Reaches gen bracket scopes false false (end_scope scope bracket gen)
unfolding end_scope append_str fit
end_scope-Reaches scope bracket gen scopes h =
    let same : top_is scope gen.scopes ≡ true = rw h (top_is_self scope scopes) in
    rw same (record {
      succeeds = refl;
      buffer_is = refl;
      scopes_are = ap tail h;
      await_is = refl;
      first_is = refl;
    })

-- Two runs in a row.
pub then_on-Reaches :
    (gen : Gen) (r : Reply) (f : Gen → Reply) (text more : Bytes) (scopes scopes' : List Scope)
    (await first await' first' : Bool)
    → Reaches gen text scopes await first r
    → Reaches r.0 more scopes' await' first' (f r.0)
    → Reaches gen (text ++ more) scopes' await' first' (r then_on f)
then_on-Reaches gen (g, true) f text more scopes scopes' await first await' first' p q = record {
  succeeds = q.succeeds;
  buffer_is = q.buffer_is ∙ rw p.buffer_is (append_assoc gen.buffer text more);
  scopes_are = q.scopes_are;
  await_is = q.await_is;
  first_is = q.first_is;
}
then_on-Reaches gen (g, false) f text more scopes scopes' await first await' first' p q =
    absurd (cc p.succeeds)
