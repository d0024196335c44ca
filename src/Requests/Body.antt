-- ===== src/Requests/Body.antt =====
-- The bodies of requests as JSON documents.
use ghcli.Decimal.{show, show-All}
use ghcli.Json.Gen.{Gen, Reply, ◌then_on◌, max_scopes, init, to_string}
use ghcli.Json.Gen.Refine.{run-calls_of}
use ghcli.Requests.{write, payload, string_calls}
use ghcli.Json.Gen.Calls.{Call, string_call, run_call, run}
use ghcli.Json.Gen.Document.{
  Json, text, Items, no_items, item, calls_of, item_calls, render, depth, depth_items,
}
use ghcli.Prelude.{
  ◌∙◌, ℕ, ◌≤◌, ◌≡◌, refl, ap, true, false, Bool, List, [], ◌∷◌, ◌++◌, Bytes, All, ◌==◌,
  if◌then◌else◌, arith, Option, none, some,
}

write_step :
    (r : Reply) (calls : List Call)
    → ((gen : Gen) → (run calls gen).1 ≡ true → write calls gen ≡ (run calls gen).0)
    → (r then_on run calls).1 ≡ true
    → write calls r.0 ≡ (r then_on run calls).0
write_step (g, true) calls next h = next g h
write_step (g, false) calls next h = cc

write-run :
    (calls : List Call) (gen : Gen) → (run calls gen).1 ≡ true → write calls gen ≡ (run calls gen).0
unfolding write run
write-run [] gen h = refl
write-run (call ∷ calls) gen h = write_step (run_call call gen) calls (write-run calls) h

-- The calls for a document write its text, though nobody looks at their results.
pub payload-calls_of : (j : Json) → depth j ≤ max_scopes → payload (calls_of j) ≡ render j
unfolding payload
payload-calls_of j h =
    let (succeeds, written, closed) = run-calls_of j h in
    ap to_string (write-run (calls_of j) init succeeds) ∙ written

-- An array of strings.
abbrev pub texts : List Bytes → Items
texts [] = no_items
texts (value ∷ values) = item (text value) (texts values)

pub string_calls-texts : (values : List Bytes) → string_calls values ≡ item_calls (texts values)
unfolding calls_of
string_calls-texts [] = refl
string_calls-texts (value ∷ values) =
    ap (λ calls. string_call value ∷ calls) (string_calls-texts values)

pub depth_items-texts : (values : List Bytes) → depth_items (texts values) ≡ 0
unfolding depth
depth_items-texts [] = refl
depth_items-texts (value ∷ values) = rw (depth_items-texts values) refl

-- Where a byte of a JSON bytes stands.
pub data Place : Type 0 where
  outside inside escaped : Place

abbrev after : Place → ℕ → Place
after outside c = if c == b'"' then inside else outside
after inside c = if c == b'"' then outside else if c == 92 then escaped else inside
after escaped c = inside

abbrev is_blank : Place → ℕ → Bool
is_blank outside c = c == b' '
is_blank inside c = false
is_blank escaped c = false

-- A JSON text without the spaces outside of its strings.
unfoldable pub compact : Place → Bytes → Bytes
compact place [] = []
compact place (c ∷ bytes) =
    let rest = compact (after place c) bytes in if is_blank place c then rest else c ∷ rest

-- The body says the same as the document, up to spaces; or there is neither.
abbrev pub Says : Option Bytes → Option Json → Type 0
Says none none = Unit
Says (some body) (some j) = compact outside body ≡ compact outside (render j)
Says _ _ = ⊥

abbrev Solid : ℕ → Type 0
Solid c = ((c == b' ') ≡ false) × ((c == b'"') ≡ false)

compact-Solid :
    (bytes rest : Bytes)
    → All Solid bytes
    → compact outside (bytes ++ rest) ≡ bytes ++ compact outside rest
unfolding compact
compact-Solid [] rest h = refl
compact-Solid (c ∷ bytes) rest ((space, quote), h) =
    rw (space, quote) (ap (λ t. c ∷ t) (compact-Solid bytes rest h))

-- A printed number stays as it is.
pub compact-show :
    (n : ℕ) (rest : Bytes) → compact outside (show n ++ rest) ≡ show n ++ compact outside rest
compact-show n rest =
    compact-Solid (show n) rest (show-All Solid (λ d h. (ground arith, ground arith)) n)

-- A body that the generator writes, from calls that are those for the document.
pub payload_says :
    (calls : List Call) (j : Json)
    → calls ≡ calls_of j
    → depth j ≤ max_scopes
    → compact outside (payload calls) ≡ compact outside (render j)
payload_says calls j e h = ap (compact outside) (ap payload e ∙ payload-calls_of j h)
