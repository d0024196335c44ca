-- ===== src/Actions.antt =====
-- src/cmd/actions.c: the actions of a command line, one after the other, on an item that is fetched once.
pub mod Runs
mod Tests
use ghcli.CString.{str_eq}
use ghcli.Requests.{ItemPath}
use ghcli.Prelude.{
  ◌∙◌, ℕ, zero, suc, Bool-cases, Option-cases, ◌+◌, ◌-◌, ◌*◌, ◌/◌, ◌%◌, ◌^◌, ◌≤◌, ◌<◌, ◌≡◌, ◌≢◌,
  ◌⊎◌, inl, inr, refl, sym, ap, true, false, Bool, not, List, [], ◌∷◌, ◌++◌, Bytes, length,
  length-append, replicate, length-replicate, All, All-append, ltb, leb, ◌==◌, map, if◌then◌else◌,
  arith, append-nil, append_assoc, ◌&&◌, ◌||◌, codes, Option, none, some, ℤ, pos, negsuc,
}
use ghcli.Prelude.{
  Result, ok, failed, fault, stuck, ◌>>=◌, Ends, Ends-bind, Ends-mono, Ends-ne-stuck,
}

-- `struct gcli_cmd_action`, for items of a type. The handler gets the arguments from its own name on; it
-- returns its result, what it makes of the item, and the arguments that it leaves.
pub record Action (I : Type 0) : Type 0 where
  pub name : Bytes
  pub needs_item : Bool
  pub handler : ItemPath → Option I → List Bytes → ℤ × ((I → I) × List Bytes)

-- `struct gcli_cmd_actions`: the fetcher fills the item, and returns its result.
pub record Actions (I : Type 0) : Type 0 where
  pub fetch_item : ItemPath → ℤ × I
  pub defs : List (Action I)

-- What happens: a fetch, a handler (whether its action needs the item, and whether it gets one), and
-- `free_item` with `free`.
pub data Event : Type 0 where
  fetched freed : Event
  handled : Bool → Bool → Event

-- The function returns, or `shift` ends the program.
pub data Ending : Type 0 where
  returned : ℤ → Ending
  exited : Ending

abbrev pub Story : Type 0
Story = Ending × List Event

abbrev pub is_negative : ℤ → Bool
is_negative (pos n) = false
is_negative (negsuc n) = true

abbrev pub has : {I : Type 0} → Option I → Bool
has none = false
has (some i) = true

abbrev pub change : {I : Type 0} → (I → I) → Option I → Option I
change f none = none
change f (some i) = some (f i)

-- `find_action`
unfoldable pub find_action : {I : Type 0} → List (Action I) → Bytes → Option (Action I)
find_action [] action_name = none
find_action (a ∷ defs) action_name =
    let rest = find_action defs action_name in if str_eq a.name action_name then some a else rest

-- An event in front of what follows.
abbrev pub before : Event → Result Story → Result Story
before e r = r >>= λ (ending, events). ok (ending, e ∷ events)

-- Behind the loop: `if (item) { … } return rc;`
abbrev pub leave : {I : Type 0} → ℤ → Option I → Result Story
leave rc none = ok (returned rc, [])
leave rc (some i) = ok (returned rc, freed ∷ [])

module _ {I : Type 0} (actions : Actions I) (path : ItemPath) where
  -- `shift(argc, argv); if (*argc == 0) break;`
  abbrev pub after_handler :
      (Option I → List Bytes → Result Story) → ℤ → Option I → List Bytes → Result Story
  after_handler loop rc item [] = ok (exited, [])
  after_handler loop rc item (arg ∷ []) = leave rc item
  after_handler loop rc item (arg ∷ next ∷ args) = loop item (next ∷ args)

  -- `rc = action->handler(path, item, argc, argv);` and the rest of the round.
  abbrev pub handle :
      (Option I → List Bytes → Result Story) → Action I → Option I → List Bytes → Result Story
  handle loop action item args =
      let (rc, (update, args')) = action.handler path item args in
      let more = after_handler loop rc (change update item) args' in
      before (handled action.needs_item (has item))
        (if is_negative rc then leave rc (change update item) else more)

  -- The fetch, if it is needed and not done yet.
  abbrev pub with_item :
      (Option I → List Bytes → Result Story) → Action I → Option I → List Bytes → Result Story
  with_item loop action (some i) args = handle loop action (some i) args
  with_item loop action none args =
      let (rc, i) = actions.fetch_item path in
      if action.needs_item
      then before fetched
          (if is_negative rc then leave (pos 2) (some i) else handle loop action (some i) args)
      else handle loop action none args

  -- The loop, on fuel: each round takes one argument at least.
  unfoldable pub actions_loop : ℕ → Option I → List Bytes → Result Story
  actions_loop zero item args = stuck
  actions_loop (suc fuel) item [] = fault
  actions_loop (suc fuel) item (action_name ∷ args) =
      elim (find_action actions.defs action_name) as (λ _. Result Story) [
        | none ↦ leave (pos 1) item
        | some action ↦ with_item (actions_loop fuel) action item (action_name ∷ args)
      ]

  -- `gcli_cmd_actions_handle`
  unfoldable pub actions_handle : List Bytes → Result Story
  actions_handle [] = ok (returned (pos 1), [])
  actions_handle (arg ∷ args) = actions_loop (length (arg ∷ args)) none (arg ∷ args)
