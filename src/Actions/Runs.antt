-- ===== src/Actions/Runs.antt =====
-- src/cmd/actions.c: in which order things happen.
use ghcli.Actions.{
  Action, Actions, Event, fetched, freed, handled, Ending, returned, exited, Story, is_negative,
  has, change, find_action, before, leave, after_handler, handle, with_item, actions_loop,
  actions_handle,
}
use ghcli.CString.{str_eq}
use ghcli.Requests.{ItemPath}
use ghcli.Prelude.{
  ℕ, zero, suc, Bool-cases, ◌≤◌, ◌≡◌, inl, inr, refl, true, false, Bool, List, [], ◌∷◌, Bytes,
  length, All, if◌then◌else◌, arith, Option, none, some, ℤ, pos,
}
use ghcli.Prelude.{Result, ok, failed, fault, stuck}

-- The stories that may be told, with an item or without one: the item is fetched at most once, handlers get
-- it from then on, an action that needs it is not handled without it, and at the end it is freed, if it was
-- fetched and the program goes on.
pub data Run : Bool → Ending → List Event → Type 0 where
  over : {rc : ℤ} → Run false (returned rc) []
  clean : {rc : ℤ} → Run true (returned rc) (freed ∷ [])
  exit : {b : Bool} → Run b exited []
  fetch : {e : Ending} {events : List Event} → Run true e events → Run false e (fetched ∷ events)
  with_it :
      {e : Ending} {needs : Bool} {events : List Event}
      → Run true e events
      → Run true e (handled needs true ∷ events)
  without :
      {e : Ending} {events : List Event}
      → Run false e events
      → Run false e (handled false false ∷ events)

abbrev pub Told : Bool → Result Story → Type 0
Told b (ok (ending, events)) = Run b ending events
Told b _ = ⊥

Told-before :
    (b b' : Bool) (e : Event) (r : Result Story)
    → ((ending : Ending) (events : List Event) → Run b ending events → Run b' ending (e ∷ events))
    → Told b r
    → Told b' (before e r)
Told-before b b' e (ok (ending, events)) h t = h ending events t
Told-before b b' e failed h t = absurd t
Told-before b b' e fault h t = absurd t
Told-before b b' e stuck h t = absurd t

module _ {I : Type 0} (actions : Actions I) (path : ItemPath) where
  -- The handler makes no arguments up.
  abbrev pub Consumes : Action I → Type 0
  Consumes a =
      (item : Option I) (args : List Bytes) → length (a.handler path item args).1.1 ≤ length args

  abbrev Found : (Action I → Type 0) → Option (Action I) → Type 0
  Found P none = Unit
  Found P (some a) = P a

  find_action-Found :
      (P : Action I → Type 0) (defs : List (Action I)) (name : Bytes)
      → All P defs
      → Found P (find_action defs name)
  unfolding find_action
  find_action-Found P [] name h = tt
  find_action-Found P (a ∷ defs) name (h, hs) = elim (Bool-cases (str_eq a.name name)) [
    | inl same ↦ rw same h
    | inr other ↦ rw other (find_action-Found P defs name hs)
  ]

  leave-Told : (rc : ℤ) (item : Option I) → Told (has item) (leave rc item)
  leave-Told rc none = over
  leave-Told rc (some i) = clean

  has-change : (f : I → I) (item : Option I) → has (change f item) ≡ has item
  has-change f none = refl
  has-change f (some i) = refl

  module _ (loop : Option I → List Bytes → Result Story) (n : ℕ)
      (goes : (item : Option I) (arg : Bytes) (args : List Bytes)
        → length (arg ∷ args) ≤ n
        → Told (has item) (loop item (arg ∷ args))) where
    after_handler-Told :
        (rc : ℤ) (item : Option I) (args : List Bytes)
        → length args ≤ suc n
        → Told (has item) (after_handler actions path loop rc item args)
    after_handler-Told rc item [] h = exit
    after_handler-Told rc item (arg ∷ []) h = leave-Told rc item
    after_handler-Told rc item (arg ∷ next ∷ args) h = goes item next args (omega arith)

    behind_handler-Told :
        (b : Bool) (rc : ℤ) (item : Option I) (args : List Bytes)
        → length args ≤ suc n
        → Told
            (has item)
            (if b then leave rc item else after_handler actions path loop rc item args)
    behind_handler-Told true rc item args h = leave-Told rc item
    behind_handler-Told false rc item args h = after_handler-Told rc item args h

    handle_with-Told :
        (a : Action I) (i : I) (args : List Bytes)
        → Consumes a
        → length args ≤ suc n
        → Told true (handle actions path loop a (some i) args)
    handle_with-Told a i args consumes h =
        let (rc, (update, args')) = a.handler path (some i) args in
        Told-before true true _ _ (λ ending events run. with_it run)
          (behind_handler-Told (is_negative rc) rc (some (update i)) args'
            (omega (arith, consumes (some i) args)))

    handle_without-Told :
        (a : Action I) (args : List Bytes)
        → a.needs_item ≡ false
        → Consumes a
        → length args ≤ suc n
        → Told false (handle actions path loop a none args)
    handle_without-Told a args free consumes h =
        let (rc, (update, args')) = a.handler path none args in
        rw free (
          Told-before false false _ _ (λ ending events run. without run)
            (behind_handler-Told (is_negative rc) rc none args'
              (omega (arith, consumes none args))))

    after_fetch-Told :
        (b : Bool) (a : Action I) (i : I) (args : List Bytes)
        → Consumes a
        → length args ≤ suc n
        → Told true (if b then leave (pos 2) (some i) else handle actions path loop a (some i) args)
    after_fetch-Told true a i args consumes h = clean
    after_fetch-Told false a i args consumes h = handle_with-Told a i args consumes h

    unfetched-Told :
        (b : Bool) (a : Action I) (args : List Bytes)
        → a.needs_item ≡ b
        → Consumes a
        → length args ≤ suc n
        → Told false (
            let (rc, i) = actions.fetch_item path in
            if b
            then before fetched (
                if is_negative rc
                then leave (pos 2) (some i)
                else handle actions path loop a (some i) args)
            else handle actions path loop a none args)
    unfetched-Told true a args needs consumes h =
        let (rc, i) = actions.fetch_item path in
        Told-before true false fetched _ (λ ending events run. fetch run)
          (after_fetch-Told (is_negative rc) a i args consumes h)
    unfetched-Told false a args free consumes h = handle_without-Told a args free consumes h

    Found-Told :
        (r : Option (Action I)) (item : Option I) (args : List Bytes)
        → Found Consumes r
        → length args ≤ suc n
        → Told (has item) (elim r as (λ _. Result Story) [
          | none ↦ leave (pos 1) item
          | some action ↦ with_item actions path loop action item args
        ])
    Found-Told none item args consumes h = leave-Told (pos 1) item
    Found-Told (some a) (some i) args consumes h = handle_with-Told a i args consumes h
    Found-Told (some a) none args consumes h = unfetched-Told a.needs_item a args refl consumes h

  actions_loop-Told :
      (fuel : ℕ) (item : Option I) (arg : Bytes) (args : List Bytes)
      → All Consumes actions.defs
      → length (arg ∷ args) ≤ fuel
      → Told (has item) (actions_loop actions path fuel item (arg ∷ args))
  unfolding actions_loop
  actions_loop-Told zero item arg args consume h = absurd (omega arith)
  actions_loop-Told (suc fuel) item arg args consume h =
      Found-Told (actions_loop actions path fuel) fuel
        (λ item' arg' args' le. actions_loop-Told fuel item' arg' args' consume le)
        (find_action actions.defs arg) item (arg ∷ args)
        (find_action-Found Consumes actions.defs arg consume) h

  -- If no handler makes arguments up, gcli_cmd_actions_handle comes to an end, with a round for each
  -- argument: the item is fetched at most once, before the first action that needs it; from then on each
  -- handler gets it, and none that needs it goes without; and when the function returns, by an error too,
  -- an item that was fetched has been freed, once and last.
  pub actions_handle-Told :
      (args : List Bytes)
      → All Consumes actions.defs
      → Told false (actions_handle actions path args)
  unfolding actions_handle
  actions_handle-Told [] consume = over
  actions_handle-Told (arg ∷ args) consume =
      actions_loop-Told (length (arg ∷ args)) none arg args consume (omega arith)
