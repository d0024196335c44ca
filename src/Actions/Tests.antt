-- ===== src/Actions/Tests.antt =====
-- src/cmd/actions.c: runs and examples.
use ghcli.Actions.{
  Actions, fetched, freed, handled, returned, exited, find_action, actions_loop, actions_handle,
}
use ghcli.Actions.Runs.{Told, actions_handle-Told}
use ghcli.CString.{str_eq}
use ghcli.Requests.{by_id}
use ghcli.Prelude.{ℕ, suc, ◌≡◌, refl, true, false, [], ◌∷◌, arith, codes, pos}
use ghcli.Prelude.{ok}

-- "close" needs no item, "show" does; "greedy" takes all arguments.
abbrev actions : Actions ℕ
actions = record {
  fetch_item = λ path. (pos 0, 5);
  defs =
      record {
        name = codes "close";
        needs_item = false;
        handler = λ path item args. (pos 0, (λ n. n, args));
      }
      ∷ (record {
        name = codes "show";
        needs_item = true;
        handler = λ path item args. (pos 0, (λ n. suc n, args));
      }
          ∷ (record {
            name = codes "greedy";
            needs_item = false;
            handler = λ path item args. (pos 0, (λ n. n, []));
          }
              ∷ []));
}

actions_handle-Told_example :
    Told false
      (actions_handle actions (by_id 3) (codes "close" ∷ (codes "show" ∷ (codes "show" ∷ []))))
actions_handle-Told_example =
    actions_handle-Told actions (by_id 3) (codes "close" ∷ (codes "show" ∷ (codes "show" ∷ [])))
      (λ item args. omega arith, (λ item args. omega arith, (λ item args. omega arith, tt)))

actions_handle_once :
    actions_handle actions (by_id 3) (codes "close" ∷ (codes "show" ∷ (codes "show" ∷ [])))
    ≡ ok (
      returned (pos 0),
      handled false false ∷ (fetched ∷ (handled true true ∷ (handled true true ∷ (freed ∷ [])))),
    )
unfolding actions_handle actions_loop find_action str_eq
actions_handle_once = refl

-- An action that leaves no argument for `shift`: the program ends.
actions_handle_greedy :
    actions_handle actions (by_id 3) (codes "greedy" ∷ []) ≡ ok (exited, handled false false ∷ [])
unfolding actions_handle actions_loop find_action str_eq
actions_handle_greedy = refl
