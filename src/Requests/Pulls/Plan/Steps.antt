-- ===== src/Requests/Pulls/Plan/Steps.antt =====
-- src/github/pulls.c: requests that stop behind the first that fails.
use ghcli.Requests.{Request}
use ghcli.Requests.Pulls.{Created, Sent, send_if}
use ghcli.Prelude.{
  ◌∙◌, Bool-cases, ◌≡◌, inl, inr, refl, sym, ap, true, false, Bool, List, [], ◌∷◌, ◌++◌, Bytes,
  append-nil, append_assoc,
}
use ghcli.Prelude.{ok, ◌>>=◌}
use ghcli.Requests.Pulls.Plan.{send_all, if_wanted}

-- What was sent, and more requests behind it.
abbrev pub continue_with : (Request → Bool) → Sent → List Request → Sent
continue_with send (true, sent) rs = let rest = send_all send rs in (rest.0, sent ++ rest.1)
continue_with send (false, sent) rs = (false, sent)

pub continue_with-none : (send : Request → Bool) (st : Sent) → continue_with send st [] ≡ st
continue_with-none send (true, sent) = ap (λ (rs : List Request). (true, rs)) (append-nil sent)
continue_with-none send (false, sent) = refl

continue_with-append :
    (send : Request → Bool) (st : Sent) (rs rs' : List Request)
    → continue_with send (continue_with send st rs) rs' ≡ continue_with send st (rs ++ rs')
continue_with-append send (false, sent) rs rs' = refl
continue_with-append send (true, sent) [] rs' =
    ap (λ (t : List Request). ((send_all send rs').0, t ++ (send_all send rs').1)) (append-nil sent)
continue_with-append send (true, sent) (r ∷ rs) rs' = elim (Bool-cases (send r)) [
  | inl good ↦
      rw
        (
          good,
          sym (append_assoc sent (r ∷ []) (send_all send rs).1),
          sym (append_assoc sent (r ∷ []) (send_all send (rs ++ rs')).1),
        )
        (continue_with-append send (true, sent ++ (r ∷ [])) rs rs')
  | inr bad ↦ rw bad refl
]

module _ (base : Bytes) (send : Request → Bool) (parse_pull : Request → Created) where
  send_if-continue_with :
      (wanted : Bool) (r : Request) (st : Sent)
      → send_if base send parse_pull wanted (ok r) st
        ≡ ok (continue_with send st (if_wanted wanted r))
  send_if-continue_with wanted r (false, sent) = refl
  send_if-continue_with false r (true, sent) =
      ap (λ (rs : List Request). ok (true, rs)) (sym (append-nil sent))
  send_if-continue_with true r (true, sent) = elim (Bool-cases (send r)) [
    | inl good ↦ rw good refl
    | inr bad ↦ rw bad refl
  ]

  -- Three steps one after the other.
  pub steps-continue_with :
      (a b c : Bool) (r s t : Request) (st : Sent)
      → (send_if base send parse_pull a (ok r) st >>= λ st'.
          send_if base send parse_pull b (ok s) st' >>= λ st''.
          send_if base send parse_pull c (ok t) st'')
        ≡ ok (continue_with send st (if_wanted a r ++ (if_wanted b s ++ if_wanted c t)))
  steps-continue_with a b c r s t st =
      rw
        (
          send_if-continue_with a r st,
          send_if-continue_with b s (continue_with send st (if_wanted a r)),
        )
        (send_if-continue_with c t
            (continue_with send (continue_with send st (if_wanted a r)) (if_wanted b s))
          ∙ ap ok (
              continue_with-append send (continue_with send st (if_wanted a r)) (if_wanted b s)
                (if_wanted c t)
              ∙ continue_with-append send st (if_wanted a r) (if_wanted b s ++ if_wanted c t)))
