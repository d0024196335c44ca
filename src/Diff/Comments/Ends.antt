-- ===== src/Diff/Comments/Ends.antt =====
-- src/diffutil.c: reading the comments of a hunk ends, whatever the body is.
use ghcli.Diff.Comments.{
  after_newline, take, drop, ends_comment, End, skip_unprefixed, add_size, prefix_length,
  chunk_length, skip_prefixed, copy_prefixed,
}
use ghcli.Prelude.{
  Ends, Ends-mono, ℕ, zero, suc, Bool-cases, Option-cases, ◌+◌, ◌≤◌, ◌<◌, ◌≡◌, inl, inr, false, not,
  [], ◌∷◌, ◌++◌, Bytes, length, ltb, ◌==◌, arith, ◌&&◌, none, some,
}

pub after_newline-shorter :
    (text rest : Bytes) → after_newline text ≡ some rest → length rest < length text
unfolding after_newline
after_newline-shorter [] rest e = cc
after_newline-shorter (c ∷ text) rest e = ground (arith, after_newline-shorter text rest)

-- The scan stopped at a text of at most `n` bytes, or at the end.
abbrev pub IsWithin : ℕ → End → Type 0
IsWithin n (none, offset) = Unit
IsWithin n (some front, offset) = length front ≤ n

pub IsWithin-mono : (m n : ℕ) (end : End) → m ≤ n → IsWithin m end → IsWithin n end
IsWithin-mono m n (none, offset) h e = tt
IsWithin-mono m n (some front, offset) h e = omega arith

skip_unprefixed-Ends :
    (fuel : ℕ) (front : Bytes) (offset : ℕ)
    → length front < fuel
    → Ends (IsWithin (length front)) (skip_unprefixed fuel front offset)
unfolding skip_unprefixed
skip_unprefixed-Ends zero front offset h = absurd (omega arith)
skip_unprefixed-Ends (suc fuel) [] offset h = tt
skip_unprefixed-Ends (suc fuel) (c ∷ text) offset h = elim (Bool-cases (ends_comment c)) [
  | inl ends ↦ rw ends (omega arith)
  | inr goes ↦ rw goes (elim (Option-cases (after_newline (c ∷ text))) [
    | inl last ↦ rw last tt
    | inr (rest, e) ↦
        let shorter = after_newline-shorter (c ∷ text) rest e in
        rw e (
          Ends-mono _ _ _ (λ end. IsWithin-mono (length rest) _ end (omega arith))
            (skip_unprefixed-Ends fuel rest (offset + 1) (omega arith)))
  ])
]

pub skip_unprefixed-shorter :
    (fuel : ℕ) (c : ℕ) (text : Bytes) (offset : ℕ)
    → suc (length text) < fuel
    → ends_comment c ≡ false
    → Ends (IsWithin (length text)) (skip_unprefixed fuel (c ∷ text) offset)
unfolding skip_unprefixed
skip_unprefixed-shorter zero c text offset h goes = absurd (omega arith)
skip_unprefixed-shorter (suc fuel) c text offset h goes =
    rw goes (elim (Option-cases (after_newline (c ∷ text))) [
      | inl last ↦ rw last tt
      | inr (rest, e) ↦
          let shorter = after_newline-shorter (c ∷ text) rest e in
          rw e (
            Ends-mono _ _ _ (λ end. IsWithin-mono (length rest) _ end (omega arith))
              (skip_unprefixed-Ends fuel rest (offset + 1) (omega arith)))
    ])

skip_prefixed-Ends :
    (fuel : ℕ) (front : Bytes) (offset len : ℕ)
    → length front < fuel
    → Ends (λ found. IsWithin (length front) found.0) (skip_prefixed fuel front offset len)
unfolding skip_prefixed
skip_prefixed-Ends zero front offset len h = absurd (omega arith)
skip_prefixed-Ends (suc fuel) [] offset len h = tt
skip_prefixed-Ends (suc fuel) (c ∷ text) offset len h =
    elim (Bool-cases (not (c == b'>') && ends_comment c)) [
      | inl ends ↦ rw ends (omega arith)
      | inr goes ↦ rw goes (elim (Option-cases (after_newline (c ∷ text))) [
        | inl last ↦ rw last tt
        | inr (rest, e) ↦
            let shorter = after_newline-shorter (c ∷ text) rest e in
            rw e (
              Ends-mono _ _ _
                (λ (found : End × ℕ). IsWithin-mono (length rest) _ found.0 (omega arith))
                (skip_prefixed-Ends fuel rest (offset + 1) (add_size len (chunk_length (c ∷ text)))
                  (omega arith)))
      ])
    ]

pub skip_prefixed-shorter :
    (fuel : ℕ) (c : ℕ) (text : Bytes) (offset len : ℕ)
    → suc (length text) < fuel
    → (not (c == b'>') && ends_comment c) ≡ false
    → Ends (λ found. IsWithin (length text) found.0) (skip_prefixed fuel (c ∷ text) offset len)
unfolding skip_prefixed
skip_prefixed-shorter zero c text offset len h goes = absurd (omega arith)
skip_prefixed-shorter (suc fuel) c text offset len h goes =
    rw goes (elim (Option-cases (after_newline (c ∷ text))) [
      | inl last ↦ rw last tt
      | inr (rest, e) ↦
          let shorter = after_newline-shorter (c ∷ text) rest e in
          rw e (
            Ends-mono _ _ _
              (λ (found : End × ℕ). IsWithin-mono (length rest) _ found.0 (omega arith))
              (skip_prefixed-Ends fuel rest (offset + 1) (add_size len (chunk_length (c ∷ text)))
                (omega arith)))
    ])

pub copy_prefixed-Ends :
    (fuel len : ℕ) (front start text : Bytes)
    → length start < fuel
    → Ends (λ _. Unit) (copy_prefixed fuel len front start text)
unfolding copy_prefixed
copy_prefixed-Ends zero len front start text h = absurd (omega arith)
copy_prefixed-Ends (suc fuel) len front start text h =
    let text' = text ++ take (chunk_length start) (drop (prefix_length start) start) in
    elim (Bool-cases (not (ltb (length front) (length start)))) [
      | inl done ↦ rw done tt
      | inr goes ↦ rw goes (elim (Bool-cases (ltb len (length text'))) [
        | inl over ↦ rw over tt
        | inr fits ↦ rw fits (elim (Option-cases (after_newline start)) [
          | inl last ↦ rw last tt
          | inr (rest, e) ↦
              let shorter = after_newline-shorter start rest e in
              rw e (copy_prefixed-Ends fuel len front rest text' (omega arith))
        ])
      ])
    ]
