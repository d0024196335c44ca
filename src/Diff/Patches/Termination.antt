-- ===== src/Diff/Patches/Termination.antt =====
-- src/diffutil.c: the parser of patch series returns, whatever the text is.
use ghcli.CString.{starts_with}
use ghcli.Diff.Comments.{drop}
use ghcli.Diff.Headers.{strchr}
use ghcli.Diff.Headers.Progress.{IsBelow}
use ghcli.Diff.Headers.Rules.{Ends-or_failed, Ends-if}
use ghcli.Diff.Patches.Progress.{behind_prelude, fixup_diffs-Ends}
use ghcli.Diff.Lines.{Parser, Token, nextline, is_patch_separator}
use ghcli.Diff.Patches.{
  Patch, PatchSeries, starts_by, ends_prelude, diffs_loop, fixup_diffs, series_prelude_loop,
  patch_series_read_prelude, read_commit_hash_from_separator, note_commit_hash, prelude_loop,
  patch_parse_prelude, parse_patch, patches_loop, parse_patch_series,
}
use ghcli.Diff.Lines.Body.{nextline-Splits}
use ghcli.Prelude.{
  ok, ◌∙◌, ℕ, zero, suc, Bool-cases, ◌≤◌, ◌<◌, ◌≡◌, ◌⊎◌, inl, inr, refl, sym, ap, true, List, [],
  ◌∷◌, Bytes, length, arith, Option, none, some, Ends, Ends-bind, Ends-mono,
}

series_prelude_loop-Ends :
    (fuel : ℕ) (hd : Bytes)
    → length hd < fuel
    → Ends (λ (rest : Bytes). length rest ≤ length hd) (series_prelude_loop fuel hd)
unfolding series_prelude_loop nextline
series_prelude_loop-Ends zero hd lt = absurd (omega arith)
series_prelude_loop-Ends (suc fuel) [] lt = omega arith
series_prelude_loop-Ends (suc fuel) (c ∷ text) lt =
    let (line, (read, (start, (split, shorter)))) = nextline-Splits c text in
    let Q : Bytes → Type 0 = λ rest. length rest ≤ length (c ∷ text) in
    rw (read, series_prelude_loop)
      (Ends-if Q (is_patch_separator line) (ok (c ∷ text))
        (series_prelude_loop fuel (drop 1 line.end)) (omega arith)
        (Ends-mono (λ (rest : Bytes). length rest ≤ length (drop 1 line.end)) Q
          (series_prelude_loop fuel (drop 1 line.end)) (λ rest within. omega (arith, within))
          (series_prelude_loop-Ends fuel (drop 1 line.end) (omega arith))))

-- The prelude of a patch ends at the end of the text, or at a "d".
abbrev Stops : ℕ → Bytes → Type 0
Stops n hd = (length hd ≤ n) × ((hd ≡ []) ⊎ (starts_by b'd' hd ≡ true))

starts_with-head :
    (c : ℕ) (text end : Bytes)
    → ends_prelude (record { start = c ∷ text; end = end }) ≡ true
    → starts_by b'd' (c ∷ text) ≡ true
unfolding starts_with
starts_with-head c text end h = ground arith

ends_prelude-starts :
    (line : Token) (c : ℕ) (text : Bytes)
    → line.start ≡ c ∷ text
    → ends_prelude line ≡ true
    → starts_by b'd' (c ∷ text) ≡ true
ends_prelude-starts line c text start at =
    starts_with-head c text line.end
      (sym (ap (λ s. ends_prelude (record { start = s; end = line.end })) start) ∙ at)

module _ (sn_strndup : Bytes → ℕ → Option Bytes) where
  note_commit_hash-Ends :
      (hash : Option Bytes) (line : Token)
      → Ends (λ _. Unit) (note_commit_hash sn_strndup hash line)
  unfolding note_commit_hash read_commit_hash_from_separator
  note_commit_hash-Ends (some hash) line = tt
  note_commit_hash-Ends none line =
      let read = read_commit_hash_from_separator sn_strndup line in
      Ends-if (λ _. Unit) (is_patch_separator line) read (ok none)
        (Ends-or_failed (λ _. Unit) (strchr line.start b' ') _
          λ first found. Ends-or_failed (λ _. Unit) (strchr (drop 1 first) b' ') _ λ end found'. tt)
        tt

  prelude_loop-Ends :
      (fuel : ℕ) (hash : Option Bytes) (hd : Bytes)
      → length hd < fuel
      → Ends
          (λ (r : Option Bytes × Bytes). Stops (length hd) r.1)
          (prelude_loop sn_strndup fuel hash hd)
  unfolding prelude_loop nextline
  prelude_loop-Ends zero hash hd lt = absurd (omega arith)
  prelude_loop-Ends (suc fuel) hash [] lt = (omega arith, inl refl)
  prelude_loop-Ends (suc fuel) hash (c ∷ text) lt =
      let (line, (read, (start, (split, shorter)))) = nextline-Splits c text in
      let Q : Option Bytes × Bytes → Type 0 = λ r. Stops (length (c ∷ text)) r.1 in
      let rest = drop 1 line.end in
      elim (Bool-cases (ends_prelude line)) [
        | inl at ↦
            rw (read, prelude_loop, at)
              (omega arith, inr (ends_prelude-starts line c text start at))
        | inr goes ↦
            rw (read, prelude_loop, goes)
              (Ends-bind (λ _. Unit) Q (note_commit_hash sn_strndup hash line) _
                (note_commit_hash-Ends hash line)
                λ hash' _.
                  Ends-mono (λ (r : Option Bytes × Bytes). Stops (length rest) r.1) Q
                    (prelude_loop sn_strndup fuel hash' rest)
                    (λ r (within, stop). (omega (arith, within), stop))
                    (prelude_loop-Ends fuel hash' rest (omega arith)))
      ]

  patch_parse_prelude-Ends :
      (parser : Parser)
      → Ends
          (λ (r : (Bytes × Option Bytes) × Parser). Stops (length parser.hd) r.1.hd)
          (patch_parse_prelude sn_strndup parser)
  unfolding patch_parse_prelude
  patch_parse_prelude-Ends parser =
      Ends-bind (λ (r : Option Bytes × Bytes). Stops (length parser.hd) r.1)
        (λ (r : (Bytes × Option Bytes) × Parser). Stops (length parser.hd) r.1.hd)
        (prelude_loop sn_strndup (suc (length parser.hd)) none parser.hd) _
        (prelude_loop-Ends (suc (length parser.hd)) none parser.hd (omega arith))
        (λ (hash, hd) stops. stops)

  -- A patch takes a byte at least, if there is one.
  parse_patch-Ends :
      (parser : Parser)
      → 0 < length parser.hd
      → Ends (IsBelow (length parser.hd)) (parse_patch sn_strndup parser)
  unfolding parse_patch
  parse_patch-Ends parser nonempty =
      let Q : Patch × Parser → Type 0 = IsBelow (length parser.hd) in
      Ends-bind (λ (r : (Bytes × Option Bytes) × Parser). Stops (length parser.hd) r.1.hd) Q
        (patch_parse_prelude sn_strndup parser) _ (patch_parse_prelude-Ends parser)
        λ (prelude, parser') (within, stop).
          Ends-bind (IsBelow (length parser.hd)) Q (diffs_loop (suc (length parser'.hd)) parser') _
            (behind_prelude parser' (length parser.hd) nonempty within stop)
            λ (diffs, end) below.
              Ends-bind (λ _. Unit) Q (fixup_diffs diffs) _ (fixup_diffs-Ends diffs)
                λ fixed _. below

  patches_loop-Ends :
      (fuel : ℕ) (text : Bytes) (offset : ℕ)
      → length text < fuel
      → Ends
          (λ (r : List Patch × Parser). r.1.hd ≡ [])
          (patches_loop sn_strndup fuel (record { hd = text; diff_line_offset = offset }))
  unfolding patches_loop
  patches_loop-Ends zero text offset lt = absurd (omega arith)
  patches_loop-Ends (suc fuel) [] offset lt = refl
  patches_loop-Ends (suc fuel) (c ∷ text) offset lt =
      let Q : List Patch × Parser → Type 0 = λ r. r.1.hd ≡ [] in
      let parser : Parser = record { hd = c ∷ text; diff_line_offset = offset } in
      Ends-bind (IsBelow (length (c ∷ text))) Q (parse_patch sn_strndup parser) _
        (parse_patch-Ends parser (omega arith))
        λ (patch, parser') below.
          Ends-bind Q Q (patches_loop sn_strndup fuel parser') _
            (patches_loop-Ends fuel parser'.hd parser'.diff_line_offset (omega (arith, below)))
            λ (patches, end) done. done

  -- Whatever the text is, no loop of gcli_parse_patch_series runs on without end: with a round for each
  -- byte and one more, none runs out of rounds. So it succeeds, fails, aborts at the assertion (a last
  -- diff without hunks), or accesses memory outside its buffers (a file name or hash that does not end
  -- on its line), of which nothing more is said; where it succeeds, it has read the whole text.
  pub parse_patch_series-Ends :
      (parser : Parser)
      → Ends (λ (r : PatchSeries × Parser). r.1.hd ≡ []) (parse_patch_series sn_strndup parser)
  unfolding parse_patch_series patch_series_read_prelude
  parse_patch_series-Ends parser =
      let Q : PatchSeries × Parser → Type 0 = λ r. r.1.hd ≡ [] in
      Ends-bind (λ (r : Bytes × Parser). Unit) Q (patch_series_read_prelude parser) _
        (Ends-bind (λ (rest : Bytes). length rest ≤ length parser.hd) (λ (r : Bytes × Parser). Unit)
          (series_prelude_loop (suc (length parser.hd)) parser.hd) _
          (series_prelude_loop-Ends (suc (length parser.hd)) parser.hd (omega arith)) (λ _ _. tt))
        λ (prelude, parser') _.
          Ends-bind (λ (r : List Patch × Parser). r.1.hd ≡ []) Q
            (patches_loop sn_strndup (suc (length parser'.hd)) parser') _
            (patches_loop-Ends (suc (length parser'.hd)) parser'.hd parser'.diff_line_offset
              (omega arith))
            λ (patches, end) done. done
