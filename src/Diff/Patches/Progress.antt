-- ===== src/Diff/Patches/Progress.antt =====
-- src/diffutil.c: the loop over the diffs of a patch comes to a result, and moves forward.
use ghcli.Diff.Headers.{
  parse_diff_header, try_parse_new_file_mode, parse_diff_index_line, parse_hunk_a_or_r_file,
}
use ghcli.Diff.Headers.Progress.{
  IsBelow, IsWithin, parse_diff_header-Ends, try_parse_new_file_mode-Ends,
  parse_diff_index_line-Ends, parse_hunk_a_or_r_file-Ends,
}
use ghcli.Diff.Hunks.{parse_diff_hunks}
use ghcli.Diff.Hunks.Termination.{parse_diff_hunks-Ends}
use ghcli.Diff.Lines.{Parser}
use ghcli.Diff.Patches.{ParsedDiff, parse_diff, starts_by, diffs_loop, bodies_of, fixup_diffs}
use ghcli.Diff.Trailer.{cut_trailer, fixup_hunks, fixup_last_diff_in_patch}
use ghcli.Diff.Trailer.Cut.{cut_trailer-IsTrimmed}
use ghcli.Prelude.{
  ℕ, zero, suc, Bool-cases, ◌≤◌, ◌<◌, ◌≡◌, ◌⊎◌, inl, inr, ap, true, List, [], ◌∷◌, Bytes, length,
  map, arith, Ends, Ends-bind, Ends-mono,
}

parse_diff-Ends : (parser : Parser) → Ends (IsBelow (length parser.hd)) (parse_diff parser)
unfolding parse_diff
parse_diff-Ends parser =
    let Q : ParsedDiff × Parser → Type 0 = IsBelow (length parser.hd) in
    Ends-bind (IsBelow (length parser.hd)) Q (parse_diff_header parser) _
      (parse_diff_header-Ends parser)
      λ (names, p1) h1.
        Ends-bind (IsWithin (length p1.hd)) Q (try_parse_new_file_mode p1) _
          (try_parse_new_file_mode-Ends p1)
          λ (mode, p2) h2.
            Ends-bind (IsWithin (length p2.hd)) Q (parse_diff_index_line p2) _
              (parse_diff_index_line-Ends p2)
              λ (index, p3) h3.
                Ends-bind (IsWithin (length p3.hd)) Q (parse_hunk_a_or_r_file b'a' p3) _
                  (parse_hunk_a_or_r_file-Ends b'a' p3)
                  λ (r_file, p4) h4.
                    Ends-bind (IsWithin (length p4.hd)) Q (parse_hunk_a_or_r_file b'b' p4) _
                      (parse_hunk_a_or_r_file-Ends b'b' p4)
                      λ (a_file, p5) h5.
                        Ends-bind (IsWithin (length p5.hd)) Q (parse_diff_hunks p5) _
                          (parse_diff_hunks-Ends p5)
                          λ (hunks, p6) h6. omega (arith, h1, h2, h3, h4, h5, h6)

diffs_loop-Ends :
    (fuel : ℕ) (parser : Parser)
    → length parser.hd < fuel
    → Ends (IsWithin (length parser.hd)) (diffs_loop fuel parser)
unfolding diffs_loop
diffs_loop-Ends zero parser lt = absurd (omega arith)
diffs_loop-Ends (suc fuel) parser lt = elim (Bool-cases (starts_by b'd' parser.hd)) [
  | inr other ↦ rw other (omega arith)
  | inl at ↦
      let Q : List ParsedDiff × Parser → Type 0 = IsWithin (length parser.hd) in
      rw at (
        Ends-bind (IsBelow (length parser.hd)) Q (parse_diff parser) _ (parse_diff-Ends parser)
          λ (diff, parser') below.
            Ends-bind (IsWithin (length parser'.hd)) Q (diffs_loop fuel parser') _
              (diffs_loop-Ends fuel parser' (omega (arith, below)))
              λ (diffs, end) within. omega (arith, within, below))
]

-- At a "d" the loop takes a byte at least.
diffs_loop-IsBelow :
    (fuel : ℕ) (parser : Parser)
    → length parser.hd < fuel
    → starts_by b'd' parser.hd ≡ true
    → Ends (IsBelow (length parser.hd)) (diffs_loop fuel parser)
unfolding diffs_loop
diffs_loop-IsBelow zero parser lt at = absurd (omega arith)
diffs_loop-IsBelow (suc fuel) parser lt at =
    let Q : List ParsedDiff × Parser → Type 0 = IsBelow (length parser.hd) in
    rw at (
      Ends-bind (IsBelow (length parser.hd)) Q (parse_diff parser) _ (parse_diff-Ends parser)
        λ (diff, parser') below.
          Ends-bind (IsWithin (length parser'.hd)) Q (diffs_loop fuel parser') _
            (diffs_loop-Ends fuel parser' (omega (arith, below)))
            λ (diffs, end) within. omega (arith, within, below))

-- At the end of the text or at a "d", with a byte behind.
pub behind_prelude :
    (parser : Parser) (n : ℕ)
    → 0 < n
    → length parser.hd ≤ n
    → (parser.hd ≡ []) ⊎ (starts_by b'd' parser.hd ≡ true)
    → Ends (IsBelow n) (diffs_loop (suc (length parser.hd)) parser)
behind_prelude parser n nonempty within (inl done) =
    Ends-mono (IsWithin (length parser.hd)) (IsBelow n) (diffs_loop (suc (length parser.hd)) parser)
      (λ r less. let none_left : length parser.hd ≡ 0 = ap length done in omega (arith, less))
      (diffs_loop-Ends (suc (length parser.hd)) parser (omega arith))
behind_prelude parser n nonempty within (inr at) =
    Ends-mono (IsBelow (length parser.hd)) (IsBelow n) (diffs_loop (suc (length parser.hd)) parser)
      (λ r less. omega (arith, less))
      (diffs_loop-IsBelow (suc (length parser.hd)) parser (omega arith) at)

cut_trailer-Ends : (body : Bytes) → Ends (λ _. Unit) (cut_trailer body)
cut_trailer-Ends body = elim (cut_trailer-IsTrimmed body) [
  | inl (whole, e) ↦ rw e tt
  | inr (front, rest, (split, (last, e))) ↦ rw e tt
]

fixup_hunks-Ends : (bodies : List Bytes) → Ends (λ _. Unit) (fixup_hunks bodies)
fixup_hunks-Ends [] = tt
fixup_hunks-Ends (body ∷ []) =
    Ends-bind (λ _. Unit) (λ _. Unit) (cut_trailer body) _ (cut_trailer-Ends body) (λ _ _. tt)
fixup_hunks-Ends (body ∷ next ∷ bodies) =
    Ends-bind (λ _. Unit) (λ _. Unit) (fixup_hunks (next ∷ bodies)) _
      (fixup_hunks-Ends (next ∷ bodies)) (λ _ _. tt)

fixup_last-Ends : (diffs : List (List Bytes)) → Ends (λ _. Unit) (fixup_last_diff_in_patch diffs)
unfolding fixup_last_diff_in_patch
fixup_last-Ends [] = tt
fixup_last-Ends (hunks ∷ []) =
    Ends-bind (λ _. Unit) (λ _. Unit) (fixup_hunks hunks) _ (fixup_hunks-Ends hunks) (λ _ _. tt)
fixup_last-Ends (hunks ∷ next ∷ diffs) =
    Ends-bind (λ _. Unit) (λ _. Unit) (fixup_last_diff_in_patch (next ∷ diffs)) _
      (fixup_last-Ends (next ∷ diffs)) (λ _ _. tt)

pub fixup_diffs-Ends : (diffs : List ParsedDiff) → Ends (λ _. Unit) (fixup_diffs diffs)
unfolding fixup_diffs
fixup_diffs-Ends diffs =
    Ends-bind (λ _. Unit) (λ _. Unit) (fixup_last_diff_in_patch (map bodies_of diffs)) _
      (fixup_last-Ends (map bodies_of diffs)) (λ _ _. tt)
