-- ===== src/Diff/Patches/Kept.antt =====
-- src/diffutil.c: `fixup_last_diff_in_patch` leaves a patch without a trailer as it is.
use ghcli.CString.{starts_with}
use ghcli.Diff.Comments.Annotated.{NoNewline, unlines}
use ghcli.Diff.Hunks.{ParsedHunk}
use ghcli.Diff.Hunks.Lines.{IsBodyLine}
use ghcli.Diff.Hunks.RoundTrip.{WrittenHunk, IsWrittenHunk, parsed_all}
use ghcli.Diff.Patches.{ParsedDiff, bodies_of, set_bodies, set_all_bodies, fixup_diffs}
use ghcli.Diff.Patches.Written.{WrittenDiff, IsWrittenDiff, AreHunks, parsed_diff, is_dashes}
use ghcli.Diff.Trailer.{
  strrstr, strstr, trailer, cut_trailer, fixup_hunks, fixup_last_diff_in_patch,
}
use ghcli.Prelude.{
  ok, ◌∙◌, ℕ, ◌≡◌, refl, ap, false, List, [], ◌∷◌, ◌++◌, Bytes, All, map, arith, codes, none,
}

-- A line that is not "--" does not start a trailer.
starts_with-dashes :
    (line rest : Bytes)
    → NoNewline line
    → is_dashes line ≡ false
    → starts_with (line ++ (b'\n' ∷ rest)) (codes "--\n") ≡ false
unfolding starts_with
starts_with-dashes [] rest h other = refl
starts_with-dashes (a ∷ []) rest h other = ground arith
starts_with-dashes (a ∷ b ∷ []) rest h other = ground arith
starts_with-dashes (a ∷ b ∷ c ∷ line) rest (h, (k, (l, m))) other = ground arith

IsKept : Bytes → Type 0
IsKept line = NoNewline line × (is_dashes line ≡ false)

newline-other :
    (lines : List Bytes) → All IsKept lines → starts_with (b'\n' ∷ unlines lines) trailer ≡ false
unfolding starts_with IsKept
newline-other [] h = refl
newline-other (line ∷ lines) (h, more) = starts_with-dashes line (unlines lines) h.0 h.1

strstr-line :
    (line rest : Bytes)
    → NoNewline line
    → starts_with (b'\n' ∷ rest) trailer ≡ false
    → strstr (line ++ (b'\n' ∷ rest)) trailer ≡ strstr rest trailer
unfolding strstr starts_with
strstr-line [] rest h other = rw other refl
strstr-line (c ∷ line) rest (h, more) other =
    let no' : starts_with (c ∷ (line ++ (b'\n' ∷ rest))) trailer ≡ false = ground arith in
    rw no' (strstr-line line rest more other)

strstr-unlines : (lines : List Bytes) → All IsKept lines → strstr (unlines lines) trailer ≡ none
unfolding strstr IsKept starts_with
strstr-unlines [] h = refl
strstr-unlines (line ∷ lines) (h, more) =
    strstr-line line (unlines lines) h.0 (newline-other lines more) ∙ strstr-unlines lines more

cut_trailer-kept : (body : Bytes) → strstr body trailer ≡ none → cut_trailer body ≡ ok body
unfolding cut_trailer strrstr
cut_trailer-kept body h =
    let missing : strrstr body trailer ≡ ok none = rw (h, strrstr) refl in
    rw (missing, cut_trailer) refl

-- Bodies without a trailer, one at least.
abbrev AreKept : List Bytes → Type 0
AreKept [] = ⊥
AreKept (body ∷ bodies) = All (λ b. strstr b trailer ≡ none) (body ∷ bodies)

fixup_hunks-kept : (bodies : List Bytes) → AreKept bodies → fixup_hunks bodies ≡ ok bodies
fixup_hunks-kept [] h = absurd h
fixup_hunks-kept (body ∷ []) h = rw (cut_trailer-kept body h.0) refl
fixup_hunks-kept (body ∷ next ∷ bodies) (h, more) = rw (fixup_hunks-kept (next ∷ bodies) more) refl

fixup_last-kept :
    (diffs : List (List Bytes)) → All AreKept diffs → fixup_last_diff_in_patch diffs ≡ ok diffs
unfolding fixup_last_diff_in_patch
fixup_last-kept [] h = refl
fixup_last-kept (hunks ∷ []) h = rw (fixup_hunks-kept hunks h.0) refl
fixup_last-kept (hunks ∷ next ∷ diffs) (h, more) = rw (fixup_last-kept (next ∷ diffs) more) refl

set_bodies-same :
    (hunks : List ParsedHunk) → set_bodies hunks (map (λ (h : ParsedHunk). h.body) hunks) ≡ hunks
set_bodies-same [] = refl
set_bodies-same (hunk ∷ hunks) = ap (λ hs. hunk ∷ hs) (set_bodies-same hunks)

set_all_bodies-same : (diffs : List ParsedDiff) → set_all_bodies diffs (map bodies_of diffs) ≡ diffs
set_all_bodies-same [] = refl
set_all_bodies-same (diff ∷ diffs) = rw (set_bodies-same diff.hunks, set_all_bodies-same diffs) refl

lines-IsKept :
    (lines : List Bytes)
    → All IsBodyLine lines
    → All (λ line. is_dashes line ≡ false) lines
    → All IsKept lines
unfolding IsKept
lines-IsKept [] h k = tt
lines-IsKept (line ∷ lines) (h, more) (k, rest) = ((h.1, k), lines-IsKept lines more rest)

hunks-kept :
    (hunks : List WrittenHunk) (offset : ℕ)
    → All (λ w. IsWrittenHunk w × All (λ line. is_dashes line ≡ false) w.lines) hunks
    → All
        (λ b. strstr b trailer ≡ none)
        (map (λ (h : ParsedHunk). h.body) (parsed_all hunks offset))
hunks-kept [] offset h = tt
hunks-kept (w ∷ hunks) offset (((fields, lines), plain), more) =
    (strstr-unlines w.lines (lines-IsKept w.lines lines plain), hunks-kept hunks _ more)

AreHunks-kept :
    (hunks : List WrittenHunk)
    → AreHunks hunks
    → AreKept (map (λ (h : ParsedHunk). h.body) (parsed_all hunks 0))
AreHunks-kept [] h = absurd h
AreHunks-kept (w ∷ hunks) h = hunks-kept (w ∷ hunks) 0 h

diff-kept : (w : WrittenDiff) → IsWrittenDiff w → AreKept (bodies_of (parsed_diff w))
diff-kept w h = AreHunks-kept w.hunks h.written

diffs-kept :
    (diffs : List WrittenDiff)
    → All IsWrittenDiff diffs
    → All AreKept (map bodies_of (map parsed_diff diffs))
diffs-kept [] h = tt
diffs-kept (w ∷ diffs) (h, more) = (diff-kept w h, diffs-kept diffs more)

pub fixup_diffs-kept :
    (diffs : List WrittenDiff)
    → All IsWrittenDiff diffs
    → fixup_diffs (map parsed_diff diffs) ≡ ok (map parsed_diff diffs)
unfolding fixup_diffs
fixup_diffs-kept diffs h =
    rw
      (
        fixup_last-kept (map bodies_of (map parsed_diff diffs)) (diffs-kept diffs h),
        set_all_bodies-same (map parsed_diff diffs),
      )
      refl
