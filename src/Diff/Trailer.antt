-- ===== src/Diff/Trailer.antt =====
-- src/diffutil.c: `fixup_last_diff_in_patch`, which cuts the trailer of a patch off its last hunk.
pub mod Cut
mod Tests
use ghcli.CString.{starts_with}
use ghcli.Diff.Comments.{take, drop}
use ghcli.Prelude.{
  Result, ok, failed, fault, stuck, ◌>>=◌, ◌∙◌, ℕ, zero, suc, Bool-cases, Option-cases, ◌+◌, ◌-◌,
  ◌*◌, ◌/◌, ◌%◌, ◌^◌, ◌≤◌, ◌<◌, ◌≡◌, ◌≢◌, ◌⊎◌, inl, inr, refl, sym, ap, true, false, Bool, not,
  List, [], ◌∷◌, ◌++◌, Bytes, length, length-append, replicate, length-replicate, All, All-append,
  ltb, leb, ◌==◌, map, if◌then◌else◌, arith, append-nil, append_assoc, ◌&&◌, ◌||◌, codes, Option,
  none, some, ℤ, pos, negsuc,
}

-- `strstr`: the text from the first place on where it starts with `needle`.
unfoldable pub strstr : Bytes → Bytes → Option Bytes
strstr [] needle = if starts_with [] needle then some [] else none
strstr (c ∷ text) needle =
    let more = strstr text needle in if starts_with (c ∷ text) needle then some (c ∷ text) else more

-- The loop of `gcli_strrstr`, on fuel: `last` is `hd - needle_len`, where the last match was.
unfoldable pub strrstr_loop : ℕ → Bytes → Bytes → Bytes → Result Bytes
strrstr_loop zero needle hd last = stuck
strrstr_loop (suc fuel) needle hd last = elim (strstr hd needle) as (λ _. Result Bytes) [
  | none ↦ ok last
  | some tmp ↦ strrstr_loop fuel needle (drop (length needle) tmp) tmp
]

-- `gcli_strrstr`
unfoldable pub strrstr : Bytes → Bytes → Result (Option Bytes)
strrstr haystack needle = elim (strstr haystack needle) as (λ _. Result (Option Bytes)) [
  | none ↦ ok none
  | some first ↦
      strrstr_loop (suc (length haystack)) needle haystack first >>= λ last. ok (some last)
]

abbrev pub trailer : Bytes
trailer = codes "\n--\n"

-- The body of the last hunk, cut behind the newline in front of the "--".
unfoldable pub cut_trailer : Bytes → Result Bytes
cut_trailer body = strrstr body trailer >>= λ last. elim last as (λ _. Result Bytes) [
  | none ↦ ok body
  | some at ↦ ok (take (length body - length at + 1) body)
]

-- `fixup_last_diff_in_patch`, on the bodies of the hunks of each diff. The assertion fails if the
-- last diff has no hunk.
abbrev pub fixup_hunks : List Bytes → Result (List Bytes)
fixup_hunks [] = fault
fixup_hunks (body ∷ []) = cut_trailer body >>= λ cut. ok (cut ∷ [])
fixup_hunks (body ∷ next ∷ bodies) = fixup_hunks (next ∷ bodies) >>= λ rest. ok (body ∷ rest)

unfoldable pub fixup_last_diff_in_patch : List (List Bytes) → Result (List (List Bytes))
fixup_last_diff_in_patch [] = ok []
fixup_last_diff_in_patch (hunks ∷ []) = fixup_hunks hunks >>= λ cut. ok (cut ∷ [])
fixup_last_diff_in_patch (hunks ∷ next ∷ diffs) =
    fixup_last_diff_in_patch (next ∷ diffs) >>= λ rest. ok (hunks ∷ rest)
