-- ===== src/Diff/Trailer/Cut.antt =====
-- src/diffutil.c: where the trailer is cut off.
use ghcli.Diff.Trailer.{strstr, strrstr_loop, strrstr, trailer, cut_trailer}
use ghcli.Diff.Comments.Annotated.{take-append}
use mathlib.Core.Path.{subst}
use ghcli.CString.{starts_with}
use ghcli.Diff.Comments.{take, drop}
use ghcli.Prelude.{
  ok, ◌∙◌, ℕ, zero, suc, Bool-cases, Option-cases, ◌+◌, ◌-◌, ◌<◌, ◌≡◌, ◌⊎◌, inl, inr, refl, sym, ap,
  true, [], ◌∷◌, ◌++◌, Bytes, length, length-append, arith, append_assoc, codes, Option, none, some,
}

-- A text that starts with `needle` at the place found.
abbrev Found : Bytes → Bytes → Option Bytes → Type 0
Found text needle none = Unit {0}
Found text needle (some at) =
    ((front : Bytes) × (text ≡ front ++ at)) × ((rest : Bytes) × (at ≡ needle ++ rest))

starts_with-split :
    (text needle : Bytes)
    → starts_with text needle ≡ true
    → (rest : Bytes) × (text ≡ needle ++ rest)
unfolding starts_with
starts_with-split text [] h = (text, refl)
starts_with-split [] (n ∷ needle) h = absurd cc
starts_with-split (c ∷ text) (n ∷ needle) h =
    let same : c ≡ n = ground arith in
    let (rest, e) = starts_with-split text needle (ground arith) in
    (rest, ap (λ d. d ∷ text) same ∙ ap (λ xs. n ∷ xs) e)

Found-cons :
    (c : ℕ) (text needle : Bytes) (r : Option Bytes)
    → Found text needle r
    → Found (c ∷ text) needle r
Found-cons c text needle none h = tt
Found-cons c text needle (some at) ((front, e), h) = ((c ∷ front, ap (λ xs. c ∷ xs) e), h)

strstr-Found : (text needle : Bytes) → Found text needle (strstr text needle)
unfolding strstr
strstr-Found [] needle = elim (Bool-cases (starts_with [] needle)) [
  | inl h ↦ rw h (([], refl), starts_with-split [] needle h)
  | inr h ↦ rw h tt
]
strstr-Found (c ∷ text) needle = elim (Bool-cases (starts_with (c ∷ text) needle)) [
  | inl h ↦ rw h (([], refl), starts_with-split (c ∷ text) needle h)
  | inr h ↦ rw h (Found-cons c text needle (strstr text needle) (strstr-Found text needle))
]

drop-append : (front text : Bytes) → drop (length front) (front ++ text) ≡ text
drop-append [] text = refl
drop-append (c ∷ front) text = drop-append front text

-- A place where `needle` stands, with no further one in the text behind it.
abbrev IsLast : Bytes → Bytes → Bytes → Type 0
IsLast whole needle last =
    ((front : Bytes) × (whole ≡ front ++ last))
    × ((rest : Bytes) × ((last ≡ needle ++ rest) × (strstr rest needle ≡ none)))

strstr-split :
    (text needle at : Bytes)
    → strstr text needle ≡ some at
    → ((front : Bytes) × (text ≡ front ++ at)) × ((rest : Bytes) × (at ≡ needle ++ rest))
strstr-split text needle at found = subst (Found text needle) found (strstr-Found text needle)

loop_step :
    (fuel : ℕ) (needle hd last tmp rest : Bytes)
    → strstr hd needle ≡ some tmp
    → tmp ≡ needle ++ rest
    → strrstr_loop (suc fuel) needle hd last ≡ strrstr_loop fuel needle rest (needle ++ rest)
unfolding strrstr_loop
loop_step fuel needle hd last tmp rest found starts =
    rw (found, starts, drop-append needle rest, strrstr_loop) refl

strrstr_loop-IsLast :
    (fuel : ℕ) (whole needle front hd : Bytes)
    → 0 < length needle
    → length hd < fuel
    → whole ≡ front ++ (needle ++ hd)
    → (last : Bytes) × ((strrstr_loop fuel needle hd (needle ++ hd) ≡ ok last)
        × IsLast whole needle last)
unfolding strrstr_loop
strrstr_loop-IsLast zero whole needle front hd some_needle lt e = absurd (omega arith)
strrstr_loop-IsLast (suc fuel) whole needle front hd some_needle lt e =
    elim (Option-cases (strstr hd needle)) [
      | inl last ↦ (needle ++ hd, (rw (last, strrstr_loop) refl, ((front, e), (hd, (refl, last)))))
      | inr (tmp, found) ↦
          let ((gap, split), (rest, starts)) = strstr-split hd needle tmp found in
          let again = needle ++ rest in
          let whole_split : whole ≡ (front ++ (needle ++ gap)) ++ again =
            e
            ∙ ap (λ xs. front ++ (needle ++ xs)) (split ∙ ap (λ xs. gap ++ xs) starts)
            ∙ ap (λ xs. front ++ xs) (sym (append_assoc needle gap again))
            ∙ sym (append_assoc front (needle ++ gap) again) in
          let long = ap length split in
          let longer = ap length starts in
          let sum = length-append gap tmp in
          let sum' = length-append needle rest in
          let (last, (ran, is_last)) =
            strrstr_loop-IsLast fuel whole needle (front ++ (needle ++ gap)) rest some_needle
              (omega arith) whole_split in
          (last, (loop_step fuel needle hd (needle ++ hd) tmp rest found starts ∙ ran, is_last))
    ]

-- Nothing found, or the last place.
abbrev Located : Bytes → Bytes → Option Bytes → Type 0
Located whole needle none = strstr whole needle ≡ none
Located whole needle (some last) = IsLast whole needle last

strrstr-some :
    (whole needle first last : Bytes)
    → strstr whole needle ≡ some first
    → strrstr_loop (suc (length whole)) needle whole first ≡ ok last
    → strrstr whole needle ≡ ok (some last)
unfolding strrstr
strrstr-some whole needle first last found ran = rw (found, ran, strrstr) refl

strrstr_cases :
    (whole needle : Bytes)
    → 0 < length needle
    → (found : Option Bytes) × ((strrstr whole needle ≡ ok found) × Located whole needle found)
unfolding strrstr
strrstr_cases whole needle some_needle = elim (Option-cases (strstr whole needle)) [
  | inl missing ↦ (none, (rw (missing, strrstr) refl, missing))
  | inr (first, found) ↦
      let ((front, split), (rest, starts)) = strstr-split whole needle first found in
      let long = ap length split in
      let longer = ap length starts in
      let sum = length-append front first in
      let sum' = length-append needle rest in
      let (last, (ran, is_last)) =
        strrstr_loop-IsLast (length whole) whole needle front rest some_needle (omega arith)
          (split ∙ ap (λ xs. front ++ xs) starts) in
      (
        some last,
        (
          strrstr-some whole needle first last found
              (loop_step (length whole) needle whole first first rest found starts ∙ ran),
          is_last,
        ),
      )
]

cut_front :
    (front more : Bytes) (c : ℕ)
    → take (length (front ++ (c ∷ more)) - length (c ∷ more) + 1) (front ++ (c ∷ more))
      ≡ front ++ (c ∷ [])
cut_front front more c =
    let long = length-append front (c ∷ more) in
    let short = length-append front (c ∷ []) in
    let count : length (front ++ (c ∷ more)) - length (c ∷ more) + 1 ≡ length (front ++ (c ∷ [])) =
      omega arith in
    ap (λ n. take n (front ++ (c ∷ more))) count
    ∙ ap (take (length (front ++ (c ∷ [])))) (sym (append_assoc front (c ∷ []) more))
    ∙ take-append (front ++ (c ∷ [])) more

cut_trailer-some :
    (body last front rest : Bytes)
    → strrstr body trailer ≡ ok (some last)
    → body ≡ front ++ last
    → last ≡ trailer ++ rest
    → cut_trailer body ≡ ok (front ++ codes "\n")
unfolding cut_trailer
cut_trailer-some body last front rest ran split starts =
    rw (ran, cut_trailer, split, starts) (ap ok (cut_front front (codes "--\n" ++ rest) b'\n'))

-- Nothing to cut, or the front up to the last line "--", with its newline.
abbrev pub IsTrimmed : Bytes → Type 0
IsTrimmed body =
    ((strstr body trailer ≡ none) × (cut_trailer body ≡ ok body))
    ⊎ ((front : Bytes) × (rest : Bytes) × ((body ≡ front ++ (trailer ++ rest))
          × ((strstr rest trailer ≡ none) × (cut_trailer body ≡ ok (front ++ codes "\n")))))

result-IsTrimmed :
    (body : Bytes) (found : Option Bytes)
    → strrstr body trailer ≡ ok found
    → Located body trailer found
    → IsTrimmed body
unfolding cut_trailer
result-IsTrimmed body none ran h = inl (h, rw (ran, cut_trailer) refl)
result-IsTrimmed body (some last) ran ((front, split), (rest, (starts, none_left))) =
    let cut = cut_trailer-some body last front rest ran split starts in
    inr (front, rest, (split ∙ ap (λ xs. front ++ xs) starts, (none_left, cut)))

-- For every body the cut ends with a result: without a line "--" between two newlines the body is left
-- as it is; else it is cut behind the newline in front of such a line, and the text behind that line
-- and its newline has no further one.
pub cut_trailer-IsTrimmed : (body : Bytes) → IsTrimmed body
cut_trailer-IsTrimmed body =
    let (found, (ran, h)) = strrstr_cases body trailer (omega arith) in
    result-IsTrimmed body found ran h
