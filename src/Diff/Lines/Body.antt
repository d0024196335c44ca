-- ===== src/Diff/Lines/Body.antt =====
-- src/diffutil.c: `read_hunk_body` splits the text in front of the next header.
use ghcli.Diff.Comments.{between, drop}
use ghcli.Diff.Comments.Annotated.{between-append}
use ghcli.Diff.Lines.{
  Parser, Token, find_newline, last_byte, nextline, ends_body, counts, body_loop, read_hunk_body,
}
use ghcli.Prelude.{
  false, Result, ok, ◌>>=◌, ◌∙◌, ℕ, zero, suc, Bool-cases, Option-cases, ◌+◌, ◌<◌, ◌≡◌, ◌⊎◌, inl,
  inr, refl, sym, ap, true, [], ◌∷◌, ◌++◌, Bytes, length, ◌==◌, if◌then◌else◌, arith, append-nil,
  append_assoc, Option, none, some,
}
use mathlib.Core.Path.{subst}

-- A text that ends in another, shorter one.
abbrev pub Splits : Bytes → Bytes → Type 0
Splits text rest = ((front : Bytes) × (text ≡ front ++ rest)) × (length rest < length text)

abbrev HasSplit : Bytes → Option Bytes → Type 0
HasSplit text none = Unit {0}
HasSplit text (some end) = Splits text (drop 1 end)

HasSplit-cons :
    (c : ℕ) (text : Bytes) (end : Option Bytes) → HasSplit text end → HasSplit (c ∷ text) end
HasSplit-cons c text none h = tt
HasSplit-cons c text (some end) ((front, e), lt) = ((c ∷ front, ap (λ xs. c ∷ xs) e), omega arith)

find_newline-HasSplit : (text : Bytes) → HasSplit text (find_newline text)
unfolding find_newline
find_newline-HasSplit [] = tt
find_newline-HasSplit (c ∷ text) = elim (Bool-cases (c == b'\n')) [
  | inl newline ↦ rw newline ((c ∷ [], refl), omega arith)
  | inr other ↦ rw other (HasSplit-cons c text (find_newline text) (find_newline-HasSplit text))
]

drop-last_byte : (c : ℕ) (text : Bytes) → drop 1 (last_byte (c ∷ text)) ≡ []
unfolding last_byte
drop-last_byte c [] = refl
drop-last_byte c (d ∷ text) = drop-last_byte d text

-- A line is read, and what stands behind it is shorter.
pub nextline-Splits :
    (c : ℕ) (text : Bytes)
    → (line : Token) × ((nextline (c ∷ text) ≡ some line)
        × ((line.start ≡ c ∷ text) × Splits (c ∷ text) (drop 1 line.end)))
unfolding nextline
nextline-Splits c text =
    let split = find_newline-HasSplit (c ∷ text) in
    elim (Option-cases (find_newline (c ∷ text))) [
      | inl last ↦ (
        record { start = c ∷ text; end = last_byte (c ∷ text) },
        (
          rw (last, nextline) refl,
          (refl, rw (drop-last_byte c text) ((c ∷ text, sym (append-nil (c ∷ text))), omega arith)),
        ),
      )
      | inr (end, e) ↦ (
        record { start = c ∷ text; end = end },
        (rw (e, nextline) refl, (refl, subst (HasSplit (c ∷ text)) e split)),
      )
    ]

-- Where a body ends: at the end of the text, or at a line that starts something else.
abbrev pub IsBoundary : Bytes → Type 0
IsBoundary text =
    (text ≡ []) ⊎ ((line : Token) × ((nextline text ≡ some line) × (ends_body line ≡ true)))

-- Lines from one text down to another, none of which ends a body, with how many of them count.
pub data BodyLines : ℕ → Bytes → Bytes → Type 0 where
  no_more : {text : Bytes} → BodyLines 0 text text
  further :
      {n : ℕ} {text rest : Bytes} (line : Token)
      → nextline text ≡ some line
      → ends_body line ≡ false
      → BodyLines n (drop 1 line.end) rest
      → BodyLines (if counts line then suc n else n) text rest

-- The loop comes to a parser at a boundary, over lines of the body.
abbrev pub Passes : Parser → Parser → Type 0
Passes parser parser' =
    (n : ℕ) × (BodyLines n parser.hd parser'.hd
      × (parser'.diff_line_offset ≡ parser.diff_line_offset + n))

pass :
    (line : Token) (text : Bytes) (offset : ℕ) (parser' : Parser)
    → nextline text ≡ some line
    → ends_body line ≡ false
    → Passes
        (record {
          hd = drop 1 line.end;
          diff_line_offset = if counts line then offset + 1 else offset;
        })
        parser'
    → Passes (record { hd = text; diff_line_offset = offset }) parser'
pass line text offset parser' read goes (n, (lines, count)) =
    (if counts line then suc n else n, (further line read goes lines, ground arith))

abbrev Stops : ℕ → Parser → Type 0
Stops fuel parser =
    (parser' : Parser) × ((body_loop fuel parser ≡ ok parser')
      × (((front : Bytes) × (parser.hd ≡ front ++ parser'.hd))
          × (IsBoundary parser'.hd × Passes parser parser')))

abbrev at : Bytes → ℕ → Parser
at text offset = record { hd = text; diff_line_offset = offset }

body_loop-Stops :
    (fuel : ℕ) (text : Bytes) (offset : ℕ) → length text < fuel → Stops fuel (at text offset)
unfolding body_loop
body_loop-Stops zero text offset lt = absurd (omega arith)
body_loop-Stops (suc fuel) [] offset lt =
    (at [] offset, (refl, (([], refl), (inl refl, (0, (no_more, omega arith))))))
body_loop-Stops (suc fuel) (c ∷ text) offset lt =
    let (line, (read, (start, ((front, split), shorter)))) = nextline-Splits c text in
    elim (Bool-cases (ends_body line)) [
      | inl ends ↦ (
        at (c ∷ text) offset,
        (
          rw (read, ends, body_loop) refl,
          (([], refl), (inr (line, (read, ends)), (0, (no_more, omega arith)))),
        ),
      )
      | inr goes ↦
          let next = if counts line then offset + 1 else offset in
          let (parser', (ran, ((front', split'), (bound, passed)))) =
            body_loop-Stops fuel (drop 1 line.end) next (omega arith) in
          (
            parser',
            (
              rw (read, goes, body_loop) ran,
              (
                (
                  front ++ front',
                  split
                      ∙ ap (λ xs. front ++ xs) split'
                      ∙ sym (append_assoc front front' parser'.hd),
                ),
                (bound, pass line (c ∷ text) offset parser' (read ∙ refl) goes passed),
              ),
            ),
          )
    ]

-- Whatever the text, read_hunk_body succeeds: it splits it into the body, byte by byte as it stands,
-- and a rest that is empty or starts with a line that ends a body ("diff", "@@" or the separator of
-- patches). The body consists of lines none of which is such a line, and the offset in the diff has
-- grown by the number of those that start with a space, "+", "-" or a backslash.
pub read_hunk_body-split :
    (parser : Parser)
    → (body : Bytes) × (parser' : Parser) × ((read_hunk_body parser
          ≡ ok ((body, parser.diff_line_offset), parser'))
        × ((parser.hd ≡ body ++ parser'.hd) × (IsBoundary parser'.hd × Passes parser parser')))
unfolding read_hunk_body
read_hunk_body-split parser =
    let (parser', (ran, ((front, split), bound))) =
      body_loop-Stops (suc (length parser.hd)) parser.hd parser.diff_line_offset (omega arith) in
    let same : between parser.hd parser'.hd ≡ front =
      ap (λ text. between text parser'.hd) split ∙ between-append front parser'.hd in
    (
      front,
      parser',
      (
        ap
              (λ (r : Result Parser).
                r >>= λ p. ok ((between parser.hd p.hd, parser.diff_line_offset), p))
              ran
            ∙ ap (λ body. ok ((body, parser.diff_line_offset), parser')) same,
        (split, bound),
      ),
    )
