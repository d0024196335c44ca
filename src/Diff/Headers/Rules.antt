-- ===== src/Diff/Headers/Rules.antt =====
-- src/diffutil.c: rules for the calls that the readers of lines are made of.
use ghcli.Diff.Comments.{drop, between}
use ghcli.Diff.Lines.{Parser, Token, nextline, expect_prefix, is_shorter}
use ghcli.Diff.Lines.Body.{nextline-Splits}
use ghcli.CString.{starts_with}
use ghcli.Diff.Ranges.Fields.{or_empty}
use ghcli.Diff.Headers.{is_behind, strchr, or_failed, guard, copy_between, behind_newline}
use ghcli.Prelude.{
  Result, ◌>>=◌, ◌∙◌, ℕ, zero, suc, Bool-cases, ◌≤◌, ◌<◌, ◌≡◌, inl, inr, refl, sym, ap, true, false,
  Bool, [], ◌∷◌, Bytes, length, ◌==◌, if◌then◌else◌, arith, Option, none, some, Ends,
}

-- The rules for what the chains of calls are made of.
module _ {ℓ} {A : Type ℓ} (Q : A → Type 0) where
  pub Ends-or_failed {κ} :
      {B : Type κ} (o : Option B) (next : B → Result A)
      → ((b : B) → o ≡ some b → Ends Q (next b))
      → Ends Q (or_failed o >>= next)
  Ends-or_failed none next h = tt
  Ends-or_failed (some b) next h = h b refl

  pub Ends-if : (b : Bool) (r s : Result A) → Ends Q r → Ends Q s → Ends Q (if b then r else s)
  Ends-if true r s h k = h
  Ends-if false r s h k = k

  pub Ends-guard :
      (b : Bool) (next : Unit {0} → Result A) → Ends Q (next tt) → Ends Q (guard b >>= next)
  Ends-guard true next h = h
  Ends-guard false next h = tt

  pub Ends-copy :
      (start end : Bytes) (next : Bytes → Result A)
      → ((b : Bytes) → Ends Q (next b))
      → Ends Q (copy_between start end >>= next)
  Ends-copy start end next h = elim (Bool-cases (is_behind start end)) [
    | inl behind ↦ rw behind tt
    | inr fine ↦ rw fine (h (between start end))
  ]

  pub Ends-newline :
      (parser : Parser) (end : Bytes) (next : Parser → Result A)
      → ((text : Bytes) → length text < length end → Ends Q (next (record parser { hd = text })))
      → Ends Q (behind_newline parser end >>= next)
  Ends-newline parser [] next h = tt
  Ends-newline parser (c ∷ text) next h = elim (Bool-cases (c == b'\n')) [
    | inl yes' ↦ rw yes' (h text (omega arith))
    | inr no' ↦ rw no' tt
  ]

pub strchr-le :
    (text : Bytes) (c : ℕ) (at : Bytes)
    → strchr text c ≡ some at
    → (length at ≤ length text) × (0 < length at)
unfolding strchr
strchr-le [] c at h = cc
strchr-le (d ∷ text) c at h = elim (Bool-cases (d == c)) [
  | inl e ↦
      let same : some (d ∷ text) ≡ some at = rw e at h in
      let long : length (d ∷ text) ≡ length at = ap (λ o. length (or_empty o)) same in
      (omega arith, omega arith)
  | inr e ↦
      let more : strchr text c ≡ some at = rw e at h in
      let (le, lt) = strchr-le text c at more in (omega arith, lt)
]

drop_one-lt : (text : Bytes) (n : ℕ) → length (drop 1 text) < n → length text ≤ n
drop_one-lt [] n h = omega arith
drop_one-lt (c ∷ text) n h = omega arith

abbrev end_or : Option Token → Bytes
end_or none = []
end_or (some line) = line.end

-- Behind a line there is less.
pub nextline-lt :
    (text : Bytes) (line : Token)
    → nextline text ≡ some line
    → (length (drop 1 line.end) < length text) × (length line.end ≤ length text)
unfolding nextline
nextline-lt [] line h = cc
nextline-lt (c ∷ text) line h =
    let (line', (read, (start, (split, shorter)))) = nextline-Splits c text in
    let same : line'.end ≡ line.end = ap end_or (sym read ∙ h) in
    let lt : length (drop 1 line.end) < length (c ∷ text) =
      rw (sym (ap (λ end. length (drop 1 end)) same)) shorter in
    (lt, drop_one-lt line.end (length (c ∷ text)) lt)

pub clamped-le :
    (space end : Bytes) (n : ℕ)
    → length space ≤ n
    → length end ≤ n
    → length (if is_behind space end then end else space) ≤ n
clamped-le space end n h k = elim (Bool-cases (is_behind space end)) [
  | inl behind ↦ rw behind k
  | inr within ↦ rw within h
]

pub drop-le : (k : ℕ) (text : Bytes) → length (drop k text) ≤ length text
drop-le zero text = omega arith
drop-le (suc k) [] = omega arith
drop-le (suc k) (c ∷ text) = omega (arith, drop-le k text)

abbrev start_or : Option Token → Bytes
start_or none = []
start_or (some line) = line.start

pub expect_prefix-le :
    (line line' : Token) (prefix : Bytes)
    → expect_prefix line prefix ≡ some line'
    → length line'.start ≤ length line.start
unfolding expect_prefix
expect_prefix-le line line' prefix h = elim (Bool-cases (is_shorter line (length prefix))) [
  | inl short ↦ let bad : none ≡ some line' = rw short at h in cc
  | inr long ↦ elim (Bool-cases (starts_with line.start prefix)) [
    | inr other ↦ let bad : none ≡ some line' = rw (long, other) at h in cc
    | inl fits ↦
        let same : some (record line { start = drop (length prefix) line.start }) ≡ some line' =
          rw (long, fits) at h in
        let e : drop (length prefix) line.start ≡ line'.start = ap start_or same in
        rw (sym e) (drop-le (length prefix) line.start)
  ]
]

pub nextline-start_le :
    (text : Bytes) (line : Token) → nextline text ≡ some line → length line.start ≤ length text
unfolding nextline
nextline-start_le [] line h = cc
nextline-start_le (c ∷ text) line h =
    let (line', (read, (start, split))) = nextline-Splits c text in
    let same : line'.start ≡ line.start = ap start_or (sym read ∙ h) in
    rw (sym same, start) (omega arith)
