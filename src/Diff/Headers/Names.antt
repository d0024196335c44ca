-- ===== src/Diff/Headers/Names.antt =====
-- src/diffutil.c: the names in the header of a diff are read back.
use ghcli.Diff.Comments.{drop, between}
use ghcli.Diff.Comments.Annotated.{NoNewline, between-append}
use ghcli.Diff.Lines.{Parser, Token, find_newline, nextline, expect_prefix}
use ghcli.Diff.Headers.{is_behind, strchr, name_end, copy_chunks, readfilename}
use ghcli.Diff.Headers.Rules.{strchr-le}
use ghcli.Diff.Ranges.Fields.{starts_with-append, drop-append}
use ghcli.Diff.Headers.Written.{IsName}
use ghcli.Prelude.{
  fault, none, Result, ok, fault, ◌>>=◌, ◌∙◌, ℕ, suc, ◌+◌, ◌-◌, ◌≤◌, ◌<◌, ◌≡◌, ◌≢◌, refl, ap, true,
  false, List, [], ◌∷◌, ◌++◌, Bytes, length, length-append, All, ltb, if◌then◌else◌, arith, some,
}

abbrev pub at : Bytes → ℕ → Parser
at text offset = record { hd = text; diff_line_offset = offset }

-- A byte that is not in the front is looked for behind it.
pub strchr-skip :
    (front rest : Bytes) (c : ℕ) → All (λ d. d ≢ c) front → strchr (front ++ rest) c ≡ strchr rest c
unfolding strchr
strchr-skip [] rest c h = refl
strchr-skip (d ∷ front) rest c (h, more) = ground (arith, strchr-skip front rest c more)

strchr-none : (text : Bytes) (c : ℕ) → All (λ d. d ≢ c) text → strchr text c ≡ none
unfolding strchr
strchr-none [] c h = refl
strchr-none (d ∷ text) c (h, more) = ground (arith, strchr-none text c more)

pub find_newline-skip :
    (front rest : Bytes) → NoNewline front → find_newline (front ++ rest) ≡ find_newline rest
unfolding find_newline
find_newline-skip [] rest h = refl
find_newline-skip (d ∷ front) rest (h, more) = ground (arith, find_newline-skip front rest more)

pub nextline-found :
    (c : ℕ) (text end : Bytes)
    → find_newline (c ∷ text) ≡ some end
    → nextline (c ∷ text) ≡ some (record { start = c ∷ text; end = end })
unfolding nextline
nextline-found c text end h = rw (h, nextline) refl

pub expect_prefix-skip :
    (prefix text end : Bytes)
    → length end ≤ length text
    → expect_prefix (record { start = prefix ++ text; end = end }) prefix
      ≡ some (record { start = text; end = end })
unfolding expect_prefix
expect_prefix-skip prefix text end le =
    let long = length-append prefix text in
    let enough : ltb (length (prefix ++ text)) (length end + length prefix) ≡ false =
      ground arith in
    rw (enough, starts_with-append prefix text, drop-append prefix text) refl

-- Behind the line every space is.
name_end-past :
    (line_end : Bytes) (prev : ℕ) (text : Bytes)
    → length text < length line_end
    → name_end line_end prev text ≡ (0, line_end)
unfolding name_end
name_end-past line_end prev [] lt = refl
name_end-past line_end prev (c ∷ text) lt = ground (arith, name_end-past line_end c text)

name_end-space :
    (line_end : Bytes) (prev : ℕ) (name rest : Bytes)
    → IsName name
    → prev ≢ b'\\'
    → length line_end ≤ length rest
    → name_end line_end prev (name ++ (b' ' ∷ rest)) ≡ (0, b' ' ∷ rest)
unfolding name_end
name_end-space line_end prev [] rest h plain le = ground arith
name_end-space line_end prev (c ∷ name) rest (h, more) plain le =
    ground (arith, name_end-space line_end c name rest more h.1.1 le)

name_end-line :
    (prev : ℕ) (name rest : Bytes)
    → IsName name
    → name_end (b'\n' ∷ rest) prev (name ++ (b'\n' ∷ rest)) ≡ (0, b'\n' ∷ rest)
unfolding name_end
name_end-line prev [] rest h = name_end-past (b'\n' ∷ rest) b'\n' rest (omega arith)
name_end-line prev (c ∷ name) rest (h, more) = ground (arith, name_end-line c name rest more)

copy_chunks-last :
    (fuel : ℕ) (end start space : Bytes)
    → strchr start b' ' ≡ some space
    → (if is_behind space end then end else space) ≡ end
    → is_behind end (drop 1 end) ≡ false
    → copy_chunks (suc fuel) end start [] ≡ ok (between start end, drop 1 end)
unfolding copy_chunks
copy_chunks-last fuel end start space found clamp last =
    let round : Bytes → Result (Bytes × Bytes) = λ chunk_end.
      if is_behind end (drop 1 chunk_end)
      then copy_chunks fuel end (drop 1 chunk_end) (between start chunk_end)
      else ok (between start chunk_end, drop 1 chunk_end) in
    rw (found, copy_chunks) (ap round clamp ∙ rw last refl)

-- A name up to an end that the loops find: behind it stands what follows the end.
readfilename-lem :
    (name rest line_end space : Bytes) (c : ℕ)
    → name_end line_end b'/' (name ++ (c ∷ rest)) ≡ (0, c ∷ rest)
    → strchr (name ++ (c ∷ rest)) b' ' ≡ some space
    → (if is_behind space (c ∷ rest) then c ∷ rest else space) ≡ c ∷ rest
    → readfilename (record { start = name ++ (c ∷ rest); end = line_end })
      ≡ ok (name, record { start = rest; end = line_end })
unfolding readfilename
readfilename-lem name rest line_end space c ends found clamp =
    let start = name ++ (c ∷ rest) in
    let long = length-append name (c ∷ rest) in
    let fine : is_behind start (c ∷ rest) ≡ false = ground arith in
    let last : is_behind (c ∷ rest) rest ≡ false = ground arith in
    let fits : ltb (length start - length (c ∷ rest)) (length name + 0) ≡ false = ground arith in
    let read : ℕ × Bytes → Result (Bytes × Token) = λ (escapes, end).
      if is_behind start end
      then fault
      else copy_chunks (suc (length start)) end start [] >>= λ (copied, behind).
          if ltb (length start - length end) (length copied + escapes)
          then fault
          else ok (copied, record { start = behind; end = line_end }) in
    ap read ends
    ∙ rw
        (
          fine,
          copy_chunks-last (length start) (c ∷ rest) start space found clamp last,
          between-append name (c ∷ rest),
          fits,
        )
        refl

pub All-map {ℓ κ} :
    {A : Type 0} (P : A → Type ℓ) (Q : A → Type κ) (xs : List A)
    → ((a : A) → P a → Q a)
    → All P xs
    → All Q xs
All-map P Q [] f h = tt
All-map P Q (x ∷ xs) f (h, more) = (f x h, All-map P Q xs f more)

-- The name in front of a space, and the name at the end of a line.
pub readfilename-space :
    (name rest line_end : Bytes)
    → IsName name
    → length line_end ≤ length rest
    → readfilename (record { start = name ++ (b' ' ∷ rest); end = line_end })
      ≡ ok (name, record { start = rest; end = line_end })
unfolding strchr
readfilename-space name rest line_end h le =
    readfilename-lem name rest line_end (b' ' ∷ rest) b' '
      (name_end-space line_end b'/' name rest h (omega arith) le)
      (strchr-skip name (b' ' ∷ rest) b' ' (All-map _ (λ c. c ≢ b' ') name (λ c k. k.0) h))
      (ground arith)

pub readfilename-line :
    (name rest space : Bytes)
    → IsName name
    → strchr rest b' ' ≡ some space
    → readfilename (record { start = name ++ (b'\n' ∷ rest); end = b'\n' ∷ rest })
      ≡ ok (name, record { start = rest; end = b'\n' ∷ rest })
unfolding strchr
readfilename-line name rest space h found =
    let (le, nonempty) = strchr-le rest b' ' space found in
    let clamp : is_behind space (b'\n' ∷ rest) ≡ true = ground arith in
    readfilename-lem name rest (b'\n' ∷ rest) space b'\n' (name_end-line b'/' name rest h)
      (strchr-skip name (b'\n' ∷ rest) b' ' (All-map _ (λ c. c ≢ b' ') name (λ c k. k.0) h) ∙ found)
      (rw clamp refl)

-- With no further space the copy is given a null pointer.
pub readfilename_no_space :
    (name rest : Bytes)
    → IsName name
    → All (λ c. c ≢ b' ') rest
    → readfilename (record { start = name ++ (b'\n' ∷ rest); end = b'\n' ∷ rest }) ≡ fault
unfolding readfilename copy_chunks
readfilename_no_space name rest h none' =
    let end = b'\n' ∷ rest in
    let start = name ++ end in
    let long = length-append name end in
    let fine : is_behind start end ≡ false = ground arith in
    let missing : strchr start b' ' ≡ none =
      strchr-skip name end b' ' (All-map _ (λ c. c ≢ b' ') name (λ c k. k.0) h)
      ∙ strchr-none end b' ' (omega arith, none') in
    let read : ℕ × Bytes → Result (Bytes × Token) = λ (escapes, end').
      if is_behind start end'
      then fault
      else copy_chunks (suc (length start)) end' start [] >>= λ (copied, behind).
          if ltb (length start - length end') (length copied + escapes)
          then fault
          else ok (copied, record { start = behind; end = end }) in
    ap read (name_end-line b'/' name rest h) ∙ rw (fine, missing, copy_chunks) refl
