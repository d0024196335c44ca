-- ===== src/Diff/Patches/Preludes.antt =====
-- src/diffutil.c: the prelude of a patch, with its commit hash, is read back.
use ghcli.Diff.Patches.PreludeLines.{
  separator-nextline, separator-IsSeparator, diff_line, nextline-line, and_false, message-goes,
  cover-goes, IsPreludeLine, IsPreludeLine-IsMessage,
}
use ghcli.CString.{starts_with}
use ghcli.Diff.Comments.{between, drop, take}
use ghcli.Diff.Comments.Annotated.{unlines, between-append}
use ghcli.Diff.Comments.Scan.{lines_fit}
use ghcli.Diff.Headers.{strchr}
use ghcli.Diff.Headers.Names.{at, strchr-skip, All-map}
use ghcli.Diff.Headers.Written.{IsHashName}
use ghcli.Diff.Lines.{Token, nextline, separator_suffix}
use ghcli.Diff.Patches.{
  ends_prelude, read_commit_hash_from_separator, note_commit_hash, prelude_loop,
  patch_parse_prelude,
}
use ghcli.Diff.Patches.Written.{WrittenDiff, IsWrittenDiff, show_diff, show_separator, IsMessage}
use ghcli.Prelude.{
  ◌≤◌, Result, ok, ◌>>=◌, ◌∙◌, ℕ, zero, suc, ◌-◌, ◌<◌, ◌≡◌, ◌≢◌, refl, sym, ap, true, false, List,
  [], ◌∷◌, ◌++◌, Bytes, length, length-append, All, arith, append_assoc, codes, Option, none, some,
}

module _ (sn_strndup : Bytes → ℕ → Option Bytes) where
  -- A round of the loop, at a diff and elsewhere.
  prelude_loop-stop :
      (fuel : ℕ) (hash : Option Bytes) (text : Bytes) (line : Token)
      → nextline text ≡ some line
      → ends_prelude line ≡ true
      → prelude_loop sn_strndup (suc fuel) hash text ≡ ok (hash, text)
  unfolding prelude_loop
  prelude_loop-stop fuel hash text line read ends = rw (read, prelude_loop, ends) refl

  prelude_loop-step :
      (fuel : ℕ) (hash hash' : Option Bytes) (text : Bytes) (line : Token)
      → nextline text ≡ some line
      → ends_prelude line ≡ false
      → note_commit_hash sn_strndup hash line ≡ ok hash'
      → prelude_loop sn_strndup (suc fuel) hash text
        ≡ prelude_loop sn_strndup fuel hash' (drop 1 line.end)
  unfolding prelude_loop
  prelude_loop-step fuel hash hash' text line read goes noted =
      rw (read, prelude_loop, goes, noted) refl

  -- The lines behind the separator, up to the first diff.
  note_commit_hash-keeps :
      (hash : Option Bytes) (line rest : Bytes)
      → IsPreludeLine hash line
      → note_commit_hash sn_strndup hash
          (record { start = line ++ (b'\n' ∷ rest); end = b'\n' ∷ rest })
        ≡ ok hash
  unfolding note_commit_hash
  note_commit_hash-keeps none line rest (h, other) = rw (cover-goes line rest (other, h.1)) refl
  note_commit_hash-keeps (some hash) line rest h = refl

  prelude_loop-lines :
      (fuel : ℕ) (hash : Option Bytes) (lines : List Bytes) (diff : WrittenDiff) (rest : Bytes)
      → length lines < fuel
      → All (IsPreludeLine hash) lines
      → IsWrittenDiff diff
      → prelude_loop sn_strndup fuel hash (unlines lines ++ show_diff diff rest)
        ≡ ok (hash, show_diff diff rest)
  prelude_loop-lines zero hash lines diff rest lt h written = absurd (omega arith)
  prelude_loop-lines (suc fuel) hash [] diff rest lt h written =
      let (line, (read, ends)) = diff_line diff rest written in
      prelude_loop-stop fuel hash (show_diff diff rest) line read ends
  prelude_loop-lines (suc fuel) hash (line ∷ lines) diff rest lt (h, more) written =
      let text = unlines lines ++ show_diff diff rest in
      let message = IsPreludeLine-IsMessage hash line h in
      ap (prelude_loop sn_strndup (suc fuel) hash)
        (append_assoc line (b'\n' ∷ unlines lines) (show_diff diff rest))
      ∙ prelude_loop-step fuel hash hash (line ++ (b'\n' ∷ text))
          (record { start = line ++ (b'\n' ∷ text); end = b'\n' ∷ text })
          (nextline-line line text message.1) (message-goes line text message)
          (note_commit_hash-keeps hash line text h)
      ∙ prelude_loop-lines fuel hash lines diff rest (omega arith) more written

  -- A prelude without a separator.
  pub patch_parse_prelude-plain :
      (lines : List Bytes) (diff : WrittenDiff) (rest : Bytes) (offset : ℕ)
      → All (IsPreludeLine none) lines
      → IsWrittenDiff diff
      → patch_parse_prelude sn_strndup (at (unlines lines ++ show_diff diff rest) offset)
        ≡ ok ((unlines lines, none), at (show_diff diff rest) offset)
  unfolding patch_parse_prelude
  patch_parse_prelude-plain lines diff rest offset h written =
      let text = unlines lines ++ show_diff diff rest in
      let fit = lines_fit lines (show_diff diff rest) in
      ap
        (λ (r : Result (Option Bytes × Bytes)).
          r >>= λ (hash', hd). ok ((between text hd, hash'), at hd offset))
        (prelude_loop-lines (suc (length text)) none lines diff rest (omega arith) h written)
      ∙ ap (λ prelude. ok ((prelude, none), at (show_diff diff rest) offset))
          (between-append (unlines lines) (show_diff diff rest))

module _ (sn_strndup : Bytes → ℕ → Option Bytes)
    (copies : (text : Bytes) (n : ℕ)
      → 0 < n
      → n ≤ length text
      → sn_strndup text n ≡ some (take n text)) where
  note_commit_hash-separator :
      (hash rest : Bytes)
      → IsHashName hash
      → note_commit_hash sn_strndup none
          (record { start = show_separator hash rest; end = b'\n' ∷ rest })
        ≡ ok (some hash)
  unfolding note_commit_hash read_commit_hash_from_separator strchr between
  note_commit_hash-separator hash rest h =
      let text = separator_suffix ++ rest in
      let found : strchr (hash ++ text) b' ' ≡ some text =
        strchr-skip hash text b' ' (All-map _ (λ c. c ≢ b' ') hash (λ c k. k.0) h.1) in
      let long = length-append hash text in
      let n = length (hash ++ text) - length text in
      let copied : sn_strndup (hash ++ text) n ≡ some hash =
        copies (hash ++ text) n (omega arith) (omega arith) ∙ ap some (between-append hash text) in
      rw (separator-IsSeparator hash rest, found, copied) refl

  pub patch_parse_prelude-show :
      (hash : Bytes) (lines : List Bytes) (diff : WrittenDiff) (rest : Bytes) (offset : ℕ)
      → IsHashName hash
      → All IsMessage lines
      → IsWrittenDiff diff
      → patch_parse_prelude sn_strndup
          (at (show_separator hash (unlines lines ++ show_diff diff rest)) offset)
        ≡ ok ((show_separator hash (unlines lines), some hash), at (show_diff diff rest) offset)
  unfolding patch_parse_prelude starts_with
  patch_parse_prelude-show hash lines diff rest offset h messages written =
      let tail = unlines lines ++ show_diff diff rest in
      let text = show_separator hash tail in
      let line : Token = record { start = text; end = b'\n' ∷ tail } in
      let long = length-append hash (separator_suffix ++ tail) in
      let fit = lines_fit lines (show_diff diff rest) in
      let ran : prelude_loop sn_strndup (suc (length text)) none text
          ≡ ok (some hash, show_diff diff rest) =
        prelude_loop-step sn_strndup (length text) none (some hash) text line
          (separator-nextline hash tail h.1) (and_false _) (note_commit_hash-separator hash tail h)
        ∙ prelude_loop-lines sn_strndup (length text) (some hash) lines diff rest (omega arith)
            messages written in
      let split : text ≡ show_separator hash (unlines lines) ++ show_diff diff rest =
        ap (λ t. codes "From " ++ t)
          (sym (append_assoc hash (separator_suffix ++ unlines lines) (show_diff diff rest))) in
      ap
        (λ (r : Result (Option Bytes × Bytes)).
          r >>= λ (hash', hd). ok ((between text hd, hash'), at hd offset))
        ran
      ∙ ap (λ prelude. ok ((prelude, some hash), at (show_diff diff rest) offset))
          (ap (λ t. between t (show_diff diff rest)) split
            ∙ between-append (show_separator hash (unlines lines)) (show_diff diff rest))
