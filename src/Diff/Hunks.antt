-- ===== src/Diff/Hunks.antt =====
-- src/diffutil.c: the loop of `gcli_parse_diff` over the hunks of a diff.
pub mod Lines
pub mod RoundTrip
pub mod Termination
mod Tests
use ghcli.Diff.Lines.{Parser, read_hunk_body}
use ghcli.Diff.Ranges.{Range, starts_at, parse_hunk_range_info}
use ghcli.Prelude.{
  Result, ok, failed, fault, stuck, ◌>>=◌, ◌∙◌, ℕ, zero, suc, Bool-cases, ◌+◌, ◌-◌, ◌*◌, ◌/◌, ◌%◌,
  ◌^◌, ◌≤◌, ◌<◌, ◌≡◌, ◌≢◌, ◌⊎◌, inl, inr, refl, sym, ap, true, false, Bool, not, List, [], ◌∷◌,
  ◌++◌, Bytes, length, length-append, replicate, length-replicate, All, All-append, ltb, leb, ◌==◌,
  map, if◌then◌else◌, arith, append-nil, append_assoc, ◌&&◌, ◌||◌, codes, Option, none, some, ℤ,
  pos, negsuc,
}

-- The fields that the parser sets of `struct gcli_diff_hunk`.
pub record ParsedHunk : Type 0 where
  pub range : Range
  pub body : Bytes
  pub diff_line_offset : ℕ

-- The body behind a header.
abbrev pub parse_body : Option (Range × Parser) → Result (ParsedHunk × Parser)
parse_body none = failed
parse_body (some (range, parser)) = read_hunk_body parser >>= λ ((body, offset), parser').
    ok (record { range = range; body = body; diff_line_offset = offset }, parser')

-- One round: the header of a hunk, then its body.
unfoldable pub parse_hunk : Parser → Result (ParsedHunk × Parser)
parse_hunk parser = parse_body (parse_hunk_range_info parser)

-- `while (parser->hd[0] == '@')`, on fuel.
unfoldable pub parse_hunks : ℕ → Parser → Result (List ParsedHunk × Parser)
parse_hunks zero parser = stuck
parse_hunks (suc fuel) parser =
    let more = parse_hunk parser >>= λ (hunk, parser').
    parse_hunks fuel parser' >>= λ (hunks, end). ok (hunk ∷ hunks, end) in
    if starts_at parser.hd then more else ok ([], parser)

-- The end of `gcli_parse_diff`: the hunks behind the header of a diff. Each round takes a byte at
-- least.
unfoldable pub parse_diff_hunks : Parser → Result (List ParsedHunk × Parser)
parse_diff_hunks parser =
    parse_hunks (suc (length parser.hd)) (record parser { diff_line_offset = 0 })
