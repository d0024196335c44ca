-- ===== src/Fetch.antt =====
-- src/curl.c: one request and what is read from its answer. What libcurl does comes as an `Answer`, and
-- the functions of the vendored library sn as a record.
pub mod Link
pub mod Pages
mod Tests
use ghcli.Prelude.{
  ◌∙◌, ℕ, zero, suc, Bool-cases, Option-cases, ◌+◌, ◌-◌, ◌*◌, ◌/◌, ◌%◌, ◌^◌, ◌≤◌, ◌<◌, ◌≡◌, ◌≢◌,
  ◌⊎◌, inl, inr, refl, sym, ap, true, false, Bool, not, List, [], ◌∷◌, ◌++◌, Bytes, length,
  length-append, replicate, length-replicate, All, All-append, ltb, leb, ◌==◌, map, if◌then◌else◌,
  arith, append-nil, append_assoc, ◌&&◌, ◌||◌, codes, Option, none, some, ℤ, pos, negsuc,
}
use ghcli.Prelude.{
  Result, ok, failed, fault, stuck, ◌>>=◌, Ends, Ends-bind, Ends-mono, Ends-ne-stuck,
}

-- The functions of sn on string views. `chop_until c s` is the part in front of the first `c`, and
-- what is left in `s`.
pub record StringViews : Type 0 where
  pub chop_until : ℕ → Bytes → Bytes × Bytes
  pub trim : Bytes → Bytes
  pub trim_front : Bytes → Bytes
  pub eq_to : Bytes → Bytes → Bool

-- What comes of `gcli_curl_ensure` and `curl_easy_perform`: no handle, an error of libcurl, or the
-- status, the header lines and the pieces of the body that the callbacks are given.
pub data Answer : Type 0 where
  no_handle curl_error : Answer
  answer : ℕ → List Bytes → List Bytes → Answer

abbrev pub tail : Bytes → Bytes
tail [] = []
tail (c ∷ text) = text

-- All bytes but the last one.
abbrev pub but_last : ℕ → Bytes → Bytes
but_last d [] = []
but_last d (e ∷ text) = d ∷ but_last e text

-- `fetch_write_callback`, over the pieces.
abbrev pub write_all : List Bytes → Bytes → Bytes
write_all [] out = out
write_all (piece ∷ pieces) out = write_all pieces (out ++ piece)

-- `gcli_curl_check_api_error`, with `true` for 0.
abbrev pub check_api_error : Answer → Bool
check_api_error no_handle = false
check_api_error curl_error = false
check_api_error (answer status headers pieces) = not (leb 300 status)

-- What `gcli_fetch` leaves: whether it returns 0, what it writes to `*pagination_next` if it writes
-- there, and the buffer.
pub record Reply : Type 0 where
  pub good : Bool
  pub next : Option (Option Bytes)
  pub buffer : Bytes

abbrev pub no_reply : Reply
no_reply = record { good = false; next = none; buffer = [] }

module _ (sn : StringViews) where
  -- `fetch_header_callback`. Without a ':' behind the name the length wraps around.
  unfoldable pub header_callback : Bytes → Option Bytes → Result (Option Bytes)
  header_callback line out =
      let (name, rest) = sn.chop_until b':' line in
      if sn.eq_to name (codes "link")
      then elim rest as (λ _. Result (Option Bytes)) [
        | [] ↦ fault
        | c ∷ text ↦ ok (some (sn.trim_front text))
      ]
      else ok out

  unfoldable pub read_headers : List Bytes → Option Bytes → Result (Option Bytes)
  read_headers [] out = ok out
  read_headers (line ∷ lines) out = header_callback line out >>= λ out'. read_headers lines out'

  -- `almost_url.data += 1; almost_url.length -= 2;` and the trim.
  abbrev pub strip_brackets : Bytes → Result (Option Bytes)
  strip_brackets [] = fault
  strip_brackets (c ∷ []) = fault
  strip_brackets (c ∷ d ∷ text) = ok (some (sn.trim (but_last d text)))

  -- The loop of `parse_link_header`, on fuel.
  unfoldable pub link_loop : ℕ → Bytes → Result (Option Bytes)
  link_loop zero header = stuck
  link_loop (suc fuel) header =
      let (entry, rest) = sn.chop_until b',' header in
      let (almost_url, relation) = sn.chop_until b';' (sn.trim entry) in
      let more = link_loop fuel (tail rest) in
      if length entry == 0
      then ok none
      else if sn.eq_to relation (codes "; rel=\"next\"")
      then strip_brackets almost_url
      else more

  -- `parse_link_header`
  abbrev pub parse_link_header : Bytes → Result (Option Bytes)
  parse_link_header header = link_loop (suc (length header)) header

  -- `if (link_header && pagination_next) *pagination_next = parse_link_header(link_header);`
  abbrev pub next_of : Option Bytes → Result (Option (Option Bytes))
  next_of none = ok none
  next_of (some header) = parse_link_header header >>= λ url. ok (some url)

  -- `gcli_fetch_with_method`, with both output parameters given; `gcli_fetch` is its GET.
  unfoldable pub fetch_with_method : Answer → Result Reply
  fetch_with_method no_handle = ok no_reply
  fetch_with_method curl_error = ok no_reply
  fetch_with_method (answer status headers pieces) = read_headers headers none >>= λ link_header.
      if check_api_error (answer status headers pieces)
      then (next_of link_header >>= λ next.
          ok (record { good = true; next = next; buffer = write_all pieces [] }))
      else ok no_reply
