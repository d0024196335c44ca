-- ===== src/Requests/Address.antt =====
-- The URLs of requests: the segments of a path, decoded.
use ghcli.Decimal.{show, show-All}
use ghcli.UrlEncode.{urlencode, urlencode_char}
use ghcli.UrlEncode.RoundTrip.{
  urldecode, urldecode_plain, urldecode-urlencode, urldecode-urlencode_char, urlencode_safe, IsByte,
  IsUrlSafe,
}
use ghcli.Prelude.{
  ℕ, ◌≡◌, refl, true, false, Bool, not, List, [], ◌∷◌, ◌++◌, Bytes, All, All-append, ◌==◌,
  if◌then◌else◌, arith, append_assoc, ◌&&◌, codes, Option, none, some,
}

abbrev push : ℕ → List Bytes → List Bytes
push c [] = (c ∷ []) ∷ []
push c (s ∷ ss) = (c ∷ s) ∷ ss

-- The segments between the slashes.
unfoldable segments : Bytes → List Bytes
segments [] = [] ∷ []
segments (c ∷ path) = let rest = segments path in if c == b'/' then [] ∷ rest else push c rest

abbrev both : Option Bytes → Option (List Bytes) → Option (List Bytes)
both (some s) (some ss) = some (s ∷ ss)
both _ _ = none

unfoldable decode_all : List Bytes → Option (List Bytes)
decode_all [] = some []
decode_all (s ∷ ss) = both (urldecode s) (decode_all ss)

-- The segments of a path, percent-decoded.
pub decoded : Bytes → Option (List Bytes)
decoded path = decode_all (segments path)

abbrev has_no_slash : Bytes → Bool
has_no_slash [] = true
has_no_slash (c ∷ text) = not (c == b'/') && has_no_slash text

segments-append :
    (s path : Bytes) → has_no_slash s ≡ true → segments (s ++ (b'/' ∷ path)) ≡ s ∷ segments path
unfolding segments
segments-append [] path h = refl
segments-append (c ∷ s) path h =
    let here : (c == b'/') ≡ false = ground arith in
    let there : has_no_slash s ≡ true = ground arith in rw (here, segments-append s path there) refl

segments_one : (s : Bytes) → has_no_slash s ≡ true → segments s ≡ s ∷ []
unfolding segments
segments_one [] h = refl
segments_one (c ∷ s) h =
    let here : (c == b'/') ≡ false = ground arith in
    let there : has_no_slash s ≡ true = ground arith in rw (here, segments_one s there) refl

-- A piece of a URL that stands for one segment.
pub record Segment (s t : Bytes) : Type 0 where
  whole : has_no_slash s ≡ true
  decodes : urldecode s ≡ some t

pub decoded-Segment :
    (s : Bytes) {t : Bytes} (path : Bytes) {ts : List Bytes}
    → Segment s t
    → decoded path ≡ some ts
    → decoded (s ++ (b'/' ∷ path)) ≡ some (t ∷ ts)
unfolding decoded decode_all
decoded-Segment s path p e = rw (segments-append s path p.whole, p.decodes, e) refl

pub decoded_last : {s t : Bytes} → Segment s t → decoded s ≡ some (t ∷ [])
unfolding decoded decode_all
decoded_last {s} p = rw (segments_one s p.whole, p.decodes) refl

safe-has_no_slash : (s : Bytes) → All IsUrlSafe s → has_no_slash s ≡ true
safe-has_no_slash [] h = refl
safe-has_no_slash (c ∷ s) (h, hs) = ground (arith, safe-has_no_slash s hs)

pub urlencode-Segment : (s : Bytes) → All IsByte s → Segment (urlencode s) s
urlencode-Segment s h = record {
  whole = safe-has_no_slash (urlencode s) (urlencode_safe s h).0;
  decodes = urldecode-urlencode s h;
}

urldecode-urlencode_onto :
    (s : Bytes) (rest : Bytes) {t : Bytes}
    → All IsByte s
    → urldecode rest ≡ some t
    → urldecode (urlencode s ++ rest) ≡ some (s ++ t)
unfolding urlencode
urldecode-urlencode_onto [] rest h e = e
urldecode-urlencode_onto (c ∷ s) rest (h, hs) e =
    rw (append_assoc (urlencode_char c) (urlencode s) rest)
      (urldecode-urlencode_char c (urlencode s ++ rest) _ h (urldecode-urlencode_onto s rest hs e))

has_no_slash-append :
    (s t : Bytes) → has_no_slash s ≡ true → has_no_slash t ≡ true → has_no_slash (s ++ t) ≡ true
has_no_slash-append [] t h k = k
has_no_slash-append (c ∷ s) t h k = ground (arith, has_no_slash-append s t)

-- `%2F` stands for a slash inside of a segment.
pub joined-Segment :
    (s t : Bytes)
    → All IsByte s
    → All IsByte t
    → Segment (urlencode s ++ (codes "%2F" ++ urlencode t)) (s ++ (b'/' ∷ t))
unfolding urldecode
joined-Segment s t h k =
    let q = urlencode-Segment t k in
    record {
      whole =
          has_no_slash-append (urlencode s) (codes "%2F" ++ urlencode t)
            (urlencode-Segment s h).whole q.whole;
      decodes = urldecode-urlencode_onto s _ h (rw q.decodes refl);
    }

abbrev pub Plain : ℕ → Type 0
Plain c = ((c == b'/') ≡ false) × ((c == b'%') ≡ false)

Plain-Segment : (s : Bytes) → All Plain s → Segment s s
unfolding urldecode
Plain-Segment [] h = record { whole = refl; decodes = refl }
Plain-Segment (c ∷ s) ((slash, percent), h) =
    let p = Plain-Segment s h in
    record { whole = rw slash p.whole; decodes = urldecode_plain c s s percent p.decodes }

-- A printed number, and a word of the program.
pub show-Segment : (n : ℕ) → Segment (show n) (show n)
show-Segment n = Plain-Segment (show n) (show-All Plain (λ d h. (ground arith, ground arith)) n)

-- A number with a word and a number behind it.
pub query-Segment :
    (n : ℕ) (s : Bytes) (m : ℕ)
    → All Plain s
    → Segment (show n ++ (s ++ show m)) (show n ++ (s ++ show m))
query-Segment n s m h =
    let digits : (k : ℕ) → All Plain (show k) =
      show-All Plain (λ d h. (ground arith, ground arith)) in
    Plain-Segment _ (All-append Plain (show n) _ (digits n) (All-append Plain s _ h (digits m)))

abbrev pub is_word : Bytes → Bool
is_word [] = true
is_word (c ∷ s) = (not (c == b'/') && not (c == b'%')) && is_word s

pub is_word-Plain : (s : Bytes) → is_word s ≡ true → All Plain s
is_word-Plain [] h = tt
is_word-Plain (c ∷ s) h =
    let slash : (c == b'/') ≡ false = ground arith in
    let percent : (c == b'%') ≡ false = ground arith in
    let more : is_word s ≡ true = ground arith in ((slash, percent), is_word-Plain s more)

pub word-Segment : (s : Bytes) → is_word s ≡ true → Segment s s
word-Segment s h = Plain-Segment s (is_word-Plain s h)
