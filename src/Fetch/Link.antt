-- ===== src/Fetch/Link.antt =====
-- src/curl.c: the headers that `parse_link_header` is made for.
pub mod Relations
use ghcli.CString.{str_eq, str_eq_iff}
use ghcli.CString.{is_space}
use ghcli.Fetch.{StringViews, tail, but_last, strip_brackets, link_loop, parse_link_header}
use mathlib.Core.Logic.{◌↔◌}
use ghcli.Prelude.{
  ◌∙◌, ℕ, zero, suc, Bool-cases, Option-cases, ◌+◌, ◌-◌, ◌*◌, ◌/◌, ◌%◌, ◌^◌, ◌≤◌, ◌<◌, ◌≡◌, ◌≢◌,
  ◌⊎◌, inl, inr, refl, sym, ap, true, false, Bool, not, List, [], ◌∷◌, ◌++◌, Bytes, length,
  length-append, replicate, length-replicate, All, All-append, ltb, leb, ◌==◌, map, if◌then◌else◌,
  arith, append-nil, append_assoc, ◌&&◌, ◌||◌, codes, Option, none, some, ℤ, pos, negsuc,
}
use ghcli.Prelude.{
  Result, ok, failed, fault, stuck, ◌>>=◌, Ends, Ends-bind, Ends-mono, Ends-ne-stuck,
}

-- What sn promises: the part in front of the first `c`, or all; no space at either end; equality.
pub record IsLawful (sn : StringViews) : Type 0 where
  pub chop_until-found :
      (c : ℕ) (front text : Bytes)
      → All (λ d. d ≢ c) front
      → sn.chop_until c (front ++ (c ∷ text)) ≡ (front, c ∷ text)
  pub chop_until-end :
      (c : ℕ) (text : Bytes) → All (λ d. d ≢ c) text → sn.chop_until c text ≡ (text, [])
  pub trim-space : (text : Bytes) → sn.trim (b' ' ∷ text) ≡ sn.trim text
  pub trim-id :
      (c : ℕ) (text : Bytes) (d : ℕ)
      → is_space c ≡ false
      → is_space d ≡ false
      → sn.trim (c ∷ (text ++ (d ∷ []))) ≡ c ∷ (text ++ (d ∷ []))
  pub eq_to_iff : (a b : Bytes) → (sn.eq_to a b ≡ true) ↔ (a ≡ b)

-- A link relation: its URL and its name.
abbrev pub Relation : Type 0
Relation = Bytes × Bytes

abbrev pub quoted : Bytes → Bytes
quoted name = codes "; rel=\"" ++ (name ++ codes "\"")

-- `<url>; rel="name"`
abbrev pub show_relation : Relation → Bytes
show_relation (url, name) = b'<' ∷ (url ++ (b'>' ∷ quoted name))

abbrev pub show_more : List Relation → Bytes
show_more [] = []
show_more (r ∷ relations) = codes ", " ++ (show_relation r ++ show_more relations)

-- The relations with a comma and a space in between.
abbrev pub show_relations : List Relation → Bytes
show_relations [] = []
show_relations (r ∷ relations) = show_relation r ++ show_more relations

-- The URL of the first relation "next".
abbrev pub next_url : List Relation → Option Bytes
next_url [] = none
next_url ((url, name) ∷ relations) =
    let rest = next_url relations in if str_eq name (codes "next") then some url else rest

abbrev pub NoSeparator : Bytes → Type 0
NoSeparator = All (λ c. (c ≢ b',') × (c ≢ b';'))

-- No ',' and no ';' in the URL and the name, and a URL that a trim leaves as it is.
abbrev pub IsRelation : StringViews → Relation → Type 0
IsRelation sn (url, name) = NoSeparator url × (NoSeparator name × (sn.trim url ≡ url))
