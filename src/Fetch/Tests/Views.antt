-- ===== src/Fetch/Tests/Views.antt =====
-- String views for the examples, and that they keep the promises.
use ghcli.CString.{is_space, str_eq, str_eq_iff}
use ghcli.Fetch.{StringViews}
use ghcli.Fetch.Link.{IsLawful}
use ghcli.Prelude.{ℕ, ◌≡◌, ◌≢◌, refl, false, [], ◌∷◌, ◌++◌, Bytes, All, ◌==◌, if◌then◌else◌, arith}

unfoldable pub chop : ℕ → Bytes → Bytes × Bytes
chop c [] = ([], [])
chop c (d ∷ text) =
    let rest = chop c text in if d == c then ([], d ∷ text) else (d ∷ rest.0, rest.1)

unfoldable pub trim_front : Bytes → Bytes
trim_front [] = []
trim_front (c ∷ text) = let rest = trim_front text in if is_space c then rest else c ∷ text

abbrev put_front : ℕ → Bytes → Bytes
put_front c [] = if is_space c then [] else c ∷ []
put_front c (d ∷ text) = c ∷ d ∷ text

unfoldable pub trim_end : Bytes → Bytes
trim_end [] = []
trim_end (c ∷ text) = put_front c (trim_end text)

abbrev pub views : StringViews
views = record {
  chop_until = chop;
  trim = λ text. trim_front (trim_end text);
  trim_front = trim_front;
  eq_to = str_eq;
}

chop-found :
    (c : ℕ) (front text : Bytes)
    → All (λ d. d ≢ c) front
    → chop c (front ++ (c ∷ text)) ≡ (front, c ∷ text)
unfolding chop
chop-found c [] text h = ground arith
chop-found c (d ∷ front) text h = ground (arith, chop-found c front text, h.0)

chop-end : (c : ℕ) (text : Bytes) → All (λ d. d ≢ c) text → chop c text ≡ (text, [])
unfolding chop
chop-end c [] h = refl
chop-end c (d ∷ text) h = ground (arith, chop-end c text, h.0)

put_front-space : (text : Bytes) → trim_front (put_front b' ' text) ≡ trim_front text
unfolding trim_front
put_front-space [] = refl
put_front-space (c ∷ text) = refl

trim_end-id :
    (text : Bytes) (d : ℕ) → is_space d ≡ false → trim_end (text ++ (d ∷ [])) ≡ text ++ (d ∷ [])
unfolding trim_end
trim_end-id [] d h = rw h refl
trim_end-id (c ∷ []) d h = rw (trim_end-id [] d h) refl
trim_end-id (c ∷ e ∷ text) d h = rw (trim_end-id (e ∷ text) d h) refl

put_front-snoc :
    (c : ℕ) (text : Bytes) (d : ℕ) → put_front c (text ++ (d ∷ [])) ≡ c ∷ (text ++ (d ∷ []))
put_front-snoc c [] d = refl
put_front-snoc c (e ∷ text) d = refl

trim-id :
    (c : ℕ) (text : Bytes) (d : ℕ)
    → is_space c ≡ false
    → is_space d ≡ false
    → trim_front (trim_end (c ∷ (text ++ (d ∷ [])))) ≡ c ∷ (text ++ (d ∷ []))
unfolding trim_front trim_end
trim-id c text d h k = rw (trim_end-id text d k, put_front-snoc c text d, h) refl

pub views-IsLawful : IsLawful views
unfolding trim_end trim_front chop str_eq
views-IsLawful = record {
  chop_until-found = chop-found;
  chop_until-end = chop-end;
  trim-space = λ text. put_front-space (trim_end text);
  trim-id = trim-id;
  eq_to_iff = str_eq_iff;
}
