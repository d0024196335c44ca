-- ===== src/Fetch/Tests.antt =====
-- Requests and pages: runs and examples.
mod Views
use ghcli.CString.{starts_with}
use ghcli.Fetch.{StringViews, Answer, no_handle, answer}
use ghcli.Fetch.Link.{Relation}
use ghcli.Fetch.Pages.{ListCtx, round, fetch_loop}
use ghcli.Fetch.Pages.Chain.{Pages, Listing}
use ghcli.Fetch.Pages.Unfinished.{Breaks}
use ghcli.Prelude.{
  ◌∙◌, ℕ, zero, suc, Bool-cases, Option-cases, ◌+◌, ◌-◌, ◌*◌, ◌/◌, ◌%◌, ◌^◌, ◌≤◌, ◌<◌, ◌≢◌, ◌⊎◌,
  inl, inr, sym, ap, true, false, Bool, not, List, [], ◌∷◌, ◌++◌, Bytes, length, length-append,
  replicate, length-replicate, All, All-append, ltb, leb, ◌==◌, map, if◌then◌else◌, append-nil,
  append_assoc, ◌&&◌, ◌||◌, codes, Option, none, some, ℤ, pos, negsuc,
}
use ghcli.Prelude.{Result, failed, stuck, ◌>>=◌, Ends, Ends-bind, Ends-mono, Ends-ne-stuck}

abbrev relations : List Relation
relations = (codes "a", codes "me") ∷ ((codes "b", codes "next") ∷ [])

-- The first request is answered with a link to a second page, and the second without a next one.
abbrev two_pages : ℕ → Bytes → Answer
two_pages zero url =
    answer 200 (codes "link: <b>; rel=\"next\"" ∷ []) (codes "x" ∷ (codes "y" ∷ []))
two_pages (suc n) url = answer 200 (codes "link: <a>; rel=\"prev\"" ∷ []) (codes "z" ∷ [])

-- The second request fails.
abbrev one_page : ℕ → Bytes → Answer
one_page zero url = answer 200 (codes "link: <b>; rel=\"next\"" ∷ []) (codes "x" ∷ [])
one_page (suc n) url = no_handle

-- A list of bodies without a bound.
abbrev bodies : ListCtx Bytes
bodies = record {
  max = negsuc 0;
  parse = λ body items. (true, items ++ (body ∷ []));
  filter = λ items. items;
}
