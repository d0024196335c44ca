-- ===== src/Fetch/Link/Relations.antt =====
-- src/curl.c: `parse_link_header` on the headers that it is made for.
use ghcli.Fetch.{StringViews}
use ghcli.Fetch.Link.{IsLawful, Relation, show_relation, show_more}
use ghcli.Prelude.{◌≤◌, List, [], ◌∷◌, length, length-append, arith}

module _ (sn : StringViews) (laws : IsLawful sn) where
  fit : (relations : List Relation) → length relations ≤ length (show_more relations)
  fit [] = omega arith
  fit (r ∷ relations) =
      omega (arith, fit relations, length-append (show_relation r) (show_more relations))
