-- ===== src/Fetch/Pages/Unfinished.antt =====
-- src/curl.c: what `gcli_fetch_list` does when a page behind the first one has no link header.
use ghcli.Fetch.{StringViews, Answer, Reply, fetch_with_method}
use ghcli.Fetch.Pages.{Ptr, wants_more, ListCtx, Loop, parse_reply}
use ghcli.Fetch.Pages.Chain.{Replies, countdown}
use ghcli.Prelude.{ℕ, zero, suc, ◌≡◌, true, List, Bytes, length, Option, none, some}
use ghcli.Prelude.{ok}

module _ (sn : StringViews) (respond : ℕ → Bytes → Answer) {A : Type 0} (fl : ListCtx A) where
  -- Requests from the `n`-th on: pages that name a next one, are parsed and leave the list too short,
  -- up to one behind the first whose reply does not write to `*pagination_next`. It does so if the
  -- request fails, or if the answer has no link header.
  pub data Breaks : ℕ → Bytes → List A → Type 0 where
    broken :
        {n : ℕ} {url : Bytes} {items : List A} (reply : Reply)
        → fetch_with_method sn (respond (suc n) url) ≡ ok reply
        → reply.next ≡ none
        → Breaks (suc n) url items
    after :
        {n : ℕ} {url : Bytes} {items : List A} (next body : Bytes)
        → Replies sn respond n url (some next) body
        → (fl.parse body items).0 ≡ true
        → wants_more fl.max (length (fl.filter (fl.parse body items).1)) ≡ true
        → Breaks (suc n) next (fl.filter (fl.parse body items).1)
        → Breaks n url items

  -- The URL is freed in the body of the loop, and `next_url` still points to it.
  dangling : ℕ → Bytes → Reply → List A → ℕ → Loop A
  dangling k url reply items n = record {
    url = record { addr = k; text = url };
    next_url = some (record { addr = k; text = url });
    heap = record { fresh = suc k; freed = countdown (suc k) };
    items = (parse_reply sn respond fl reply items).1;
    made = suc n;
  }

  -- `next_url` in front of the `n`-th request.
  abbrev old : ℕ → ℕ → Bytes → Option Ptr
  old zero k url = none
  old (suc n) k url = some (record { addr = k; text = url })
