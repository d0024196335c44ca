-- ===== src/Fetch/Pages/Chain.antt =====
-- src/curl.c: `gcli_fetch_list` over pages that each say where the next one is.
use ghcli.Fetch.{StringViews, Answer, fetch_with_method}
use ghcli.Fetch.Pages.{Ptr, Heap, is_freed, wants_more, ListCtx, Loop, round}
use ghcli.Prelude.{
  ℕ, zero, suc, ◌≤◌, ◌≡◌, refl, true, false, Bool, List, [], ◌∷◌, Bytes, length, if◌then◌else◌,
  arith, Option, none, some,
}
use ghcli.Prelude.{Result, ok}

-- The addresses below `n`, the last one first.
abbrev pub countdown : ℕ → List ℕ
countdown zero = []
countdown (suc n) = n ∷ countdown n

pub is_freed-countdown : (a n : ℕ) → n ≤ a → is_freed a (countdown n) ≡ false
is_freed-countdown a zero h = refl
is_freed-countdown a (suc n) h = ground (arith, is_freed-countdown a n)

module _ (sn : StringViews) (respond : ℕ → Bytes → Answer) where
  -- The reply to a request, which wrote `next` to `*pagination_next`.
  abbrev pub Replies : ℕ → Bytes → Option Bytes → Bytes → Type 0
  Replies n url next body =
      fetch_with_method sn (respond n url)
      ≡ ok (record { good = true; next = some next; buffer = body })

  -- The bodies that a chain of pages yields from a request on: every answer has a link header, and
  -- only that of the last page names no next page.
  pub data Pages : ℕ → Bytes → List Bytes → Type 0 where
    last : (n : ℕ) (url body : Bytes) → Replies n url none body → Pages n url (body ∷ [])
    more :
        (n : ℕ) (url next body : Bytes) {bodies : List Bytes}
        → Replies n url (some next) body
        → Pages (suc n) next bodies
        → Pages n url (body ∷ bodies)

-- Each body is parsed behind what is there and filtered, until one cannot be parsed or the list is
-- long enough.
abbrev pub collect : {A : Type 0} → ListCtx A → List Bytes → List A → Bool × List A
collect fl [] items = (true, items)
collect fl (body ∷ bodies) items =
    let (good, list) = fl.parse body items in
    let rest = collect fl bodies (fl.filter list) in
    if good
    then (if wants_more fl.max (length (fl.filter list)) then rest else (true, fl.filter list))
    else (false, fl.filter list)

module _ (sn : StringViews) (respond : ℕ → Bytes → Answer) {A : Type 0} (fl : ListCtx A) where
  -- The state in front of a request: all URLs but this one are freed.
  abbrev pub before : ℕ → Bytes → List A → ℕ → Option Ptr → Loop A
  before k url items made next = record {
    url = record { addr = k; text = url };
    next_url = next;
    heap = record { fresh = suc k; freed = countdown k };
    items = items;
    made = made;
  }

  -- The loop comes to this result, and has freed each of its allocations once.
  abbrev pub Finishes : Result ((Bool × List A) × Heap) → Bool × List A → Type 0
  Finishes r result = (heap : Heap) × (r ≡ ok (result, heap)) × (heap.freed ≡ countdown heap.fresh)

  -- The state behind the body of the loop.
  abbrev pub behind : ℕ → Bytes → Option Bytes → List A → ℕ → Loop A
  behind k url none items made = record {
    url = record { addr = k; text = url };
    next_url = none;
    heap = record { fresh = suc k; freed = countdown (suc k) };
    items = items;
    made = made;
  }
  behind k url (some next) items made = record {
    url = record { addr = k; text = url };
    next_url = some (record { addr = suc k; text = next });
    heap = record { fresh = suc (suc k); freed = countdown (suc k) };
    items = items;
    made = made;
  }

  pub round-Replies :
      (k : ℕ) (url : Bytes) (items : List A) (n : ℕ) (old : Option Ptr) (next : Option Bytes)
      (body : Bytes)
      → Replies sn respond n url next body
      → round sn respond fl (before k url items n old)
        ≡ ok
            ((fl.parse body items).0, behind k url next (fl.filter (fl.parse body items).1) (suc n))
  unfolding round
  round-Replies k url items n old none body e =
      let live = is_freed-countdown k k (omega arith) in rw (live, e, live) refl
  round-Replies k url items n old (some next) body e =
      let live = is_freed-countdown k k (omega arith) in rw (live, e, live) refl

-- A listing: a chain of pages, or one page whose answer has no link header.
pub data Listing (sn : StringViews) (respond : ℕ → Bytes → Answer) (url : Bytes)
    : List Bytes → Type 0 where
  chain : {bodies : List Bytes} → Pages sn respond 0 url bodies → Listing sn respond url bodies
  alone :
      (body : Bytes)
      → fetch_with_method sn (respond 0 url)
        ≡ ok (record { good = true; next = none; buffer = body })
      → Listing sn respond url (body ∷ [])
