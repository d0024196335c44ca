-- ===== src/Fetch/Pages.antt =====
-- src/curl.c: `gcli_fetch_list`, with its URLs as allocations that are freed.
pub mod Chain
pub mod Unfinished
use ghcli.Fetch.{StringViews, Answer, Reply, fetch_with_method}
use ghcli.Prelude.{
  ◌∙◌, ℕ, zero, suc, Bool-cases, Option-cases, ◌+◌, ◌-◌, ◌*◌, ◌/◌, ◌%◌, ◌^◌, ◌≤◌, ◌<◌, ◌≡◌, ◌≢◌,
  ◌⊎◌, inl, inr, refl, sym, ap, true, false, Bool, not, List, [], ◌∷◌, ◌++◌, Bytes, length,
  length-append, replicate, length-replicate, All, All-append, ltb, leb, ◌==◌, map, if◌then◌else◌,
  arith, append-nil, append_assoc, ◌&&◌, ◌||◌, codes, Option, none, some, ℤ, pos, negsuc,
}
use ghcli.Prelude.{
  Result, ok, failed, fault, stuck, ◌>>=◌, Ends, Ends-bind, Ends-mono, Ends-ne-stuck,
}

-- A string on the heap.
pub record Ptr : Type 0 where
  pub addr : ℕ
  pub text : Bytes

-- The address that the next allocation gets, and the addresses freed, the last one first.
pub record Heap : Type 0 where
  pub fresh : ℕ
  pub freed : List ℕ

abbrev pub is_freed : ℕ → List ℕ → Bool
is_freed a [] = false
is_freed a (b ∷ freed) = a == b || is_freed a freed

-- A read through a pointer.
abbrev pub read : Ptr → Heap → Result Bytes
read p heap = if is_freed p.addr heap.freed then fault else ok p.text

-- `free`; `free(NULL)` does nothing, and to free twice is a fault.
abbrev pub free : Option Ptr → Heap → Result Heap
free none heap = ok heap
free (some p) heap =
    if is_freed p.addr heap.freed then fault else ok (record heap { freed = p.addr ∷ heap.freed })

-- What `gcli_fetch` leaves in `next_url`: the old pointer, if it does not write there.
abbrev pub set_next : Option (Option Bytes) → Option Ptr → Heap → Option Ptr × Heap
set_next none next heap = (next, heap)
set_next (some none) next heap = (none, heap)
set_next (some (some text)) next heap =
    (some (record { addr = heap.fresh; text = text }), record heap { fresh = suc heap.fresh })

-- `fl->max == -1 || (int)(*fl->sizep) < fl->max`
unfoldable pub wants_more : ℤ → ℕ → Bool
wants_more (pos max) size = let n = size % 2 ^ 32 in if ltb n (2 ^ 31) then ltb n max else true
wants_more (negsuc max) size =
    let n = size % 2 ^ 32 in
    if max == 0 then true else if ltb n (2 ^ 31) then false else ltb (max + 1) (2 ^ 32 - n)

-- `struct gcli_fetch_list_ctx`, with the bound, the parser (`true` for a result that is not negative,
-- and the list) and the filter, which does nothing if there is none.
pub record ListCtx (A : Type 0) : Type 0 where
  pub max : ℤ
  pub parse : Bytes → List A → Bool × List A
  pub filter : List A → List A

-- The variables of the loop; `made` requests were made before.
pub record Loop (A : Type 0) : Type 0 where
  pub url : Ptr
  pub next_url : Option Ptr
  pub heap : Heap
  pub items : List A
  pub made : ℕ

module _ (sn : StringViews) (respond : ℕ → Bytes → Answer) {A : Type 0} (fl : ListCtx A) where
  -- `if (rc == 0) { … }`: the result of the parser, and the list.
  abbrev pub parse_reply : Reply → List A → Bool × List A
  parse_reply reply items =
      let (good, list) = fl.parse reply.buffer items in
      if reply.good then (good, fl.filter list) else (false, items)

  -- The body of the loop up to the test of `rc`.
  unfoldable pub round : Loop A → Result (Bool × Loop A)
  round l = do
    url ← read l.url l.heap
    reply ← fetch_with_method sn (respond l.made url)
    let (next, heap) = set_next reply.next l.next_url l.heap
    let (good, items) = parse_reply reply l.items
    heap' ← free (some l.url) heap
    ok (good, record l { next_url = next; heap = heap'; items = items; made = suc l.made })

  -- `free(next_url); return rc;`
  abbrev pub finish : Bool → Option Ptr → Loop A → Result ((Bool × List A) × Heap)
  finish good next l = free next l.heap >>= λ heap. ok ((good, l.items), heap)

  -- The `break`, or the condition of the loop.
  abbrev pub after_round :
      (Loop A → Result ((Bool × List A) × Heap))
      → Option Ptr
      → Bool × Loop A
      → Result ((Bool × List A) × Heap)
  after_round loop next (false, l) = finish false next l
  after_round loop none (true, l) = finish true none l
  after_round loop (some p) (true, l) =
      let more = loop (record l { url = p }) in
      if wants_more fl.max (length l.items) then more else finish true (some p) l

  -- The loop of `gcli_fetch_list`, on fuel: the sender decides how many pages there are.
  unfoldable pub fetch_loop : ℕ → Loop A → Result ((Bool × List A) × Heap)
  fetch_loop zero l = stuck
  fetch_loop (suc fuel) l =
      round l >>= λ (good, l'). after_round (fetch_loop fuel) l'.next_url (good, l')

  -- `gcli_fetch_list`: whether it returns 0, the list, and the heap. The URL is the first allocation.
  unfoldable pub fetch_list : ℕ → Bytes → List A → Result ((Bool × List A) × Heap)
  fetch_list fuel url items = fetch_loop fuel (record {
    url = record { addr = 0; text = url };
    next_url = none;
    heap = record { fresh = 1; freed = [] };
    items = items;
    made = 0;
  })
