-- ===== src/Dict/Align.antt =====
-- src/cmd/table.c: the colons of a dictionary.
use ghcli.Prelude.{
  ℕ, Option-cases, ◌+◌, ◌*◌, ◌^◌, ◌≤◌, ◌<◌, ◌≡◌, inl, inr, refl, List, [], ◌∷◌, ◌++◌, Bytes, length,
  length-append, length-replicate, All, All-append, arith, codes, Option, none, some,
}
use ghcli.Table.{Flags}
use ghcli.Table.Dump.{Style, sub_size, pad}
use ghcli.Dict.{
  Entry, Dict, begin, add_row, add, add_string, add_timestamp, no_flags, total_size, concatenate,
  sum_lengths, add_sv_list, add_string_list, lead, print_entry,
}

-- One call that adds an entry.
pub data Call : Type 0 where
  add_call : Bytes → Flags → ℕ → Bytes → Call
  add_string_call add_timestamp_call : Bytes → Flags → ℕ → Option Bytes → Call
  add_sv_list_call add_string_list_call : Bytes → List Bytes → Call

abbrev pub key_of : Call → Bytes
key_of (add_call key flags colour text) = key
key_of (add_string_call key flags colour str) = key
key_of (add_timestamp_call key flags colour stamp) = key
key_of (add_sv_list_call key list) = key
key_of (add_string_list_call key list) = key

module _ (join_with : List Bytes → Bytes → Bytes) where
  abbrev pub call : Dict → Call → Dict
  call dict (add_call key flags colour text) = add dict key flags colour text
  call dict (add_string_call key flags colour str) = add_string dict key flags colour str
  call dict (add_timestamp_call key flags colour stamp) =
      (add_timestamp dict key flags colour stamp).0
  call dict (add_sv_list_call key list) = add_sv_list dict key list
  call dict (add_string_list_call key list) = add_string_list join_with dict key list

  abbrev pub build : Dict → List Call → Dict
  build dict [] = dict
  build dict (c ∷ calls) = build (call dict c) calls

-- Every key fits the width of the keys, which a `size_t` holds.
abbrev pub IsFit : Dict → Type 0
IsFit dict =
    All (λ entry. length entry.key ≤ dict.max_key_len) dict.entries × (dict.max_key_len < 2 ^ 64)

IsFit-mono :
    (entries : List Entry) (m n : ℕ)
    → m ≤ n
    → All (λ entry. length entry.key ≤ m) entries
    → All (λ entry. length entry.key ≤ n) entries
IsFit-mono [] m n h k = tt
IsFit-mono (entry ∷ entries) m n h k = (omega (arith, k.0), IsFit-mono entries m n h k.1)

add_row-IsFit :
    (dict : Dict) (key : Bytes) (flags : Flags) (colour : ℕ) (value : Option Bytes)
    → length key < 2 ^ 64
    → IsFit dict
    → IsFit (add_row dict key flags colour value)
unfolding add_row
add_row-IsFit dict key flags colour value h (fits, bound) = (
  All-append _ dict.entries _ (IsFit-mono dict.entries dict.max_key_len _ (ground arith) fits)
      (ground arith, tt),
  ground arith,
)

module _ (join_with : List Bytes → Bytes → Bytes) where
  call-IsFit :
      (dict : Dict) (c : Call)
      → length (key_of c) < 2 ^ 64
      → IsFit dict
      → IsFit (call join_with dict c)
  call-IsFit dict (add_call key flags colour text) h fit =
      add_row-IsFit dict key flags colour _ h fit
  call-IsFit dict (add_string_call key flags colour none) h fit =
      add_row-IsFit dict key flags colour _ h fit
  call-IsFit dict (add_string_call key flags colour (some str)) h fit =
      add_row-IsFit dict key flags colour _ h fit
  call-IsFit dict (add_timestamp_call key flags colour none) h fit = fit
  call-IsFit dict (add_timestamp_call key flags colour (some stamp)) h fit =
      add_row-IsFit dict key flags colour _ h fit
  call-IsFit dict (add_sv_list_call key []) h fit = add_row-IsFit dict key no_flags 0 _ h fit
  call-IsFit dict (add_sv_list_call key (s ∷ list)) h fit =
      add_row-IsFit dict key no_flags 0 _ h fit
  call-IsFit dict (add_string_list_call key list) h fit = add_row-IsFit dict key no_flags 0 _ h fit

  build-IsFit :
      (dict : Dict) (calls : List Call)
      → All (λ c. length (key_of c) < 2 ^ 64) calls
      → IsFit dict
      → IsFit (build join_with dict calls)
  build-IsFit dict [] h fit = fit
  build-IsFit dict (c ∷ calls) h fit =
      build-IsFit (call join_with dict c) calls h.1 (call-IsFit dict c h.0 fit)

-- A line with its colon behind `n` characters and a space; or nothing printed.
abbrev pub HasColonAt : ℕ → Option Bytes → Type 0
HasColonAt n none = Unit
HasColonAt n (some line) =
    (front : Bytes) × (back : Bytes) × ((line ≡ front ++ (codes " : " ++ back))
      × (length front ≡ n))

length-lead :
    (dict : Dict) (entry : Entry) (style : Style) (f g : ℕ → Bytes)
    → length entry.key ≤ dict.max_key_len
    → dict.max_key_len < 2 ^ 64
    → length (lead style f g dict entry) ≡ dict.max_key_len
length-lead dict entry style f g h bound =
    rw
      (
        length-append (pad (sub_size dict.max_key_len (length entry.key))) entry.key,
        length-replicate {A = ℕ} (sub_size dict.max_key_len (length entry.key)) b' ',
      )
      (omega arith)

module _ (style : Style) (set_colour set_colour256 : ℕ → Bytes) where
  print_entry-HasColonAt :
      (dict : Dict) (entry : Entry)
      → length entry.key ≤ dict.max_key_len
      → dict.max_key_len < 2 ^ 64
      → HasColonAt dict.max_key_len (print_entry style set_colour set_colour256 dict entry)
  unfolding print_entry
  print_entry-HasColonAt dict entry h bound = elim (Option-cases entry.value) [
    | inl missing ↦ rw missing tt
    | inr (value, e) ↦ rw e (
      lead style set_colour set_colour256 dict entry,
      _,
      (refl, length-lead dict entry style set_colour set_colour256 h bound),
    )
  ]

  print_entries-HasColonAt :
      (dict : Dict) (entries : List Entry)
      → All (λ entry. length entry.key ≤ dict.max_key_len) entries
      → dict.max_key_len < 2 ^ 64
      → All
          (λ entry.
            HasColonAt dict.max_key_len (print_entry style set_colour set_colour256 dict entry))
          entries
  print_entries-HasColonAt dict [] h bound = tt
  print_entries-HasColonAt dict (entry ∷ entries) h bound =
      (print_entry-HasColonAt dict entry h.0 bound, print_entries-HasColonAt dict entries h.1 bound)

  -- In a dictionary filled by any calls that add entries, with keys shorter than 2 ^ 64 bytes, the
  -- line that gcli_dict_end prints for an entry has its colon at the same column, `max_key_len`, for
  -- every entry (a null value prints nothing).
  pub build-HasColonAt :
      (join_with : List Bytes → Bytes → Bytes) (calls : List Call)
      → All (λ c. length (key_of c) < 2 ^ 64) calls
      → let dict = build join_with begin calls in
        All
          (λ entry.
            HasColonAt dict.max_key_len (print_entry style set_colour set_colour256 dict entry))
          dict.entries
  build-HasColonAt join_with calls h =
      let fit = build-IsFit join_with begin calls h (tt, omega arith) in
      print_entries-HasColonAt _ _ fit.0 fit.1

abbrev sum : List Bytes → ℕ
sum [] = 0
sum (s ∷ list) = length s + (2 + sum list)

length-concatenate :
    (s : Bytes) (list : List Bytes) → length (concatenate (s ∷ list)) + 2 ≡ sum (s ∷ list)
unfolding concatenate
length-concatenate s [] = omega arith
length-concatenate s (t ∷ list) =
    rw (length-append s (codes ", " ++ concatenate (t ∷ list)))
      (omega (arith, length-concatenate t list))

sum-eq : (list : List Bytes) → sum list ≡ sum_lengths list + length list * 2
sum-eq [] = refl
sum-eq (s ∷ list) = omega (arith, sum-eq list)

-- For a list of one string at least, as long as the strings and separators take less than 2 ^ 64
-- bytes, gcli_dict_add_sv_list allocates exactly the bytes it writes: the size it computes is the
-- length of the strings with ", " in between.
pub length-concatenate-total_size :
    (s : Bytes) (list : List Bytes)
    → sum_lengths (s ∷ list) + length (s ∷ list) * 2 < 2 ^ 64
    → length (concatenate (s ∷ list)) ≡ total_size (s ∷ list)
unfolding total_size
length-concatenate-total_size s list h = omega (arith, length-concatenate s list, sum-eq (s ∷ list))
