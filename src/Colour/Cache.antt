-- ===== src/Colour/Cache.antt =====
-- src/cmd/colour.c: the cache only saves work, as long as its array has room.
use ghcli.Colour.{
  Cache, cache_size, Result, ok, fault, cache_lookup, cache_insert, sequence_of, setcolour256,
}
use ghcli.Prelude.{
  ℕ, Bool-cases, Option-cases, ◌+◌, ◌≤◌, ◌<◌, ◌≡◌, ◌≢◌, inl, inr, refl, true, false, List, [], ◌∷◌,
  ◌++◌, Bytes, length, length-append, All, All-append, ltb, map, arith, none, some,
}

-- Every entry holds the sequence of its code.
abbrev pub IsSound : Cache → Type 0
IsSound = All (λ e. e.1 ≡ sequence_of e.0)

-- Several calls, with what each returned.
unfoldable pub setcolours : Cache → List ℕ → Result (Cache × List Bytes)
setcolours table [] = ok (table, [])
setcolours table (code ∷ more) =
    elim (setcolour256 true table code) as (λ _. Result (Cache × List Bytes)) [
      | fault ↦ fault
      | ok (table', sequence) ↦
          elim (setcolours table' more) as (λ _. Result (Cache × List Bytes)) [
            | fault ↦ fault
            | ok (table'', sequences) ↦ ok (table'', sequence ∷ sequences)
          ]
    ]

cache_lookup-IsSound :
    (table : Cache) (code : ℕ) (s : Bytes)
    → IsSound table
    → cache_lookup table code ≡ some s
    → s ≡ sequence_of code
unfolding cache_lookup
cache_lookup-IsSound [] code s h e = cc
cache_lookup-IsSound ((c, t) ∷ table) code s (h, hs) e =
    ground (arith, cache_lookup-IsSound table code s hs)

cache_insert_room :
    (table : Cache) (code : ℕ) (s : Bytes)
    → length table < cache_size
    → cache_insert table code s ≡ ok (table ++ ((code, s) ∷ []))
unfolding cache_insert
cache_insert_room table code s h = ground arith

cache_insert_full :
    (table : Cache) (code : ℕ) (s : Bytes)
    → ltb (length table) cache_size ≡ false
    → cache_insert table code s ≡ fault
unfolding cache_insert
cache_insert_full table code s h = rw h

-- One call with room in the array: the sequence of the code, at most one entry more.
setcolour256_lem :
    (table : Cache) (code : ℕ)
    → IsSound table
    → length table < cache_size
    → (table' : Cache) × (setcolour256 true table code ≡ ok (table', sequence_of code))
      × IsSound table'
      × (length table' ≤ length table + 1)
unfolding setcolour256
setcolour256_lem table code h room = elim (Option-cases (cache_lookup table code)) [
  | inl missing ↦ (
    table ++ ((code, sequence_of code) ∷ []),
    rw (missing, inserted) refl,
    All-append (λ e. e.1 ≡ sequence_of e.0) table _ h (refl, tt),
    omega (arith, length-append {0} table ((code, sequence_of code) ∷ [])),
  )
  | inr (s, found) ↦
      (table, rw found (rw (cache_lookup-IsSound table code s h found) refl), h, omega arith)
]
  where
    inserted :
        cache_insert table code (sequence_of code) ≡ ok (table ++ ((code, sequence_of code) ∷ []))
    inserted = cache_insert_room table code (sequence_of code) room

setcolours_step :
    (table : Cache) (code : ℕ) (more : List ℕ) {table₁ table₂ : Cache} {s : Bytes} {ss : List Bytes}
    → setcolour256 true table code ≡ ok (table₁, s)
    → setcolours table₁ more ≡ ok (table₂, ss)
    → setcolours table (code ∷ more) ≡ ok (table₂, s ∷ ss)
unfolding setcolours
setcolours_step table code more e e' = ground arith

setcolours_from :
    (more : List ℕ) (table : Cache)
    → IsSound table
    → length table + length more ≤ cache_size
    → (table' : Cache) × (setcolours table more ≡ ok (table', map sequence_of more))
setcolours_from [] table h room = (table, unfold setcolours in refl)
setcolours_from (code ∷ more) table h room =
    let (table₁, e, h₁, l) = setcolour256_lem table code h (omega arith) in
    let (table₂, e₂) = setcolours_from more table₁ h₁ (omega arith) in
    (table₂, setcolours_step table code more e e₂)

-- Up to 1024 calls in a row return what computing each sequence anew would return, however often
-- a code comes back.
pub setcolours_cached :
    (more : List ℕ)
    → length more ≤ cache_size
    → (table : Cache) × (setcolours [] more ≡ ok (table, map sequence_of more))
setcolours_cached more h = setcolours_from more [] tt (omega arith)

cache_lookup-append :
    (table : Cache) (c d : ℕ) (s : Bytes)
    → c ≢ d
    → cache_lookup table d ≡ none
    → cache_lookup (table ++ ((c, s) ∷ [])) d ≡ none
unfolding cache_lookup
cache_lookup-append [] c d s h e = ground arith
cache_lookup-append ((k, t) ∷ table) c d s h e = ground (arith, cache_lookup-append table c d s)

abbrev pub Distinct : List ℕ → Type 0
Distinct [] = Unit
Distinct (c ∷ more) = All (λ d. c ≢ d) more × Distinct more

abbrev Missing : Cache → List ℕ → Type 0
Missing table = All (λ d. cache_lookup table d ≡ none)

Missing-append :
    (table : Cache) (c : ℕ) (s : Bytes) (more : List ℕ)
    → All (λ d. c ≢ d) more
    → Missing table more
    → Missing (table ++ ((c, s) ∷ [])) more
Missing-append table c s [] h m = tt
Missing-append table c s (d ∷ more) (h, hs) (m, ms) =
    (cache_lookup-append table c d s h m, Missing-append table c s more hs ms)

setcolours_full :
    (more : List ℕ) (table : Cache)
    → Distinct more
    → Missing table more
    → length table ≤ cache_size
    → cache_size < length table + length more
    → setcolours table more ≡ fault
unfolding setcolours setcolour256
setcolours_full [] table d m h l = absurd (omega arith)
setcolours_full (code ∷ more) table (d, ds) (m, ms) h l =
    elim (Bool-cases (ltb (length table) cache_size)) [
      | inl room ↦
          let table' = table ++ ((code, sequence_of code) ∷ []) in
          let grown = length-append {0} table ((code, sequence_of code) ∷ []) in
          let rest : setcolours table' more ≡ fault =
            setcolours_full more table' ds (Missing-append table code _ more d ms)
              (ground (arith, grown)) (omega (arith, grown)) in
          ground (arith, cache_insert_room table code (sequence_of code))
      | inr full ↦ ground (arith, cache_insert_full table code (sequence_of code))
    ]

-- More than 1024 different codes write behind the end of the array.
pub setcolours_overflow :
    (more : List ℕ) → Distinct more → cache_size < length more → setcolours [] more ≡ fault
setcolours_overflow more d h =
    setcolours_full more [] d (nothing_cached more) (omega arith) (omega arith)
  where
    nothing_cached : (l : List ℕ) → Missing [] l
    nothing_cached [] = tt
    nothing_cached (c ∷ l) = (unfold cache_lookup in refl, nothing_cached l)
