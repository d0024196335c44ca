-- ===== src/Json/Gen/Buffer.antt =====
-- src/json_gen.c: the buffer always has room for what is written, and the stack for its scopes.
use ghcli.Prelude.{
  ℕ, zero, suc, Bool-cases, ◌+◌, ◌^◌, ◌≤◌, ◌<◌, inl, inr, false, Bool, not, Bytes, length,
  length-append, arith, ◌&&◌, codes,
}
use ghcli.Json.Gen.{
  Gen, max_scopes, grow_buffer, fit_loop, fit, is_array_or_object_scope, append_str, append_strf,
  put_comma_if_needed,
}

-- The largest text that is built: the length of a piece fits the `int` that vsnprintf returns, and
-- doubling a `size_t` does not wrap.
abbrev pub max_text : ℕ
max_text = 2 ^ 31

-- What is written lies in the allocated buffer, and the scopes in their array.
pub record IsValid (gen : Gen) : Type 0 where
  pub allocated : 0 < gen.buffer_capacity
  pub size_t : gen.buffer_capacity < 2 ^ 64
  pub in_buffer : length gen.buffer ≤ gen.buffer_capacity
  pub in_stack : length gen.scopes ≤ max_scopes

-- The loop ends by its test, so that `n` more bytes fit.
fit_loop-room :
    (fuel size n capacity : ℕ)
    → 0 < capacity
    → capacity < 2 ^ 64
    → size ≤ capacity
    → size + n ≤ max_text
    → size + n ≤ capacity + fuel
    → (size + n ≤ fit_loop fuel size n capacity)
      × (0 < fit_loop fuel size n capacity)
      × (fit_loop fuel size n capacity < 2 ^ 64)
unfolding fit_loop
fit_loop-room zero size n capacity h0 hw hs hm hf = omega arith
fit_loop-room (suc fuel) size n capacity h0 hw hs hm hf =
    ground (arith, fit_loop-room fuel size n (grow_buffer capacity))

-- Room for `n` bytes behind the text, under the bound on sizes.
pub fit_room :
    (gen : Gen) (n : ℕ)
    → IsValid gen
    → length gen.buffer + n ≤ max_text
    → (length gen.buffer + n ≤ (fit gen n).buffer_capacity)
      × (0 < (fit gen n).buffer_capacity)
      × ((fit gen n).buffer_capacity < 2 ^ 64)
unfolding fit
fit_room gen n v h =
    fit_loop-room n (length gen.buffer) n gen.buffer_capacity v.allocated v.size_t v.in_buffer h
      (omega arith)

-- The flags play no part in it.
pub flags-IsValid :
    {gen : Gen} (await first : Bool)
    → IsValid gen
    → IsValid (record gen { await_object_value = await; first_elem = first })
flags-IsValid await first v = record {
  allocated = v.allocated;
  size_t = v.size_t;
  in_buffer = v.in_buffer;
  in_stack = v.in_stack;
}

pub append_str-IsValid :
    (gen : Gen) (str : Bytes)
    → IsValid gen
    → length (append_str gen str).buffer ≤ max_text
    → IsValid (append_str gen str)
unfolding append_str
append_str-IsValid gen str v h =
    let l = length-append {0} gen.buffer str in
    let (room, some_room, wide) = fit_room gen (length str) v (omega (arith, l)) in
    record {
      allocated = some_room;
      size_t = wide;
      in_buffer = omega (arith, l);
      in_stack = unfold fit in v.in_stack;
    }

pub append_strf-IsValid :
    (gen : Gen) (str : Bytes)
    → IsValid gen
    → length (append_strf gen str).buffer + 1 ≤ max_text
    → IsValid (append_strf gen str)
unfolding append_strf
append_strf-IsValid gen str v h =
    let l = length-append {0} gen.buffer str in
    let (room, some_room, wide) = fit_room gen (length str + 1) v (omega (arith, l)) in
    record {
      allocated = some_room;
      size_t = wide;
      in_buffer = omega (arith, l);
      in_stack = unfold fit in v.in_stack;
    }

pub put_comma-IsValid :
    (gen : Gen)
    → IsValid gen
    → length (put_comma_if_needed gen).buffer ≤ max_text
    → IsValid (put_comma_if_needed gen)
unfolding put_comma_if_needed
put_comma-IsValid gen v h =
    elim (Bool-cases
      (not gen.await_object_value && not gen.first_elem && is_array_or_object_scope gen)) [
        | inl e ↦ rw e (
            flags-IsValid (append_str gen (codes ", ")).await_object_value false
              (append_str-IsValid gen (codes ", ") v (rw e at h)))
        | inr e ↦ rw e (flags-IsValid gen.await_object_value false v)
      ]

pub length-append_strf :
    (gen : Gen) (str : Bytes) → length gen.buffer ≤ length (append_strf gen str).buffer
unfolding append_strf
length-append_strf gen str = omega (arith, length-append {0} gen.buffer str)

pub length-append_str :
    (gen : Gen) (str : Bytes) → length gen.buffer ≤ length (append_str gen str).buffer
unfolding append_str
length-append_str gen str = omega (arith, length-append {0} gen.buffer str)
