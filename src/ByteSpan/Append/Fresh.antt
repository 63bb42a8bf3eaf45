-- ===== src/ByteSpan/Append/Fresh.antt =====
-- src/byte_span.cpp: `append` to a new array.
use emilua.Common.{
  ℕ, ◌+◌, ◌≤◌, ◌<◌, ◌≡◌, refl, ap, ◌∙◌, inl, inr, true, false, Option, none, some, List, [], ◌∷◌,
  ◌++◌, arith, ltb, ◌==◌, if◌then◌else◌, length, Bool-cases,
}
use emilua.ByteSpan.{Handle, Memory, positive_overflow, ok, err, view, allocate, write, ◌>>=◌}
use emilua.ByteSpan.View.{
  bind_ok, IsValid, IsKnown, length-view, Room, allocated, view-allocated, Room-allocated,
}
use emilua.ByteSpan.Append.{
  integer_max, Slice, fixed, live, slice_size, slice_bytes, add_sizes, copy_slices, destination,
  fill, append_slices, append_total, join_total, join_slices,
}
use emilua.ByteSpan.Append.Copies.{
  concatenation, total_size, IsApart, AllReadable, copy_slices_lem, view-copy_slices, add_sizes_lem,
  add_sizes_overflow,
}

abbrev pub AllValid : Memory → List Slice → Type 0
AllValid m [] = Unit {0}
AllValid m (fixed s ∷ slices) = AllValid m slices
AllValid m (live h ∷ slices) = IsValid m h × AllValid m slices

-- A known pointer is not into the next array.
IsApart-next :
    (m : Memory) (p : Option (ℕ × ℕ)) (size : ℕ) → IsKnown m p → IsApart (length m.arrays) 0 p size
IsApart-next m none size k = tt
IsApart-next m (some (b, q)) size k = inl (λ e. absurd (omega arith))

-- Slices that are copied to a new array of their total size.
module _ (m : Memory) (slices : List Slice) (n : ℕ) (size : n ≡ total_size slices)
    (all : AllValid m slices) where
  abbrev fresh : Handle
  fresh = record { place = some (length m.arrays, 0); size = n; capacity = n }

  abbrev filled : Memory
  filled = copy_slices fresh 0 slices (allocated m n)

  readable : (ss : List Slice) → AllValid m ss → AllReadable (allocated m n) (length m.arrays) 0 ss
  readable [] _ = tt
  readable (fixed s ∷ ss) all_ = (tt, readable ss all_)
  readable (live h ∷ ss) all_ = (
    (
      ap length (view-allocated m n h all_.0.known) ∙ length-view m h all_.0,
      IsApart-next m h.place h.size all_.0.known,
    ),
    readable ss all_.1,
  )

  concatenation-allocated :
      (ss : List Slice) → AllValid m ss → concatenation (allocated m n) ss ≡ concatenation m ss
  unfolding concatenation slice_bytes
  concatenation-allocated [] _ = refl
  concatenation-allocated (fixed s ∷ ss) all_ = rw (concatenation-allocated ss all_)
  concatenation-allocated (live h ∷ ss) all_ =
      rw (view-allocated m n h all_.0.known, concatenation-allocated ss all_.1)

  fresh-Room : Room (allocated m n) (length m.arrays) 0 (0 + total_size slices)
  fresh-Room =
      let r = Room-allocated m n in record { known = r.known; fits = omega (arith, r.fits) }

  view-filled : view filled fresh ≡ concatenation m slices
  unfolding view
  view-filled =
      let e : 0 + total_size slices ≡ n = omega arith in
      (rw e at (
        copy_slices_lem fresh (length m.arrays) 0 0 refl slices (allocated m n) 0 (omega arith)
          fresh-Room (readable slices all)))
      ∙ concatenation-allocated slices all

  filled_keeps : (h : Handle) → IsKnown m h.place → view filled h ≡ view m h
  filled_keeps h k =
      view-copy_slices fresh (length m.arrays) 0 0 refl h (IsApart-next m h.place h.size k) slices
        (allocated m n) 0 (omega arith) fresh-Room (readable slices all)
      ∙ view-allocated m n h k

summed :
    (m : Memory) (slices : List Slice)
    → total_size slices ≤ integer_max
    → add_sizes 0 slices m ≡ ok (total_size slices) m
summed m slices small =
    let e : 0 + total_size slices ≡ total_size slices = omega arith in
    rw e at (add_sizes_lem m 0 slices (omega arith))

module _ (m : Memory) (slices : List Slice) (all : AllValid m slices)
    (small : total_size slices ≤ integer_max) (some_bytes : 0 < total_size slices) where
  abbrev joined : Memory
  joined = filled m slices (total_size slices) refl all

  abbrev joined_handle : Handle
  joined_handle = fresh m slices (total_size slices) refl all

  join_runs : join_slices slices m ≡ ok joined_handle joined
  unfolding join_slices join_total fill allocate
  join_runs =
      bind_ok (add_sizes 0 slices) (join_total slices) (summed m slices small) ∙ ground arith

module _ (m : Memory) (bs : Handle) (slices : List Slice) (v : IsValid m bs)
    (all : AllValid m slices) (large : bs.capacity < bs.size + total_size slices)
    (small : bs.size + total_size slices ≤ integer_max) where
  as_slices : AllValid m (live bs ∷ slices)
  as_slices = (v, all)

  size_of : bs.size + total_size slices ≡ total_size (live bs ∷ slices)
  unfolding total_size slice_size
  size_of = refl

  -- The span's own bytes are copied like a slice in front of the others.
  copied_first :
      (dst : Handle) (w : Memory)
      → copy_slices dst bs.size slices
          (if ltb 0 bs.size then write dst.place 0 (view w bs) w else w)
        ≡ copy_slices dst 0 (live bs ∷ slices) w
  unfolding copy_slices slice_size slice_bytes
  copied_first dst w =
      let e : 0 + bs.size ≡ bs.size = omega arith in
      elim (Bool-cases (ltb 0 bs.size)) [
        | inl some_ ↦ let f : (bs.size == 0) ≡ false = ground arith in rw (some_, f, e)
        | inr none_ ↦ let f : (bs.size == 0) ≡ true = ground arith in rw (none_, f, e)
      ]

  append_runs :
      append_slices bs slices m
      ≡ ok
          (fresh m (live bs ∷ slices) (bs.size + total_size slices) size_of as_slices)
          (filled m (live bs ∷ slices) (bs.size + total_size slices) size_of as_slices)
  unfolding append_slices append_total destination fill allocate
  append_runs =
      bind_ok (add_sizes bs.size slices) (append_total bs slices)
        (add_sizes_lem m bs.size slices small)
      ∙ ground (
        arith,
        copied_first (fresh m (live bs ∷ slices) (bs.size + total_size slices) size_of as_slices)
            (allocated m (bs.size + total_size slices)),
      )

-- If the total exceeds the capacity of a valid span and fits in a `lua_Integer`, and the spans
-- among the arguments are valid, `append` makes a span without spare capacity that shows the bytes
-- of the span and then those of the arguments, and every valid handle shows what it showed.
pub append_slices_new :
    (m : Memory) (bs : Handle) (slices : List Slice)
    → IsValid m bs
    → AllValid m slices
    → bs.capacity < bs.size + total_size slices
    → bs.size + total_size slices ≤ integer_max
    → (h : Handle) → IsValid m h
    → (s : Handle) × (m' : Memory) × (append_slices bs slices m ≡ ok s m')
      × (s.size ≡ s.capacity)
      × (view m' s ≡ view m bs ++ concatenation m slices)
      × (view m' h ≡ view m h)
unfolding concatenation slice_bytes
append_slices_new m bs slices v all large small h vh = (
  _,
  _,
  append_runs m bs slices v all large small,
  refl,
  view-filled m (live bs ∷ slices) (bs.size + total_size slices)
      (size_of m bs slices v all large small) (v, all),
  filled_keeps m (live bs ∷ slices) (bs.size + total_size slices)
      (size_of m bs slices v all large small) (v, all) h vh.known,
)

-- For valid arguments whose total is positive and fits in a `lua_Integer`, the function `append`
-- makes a span without spare capacity that shows the bytes of the arguments in order, and every
-- valid handle shows what it showed.
pub join_slices_lem :
    (m : Memory) (slices : List Slice)
    → AllValid m slices
    → 0 < total_size slices
    → total_size slices ≤ integer_max
    → (h : Handle) → IsValid m h
    → (s : Handle) × (m' : Memory) × (join_slices slices m ≡ ok s m')
      × (s.size ≡ s.capacity)
      × (view m' s ≡ concatenation m slices)
      × (view m' h ≡ view m h)
join_slices_lem m slices all some_bytes small h vh = (
  _,
  _,
  join_runs m slices all small some_bytes,
  refl,
  view-filled m slices (total_size slices) refl all,
  filled_keeps m slices (total_size slices) refl all h vh.known,
)

-- If the size of a span fits in a `lua_Integer` and the total with the arguments does not, `append`
-- fails with a positive overflow.
pub append_overflow :
    (m : Memory) (bs : Handle) (slices : List Slice)
    → bs.size ≤ integer_max
    → integer_max < bs.size + total_size slices
    → append_slices bs slices m ≡ err positive_overflow
unfolding append_slices
append_overflow m bs slices h k = rw (add_sizes_overflow m bs.size slices h k, ◌>>=◌)
