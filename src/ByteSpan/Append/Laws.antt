-- ===== src/ByteSpan/Append/Laws.antt =====
-- src/byte_span.cpp: what `append` returns, in place and in a new array.
use emilua.Common.{ℕ, ◌+◌, ◌≤◌, ◌<◌, ◌≡◌, sym, subst, ◌∙◌, some, List, ◌++◌, arith, take}
use emilua.ByteSpan.{Handle, Memory, ok, bytes_at, view}
use emilua.ByteSpan.View.{bind_ok, IsValid, Room, IsValid-Room}
use emilua.ByteSpan.Append.{
  integer_max, Slice, add_sizes, copy_slices, destination, fill, append_slices, append_total,
}
use emilua.ByteSpan.Append.Copies.{
  concatenation, total_size, IsApart, AllReadable, copy_slices_lem, view-copy_slices, add_sizes_lem,
}

module _ (m : Memory) (bs : Handle) (slices : List Slice) (v : IsValid m bs) (a offset : ℕ)
    (at : bs.place ≡ some (a, offset)) (all : AllReadable m a (offset + bs.size) slices)
    (fits : bs.size + total_size slices ≤ bs.capacity) (small : bs.capacity ≤ integer_max)
    (some_bytes : 0 < bs.size + total_size slices) where
  abbrev total : ℕ
  total = bs.size + total_size slices

  abbrev grown : Handle
  grown = record bs { size = total }

  abbrev appended : Memory
  appended = copy_slices grown bs.size slices m

  room : Room m a offset bs.capacity
  room = IsValid-Room m bs a offset v at (omega arith)

  enough : Room m a offset total
  enough = record { known = room.known; fits = omega (arith, room.fits) }

  append_in_place : append_slices bs slices m ≡ ok grown appended
  unfolding append_slices append_total destination fill
  append_in_place =
      bind_ok (add_sizes bs.size slices) (append_total bs slices)
        (add_sizes_lem m bs.size slices (omega arith))
      ∙ ground arith

  view-grown : view appended grown ≡ view m bs ++ concatenation m slices
  unfolding view
  view-grown =
      subst
        (λ p.
          take total (bytes_at appended p) ≡ take bs.size (bytes_at m p) ++ concatenation m slices)
        (sym at)
        (copy_slices_lem grown a offset (offset + bs.size) at slices m bs.size (omega arith) enough
          all)

  kept : (h : Handle) → IsApart a (offset + bs.size) h.place h.size → view appended h ≡ view m h
  kept h apart =
      view-copy_slices grown a offset (offset + bs.size) at h apart slices m bs.size (omega arith)
        enough all

-- If the total is positive and fits in the capacity of a valid span that is not null, the capacity
-- fits in a `lua_Integer`, and the arguments have as many bytes as they say and are apart from the
-- bytes behind the span, `append` succeeds in place: the result has the same memory, shows the
-- bytes of the span and then those of the arguments, and every handle that ends before these bytes,
-- or is in another array, shows what it showed.
pub append_slices_in_place :
    (m : Memory) (bs : Handle) (slices : List Slice) (a offset : ℕ)
    → IsValid m bs
    → bs.place ≡ some (a, offset)
    → AllReadable m a (offset + bs.size) slices
    → bs.size + total_size slices ≤ bs.capacity
    → bs.capacity ≤ integer_max
    → 0 < bs.size + total_size slices
    → (h : Handle) → IsApart a (offset + bs.size) h.place h.size
    → (m' : Memory) × (append_slices bs slices m
        ≡ ok (record bs { size = bs.size + total_size slices }) m')
      × (view m' (record bs { size = bs.size + total_size slices })
          ≡ view m bs ++ concatenation m slices)
      × (view m' h ≡ view m h)
append_slices_in_place m bs slices a offset v at all fits small pos_ h apart = (
  appended m bs slices v a offset at all fits small pos_,
  append_in_place m bs slices v a offset at all fits small pos_,
  view-grown m bs slices v a offset at all fits small pos_,
  kept m bs slices v a offset at all fits small pos_ h apart,
)
