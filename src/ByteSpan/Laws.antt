-- ===== src/ByteSpan/Laws.antt =====
-- src/byte_span.cpp: construction, slices and copies.
use emilua.Common.{
  ℕ, ◌+◌, ◌-◌, ◌≤◌, ◌≡◌, inl, inr, arith, ◌==◌, take, drop, length-drop, pos, Bool-cases,
}
use emilua.ByteSpan.{
  Bytes, Handle, Memory, number, span, ok, bytes_at, view, check_span, check_integer, slice_at,
  slice,
}
use emilua.ByteSpan.View.{IsValid, null-IsValid, IsKnown-advance, bytes_at-advance}

-- The range of a slice lies within the capacity.
abbrev pub InRange : Handle → ℕ → ℕ → Type 0
InRange h start end_ = (1 ≤ start) × (start ≤ end_ + 1) × (end_ ≤ h.capacity)

-- What a slice shows: `end - start + 1` bytes of the span's memory, up to its capacity.
abbrev pub sliced : Memory → Handle → ℕ → ℕ → Bytes
sliced m h start end_ = take (end_ + 1 - start) (drop (start - 1) (bytes_at m h.place))

module _ (m : Memory) (h : Handle) (start end_ : ℕ) where
  slice_at-IsValid : IsValid m h → InRange h start end_ → IsValid m (slice_at h start end_)
  unfolding slice_at
  slice_at-IsValid v r = elim (Bool-cases (h.capacity + 1 - start == 0)) [
    | inl e ↦ rw e (null-IsValid m)
    | inr e ↦ rw e (record {
      known = IsKnown-advance m h.place (start - 1) v.known;
      sized = omega arith;
      backed =
          rw (bytes_at-advance m h.place (start - 1))
            (omega (arith, length-drop (start - 1) (bytes_at m h.place), v.backed));
    })
  ]

  view-slice_at : InRange h start end_ → view m (slice_at h start end_) ≡ sliced m h start end_
  unfolding slice_at view
  view-slice_at r = elim (Bool-cases (h.capacity + 1 - start == 0)) [
    | inl e ↦ let nothing : end_ + 1 - start ≡ 0 = ground arith in rw (e, nothing)
    | inr e ↦ rw (e, bytes_at-advance m h.place (start - 1))
  ]

  slice_ok :
      InRange h start end_
      → slice (span h) (number (pos start)) (number (pos end_)) m ≡ ok (slice_at h start end_) m
  unfolding slice check_span check_integer
  slice_ok r = ground arith

-- A slice of a valid span whose range lies within the capacity succeeds with a valid span of the
-- same memory that shows the bytes from `start` to `end`, also those past the span's length, and
-- leaves the memory as it is.
pub slice_lem :
    (m : Memory) (h : Handle) (start end_ : ℕ)
    → IsValid m h
    → InRange h start end_
    → (s : Handle) × (slice (span h) (number (pos start)) (number (pos end_)) m ≡ ok s m)
      × IsValid m s
      × (view m s ≡ sliced m h start end_)
slice_lem m h start end_ v r = (
  slice_at h start end_,
  slice_ok m h start end_ r,
  slice_at-IsValid m h start end_ v r,
  view-slice_at m h start end_ r,
)
