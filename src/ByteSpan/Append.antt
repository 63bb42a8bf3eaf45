-- ===== src/ByteSpan/Append.antt =====
-- src/byte_span.cpp: the two `append` functions. The arguments are kept as string views, so a span
-- among them is read when it is copied. A `memcpy` is taken to read all before it writes.
pub mod Copies
pub mod Laws
pub mod Fresh
use emilua.Common.{
  ℕ, zero, suc, ◌+◌, ◌-◌, ◌^◌, ◌≡◌, Bool, true, false, Option, none, some, List, [], ◌∷◌, ◌==◌, ltb,
  leb, if◌then◌else◌, length,
}
use emilua.ByteSpan.{
  Bytes, Handle, Memory, Arg, nil, string, span, Error, arg, positive_overflow, Result, ok, err, M,
  return, fail, ◌>>=◌, null_handle, view, allocate, write, check_span,
}

-- The largest `lua_Integer` that `safe<lua_Integer>` holds.
abbrev pub integer_max : ℕ
integer_max = 2 ^ 63 - 1

-- A string view: of bytes that do not change, or of a span.
pub data Slice : Type 0 where
  fixed : Bytes → Slice
  live : Handle → Slice

unfoldable pub slice_size : Slice → ℕ
slice_size (fixed s) = length s
slice_size (live h) = h.size

unfoldable pub slice_bytes : Memory → Slice → Bytes
slice_bytes m (fixed s) = s
slice_bytes m (live h) = view m h

unfoldable pub check_slice : ℕ → Arg → M Slice
check_slice i nil m = ok (fixed []) m
check_slice i (string s) m = ok (fixed s) m
check_slice i (span h) m = ok (live h) m
check_slice i _ m = err (arg i)

-- The arguments from position `i` on.
unfoldable pub check_slices : ℕ → List Arg → M (List Slice)
check_slices i [] = return []
check_slices i (a ∷ args) = do
  s ← check_slice i a
  rest ← check_slices (i + 1) args
  return (s ∷ rest)

-- `total_size += s.size()` for every slice.
unfoldable pub add_sizes : ℕ → List Slice → M ℕ
add_sizes total [] = return total
add_sizes total (s ∷ slices) =
    let rest = add_sizes (total + slice_size s) slices in
    if ltb integer_max (total + slice_size s) then fail positive_overflow else rest

-- The copies, from index `idx` of the destination on.
unfoldable pub copy_slices : Handle → ℕ → List Slice → Memory → Memory
copy_slices dst idx [] m = m
copy_slices dst idx (s ∷ slices) m =
    copy_slices dst (idx + slice_size s) slices
      (if slice_size s == 0 then m else write dst.place idx (slice_bytes m s) m)

-- The destination: the span's own memory if its capacity holds all, or a new array with its bytes.
unfoldable pub destination : Handle → ℕ → M Handle
destination bs total m =
    if leb total bs.capacity
    then ok (record bs { size = total }) m
    else elim (allocate total total m) [
      | ok dst m' ↦ ok dst (if ltb 0 bs.size then write dst.place 0 (view m' bs) m' else m')
      | err e ↦ err e
    ]

unfoldable pub fill : Handle → ℕ → List Slice → M Handle
fill dst idx slices m = ok dst (copy_slices dst idx slices m)

unfoldable pub append_total : Handle → List Slice → ℕ → M Handle
append_total bs slices total =
    if total == 0
    then return null_handle
    else (do dst ← destination bs total; fill dst bs.size slices)

unfoldable pub append_slices : Handle → List Slice → M Handle
append_slices bs slices = do total ← add_sizes bs.size slices; append_total bs slices total

unfoldable pub member_append : Arg → List Arg → M Handle
member_append self [] = check_span 1 self
member_append self (a ∷ args) = do
  bs ← check_span 1 self
  slices ← check_slices 2 (a ∷ args)
  append_slices bs slices

unfoldable pub join_total : List Slice → ℕ → M Handle
join_total slices total =
    if total == 0 then return null_handle else (do dst ← allocate total total; fill dst 0 slices)

unfoldable pub join_slices : List Slice → M Handle
join_slices slices = do total ← add_sizes 0 slices; join_total slices total

unfoldable pub non_member_append : List Arg → M Handle
non_member_append [] = return null_handle
non_member_append (a ∷ args) = do slices ← check_slices 1 (a ∷ args); join_slices slices
