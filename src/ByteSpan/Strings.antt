-- ===== src/ByteSpan/Strings.antt =====
-- src/byte_span.cpp: the string algorithms. Positions are counted from 1.
pub mod Laws
pub mod Trim
pub mod Affixes
use emilua.Common.{
  ℕ, suc, ◌+◌, ◌-◌, ◌≡◌, Bool, true, false, ◌||◌, Option, none, some, List, [], ◌∷◌, ◌==◌, ltb, leb,
  if◌then◌else◌, length, ℤ, pos, negsuc, ltb_ℤ, ◌-ℤ◌, pos_part,
}
use emilua.ByteSpan.{
  Bytes, Handle, Arg, nil, none_, string, span, Error, arg, result_out_of_range, Result, ok, err, M,
  return, fail, ◌>>=◌, null_handle, advance, view, check_span, check_bytes, check_integer,
}
use emilua.ByteSpan.Search.{
  starts_with, ends_with, is_in, is_not_in, sv_find, sv_rfind, sv_first, sv_last,
}

unfoldable pub byte_span_starts_with : Arg → Arg → M Bool
byte_span_starts_with self pat_arg = do
  bs ← check_span 1 self
  src ← check_bytes 2 pat_arg
  λ m. ok (starts_with src (view m bs)) m

unfoldable pub byte_span_ends_with : Arg → Arg → M Bool
byte_span_ends_with self pat_arg = do
  bs ← check_span 1 self
  src ← check_bytes 2 pat_arg
  λ m. ok (ends_with src (view m bs)) m

-- The pattern of a search: `nil`, or no argument, stands for an empty one.
unfoldable pub check_pattern : Arg → M Bytes
check_pattern nil m = ok [] m
check_pattern none_ m = ok [] m
check_pattern a m = check_bytes 2 a m

-- `npos` becomes `nil`, and a position the index behind it.
abbrev pub to_index : Option ℕ → Option ℕ
to_index none = none
to_index (some i) = some (i + 1)

-- The ends of a search that begins at `start`: out of range, or past the last byte.
unfoldable pub search_from : ℕ → ℤ → (ℕ → Option ℕ) → M (Option ℕ)
search_from size start find_ =
    if ltb_ℤ start (pos 1) || ltb_ℤ (pos size) (start -ℤ pos 1)
    then fail result_out_of_range
    else if ltb_ℤ (pos size) start
    then return none
    else return (to_index (find_ (pos_part start - 1)))

-- And of one that ends at `end`.
unfoldable pub search_to : ℕ → ℤ → (ℕ → Option ℕ) → M (Option ℕ)
search_to size end_ find_ =
    if ltb_ℤ end_ (pos 0) || ltb_ℤ (pos size) end_
    then fail result_out_of_range
    else if pos_part end_ == 0
    then return none
    else return (to_index (find_ (pos_part end_ - 1)))

-- The frame of the four searches forwards, from the third argument on, and whole.
unfoldable pub search_up_for : (Bytes → Bytes → ℕ → Option ℕ) → Handle → Arg → Bytes → M (Option ℕ)
search_up_for find_ bs start_arg pat = do
  start ← check_integer (arg 3) (pos 1) start_arg
  λ m. search_from bs.size start (find_ (view m bs) pat) m

unfoldable pub search_up : (Bytes → Bytes → ℕ → Option ℕ) → Arg → Arg → Arg → M (Option ℕ)
search_up find_ self pat_arg start_arg = do
  bs ← check_span 1 self
  pat ← check_pattern pat_arg
  search_up_for find_ bs start_arg pat

-- And of the three backwards.
unfoldable pub search_down_for :
    (Bytes → Bytes → ℕ → Option ℕ) → Handle → Arg → Bytes → M (Option ℕ)
search_down_for find_ bs end_arg pat = do
  end_ ← check_integer (arg 3) (pos bs.size) end_arg
  λ m. search_to bs.size end_ (find_ (view m bs) pat) m

unfoldable pub search_down : (Bytes → Bytes → ℕ → Option ℕ) → Arg → Arg → Arg → M (Option ℕ)
search_down find_ self pat_arg end_arg = do
  bs ← check_span 1 self
  pat ← check_pattern pat_arg
  search_down_for find_ bs end_arg pat

unfoldable pub find : Arg → Arg → Arg → M (Option ℕ)
find = search_up sv_find

unfoldable pub rfind : Arg → Arg → Arg → M (Option ℕ)
rfind = search_down sv_rfind

unfoldable pub find_first_of : Arg → Arg → Arg → M (Option ℕ)
find_first_of = search_up (λ s pat. sv_first (is_in s pat) s)

unfoldable pub find_last_of : Arg → Arg → Arg → M (Option ℕ)
find_last_of = search_down (λ s pat. sv_last (is_in s pat) s)

unfoldable pub find_first_not_of : Arg → Arg → Arg → M (Option ℕ)
find_first_not_of = search_up (λ s pat. sv_first (is_not_in s pat) s)

unfoldable pub find_last_not_of : Arg → Arg → Arg → M (Option ℕ)
find_last_not_of = search_down (λ s pat. sv_last (is_not_in s pat) s)

-- `" \f\n\r\t\v"`.
abbrev pub linear_white_space : Bytes
linear_white_space = 32 ∷ 12 ∷ 10 ∷ 13 ∷ 9 ∷ 11 ∷ []

unfoldable pub check_white_space : Arg → M Bytes
check_white_space nil m = ok linear_white_space m
check_white_space none_ m = ok linear_white_space m
check_white_space a m = check_bytes 2 a m

-- The handle of the bytes from `start` to `last`, both included.
abbrev pub narrow : Handle → ℕ → ℕ → Handle
narrow bs start last = record {
  place = advance bs.place start;
  size = last + 1 - start;
  capacity = bs.capacity - start;
}

-- `find_last_not_of` with no position searches the whole view.
unfoldable pub trim_with : Handle → Bytes → Bytes → Handle
trim_with bs self lws = elim (sv_first (is_not_in self lws) self 0) [
  | none ↦ null_handle
  | some start ↦ elim (sv_last (is_not_in self lws) self (length self)) [
    | none ↦ null_handle
    | some last ↦ narrow bs start last
  ]
]

unfoldable pub trim_of : Handle → Bytes → M Handle
trim_of bs lws m = ok (trim_with bs (view m bs) lws) m

unfoldable pub trimmed : Arg → Arg → M Handle
trimmed self lws_arg = do bs ← check_span 1 self; lws ← check_white_space lws_arg; trim_of bs lws
