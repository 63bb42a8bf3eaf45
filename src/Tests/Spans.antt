-- ===== src/Tests/Spans.antt =====
-- The operations of src/byte_span.cpp on a memory with one array.
use emilua.Common.{
  ℕ, ◌≡◌, ◌+◌, ◌↔◌, refl, Bool, true, Option, none, some, List, [], ◌∷◌, ◌++◌, take, drop, set, min,
  arith, inr, ◌<◌, ◌≤◌, pos,
}
use emilua.ByteSpan.{
  Bytes, Handle, Memory, number, string, span, nil, ok, err, positive_overflow, view, bytes_at,
  slice, copy, check_bytes,
}
use emilua.ByteSpan.View.{IsValid}
use emilua.ByteSpan.Laws.{slice_lem, sliced}
use emilua.ByteSpan.Copy.{copy_lem}
use emilua.ByteSpan.Append.{slice_size, Slice, fixed, live, append_slices, join_slices, integer_max}
use emilua.ByteSpan.Append.Copies.{concatenation, total_size}
use emilua.ByteSpan.Append.Laws.{append_slices_in_place}
use emilua.ByteSpan.Append.Fresh.{append_slices_new, join_slices_lem, append_overflow}
use emilua.ByteSpan.Search.{IsFirst, IsLast, matches_at, is_in, is_not_in}
use emilua.ByteSpan.Strings.{
  byte_span_starts_with, byte_span_ends_with, find_last_of, find_last_not_of, to_index, find, rfind,
  find_first_of, find_first_not_of, trimmed, linear_white_space, check_pattern, check_white_space,
}
use emilua.ByteSpan.Strings.Laws.{searches_up_lem, searches_down_lem}
use emilua.ByteSpan.Strings.Affixes.{IsPrefix, IsSuffix, affixes_lem}
use emilua.ByteSpan.Strings.Trim.{Trimmed, trimmed_lem}
use emilua.ByteSpan.Access.{mt_index, mt_newindex, mt_eq}
use emilua.ByteSpan.Access.Laws.{mt_newindex_lem, mt_eq_lem}

-- Eight bytes, of which the span shows the first five: a space, 97, 98, 97 and a space.
abbrev test_memory : Memory
test_memory = record {
  arrays = (32 ∷ 97 ∷ 98 ∷ 97 ∷ 32 ∷ 1 ∷ 2 ∷ 3 ∷ []) ∷ [];
  uninitialized = λ a i. 0;
}

abbrev test_span : Handle
test_span = record { place = some (0, 0); size = 5; capacity = 8 }

test_span-IsValid : IsValid test_memory test_span
unfolding bytes_at
test_span-IsValid = record { known = omega arith; sized = omega arith; backed = omega arith }

-- `"ba"`.
abbrev pattern_ : Bytes
pattern_ = 98 ∷ 97 ∷ []

slice_example :
    (s : Handle) × (slice (span test_span) (number (pos 2)) (number (pos 7)) test_memory
      ≡ ok s test_memory)
    × IsValid test_memory s
    × (view test_memory s ≡ sliced test_memory test_span 2 7)
slice_example =
    slice_lem test_memory test_span 2 7 test_span-IsValid (omega arith, omega arith, omega arith)

copy_example :
    (n : ℕ) × (m' : Memory) × (copy (span test_span) (string pattern_) test_memory ≡ ok n m')
    × (n ≡ min 2 5)
    × (view m' test_span ≡ take n pattern_ ++ drop n (view test_memory test_span))
    × IsValid m' test_span
copy_example =
    copy_lem test_memory test_span (string pattern_) pattern_ test_span-IsValid string_read
      test_span test_span-IsValid
  where
    string_read : check_bytes 2 (string pattern_) test_memory ≡ ok pattern_ test_memory
    string_read = unfold check_bytes in refl

-- The span and a string are appended: three bytes fit behind the span, and four do not.
abbrev two_slices : List Slice
two_slices = fixed (7 ∷ []) ∷ live test_span ∷ []

abbrev short_slices : List Slice
short_slices = fixed (7 ∷ 8 ∷ []) ∷ []

append_slices_in_place_example :
    (m' : Memory) × (append_slices test_span short_slices test_memory
      ≡ ok (record test_span { size = 5 + total_size short_slices }) m')
    × (view m' (record test_span { size = 5 + total_size short_slices })
        ≡ view test_memory test_span ++ concatenation test_memory short_slices)
    × (view m' test_span ≡ view test_memory test_span)
append_slices_in_place_example =
    append_slices_in_place test_memory test_span short_slices 0 0 test_span-IsValid refl (tt, tt)
      fits small some_bytes test_span (inr (omega arith))
  where
    fits : 5 + total_size short_slices ≤ 8
    fits = unfold total_size slice_size in omega arith

    small : 8 ≤ integer_max
    small = omega arith

    some_bytes : 0 < 5 + total_size short_slices
    some_bytes = omega arith

append_slices_new_example :
    (s : Handle) × (m' : Memory) × (append_slices test_span two_slices test_memory ≡ ok s m')
    × (s.size ≡ s.capacity)
    × (view m' s ≡ view test_memory test_span ++ concatenation test_memory two_slices)
    × (view m' test_span ≡ view test_memory test_span)
append_slices_new_example =
    append_slices_new test_memory test_span two_slices test_span-IsValid (test_span-IsValid, tt)
      large small test_span test_span-IsValid
  where
    large : 8 < 5 + total_size two_slices
    large = unfold total_size slice_size in omega arith

    small : 5 + total_size two_slices ≤ integer_max
    small = unfold total_size slice_size in omega arith

join_slices_example :
    (s : Handle) × (m' : Memory) × (join_slices two_slices test_memory ≡ ok s m')
    × (s.size ≡ s.capacity)
    × (view m' s ≡ concatenation test_memory two_slices)
    × (view m' test_span ≡ view test_memory test_span)
join_slices_example =
    join_slices_lem test_memory two_slices (test_span-IsValid, tt) some_bytes small test_span
      test_span-IsValid
  where
    some_bytes : 0 < total_size two_slices
    some_bytes = unfold total_size slice_size in omega arith

    small : total_size two_slices ≤ integer_max
    small = unfold total_size slice_size in omega arith

-- A span as large as a `lua_Integer` can say.
abbrev huge_span : Handle
huge_span = record { place = none; size = integer_max; capacity = integer_max }

append_overflow_example : append_slices huge_span short_slices test_memory ≡ err positive_overflow
append_overflow_example = append_overflow test_memory huge_span short_slices (omega arith) over
  where
    over : integer_max < integer_max + total_size short_slices
    over = unfold total_size slice_size in omega arith

pattern_read : check_pattern (string pattern_) test_memory ≡ ok pattern_ test_memory
unfolding check_pattern check_bytes
pattern_read = refl

white_space_read : check_white_space nil test_memory ≡ ok linear_white_space test_memory
unfolding check_white_space
white_space_read = refl

trimmed_example :
    (t : Handle) × (trimmed (span test_span) nil test_memory ≡ ok t test_memory)
    × Trimmed test_memory (view test_memory test_span) linear_white_space t
trimmed_example =
    trimmed_lem test_memory test_span nil linear_white_space test_span-IsValid white_space_read

mt_newindex_example :
    (m' : Memory) × (mt_newindex test_span (number (pos 3)) (number (pos 200)) test_memory
      ≡ ok tt m')
    × (view m' test_span ≡ set (view test_memory test_span) 2 200)
    × (mt_index test_span (pos 3) m' ≡ ok 200 m')
    × IsValid m' test_span
mt_newindex_example =
    mt_newindex_lem test_memory test_span 2 200 test_span-IsValid (omega arith) (omega arith)
      test_span test_span-IsValid

mt_eq_example :
    (r : Bool) × (mt_eq test_span test_span test_memory ≡ ok r test_memory)
    × ((r ≡ true) ↔ (view test_memory test_span ≡ view test_memory test_span))
mt_eq_example = mt_eq_lem test_memory test_span test_span

searches_up_example :
    ((r : Option ℕ) × (find (span test_span) (string pattern_) (number (pos 2)) test_memory
        ≡ ok (to_index r) test_memory)
      × IsFirst (matches_at (view test_memory test_span) pattern_) 1 6 r)
    × ((r : Option ℕ) × (find_first_of
            (span test_span)
            (string pattern_)
            (number (pos 2))
            test_memory
          ≡ ok (to_index r) test_memory)
        × IsFirst (is_in (view test_memory test_span) pattern_) 1 5 r)
    × ((r : Option ℕ) × (find_first_not_of
            (span test_span)
            (string pattern_)
            (number (pos 2))
            test_memory
          ≡ ok (to_index r) test_memory)
        × IsFirst (is_not_in (view test_memory test_span) pattern_) 1 5 r)
searches_up_example =
    searches_up_lem test_memory test_span (string pattern_) pattern_ test_span-IsValid pattern_read
      2 (omega arith) (omega arith)

searches_down_example :
    ((r : Option ℕ) × (rfind (span test_span) (string pattern_) (number (pos 4)) test_memory
        ≡ ok (to_index r) test_memory)
      × IsLast (matches_at (view test_memory test_span) pattern_) 4 r)
    × ((r : Option ℕ) × (find_last_of
            (span test_span)
            (string pattern_)
            (number (pos 4))
            test_memory
          ≡ ok (to_index r) test_memory)
        × IsLast (is_in (view test_memory test_span) pattern_) 4 r)
    × ((r : Option ℕ) × (find_last_not_of
            (span test_span)
            (string pattern_)
            (number (pos 4))
            test_memory
          ≡ ok (to_index r) test_memory)
        × IsLast (is_not_in (view test_memory test_span) pattern_) 4 r)
searches_down_example =
    searches_down_lem test_memory test_span (string pattern_) pattern_ test_span-IsValid
      pattern_read 4 (omega arith) (omega arith)

affixes_example :
    ((r : Bool) × (byte_span_starts_with (span test_span) (string pattern_) test_memory
        ≡ ok r test_memory)
      × ((r ≡ true) ↔ IsPrefix pattern_ (view test_memory test_span)))
    × ((r : Bool) × (byte_span_ends_with (span test_span) (string pattern_) test_memory
          ≡ ok r test_memory)
        × ((r ≡ true) ↔ IsSuffix pattern_ (view test_memory test_span)))
affixes_example =
    affixes_lem test_memory test_span (string pattern_) pattern_ (unfold check_bytes in refl)
