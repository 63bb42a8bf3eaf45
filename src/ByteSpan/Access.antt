-- ===== src/ByteSpan/Access.antt =====
-- src/byte_span.cpp: indexing, and the metamethods that read a span.
pub mod Laws
use emilua.Common.{
  ℕ, ◌+◌, ◌-◌, ◌≡◌, Bool, true, false, ◌||◌, ◌&&◌, List, [], ◌∷◌, ◌==◌, if◌then◌else◌, get_or, ℤ,
  pos, negsuc, ltb_ℤ, pos_part,
}
use emilua.ByteSpan.{
  Bytes, Handle, Arg, number, span, Error, arg, result_out_of_range, operation_not_permitted,
  Result, ok, err, M, return, fail, ◌>>=◌, bytes_at, view, write,
}

-- `__len`.
unfoldable pub mt_len : Handle → ℕ
mt_len bs = bs.size

unfoldable pub bytes_eq : Bytes → Bytes → Bool
bytes_eq [] [] = true
bytes_eq [] (y ∷ t) = false
bytes_eq (x ∷ s) [] = false
bytes_eq (x ∷ s) (y ∷ t) = x == y && bytes_eq s t

-- `__eq`.
unfoldable pub mt_eq : Handle → Handle → M Bool
mt_eq a b m = ok (bytes_eq (view m a) (view m b)) m

-- `__tostring`.
unfoldable pub mt_tostring : Handle → M Bytes
mt_tostring bs m = ok (view m bs) m

-- `__index` with a number. (With a string it looks up a method.)
unfoldable pub mt_index : Handle → ℤ → M ℕ
mt_index bs idx m =
    if ltb_ℤ idx (pos 1) || ltb_ℤ (pos bs.size) idx
    then err result_out_of_range
    else ok (get_or (bytes_at m bs.place) (pos_part idx - 1) 0) m

-- `__newindex`, for the handle, the key and the value.
unfoldable pub mt_newindex : Handle → Arg → Arg → M (Unit {0})
mt_newindex bs (number idx) (number value) m =
    if ltb_ℤ idx (pos 1)
      || (ltb_ℤ (pos bs.size) idx || (ltb_ℤ value (pos 0) || ltb_ℤ (pos 255) value))
    then err result_out_of_range
    else ok tt (write bs.place (pos_part idx - 1) (pos_part value ∷ []) m)
mt_newindex bs (number idx) _ m = err (arg 3)
mt_newindex bs _ value m = err operation_not_permitted
