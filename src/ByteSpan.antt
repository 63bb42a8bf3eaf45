-- ===== src/ByteSpan.antt =====
-- src/byte_span.cpp and include/emilua/byte_span.hpp: spans of bytes over shared memory. The fields
-- of a handle never change, so a userdata is its handle; what changes is the memory.
pub mod Search
pub mod Splices
pub mod View
pub mod Laws
pub mod Copy
pub mod Strings
pub mod Append
pub mod Access
use emilua.Common.{
  ℕ, zero, suc, ◌+◌, ◌-◌, ◌^◌, ◌≡◌, Bool, true, false, ◌||◌, Option, none, some, List, [], ◌∷◌,
  ◌++◌, ◌==◌, ltb, if◌then◌else◌, get_elem?, get_or, set, length, take, drop, ℤ, pos, negsuc, ltb_ℤ,
  ◌-ℤ◌, pos_part,
}

abbrev pub Bytes : Type 0
Bytes = List ℕ

-- `data` is a shared array and an offset into it; a null pointer is none. The sizes are
-- `lua_Integer` and never negative.
pub record Handle : Type 0 where
  pub place : Option (ℕ × ℕ)
  pub size : ℕ
  pub capacity : ℕ

-- The arrays that were allocated, and the bytes that a new array holds before it is written.
pub record Memory : Type 0 where
  pub arrays : List Bytes
  pub uninitialized : ℕ → ℕ → ℕ

pub data Arg : Type 0 where
  nil none_ other : Arg
  number : ℤ → Arg
  string : Bytes → Arg
  span : Handle → Arg

-- `invalid_argument` has the argument's position where the source gives one.
pub data Error : Type 0 where
  invalid_argument result_out_of_range operation_not_permitted positive_overflow : Error
  arg : ℕ → Error

pub data Result (A : Type 0) : Type 0 where
  ok : A → Memory → Result A
  err : Error → Result A

abbrev pub M : Type 0 → Type 0
M A = Memory → Result A

abbrev pub return : {A : Type 0} → A → M A
return a m = ok a m

abbrev pub fail : {A : Type 0} → Error → M A
fail e m = err e

infixl 5 ◌>>=◌ ◌>>◌
abbrev pub ◌>>=◌ : {A B : Type 0} → M A → (A → M B) → M B
◌>>=◌ x f m = elim (x m) [ ok a m' ↦ f a m' | err e ↦ err e ]

abbrev pub ◌>>◌ : {A B : Type 0} → M A → M B → M B
x >> k = x >>= λ _. k

abbrev pub null_handle : Handle
null_handle = record { place = none; size = 0; capacity = 0 }

-- A pointer moved on by `i`.
abbrev pub advance : Option (ℕ × ℕ) → ℕ → Option (ℕ × ℕ)
advance none i = none
advance (some (a, offset)) i = some (a, offset + i)

-- The bytes from a handle's pointer to the end of its array.
unfoldable pub bytes_at : Memory → Option (ℕ × ℕ) → Bytes
bytes_at m none = []
bytes_at m (some (a, offset)) = drop offset (get_or m.arrays a [])

-- The conversion to `std::string_view`.
unfoldable pub view : Memory → Handle → Bytes
view m h = take h.size (bytes_at m h.place)

pub generate : (ℕ → ℕ) → ℕ → ℕ → Bytes
generate f i zero = []
generate f i (suc n) = f i ∷ generate f (i + 1) n

-- `make_shared_for_overwrite`, and the handle of the new array.
unfoldable pub allocate : ℕ → ℕ → M Handle
allocate size capacity m =
    let a : ℕ = length m.arrays in
    ok (record { place = some (a, 0); size = size; capacity = capacity })
      (record m { arrays = m.arrays ++ generate (m.uninitialized a) 0 capacity ∷ [] })

-- Bytes written over a list from a position on.
unfoldable pub splice : Bytes → ℕ → Bytes → Bytes
splice old i new = take i old ++ (new ++ drop (i + length new) old)

-- `memcpy` or `memmove` to the handle's pointer plus `i`; all is read before it is written.
unfoldable pub write : Option (ℕ × ℕ) → ℕ → Bytes → Memory → Memory
write none i new m = m
write (some (a, offset)) i new m = record m {
  arrays = set m.arrays a (splice (get_or m.arrays a []) (offset + i) new);
}

-- The test of the first argument.
unfoldable pub check_span : ℕ → Arg → M Handle
check_span n (span h) m = ok h m
check_span n _ m = err (arg n)

-- An argument that is a string or a span, read now.
unfoldable pub check_bytes : ℕ → Arg → M Bytes
check_bytes n (string s) m = ok s m
check_bytes n (span h) m = ok (view m h) m
check_bytes n _ m = err (arg n)

-- An optional integer.
unfoldable pub check_integer : Error → ℤ → Arg → M ℤ
check_integer e default (number i) m = ok i m
check_integer e default nil m = ok default m
check_integer e default none_ m = ok default m
check_integer e default _ m = err e

unfoldable pub number_only : Arg → M ℤ
number_only (number i) m = ok i m
number_only _ m = err invalid_argument

unfoldable pub byte_span_new : Arg → Arg → M Handle
byte_span_new length_arg capacity_arg = do
  length ← number_only length_arg
  capacity ← check_integer invalid_argument length capacity_arg
  if ltb_ℤ length (pos 0) || (ltb_ℤ capacity (pos 0) || ltb_ℤ capacity length)
      then fail invalid_argument
      else if pos_part capacity == 0
      then return null_handle
      else allocate (pos_part length) (pos_part capacity)

-- The new handle of `slice`, for a range that was checked.
unfoldable pub slice_at : Handle → ℕ → ℕ → Handle
slice_at h start end_ =
    let new_capacity = h.capacity + 1 - start in
    if new_capacity == 0 then null_handle else record {
      place = advance h.place (start - 1);
      size = end_ + 1 - start;
      capacity = new_capacity;
    }

unfoldable pub slice : Arg → Arg → Arg → M Handle
slice self start_arg end_arg = do
  bs ← check_span 1 self
  start ← check_integer (arg 2) (pos 1) start_arg
  end_ ← check_integer (arg 3) (pos bs.size) end_arg
  if ltb_ℤ start (pos 1) || (ltb_ℤ end_ (start -ℤ pos 1) || ltb_ℤ (pos bs.capacity) end_)
      then fail result_out_of_range
      else return (slice_at bs (pos_part start) (pos_part end_))

unfoldable pub copy_bytes : Handle → Bytes → M ℕ
copy_bytes bs src m =
    let count : ℕ = if ltb (length src) bs.size then length src else bs.size in
    ok count (if count == 0 then m else write bs.place 0 (take count src) m)

unfoldable pub copy : Arg → Arg → M ℕ
copy self src_arg = do bs ← check_span 1 self; src ← check_bytes 2 src_arg; copy_bytes bs src
