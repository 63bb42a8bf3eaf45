-- ===== src/ByteSpan/View.antt =====
-- src/byte_span.cpp: what a handle shows of the memory, and what a write changes of it.
use native.Mathlib.Decide.{ℕ_discrete}
use emilua.Common.{
  ℕ, zero, suc, ◌+◌, ◌-◌, ◌≤◌, ◌<◌, ◌≡◌, ◌≢◌, refl, sym, ap, subst, ◌∙◌, Option, none, some, List,
  [], ◌∷◌, ◌++◌, arith, length, take, drop, get_or, set, length-append, length-take, length-drop,
  length-set, drop-drop, drop-nil, drop-take, get_or-set_self, get_or-set_ne,
}
use emilua.ByteSpan.{
  Bytes, Handle, Memory, ok, err, M, ◌>>=◌, null_handle, advance, bytes_at, view, generate, splice,
  write,
}
pub use emilua.ByteSpan.Splices.{
  length-splice, drop-splice, take-splice, take-splice_new, take-splice_within,
}

pub bind_ok :
    {A B : Type 0} (x : M A) (f : A → M B) {m m' : Memory} {a : A}
    → x m ≡ ok a m'
    → (x >>= f) m ≡ f a m'
bind_ok x f e = λ i. elim (e i) [ ok a w ↦ f a w | err o ↦ err o ]

-- A pointer into an array that was allocated, or a null pointer.
abbrev pub IsKnown : Memory → Option (ℕ × ℕ) → Type 0
IsKnown m none = Unit {0}
IsKnown m (some (a, offset)) = a < length m.arrays

-- A handle that shows bytes of its own array only.
pub record IsValid (m : Memory) (h : Handle) : Type 0 where
  pub known : IsKnown m h.place
  pub sized : h.size ≤ h.capacity
  pub backed : h.capacity ≤ length (bytes_at m h.place)

pub null-IsValid : (m : Memory) → IsValid m null_handle
unfolding bytes_at
null-IsValid m = record { known = tt; sized = omega arith; backed = omega arith }

pub length-view : (m : Memory) (h : Handle) → IsValid m h → length (view m h) ≡ h.size
unfolding view
length-view m h v = omega (arith, length-take h.size (bytes_at m h.place), v.sized, v.backed)

pub length-generate : (f : ℕ → ℕ) (i n : ℕ) → length (generate f i n) ≡ n
unfolding generate
length-generate f i zero = refl
length-generate f i (suc n) = ap suc (length-generate f (i + 1) n)

pub IsKnown-advance :
    (m : Memory) (p : Option (ℕ × ℕ)) (i : ℕ) → IsKnown m p → IsKnown m (advance p i)
IsKnown-advance m none i k = tt
IsKnown-advance m (some (a, offset)) i k = k

pub bytes_at-advance :
    (m : Memory) (p : Option (ℕ × ℕ)) (i : ℕ) → bytes_at m (advance p i) ≡ drop i (bytes_at m p)
unfolding bytes_at
bytes_at-advance m none i = sym (drop-nil i)
bytes_at-advance m (some (a, offset)) i = sym (drop-drop i offset (get_or m.arrays a []))

-- `n` bytes from the pointer on belong to its array.
pub record Room (m : Memory) (a offset n : ℕ) : Type 0 where
  pub known : a < length m.arrays
  pub fits : offset + n ≤ length (get_or m.arrays a [])

pub IsValid-Room :
    (m : Memory) (h : Handle) (a offset : ℕ)
    → IsValid m h
    → h.place ≡ some (a, offset)
    → 0 < h.capacity
    → Room m a offset h.capacity
unfolding bytes_at
IsValid-Room m h a offset v e some_room =
    let held : h.capacity ≤ length (bytes_at m (some (a, offset))) =
      subst (λ p. h.capacity ≤ length (bytes_at m p)) e v.backed in
    let cut : length (drop offset (get_or m.arrays a [])) ≡ length (get_or m.arrays a []) - offset =
      length-drop offset (get_or m.arrays a []) in
    record { known = subst (IsKnown m) e v.known; fits = omega arith }

window : (q n : ℕ) (xs : Bytes) → take n (drop q xs) ≡ drop q (take (q + n) xs)
window q n xs = let e : q + n - q ≡ n = omega arith in rw (drop-take q (q + n) xs, e)

module _ (m : Memory) (a offset i : ℕ) (new : Bytes) where
  -- A write within the array is a splice of the bytes at the pointer.
  pub bytes_at-write :
      Room m a offset (i + length new)
      → bytes_at (write (some (a, offset)) i new m) (some (a, offset))
        ≡ splice (bytes_at m (some (a, offset))) i new
  unfolding bytes_at write
  bytes_at-write r =
      rw (get_or-set_self m.arrays a (splice (get_or m.arrays a []) (offset + i) new) [] r.known)
        (drop-splice (get_or m.arrays a []) offset i new (omega (arith, r.fits)))

  -- And leaves the other arrays.
  pub bytes_at-write_ne :
      (b other : ℕ)
      → a ≢ b
      → bytes_at (write (some (a, offset)) i new m) (some (b, other)) ≡ bytes_at m (some (b, other))
  unfolding bytes_at write
  bytes_at-write_ne b other ne =
      ap (drop other)
        (get_or-set_ne m.arrays a b (splice (get_or m.arrays a []) (offset + i) new) [] ne)

  -- No array grows or shrinks.
  pub length-write :
      Room m a offset (i + length new)
      → (b : ℕ)
      → length (get_or (write (some (a, offset)) i new m).arrays b [])
        ≡ length (get_or m.arrays b [])
  unfolding write
  length-write r b = elim (ℕ_discrete a b) [
    | yes same ↦
        subst (λ c. length (get_or (set m.arrays a spliced) c []) ≡ length (get_or m.arrays c []))
          same
          (rw (get_or-set_self m.arrays a spliced [] r.known)
            (length-splice (get_or m.arrays a []) (offset + i) new (omega (arith, r.fits))))
    | no ne ↦ ap length (get_or-set_ne m.arrays a b spliced [] ne)
  ]
    where
      spliced : Bytes
      spliced = splice (get_or m.arrays a []) (offset + i) new

  pub Room-write :
      Room m a offset (i + length new)
      → (b q n : ℕ) → Room m b q n
      → Room (write (some (a, offset)) i new m) b q n
  unfolding write
  Room-write r b q n s = record {
    known =
        omega
          (arith, s.known, length-set m.arrays a (splice (get_or m.arrays a []) (offset + i) new));
    fits = omega (arith, s.fits, length-write r b);
  }

  -- Nor does a byte in front of the write change.
  pub bytes_at-write_before :
      Room m a offset (i + length new)
      → (q n : ℕ) → q + n ≤ offset + i
      → take n (bytes_at (write (some (a, offset)) i new m) (some (a, q)))
        ≡ take n (bytes_at m (some (a, q)))
  unfolding bytes_at write
  bytes_at-write_before r q n le =
      rw (get_or-set_self m.arrays a (splice (get_or m.arrays a []) (offset + i) new) [] r.known) (
        window q n _
        ∙ ap (drop q)
            (take-splice (get_or m.arrays a []) (offset + i) (q + n) new le (omega (arith, r.fits)))
        ∙ sym (window q n _))

get_or-append :
    (xs ys : List Bytes) (a : ℕ) → a < length xs → get_or (xs ++ ys) a [] ≡ get_or xs a []
get_or-append [] ys a h = absurd (omega arith)
get_or-append (x ∷ xs) ys zero h = refl
get_or-append (x ∷ xs) ys (suc a) h = get_or-append xs ys a (omega arith)

get_or-snoc : (xs : List Bytes) (y : Bytes) → get_or (xs ++ y ∷ []) (length xs) [] ≡ y
get_or-snoc [] y = refl
get_or-snoc (x ∷ xs) y = get_or-snoc xs y

module _ (m : Memory) (capacity : ℕ) where
  -- The memory with one array more.
  abbrev pub allocated : Memory
  allocated = record m {
    arrays = m.arrays ++ generate (m.uninitialized (length m.arrays)) 0 capacity ∷ [];
  }

  pub bytes_at-allocated : (p : Option (ℕ × ℕ)) → IsKnown m p → bytes_at allocated p ≡ bytes_at m p
  unfolding bytes_at
  bytes_at-allocated none k = refl
  bytes_at-allocated (some (a, offset)) k = ap (drop offset) (get_or-append m.arrays _ a k)

  pub view-allocated : (h : Handle) → IsKnown m h.place → view allocated h ≡ view m h
  unfolding view
  view-allocated h k = ap (take h.size) (bytes_at-allocated h.place k)

  pub Room-allocated : Room allocated (length m.arrays) 0 capacity
  Room-allocated = record {
    known = omega (
      arith,
      length-append m.arrays (generate (m.uninitialized (length m.arrays)) 0 capacity ∷ []),
    );
    fits =
        rw (get_or-snoc m.arrays (generate (m.uninitialized (length m.arrays)) 0 capacity))
          (omega (arith, length-generate (m.uninitialized (length m.arrays)) 0 capacity));
  }

  pub allocate-IsValid :
      (size : ℕ)
      → size ≤ capacity
      → IsValid allocated
          (record { place = some (length m.arrays, 0); size = size; capacity = capacity })
  unfolding bytes_at
  allocate-IsValid size h = record {
    known = Room-allocated.known;
    sized = h;
    backed = omega (arith, Room-allocated.fits);
  }

  pub IsValid-allocated : (g : Handle) → IsValid m g → IsValid allocated g
  IsValid-allocated g v = record {
    known = IsKnown-allocated g.place v.known;
    sized = v.sized;
    backed = rw (bytes_at-allocated g.place v.known) v.backed;
  }
    where
      IsKnown-allocated : (p : Option (ℕ × ℕ)) → IsKnown m p → IsKnown allocated p
      IsKnown-allocated none k = tt
      IsKnown-allocated (some (a, offset)) k = omega (
        arith,
        k,
        length-append m.arrays (generate (m.uninitialized (length m.arrays)) 0 capacity ∷ []),
      )
