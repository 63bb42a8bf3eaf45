-- ===== src/ByteSpan/Search.antt =====
-- The searches of `std::string_view` that src/byte_span.cpp calls: the first or the last position in
-- a range at which a test holds.
use native.Mathlib.Decide.{ℕ_discrete}
use emilua.Common.{
  ℕ, zero, suc, ◌+◌, ◌-◌, ◌≤◌, ◌<◌, ◌≡◌, subst, inl, inr, Bool, true, false, not, ◌&&◌, ◌||◌,
  Option, none, some, [], ◌∷◌, ◌==◌, ltb, leb, arith, if◌then◌else◌, length, drop, get_or,
  Bool-cases,
}
use emilua.ByteSpan.{Bytes}

-- The first of `n` positions from `i` on.
unfoldable pub first_from : (ℕ → Bool) → ℕ → ℕ → Option ℕ
first_from p i zero = none
first_from p i (suc n) = let rest = first_from p (i + 1) n in if p i then some i else rest

-- The last of the positions below `n`.
unfoldable pub last_below : (ℕ → Bool) → ℕ → Option ℕ
last_below p zero = none
last_below p (suc n) = let rest = last_below p n in if p n then some n else rest

-- `r` is the least position of `[i, j)` at which `p` holds, if there is one.
abbrev pub IsFirst : (ℕ → Bool) → ℕ → ℕ → Option ℕ → Type 0
IsFirst p i j none = (k : ℕ) → i ≤ k → k < j → p k ≡ false
IsFirst p i j (some r) = (i ≤ r) × (r < j) × (p r ≡ true) × ((k : ℕ) → i ≤ k → k < r → p k ≡ false)

-- `r` is the greatest position below `j` at which `p` holds, if there is one.
abbrev pub IsLast : (ℕ → Bool) → ℕ → Option ℕ → Type 0
IsLast p j none = (k : ℕ) → k < j → p k ≡ false
IsLast p j (some r) = (r < j) × (p r ≡ true) × ((k : ℕ) → r < k → k < j → p k ≡ false)

module _ (p : ℕ → Bool) where
  -- A position that fails may be put in front of a range, or behind one.
  fails_from : (i k : ℕ) → p i ≡ false → (i + 1 ≤ k → p k ≡ false) → i ≤ k → p k ≡ false
  fails_from i k e later h = elim (ℕ_discrete i k) [
    | yes same ↦ subst (λ j. p j ≡ false) same e
    | no other_ ↦ later (omega arith)
  ]

  IsFirst-extend :
      (i n : ℕ) (o : Option ℕ)
      → p i ≡ false
      → IsFirst p (i + 1) (i + 1 + n) o
      → IsFirst p i (i + suc n) o
  IsFirst-extend i n none e h = λ k a b. fails_from i k e (λ c. h k c (omega arith)) a
  IsFirst-extend i n (some r) e (a, b, c, d) =
      (omega arith, omega arith, c, λ k x y. fails_from i k e (λ z. d k z y) x)

  pub first_from-IsFirst : (i n : ℕ) → IsFirst p i (i + n) (first_from p i n)
  unfolding first_from
  first_from-IsFirst i zero = λ k a b. absurd (omega arith)
  first_from-IsFirst i (suc n) = elim (Bool-cases (p i)) [
    | inl e ↦ rw e (omega arith, omega arith, e, λ k a b. absurd (omega arith))
    | inr e ↦ rw e (IsFirst-extend i n (first_from p (i + 1) n) e (first_from-IsFirst (i + 1) n))
  ]

  fails_to : (n k : ℕ) → p n ≡ false → (k < n → p k ≡ false) → k < suc n → p k ≡ false
  fails_to n k e before h = elim (ℕ_discrete n k) [
    | yes same ↦ subst (λ j. p j ≡ false) same e
    | no other_ ↦ before (omega arith)
  ]

  IsLast-extend : (n : ℕ) (o : Option ℕ) → p n ≡ false → IsLast p n o → IsLast p (suc n) o
  IsLast-extend n none e h = λ k b. fails_to n k e (h k) b
  IsLast-extend n (some r) e (b, c, d) = (omega arith, c, λ k x y. fails_to n k e (d k x) y)

  pub last_below-IsLast : (n : ℕ) → IsLast p n (last_below p n)
  unfolding last_below
  last_below-IsLast zero = λ k b. absurd (omega arith)
  last_below-IsLast (suc n) = elim (Bool-cases (p n)) [
    | inl e ↦ rw e (omega arith, e, λ k a b. absurd (omega arith))
    | inr e ↦ rw e (IsLast-extend n (last_below p n) e (last_below-IsLast n))
  ]

unfoldable pub starts_with : Bytes → Bytes → Bool
starts_with [] s = true
starts_with (x ∷ pat) [] = false
starts_with (x ∷ pat) (y ∷ s) = x == y && starts_with pat s

-- The suffix of the pattern's length.
unfoldable pub ends_with : Bytes → Bytes → Bool
unfolding starts_with
ends_with pat s = leb (length pat) (length s) && starts_with pat (drop (length s - length pat) s)

unfoldable pub contains : Bytes → ℕ → Bool
contains [] c = false
contains (x ∷ xs) c = x == c || contains xs c

-- Whether the pattern stands at a position.
unfoldable pub matches_at : Bytes → Bytes → ℕ → Bool
matches_at s pat i = starts_with pat (drop i s)

-- Whether the byte at a position is one of the list.
unfoldable pub is_in : Bytes → Bytes → ℕ → Bool
is_in s list i = contains list (get_or s i 0)

unfoldable pub is_not_in : Bytes → Bytes → ℕ → Bool
is_not_in s list i = not (is_in s list i)

-- One position more than the length: an empty pattern stands at the end too.
unfoldable pub sv_find : Bytes → Bytes → ℕ → Option ℕ
sv_find s pat pos_ = first_from (matches_at s pat) pos_ (length s + 1 - pos_)

-- The last position that is at most `pos_` and leaves room for the pattern.
unfoldable pub sv_rfind : Bytes → Bytes → ℕ → Option ℕ
sv_rfind s pat pos_ =
    if ltb (length s) (length pat)
    then none
    else last_below (matches_at s pat)
        ((if ltb pos_ (length s - length pat) then pos_ else length s - length pat) + 1)

unfoldable pub sv_first : (ℕ → Bool) → Bytes → ℕ → Option ℕ
sv_first p s pos_ = first_from p pos_ (length s - pos_)

-- The last position that is at most `pos_`.
unfoldable pub sv_last : (ℕ → Bool) → Bytes → ℕ → Option ℕ
sv_last p s pos_ = last_below p (if ltb pos_ (length s) then pos_ + 1 else length s)
