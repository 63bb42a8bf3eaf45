-- ===== src/ByteSpan/Strings/Laws.antt =====
-- src/byte_span.cpp: the searches return the first or the last position, and trimming keeps the
-- bytes between the white space.
use emilua.Common.{
  ℕ, ◌+◌, ◌-◌, ◌≤◌, ◌<◌, ◌≡◌, subst, ◌∙◌, inl, inr, Bool, true, false, Option, none, some, [], ◌∷◌,
  arith, ltb, length, drop, length-drop, pos, Bool-cases,
}
use emilua.ByteSpan.{Bytes, Handle, Memory, Arg, number, span, ok, view, check_span, check_integer}
use emilua.ByteSpan.Search.{
  IsFirst, IsLast, first_from-IsFirst, last_below-IsLast, starts_with, matches_at, is_in, is_not_in,
  sv_find, sv_rfind, sv_first, sv_last, sv_last,
}
use emilua.ByteSpan.View.{IsValid, length-view, bind_ok}
use emilua.ByteSpan.Strings.{
  check_pattern, to_index, search_from, search_to, search_up, search_up_for, search_down,
  search_down_for, find, rfind, find_first_of, find_last_of, find_last_not_of, find_first_not_of,
}

-- Where a pattern stands, there is room for it.
starts_with-fits : (pat s : Bytes) → starts_with pat s ≡ true → length pat ≤ length s
unfolding starts_with
starts_with-fits [] s e = omega arith
starts_with-fits (x ∷ pat) [] e = absurd (ground arith)
starts_with-fits (x ∷ pat) (y ∷ s) e = omega (arith, starts_with-fits pat s (ground arith))

no_room :
    (s pat : Bytes) (i : ℕ) → length s < i + length pat → i ≤ length s → matches_at s pat i ≡ false
unfolding matches_at
no_room s pat i short le = elim (Bool-cases (starts_with pat (drop i s))) [
  | inl e ↦ absurd (omega (arith, starts_with-fits pat (drop i s) e, length-drop i s))
  | inr e ↦ e
]

-- Failing positions may be added behind a range.
IsLast-widen :
    (p : ℕ → Bool) (n j : ℕ) (o : Option ℕ)
    → n ≤ j
    → ((k : ℕ) → n ≤ k → k < j → p k ≡ false)
    → IsLast p n o
    → IsLast p j o
IsLast-widen p n j none le out h = λ k b. elim (Bool-cases (ltb k n)) [
  | inl e ↦ h k (ground arith)
  | inr e ↦ out k (ground arith) b
]
IsLast-widen p n j (some r) le out (a, b, c) = (
  omega arith,
  b,
  λ k x y. elim (Bool-cases (ltb k n)) [
    | inl e ↦ c k x (ground arith)
    | inr e ↦ out k (ground arith) y
  ],
)

-- `rfind` of the view.
sv_rfind_lem :
    (s pat : Bytes) (pos_ : ℕ)
    → pos_ < length s
    → IsLast (matches_at s pat) (pos_ + 1) (sv_rfind s pat pos_)
unfolding sv_rfind
sv_rfind_lem s pat pos_ h = elim (Bool-cases (ltb (length s) (length pat))) [
  | inl e ↦ rw e (λ k b. no_room s pat k (ground arith) (omega arith))
  | inr e ↦ elim (Bool-cases (ltb pos_ (length s - length pat))) [
    | inl f ↦ rw (e, f) (last_below-IsLast (matches_at s pat) (pos_ + 1))
    | inr f ↦
        rw (e, f)
          (IsLast-widen (matches_at s pat) (length s - length pat + 1) (pos_ + 1) _ (ground arith)
            (λ k a b. no_room s pat k (ground arith) (omega arith))
            (last_below-IsLast (matches_at s pat) (length s - length pat + 1)))
  ]
]

sv_last_lem :
    (p : ℕ → Bool) (s : Bytes) (pos_ : ℕ) → pos_ < length s → IsLast p (pos_ + 1) (sv_last p s pos_)
unfolding sv_last
sv_last_lem p s pos_ h =
    let e : ltb pos_ (length s) ≡ true = ground arith in rw e (last_below-IsLast p (pos_ + 1))

IsFirst-in :
    (p : ℕ → Bool) (i n j : ℕ)
    → i + n ≡ j
    → (o : Option ℕ) → IsFirst p i (i + n) o
    → IsFirst p i j o
IsFirst-in p i n j e o h = subst (λ j. IsFirst p i j o) e h

pub sv_first_lem :
    (p : ℕ → Bool) (s : Bytes) (i size : ℕ)
    → length s ≡ size
    → i ≤ size
    → IsFirst p i size (sv_first p s i)
unfolding sv_first
sv_first_lem p s i size e le =
    IsFirst-in p i (length s - i) size (omega arith) _ (first_from-IsFirst p i (length s - i))

module _ (m : Memory) (bs : Handle) (a : Arg) (pat : Bytes) (v : IsValid m bs)
    (read : check_pattern a m ≡ ok pat m) where
  module _ (find_ : Bytes → Bytes → ℕ → Option ℕ) (start : ℕ) where
    search_up_lem :
        1 ≤ start
        → start ≤ bs.size
        → search_up find_ (span bs) a (number (pos start)) m
          ≡ ok (to_index (find_ (view m bs) pat (start - 1))) m
    unfolding search_up search_up_for check_span check_integer search_from
    search_up_lem low high =
        bind_ok (check_pattern a) (search_up_for find_ bs (number (pos start))) read ∙ ground arith

    search_down_lem :
        1 ≤ start
        → start ≤ bs.size
        → search_down find_ (span bs) a (number (pos start)) m
          ≡ ok (to_index (find_ (view m bs) pat (start - 1))) m
    unfolding search_down search_down_for check_span check_integer search_to
    search_down_lem low high =
        bind_ok (check_pattern a) (search_down_for find_ bs (number (pos start))) read
        ∙ ground arith

  find_lem :
      (start : ℕ)
      → 1 ≤ start
      → start ≤ bs.size
      → (r : Option ℕ) × (find (span bs) a (number (pos start)) m ≡ ok (to_index r) m)
        × IsFirst (matches_at (view m bs) pat) (start - 1) (bs.size + 1) r
  unfolding find sv_find
  find_lem start low high = (
    sv_find (view m bs) pat (start - 1),
    search_up_lem sv_find start low high,
    IsFirst-in (matches_at (view m bs) pat) (start - 1) (length (view m bs) + 1 - (start - 1))
        (bs.size + 1) (omega (arith, length-view m bs v)) _
        (first_from-IsFirst (matches_at (view m bs) pat) (start - 1)
          (length (view m bs) + 1 - (start - 1))),
  )

  rfind_lem :
      (end_ : ℕ)
      → 1 ≤ end_
      → end_ ≤ bs.size
      → (r : Option ℕ) × (rfind (span bs) a (number (pos end_)) m ≡ ok (to_index r) m)
        × IsLast (matches_at (view m bs) pat) end_ r
  unfolding rfind
  rfind_lem end_ low high =
      let e : end_ - 1 + 1 ≡ end_ = omega arith in
      (
        sv_rfind (view m bs) pat (end_ - 1),
        search_down_lem sv_rfind end_ low high,
        subst (λ j. IsLast (matches_at (view m bs) pat) j (sv_rfind (view m bs) pat (end_ - 1))) e
            (sv_rfind_lem (view m bs) pat (end_ - 1) (omega (arith, length-view m bs v))),
      )

  find_first_of_lem :
      (start : ℕ)
      → 1 ≤ start
      → start ≤ bs.size
      → (r : Option ℕ) × (find_first_of (span bs) a (number (pos start)) m ≡ ok (to_index r) m)
        × IsFirst (is_in (view m bs) pat) (start - 1) bs.size r
  unfolding find_first_of sv_first
  find_first_of_lem start low high = (
    sv_first (is_in (view m bs) pat) (view m bs) (start - 1),
    search_up_lem (λ s pat. sv_first (is_in s pat) s) start low high,
    sv_first_lem (is_in (view m bs) pat) (view m bs) (start - 1) bs.size (length-view m bs v)
        (omega arith),
  )

  find_first_not_of_lem :
      (start : ℕ)
      → 1 ≤ start
      → start ≤ bs.size
      → (r : Option ℕ) × (find_first_not_of (span bs) a (number (pos start)) m ≡ ok (to_index r) m)
        × IsFirst (is_not_in (view m bs) pat) (start - 1) bs.size r
  unfolding find_first_not_of
  find_first_not_of_lem start low high = (
    sv_first (is_not_in (view m bs) pat) (view m bs) (start - 1),
    search_up_lem (λ s pat. sv_first (is_not_in s pat) s) start low high,
    sv_first_lem (is_not_in (view m bs) pat) (view m bs) (start - 1) bs.size (length-view m bs v)
        (omega arith),
  )

  find_last_of_lem :
      (end_ : ℕ)
      → 1 ≤ end_
      → end_ ≤ bs.size
      → (r : Option ℕ) × (find_last_of (span bs) a (number (pos end_)) m ≡ ok (to_index r) m)
        × IsLast (is_in (view m bs) pat) end_ r
  unfolding find_last_of
  find_last_of_lem end_ low high =
      let e : end_ - 1 + 1 ≡ end_ = omega arith in
      (
        sv_last (is_in (view m bs) pat) (view m bs) (end_ - 1),
        search_down_lem (λ s pat. sv_last (is_in s pat) s) end_ low high,
        subst
            (λ j.
              IsLast (is_in (view m bs) pat) j
                (sv_last (is_in (view m bs) pat) (view m bs) (end_ - 1)))
            e
            (sv_last_lem (is_in (view m bs) pat) (view m bs) (end_ - 1)
              (omega (arith, length-view m bs v))),
      )

  find_last_not_of_lem :
      (end_ : ℕ)
      → 1 ≤ end_
      → end_ ≤ bs.size
      → (r : Option ℕ) × (find_last_not_of (span bs) a (number (pos end_)) m ≡ ok (to_index r) m)
        × IsLast (is_not_in (view m bs) pat) end_ r
  unfolding find_last_not_of
  find_last_not_of_lem end_ low high =
      let e : end_ - 1 + 1 ≡ end_ = omega arith in
      (
        sv_last (is_not_in (view m bs) pat) (view m bs) (end_ - 1),
        search_down_lem (λ s pat. sv_last (is_not_in s pat) s) end_ low high,
        subst
            (λ j.
              IsLast (is_not_in (view m bs) pat) j
                (sv_last (is_not_in (view m bs) pat) (view m bs) (end_ - 1)))
            e
            (sv_last_lem (is_not_in (view m bs) pat) (view m bs) (end_ - 1)
              (omega (arith, length-view m bs v))),
      )

  -- For a valid span, a pattern argument that is read, and a start from 1 to the size, `find`,
  -- `find_first_of` and `find_first_not_of` succeed and return the least position from the start on
  -- at which the pattern stands, whose byte is in the pattern, and whose byte is not, counted from
  -- 1, or nil if there is none.
  pub searches_up_lem :
      (start : ℕ)
      → 1 ≤ start
      → start ≤ bs.size
      → ((r : Option ℕ) × (find (span bs) a (number (pos start)) m ≡ ok (to_index r) m)
          × IsFirst (matches_at (view m bs) pat) (start - 1) (bs.size + 1) r)
        × ((r : Option ℕ) × (find_first_of (span bs) a (number (pos start)) m ≡ ok (to_index r) m)
            × IsFirst (is_in (view m bs) pat) (start - 1) bs.size r)
        × ((r : Option ℕ) × (find_first_not_of (span bs) a (number (pos start)) m
              ≡ ok (to_index r) m)
            × IsFirst (is_not_in (view m bs) pat) (start - 1) bs.size r)
  searches_up_lem start low high = (
    find_lem start low high,
    find_first_of_lem start low high,
    find_first_not_of_lem start low high,
  )

  -- For a valid span, a pattern argument that is read, and an end from 1 to the size, `rfind`,
  -- `find_last_of` and `find_last_not_of` succeed and return the greatest position up to the end at
  -- which the pattern stands, whose byte is in the pattern, and whose byte is not, counted from 1,
  -- or nil if there is none.
  pub searches_down_lem :
      (end_ : ℕ)
      → 1 ≤ end_
      → end_ ≤ bs.size
      → ((r : Option ℕ) × (rfind (span bs) a (number (pos end_)) m ≡ ok (to_index r) m)
          × IsLast (matches_at (view m bs) pat) end_ r)
        × ((r : Option ℕ) × (find_last_of (span bs) a (number (pos end_)) m ≡ ok (to_index r) m)
            × IsLast (is_in (view m bs) pat) end_ r)
        × ((r : Option ℕ) × (find_last_not_of (span bs) a (number (pos end_)) m ≡ ok (to_index r) m)
            × IsLast (is_not_in (view m bs) pat) end_ r)
  searches_down_lem end_ low high =
      (rfind_lem end_ low high, find_last_of_lem end_ low high, find_last_not_of_lem end_ low high)
