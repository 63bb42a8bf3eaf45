-- ===== src/ByteSpan/Strings/Trim.antt =====
-- src/byte_span.cpp: `trimmed` keeps the bytes between the white space.
use emilua.Common.{
  ℕ, ◌+◌, ◌-◌, ◌≤◌, ◌<◌, ◌≡◌, refl, sym, inl, inr, Bool, true, false, Option, none, some, arith,
  ltb, length, take, drop, length-drop, drop-take, take-take, Bool-cases,
}
use emilua.ByteSpan.{Bytes, Handle, Memory, Arg, span, ok, bytes_at, view, check_span}
use emilua.ByteSpan.Search.{IsFirst, IsLast, last_below-IsLast, is_in, is_not_in, sv_first, sv_last}
use emilua.ByteSpan.View.{
  IsValid, null-IsValid, IsKnown-advance, length-view, bytes_at-advance, bind_ok,
}
use emilua.ByteSpan.Strings.Laws.{sv_first_lem}
use emilua.ByteSpan.Strings.{narrow, trim_with, trim_of, trimmed, check_white_space}

-- `t` shows `n` bytes of `self` from `i` on; the bytes around them are in the list, and the first
-- and the last of them are not.
pub record IsTrimmed (m : Memory) (self lws : Bytes) (t : Handle) (i n : ℕ) : Type 0 where
  pub shown : view m t ≡ take n (drop i self)
  pub inside : i + n ≤ length self
  pub before : (k : ℕ) → k < i → is_in self lws k ≡ true
  pub behind : (k : ℕ) → i + n ≤ k → k < length self → is_in self lws k ≡ true
  pub first : 0 < n → is_in self lws i ≡ false
  pub last : 0 < n → is_in self lws (i + n - 1) ≡ false

abbrev pub Trimmed : Memory → Bytes → Bytes → Handle → Type 0
Trimmed m self lws t = IsValid m t × (i : ℕ) × (n : ℕ) × IsTrimmed m self lws t i n

not_in : (self lws : Bytes) (k : ℕ) → is_not_in self lws k ≡ false → is_in self lws k ≡ true
unfolding is_not_in
not_in self lws k e = ground arith

sv_last_all :
    (p : ℕ → Bool) (s : Bytes) (size : ℕ) → length s ≡ size → IsLast p size (sv_last p s (length s))
unfolding sv_last
sv_last_all p s size e =
    let whole : ltb (length s) (length s) ≡ false = ground arith in
    rw (whole, e) (last_below-IsLast p size)

module _ (m : Memory) (bs : Handle) (v : IsValid m bs) where
  narrow-IsValid :
      (start last : ℕ) → start ≤ last → last < bs.size → IsValid m (narrow bs start last)
  narrow-IsValid start last le lt = record {
    known = IsKnown-advance m bs.place start v.known;
    sized = omega (arith, v.sized);
    backed =
        rw (bytes_at-advance m bs.place start)
          (omega (arith, v.backed, length-drop start (bytes_at m bs.place)));
  }

  view-narrow :
      (start last : ℕ)
      → start ≤ last
      → last < bs.size
      → view m (narrow bs start last) ≡ take (last + 1 - start) (drop start (view m bs))
  unfolding view
  view-narrow start last le lt =
      rw (bytes_at-advance m bs.place start, drop-take start bs.size (bytes_at m bs.place))
        (sym (
          take-take (last + 1 - start) (bs.size - start) (drop start (bytes_at m bs.place))
            (omega arith)))

  module _ (lws : Bytes) where
    kept : ℕ → Bool
    kept = is_not_in (view m bs) lws

    in_list : (k : ℕ) → kept k ≡ true → is_in (view m bs) lws k ≡ false
    unfolding kept is_not_in
    in_list k e = ground arith

    found :
        (start last : ℕ)
        → IsFirst kept 0 bs.size (some start)
        → IsLast kept bs.size (some last)
        → Trimmed m (view m bs) lws (narrow bs start last)
    unfolding kept
    found start last (a, b, c, d) (x, y, z) = (
      narrow-IsValid start last le x,
      start,
      last + 1 - start,
      record {
        shown = view-narrow start last le x;
        inside = omega (arith, length-view m bs v);
        before = λ k h. not_in (view m bs) lws k (d k (omega arith) h);
        behind = λ k h j.
            not_in (view m bs) lws k (z k (omega arith) (omega (arith, length-view m bs v)));
        first = λ h. in_list start c;
        last = λ h. rw same (in_list last y);
      },
    )
      where
        le : start ≤ last
        le = elim (Bool-cases (ltb last start)) [
          | inl e ↦
              let out : kept last ≡ false = d last (omega arith) (ground arith) in
              absurd (ground arith)
          | inr e ↦ ground arith
        ]

        same : start + (last + 1 - start) - 1 ≡ last
        same = omega (arith, le)

    go :
        (o q : Option ℕ)
        → sv_first kept (view m bs) 0 ≡ o
        → sv_last kept (view m bs) (length (view m bs)) ≡ q
        → IsFirst kept 0 bs.size o
        → IsLast kept bs.size q
        → Trimmed m (view m bs) lws (trim_with bs (view m bs) lws)
    unfolding kept trim_with view
    go none q e f a b =
        rw (trim_with, e)
          (
            null-IsValid m,
            0,
            0,
            record {
              shown = refl;
              inside = omega arith;
              before = λ k h. absurd (omega arith);
              behind = λ k h j.
                  not_in (view m bs) lws k (a k (omega arith) (omega (arith, length-view m bs v)));
              first = λ h. absurd (omega arith);
              last = λ h. absurd (omega arith);
            },
          )
    go (some start) none e f (a, b, c, d) z =
        let out : kept start ≡ false = z start b in absurd (ground arith)
    go (some start) (some last) e f a b = rw (trim_with, e, f) (found start last a b)

    trim_with_lem : Trimmed m (view m bs) lws (trim_with bs (view m bs) lws)
    trim_with_lem =
        go (sv_first kept (view m bs) 0) (sv_last kept (view m bs) (length (view m bs))) refl refl
          (sv_first_lem kept (view m bs) 0 bs.size (length-view m bs v) (omega arith))
          (sv_last_all kept (view m bs) bs.size (length-view m bs v))

-- For a valid span and a second argument that gives the white space, `trimmed` succeeds with a
-- valid span of the same memory that shows a range of the bytes: all bytes before and behind the
-- range are white space, and its first and last bytes are not.
pub trimmed_lem :
    (m : Memory) (bs : Handle) (a : Arg) (lws : Bytes)
    → IsValid m bs
    → check_white_space a m ≡ ok lws m
    → (t : Handle) × (trimmed (span bs) a m ≡ ok t m) × Trimmed m (view m bs) lws t
unfolding trimmed check_span trim_of
trimmed_lem m bs a lws v read = (
  trim_with bs (view m bs) lws,
  bind_ok (check_white_space a) (trim_of bs) read,
  trim_with_lem m bs v lws,
)
