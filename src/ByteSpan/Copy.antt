-- ===== src/ByteSpan/Copy.antt =====
-- src/byte_span.cpp: construction and `copy`.
use emilua.Common.{
  ℕ, ◌+◌, ◌≤◌, ◌<◌, ◌≡◌, refl, ap, subst, ◌∙◌, inl, inr, Option, none, some, [], ◌++◌, arith, ltb,
  ◌==◌, if◌then◌else◌, length, take, drop, get_or, min, length-take, length-drop, length-set,
  Bool-cases,
}
use emilua.ByteSpan.{
  Bytes, Handle, Memory, Arg, span, ok, bytes_at, view, splice, write, check_span, check_bytes,
  copy_bytes, copy,
}
use emilua.ByteSpan.View.{
  bind_ok, IsKnown, length-write, IsValid, Room, IsValid-Room, bytes_at-write, take-splice_within,
}

-- A write within a span's bytes shows as the same write of its view.
module _ (m : Memory) (h : Handle) (v : IsValid m h) (i : ℕ) (new : Bytes)
    (fits : i + length new ≤ h.size) (some_bytes : 0 < h.size) where
  pub view-write_at :
      (a offset : ℕ)
      → h.place ≡ some (a, offset)
      → view (write (some (a, offset)) i new m) h ≡ splice (view m h) i new
  unfolding view
  view-write_at a offset at =
      let r = IsValid-Room m h a offset v at (omega (arith, v.sized)) in
      let within : Room m a offset (i + length new) = record {
        known = r.known;
        fits = omega (arith, r.fits, v.sized);
      } in
      let long : h.size ≤ length (bytes_at m (some (a, offset))) =
        subst (λ p. h.size ≤ length (bytes_at m p)) at (omega (arith, v.sized, v.backed)) in
      rw (at, bytes_at-write m a offset i new within)
        (take-splice_within (bytes_at m (some (a, offset))) i h.size new fits long)

  pub view-write_in : view (write h.place i new m) h ≡ splice (view m h) i new
  view-write_in = go h.place refl
    where
      go : (p : Option (ℕ × ℕ)) → h.place ≡ p → view (write p i new m) h ≡ splice (view m h) i new
      go none at = absurd (
          omega (
            arith,
            v.sized,
            subst (λ p. h.capacity ≤ length (bytes_at m p)) at v.backed,
            none_empty,
          ))
        where
          none_empty : length (bytes_at m none) ≡ 0
          none_empty = unfold bytes_at in refl
      go (some (a, offset)) at = view-write_at a offset at

-- A write within an array changes the length of none.
IsKnown-write :
    (m : Memory) (a offset i : ℕ) (new : Bytes) (p : Option (ℕ × ℕ))
    → IsKnown m p
    → IsKnown (write (some (a, offset)) i new m) p
unfolding write
IsKnown-write m a offset i new none k = tt
IsKnown-write m a offset i new (some (b, q)) k =
    omega (arith, k, length-set m.arrays a (splice (get_or m.arrays a []) (offset + i) new))

length-bytes_at-write :
    (m : Memory) (a offset i : ℕ) (new : Bytes) (p : Option (ℕ × ℕ))
    → Room m a offset (i + length new)
    → length (bytes_at (write (some (a, offset)) i new m) p) ≡ length (bytes_at m p)
unfolding bytes_at
length-bytes_at-write m a offset i new none r = refl
length-bytes_at-write m a offset i new (some (b, q)) r =
    let w = write (some (a, offset)) i new m in
    omega (
      arith,
      length-write m a offset i new r b,
      length-drop q (get_or w.arrays b []),
      length-drop q (get_or m.arrays b []),
    )

-- So it leaves every valid handle valid.
pub write-IsValid :
    (m : Memory) (a offset i : ℕ) (new : Bytes)
    → Room m a offset (i + length new)
    → (g : Handle) → IsValid m g
    → IsValid (write (some (a, offset)) i new m) g
write-IsValid m a offset i new r g v = record {
  known = IsKnown-write m a offset i new g.place v.known;
  sized = v.sized;
  backed = omega (arith, v.backed, length-bytes_at-write m a offset i new g.place r);
}

-- Nor does a write within the bytes of a span.
pub write_in-IsValid :
    (m : Memory) (h : Handle) (i : ℕ) (new : Bytes)
    → IsValid m h
    → i + length new ≤ h.size
    → 0 < h.size
    → (g : Handle) → IsValid m g
    → IsValid (write h.place i new m) g
write_in-IsValid m h i new v fits some_bytes g k = go h.place refl
  where
    go : (p : Option (ℕ × ℕ)) → h.place ≡ p → IsValid (write p i new m) g
    go none at = unfold write in k
    go (some (a, offset)) at =
        let r = IsValid-Room m h a offset v at (omega (arith, v.sized)) in
        write-IsValid m a offset i new
          (record { known = r.known; fits = omega (arith, r.fits, v.sized) }) g k

-- What `copy` writes, for the number of bytes that it chose.
view-copied :
    (m : Memory) (h : Handle) (v : IsValid m h) (src : Bytes) (count : ℕ)
    → count ≤ length src
    → count ≤ h.size
    → view (if count == 0 then m else write h.place 0 (take count src) m) h
      ≡ take count src ++ drop count (view m h)
unfolding splice
view-copied m h v src count a b = elim (Bool-cases (count == 0)) [
  | inl e ↦ let no_bytes : count ≡ 0 = ground arith in rw no_bytes refl
  | inr e ↦
      let new = take count src in
      let all : 0 + length new ≡ count = omega (arith, length-take count src) in
      let tail : new ++ drop (0 + length new) (view m h) ≡ new ++ drop count (view m h) =
        ap (λ k. new ++ drop k (view m h)) all in
      let some_bytes : 0 < count = ground arith in
      rw e (view-write_in m h v 0 new (omega arith) (omega arith) ∙ tail)
]

copied-IsValid :
    (m : Memory) (h : Handle) (v : IsValid m h) (src : Bytes) (count : ℕ)
    → count ≤ length src
    → count ≤ h.size
    → (g : Handle) → IsValid m g
    → IsValid (if count == 0 then m else write h.place 0 (take count src) m) g
copied-IsValid m h v src count a b g k = elim (Bool-cases (count == 0)) [
  | inl e ↦ rw e k
  | inr e ↦
      let some_bytes : 0 < count = ground arith in
      rw e (
        write_in-IsValid m h 0 (take count src) v (omega (arith, length-take count src))
          (omega arith) g k)
]

-- For a valid span and a source argument that is read, which may be an overlapping span, `copy`
-- succeeds, returns the lesser of the two lengths, and the span then shows that many bytes of the
-- source as it was, followed by its own bytes; valid handles stay valid.
pub copy_lem :
    (m : Memory) (h : Handle) (a : Arg) (src : Bytes)
    → IsValid m h
    → check_bytes 2 a m ≡ ok src m
    → (g : Handle) → IsValid m g
    → (n : ℕ) × (m' : Memory) × (copy (span h) a m ≡ ok n m')
      × (n ≡ min (length src) h.size)
      × (view m' h ≡ take n src ++ drop n (view m h))
      × IsValid m' g
unfolding copy copy_bytes check_span
copy_lem m h a src v e g k =
    let n : ℕ = if ltb (length src) h.size then length src else h.size in
    let small : n ≡ min (length src) h.size = ground arith in
    let shown = view-copied m h v src n (omega arith) (omega arith) in
    let kept = copied-IsValid m h v src in
    (
      n,
      (if n == 0 then m else write h.place 0 (take n src) m),
      bind_ok (check_bytes 2 a) (copy_bytes h) e,
      small,
      shown,
      kept n (omega arith) (omega arith) g k,
    )
