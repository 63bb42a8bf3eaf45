-- ===== src/ByteSpan/Splices.antt =====
-- src/byte_span.cpp: what bytes written over a list leave of it.
use emilua.Common.{
  ℕ, ◌+◌, ◌-◌, ◌≤◌, ◌≡◌, ap, ◌∙◌, ◌++◌, arith, length, take, drop, length-append, length-take,
  length-drop, drop-drop, take_all, take-append, take-append_ge, drop-append, drop-take, take-take,
}
use emilua.ByteSpan.{Bytes, splice}

pub length-splice :
    (old : Bytes) (i : ℕ) (new : Bytes)
    → i + length new ≤ length old
    → length (splice old i new) ≡ length old
unfolding splice
length-splice old i new h = omega (
  arith,
  length-append (take i old) (new ++ drop (i + length new) old),
  length-append new (drop (i + length new) old),
  length-take i old,
  length-drop (i + length new) old,
)

-- Behind an offset the splice is a splice.
pub drop-splice :
    (old : Bytes) (offset i : ℕ) (new : Bytes)
    → offset + i + length new ≤ length old
    → drop offset (splice old (offset + i) new) ≡ splice (drop offset old) i new
unfolding splice
drop-splice old offset i new h =
    let start : offset + i - offset ≡ i = omega arith in
    let rest : offset + i + length new ≡ offset + (i + length new) = omega arith in
    rw (
      drop-append offset (take (offset + i) old) (new ++ drop (offset + i + length new) old)
          (omega (arith, length-take (offset + i) old)),
      drop-take offset (offset + i) old,
      start,
      rest,
      drop-drop (i + length new) offset old,
    )

-- The bytes in front of a splice are kept.
pub take-splice :
    (old : Bytes) (i n : ℕ) (new : Bytes)
    → n ≤ i
    → i ≤ length old
    → take n (splice old i new) ≡ take n old
unfolding splice
take-splice old i n new h k =
    take-append n (take i old) _ (omega (arith, length-take i old)) ∙ take-take n i old h

-- The first `i` bytes and the new ones.
pub take-splice_new :
    (old : Bytes) (i : ℕ) (new : Bytes)
    → i ≤ length old
    → take (i + length new) (splice old i new) ≡ take i old ++ new
unfolding splice
take-splice_new old i new h =
    let rest = drop (i + length new) old in
    let at : length (take i old) ≡ i = omega (arith, length-take i old) in
    let left : i + length new - length (take i old) ≡ length new = omega arith in
    take-append_ge (i + length new) (take i old) (new ++ rest) (omega arith)
    ∙ rw left (
        ap (◌++◌ (take i old)) (
          take-append (length new) new rest (omega arith)
          ∙ take_all (length new) new (omega arith)))

-- A splice that ends within the first `n` bytes is a splice of these.
pub take-splice_within :
    (old : Bytes) (i n : ℕ) (new : Bytes)
    → i + length new ≤ n
    → n ≤ length old
    → take n (splice old i new) ≡ splice (take n old) i new
unfolding splice
take-splice_within old i n new h k =
    let rest = drop (i + length new) old in
    let at : length (take i old) ≡ i = omega (arith, length-take i old) in
    let left : n - length (take i old) ≡ n - i = omega arith in
    let later : n - i - length new ≡ n - (i + length new) = omega arith in
    rw (
      take-append_ge n (take i old) (new ++ rest) (omega arith),
      left,
      take-append_ge (n - i) new rest (omega arith),
      later,
      drop-take (i + length new) n old,
      take-take i n old (omega arith),
    )
