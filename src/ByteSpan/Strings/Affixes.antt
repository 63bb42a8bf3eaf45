-- ===== src/ByteSpan/Strings/Affixes.antt =====
-- src/byte_span.cpp: `starts_with` and `ends_with` test for a prefix and a suffix.
use emilua.Common.{
  ℕ, ◌≡◌, ◌↔◌, refl, sym, ap, ◌∙◌, Bool, true, [], ◌∷◌, ◌++◌, arith, ◌==◌, ◌-◌, ◌≤◌, ◌+◌, leb,
  length, drop, take, length-append, length-drop, take-append-drop, append-nil,
}
use emilua.ByteSpan.{Bytes, Handle, Memory, Arg, span, ok, view, check_span, check_bytes}
use emilua.ByteSpan.Search.{starts_with, ends_with}
use emilua.ByteSpan.View.{bind_ok}
use emilua.ByteSpan.Strings.{byte_span_starts_with, byte_span_ends_with}

-- A prefix with what follows it.
abbrev pub IsPrefix : Bytes → Bytes → Type 0
IsPrefix pat s = (rest : Bytes) × (s ≡ pat ++ rest)

starts_with-IsPrefix : (pat s : Bytes) → starts_with pat s ≡ true → IsPrefix pat s
unfolding starts_with
starts_with-IsPrefix [] s e = (s, refl)
starts_with-IsPrefix (x ∷ pat) [] e = absurd (ground arith)
starts_with-IsPrefix (x ∷ pat) (y ∷ s) e =
    let head : x ≡ y = ground arith in
    let tail : starts_with pat s ≡ true = ground arith in
    let (rest, same) = starts_with-IsPrefix pat s tail in (rest, rw (head, same) refl)

starts_with-append : (pat rest : Bytes) → starts_with pat (pat ++ rest) ≡ true
unfolding starts_with
starts_with-append [] rest = refl
starts_with-append (x ∷ pat) rest =
    let same : (x == x) ≡ true = ground arith in rw same (starts_with-append pat rest)

byte_span_starts_with_lem :
    (m : Memory) (bs : Handle) (a : Arg) (pat : Bytes)
    → check_bytes 2 a m ≡ ok pat m
    → (r : Bool) × (byte_span_starts_with (span bs) a m ≡ ok r m)
      × ((r ≡ true) ↔ IsPrefix pat (view m bs))
unfolding byte_span_starts_with check_span
byte_span_starts_with_lem m bs a pat read = (
  starts_with pat (view m bs),
  bind_ok (check_bytes 2 a) _ read,
  (
    starts_with-IsPrefix pat (view m bs),
    λ (rest, e). ap (starts_with pat) e ∙ starts_with-append pat rest,
  ),
)

-- A suffix with what stands in front of it.
abbrev pub IsSuffix : Bytes → Bytes → Type 0
IsSuffix pat s = (before : Bytes) × (s ≡ before ++ pat)

no_bytes : (xs : Bytes) → length xs ≡ 0 → xs ≡ []
no_bytes [] e = refl
no_bytes (x ∷ xs) e = absurd (omega arith)

drop-append_all : (xs ys : Bytes) → drop (length xs) (xs ++ ys) ≡ ys
drop-append_all [] ys = refl
drop-append_all (x ∷ xs) ys = drop-append_all xs ys

ends_with-IsSuffix : (pat s : Bytes) → ends_with pat s ≡ true → IsSuffix pat s
unfolding ends_with
ends_with-IsSuffix pat s e =
    let k : ℕ = length s - length pat in
    let fits : length pat ≤ length s = ground arith in
    let tail : starts_with pat (drop k s) ≡ true = ground arith in
    let (rest, same) = starts_with-IsPrefix pat (drop k s) tail in
    let left : length (drop k s) ≡ length pat + length rest =
      ap length same ∙ length-append pat rest in
    let none_left : rest ≡ [] = no_bytes rest (omega (arith, length-drop k s)) in
    (
      take k s,
      sym (take-append-drop k s)
          ∙ ap (λ t. take k s ++ t) (same ∙ ap (λ r. pat ++ r) none_left ∙ append-nil pat),
    )

ends_with-append : (before pat : Bytes) → ends_with pat (before ++ pat) ≡ true
unfolding ends_with
ends_with-append before pat =
    let size : length (before ++ pat) - length pat ≡ length before =
      omega (arith, length-append before pat) in
    let fits : leb (length pat) (length (before ++ pat)) ≡ true =
      ground (arith, length-append before pat) in
    rw (fits, size)
      (ap (starts_with pat) (drop-append_all before pat ∙ sym (append-nil pat))
        ∙ starts_with-append pat [])

byte_span_ends_with_lem :
    (m : Memory) (bs : Handle) (a : Arg) (pat : Bytes)
    → check_bytes 2 a m ≡ ok pat m
    → (r : Bool) × (byte_span_ends_with (span bs) a m ≡ ok r m)
      × ((r ≡ true) ↔ IsSuffix pat (view m bs))
unfolding byte_span_ends_with check_span
byte_span_ends_with_lem m bs a pat read = (
  ends_with pat (view m bs),
  bind_ok (check_bytes 2 a) _ read,
  (
    ends_with-IsSuffix pat (view m bs),
    λ (before, e). ap (ends_with pat) e ∙ ends_with-append before pat,
  ),
)

-- For an argument that is read, `starts_with` and `ends_with` succeed, leave the memory as it is,
-- and return true exactly if the bytes of the span are those of the argument followed by others,
-- and others followed by those of the argument.
pub affixes_lem :
    (m : Memory) (bs : Handle) (a : Arg) (pat : Bytes)
    → check_bytes 2 a m ≡ ok pat m
    → ((r : Bool) × (byte_span_starts_with (span bs) a m ≡ ok r m)
        × ((r ≡ true) ↔ IsPrefix pat (view m bs)))
      × ((r : Bool) × (byte_span_ends_with (span bs) a m ≡ ok r m)
          × ((r ≡ true) ↔ IsSuffix pat (view m bs)))
affixes_lem m bs a pat read =
    (byte_span_starts_with_lem m bs a pat read, byte_span_ends_with_lem m bs a pat read)
