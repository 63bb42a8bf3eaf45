-- ===== src/ByteSpan/Append/Copies.antt =====
-- src/byte_span.cpp: what the copies of `append` leave in memory.
use native.Mathlib.Decide.{ℕ_discrete}
use mathlib.Core.List.{append_assoc, append-nil}
use emilua.Common.{
  ℕ, zero, ◌+◌, ◌≤◌, ◌<◌, ◌≡◌, ◌≢◌, refl, ap, subst, ◌∙◌, ◌⊎◌, inl, inr, Option, none, some, List,
  [], ◌∷◌, ◌++◌, arith, ◌==◌, length, take, get_or, length-drop, Bool-cases,
}
use emilua.ByteSpan.{Bytes, Handle, Memory, positive_overflow, ok, err, bytes_at, view, write}
use emilua.ByteSpan.View.{
  take-splice_new, bytes_at-write, bytes_at-write_ne, bytes_at-write_before, Room, Room-write,
}
use emilua.ByteSpan.Append.{
  integer_max, Slice, fixed, live, slice_size, slice_bytes, add_sizes, copy_slices,
}

-- The bytes of all slices, as the memory has them.
unfoldable pub concatenation : Memory → List Slice → Bytes
concatenation m [] = []
concatenation m (s ∷ slices) = slice_bytes m s ++ concatenation m slices

unfoldable pub total_size : List Slice → ℕ
total_size [] = 0
total_size (s ∷ slices) = slice_size s + total_size slices

-- A span that no write from byte `start` of array `a` on can reach.
abbrev pub IsApart : ℕ → ℕ → Option (ℕ × ℕ) → ℕ → Type 0
IsApart a start none size = Unit {0}
IsApart a start (some (b, q)) size = (a ≢ b) ⊎ (q + size ≤ start)

-- A slice with as many bytes as it says, apart from the destination.
abbrev pub IsReadable : Memory → ℕ → ℕ → Slice → Type 0
IsReadable m a start (fixed s) = Unit {0}
IsReadable m a start (live h) = (length (view m h) ≡ h.size) × IsApart a start h.place h.size

abbrev pub AllReadable : Memory → ℕ → ℕ → List Slice → Type 0
AllReadable m a start [] = Unit {0}
AllReadable m a start (s ∷ slices) = IsReadable m a start s × AllReadable m a start slices

module _ (m : Memory) (a offset i : ℕ) (new : Bytes) (r : Room m a offset (i + length new))
    (start : ℕ) (below : start ≤ offset + i) where
  abbrev after : Memory
  after = write (some (a, offset)) i new m

  pub view-write_apart : (h : Handle) → IsApart a start h.place h.size → view after h ≡ view m h
  unfolding view
  view-write_apart h apart = go h.place apart
    where
      go :
          (p : Option (ℕ × ℕ))
          → IsApart a start p h.size
          → take h.size (bytes_at after p) ≡ take h.size (bytes_at m p)
      go none _ = unfold bytes_at in refl
      go (some (b, q)) (inl ne) = ap (take h.size) (bytes_at-write_ne m a offset i new b q ne)
      go (some (b, q)) (inr le) = elim (ℕ_discrete a b) [
        | yes same ↦
            subst
              (λ c.
                take h.size (bytes_at after (some (c, q))) ≡ take h.size (bytes_at m (some (c, q))))
              same (bytes_at-write_before m a offset i new r q h.size (omega arith))
        | no ne ↦ ap (take h.size) (bytes_at-write_ne m a offset i new b q ne)
      ]

  slice_bytes-write : (s : Slice) → IsReadable m a start s → slice_bytes after s ≡ slice_bytes m s
  unfolding slice_bytes
  slice_bytes-write (fixed s) _ = refl
  slice_bytes-write (live h) readable = view-write_apart h readable.1

  concatenation-write :
      (slices : List Slice)
      → AllReadable m a start slices
      → concatenation after slices ≡ concatenation m slices
  unfolding concatenation
  concatenation-write [] _ = refl
  concatenation-write (s ∷ slices) all =
      rw (slice_bytes-write s all.0, concatenation-write slices all.1)

  AllReadable-write :
      (slices : List Slice) → AllReadable m a start slices → AllReadable after a start slices
  AllReadable-write [] _ = tt
  AllReadable-write (fixed s ∷ slices) all = (tt, AllReadable-write slices all.1)
  AllReadable-write (live h ∷ slices) all =
      ((ap length (view-write_apart h all.0.1) ∙ all.0.0, all.0.1), AllReadable-write slices all.1)

pub slice_bytes-length :
    (m : Memory) (a start : ℕ) (s : Slice)
    → IsReadable m a start s
    → length (slice_bytes m s) ≡ slice_size s
unfolding slice_bytes slice_size
slice_bytes-length m a start (fixed s) _ = refl
slice_bytes-length m a start (live h) readable = readable.0

length-zero : (xs : Bytes) → length xs ≡ 0 → xs ≡ []
length-zero [] h = refl
length-zero (x ∷ xs) h = absurd (omega arith)

-- What the copy of one slice to index `idx` leaves for the others.
record Copied (m w : Memory) (a offset start idx : ℕ) (s : Slice) (slices : List Slice)
    : Type 0 where
  room : (n : ℕ) → Room m a offset n → Room w a offset n
  readable : AllReadable w a start slices
  same : concatenation w slices ≡ concatenation m slices
  placed :
      take (idx + slice_size s) (bytes_at w (some (a, offset)))
      ≡ take idx (bytes_at m (some (a, offset))) ++ slice_bytes m s

module _ (a offset start : ℕ) (m : Memory) (idx : ℕ) (s : Slice) (slices : List Slice)
    (below : start ≤ offset + idx) (r : Room m a offset (idx + slice_size s))
    (all : AllReadable m a start (s ∷ slices)) where
  Copied-none : slice_size s ≡ 0 → Copied m m a offset start idx s slices
  Copied-none e =
      let nothing : slice_bytes m s ≡ [] =
        length-zero _ (slice_bytes-length m a start s all.0 ∙ e) in
      let at : idx + slice_size s ≡ idx = omega arith in
      record {
        room = λ n q. q;
        readable = all.1;
        same = refl;
        placed = rw (at, nothing, append-nil (take idx (bytes_at m (some (a, offset)))));
      }

  Copied-some :
      Copied m (write (some (a, offset)) idx (slice_bytes m s) m) a offset start idx s slices
  Copied-some =
      let new = slice_bytes m s in
      let size : length new ≡ slice_size s = slice_bytes-length m a start s all.0 in
      let room : Room m a offset (idx + length new) = record {
        known = r.known;
        fits = omega (arith, r.fits);
      } in
      record {
        room = Room-write m a offset idx new room a offset;
        readable = AllReadable-write m a offset idx new room start below slices all.1;
        same = concatenation-write m a offset idx new room start below slices all.1;
        placed =
            rw (← size, bytes_at-write m a offset idx new room)
              (take-splice_new (bytes_at m (some (a, offset))) idx new (
                unfold bytes_at in
                omega (arith, r.fits, length-drop offset (get_or m.arrays a []))));
      }

-- The copies put the slices behind the first `idx` bytes of the destination.
module _ (dst : Handle) (a offset start : ℕ) (at : dst.place ≡ some (a, offset)) where
  abbrev pub Copies : Memory → Memory → ℕ → List Slice → Type 0
  Copies m w idx slices =
      take (idx + total_size slices) (bytes_at (copy_slices dst (idx) slices w) (some (a, offset)))
      ≡ take idx (bytes_at m (some (a, offset))) ++ concatenation m slices

  pub copy_slices_lem :
      (slices : List Slice) (m : Memory) (idx : ℕ)
      → start ≤ offset + idx
      → Room m a offset (idx + total_size slices)
      → AllReadable m a start slices
      → Copies m m idx slices
  unfolding copy_slices concatenation total_size
  copy_slices_lem [] m idx below room all =
      let e : idx + zero ≡ idx = omega arith in
      rw (e, append-nil (take idx (bytes_at m (some (a, offset)))))
  copy_slices_lem (s ∷ slices) m idx below room all = elim (Bool-cases (slice_size s == 0)) [
    | inl e ↦ rw e (
        next m (Copied-none a offset start m idx s slices below first all (ground arith))
          (copy_slices_lem slices m (idx + slice_size s) (omega arith) later all.1))
    | inr e ↦
        rw (e, at)
          (let c = Copied-some a offset start m idx s slices below first all in
            next _ c (
              copy_slices_lem slices _ (idx + slice_size s) (omega arith) (c.room _ later)
                c.readable))
  ]
    where
      first : Room m a offset (idx + slice_size s)
      first = record { known = room.known; fits = omega (arith, room.fits) }

      later : Room m a offset (idx + slice_size s + total_size slices)
      later = record { known = room.known; fits = omega (arith, room.fits) }

      next :
          (w : Memory)
          → Copied m w a offset start idx s slices
          → Copies w w (idx + slice_size s) slices
          → take
              (idx + (slice_size s + total_size slices))
              (bytes_at (copy_slices dst (idx + slice_size s) slices w) (some (a, offset)))
            ≡ take idx (bytes_at m (some (a, offset)))
              ++ (slice_bytes m s ++ concatenation m slices)
      next w c ih =
          let sum : idx + (slice_size s + total_size slices)
              ≡ idx + slice_size s + total_size slices =
            omega arith in
          rw sum (
            ih
            ∙ (rw (c.placed, c.same)
                (append_assoc (take idx (bytes_at m (some (a, offset)))) (slice_bytes m s)
                  (concatenation m slices))))

  -- A span that the copies cannot reach keeps its bytes.
  pub view-copy_slices :
      (h : Handle)
      → IsApart a start h.place h.size
      → (slices : List Slice) (m : Memory) (idx : ℕ) → start ≤ offset + idx
      → Room m a offset (idx + total_size slices)
      → AllReadable m a start slices
      → view (copy_slices dst idx slices m) h ≡ view m h
  unfolding copy_slices total_size
  view-copy_slices h apart [] m idx below room all = refl
  view-copy_slices h apart (s ∷ slices) m idx below room all =
      elim (Bool-cases (slice_size s == 0)) [
        | inl e ↦
            rw e (view-copy_slices h apart slices m (idx + slice_size s) (omega arith) later all.1)
        | inr e ↦
            rw (e, at)
              (let c = Copied-some a offset start m idx s slices below first all in
                view-copy_slices h apart slices _ (idx + slice_size s) (omega arith)
                  (c.room _ later) c.readable
                ∙ view-write_apart m a offset idx (slice_bytes m s) written start below h apart)
      ]
    where
      first : Room m a offset (idx + slice_size s)
      first = record { known = room.known; fits = omega (arith, room.fits) }

      written : Room m a offset (idx + length (slice_bytes m s))
      written = record {
        known = room.known;
        fits = omega (arith, room.fits, slice_bytes-length m a start s all.0);
      }

      later : Room m a offset (idx + slice_size s + total_size slices)
      later = record { known = room.known; fits = omega (arith, room.fits) }

pub add_sizes_lem :
    (m : Memory) (total : ℕ) (slices : List Slice)
    → total + total_size slices ≤ integer_max
    → add_sizes total slices m ≡ ok (total + total_size slices) m
unfolding add_sizes total_size
add_sizes_lem m total [] h = let e : total + zero ≡ total = omega arith in rw e
add_sizes_lem m total (s ∷ slices) h = ground (arith, add_sizes_lem m (total + slice_size s) slices)

-- A sum past `lua_Integer` is an error.
pub add_sizes_overflow :
    (m : Memory) (total : ℕ) (slices : List Slice)
    → total ≤ integer_max
    → integer_max < total + total_size slices
    → add_sizes total slices m ≡ err positive_overflow
unfolding add_sizes total_size
add_sizes_overflow m total [] k h = absurd (omega arith)
add_sizes_overflow m total (s ∷ slices) k h =
    ground (arith, add_sizes_overflow m (total + slice_size s) slices)
