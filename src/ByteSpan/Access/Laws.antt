-- ===== src/ByteSpan/Access/Laws.antt =====
-- src/byte_span.cpp: a byte that is set is read back, and nothing else changes.
use emilua.Common.{
  ℕ, zero, suc, ◌+◌, ◌-◌, ◌<◌, ◌≡◌, refl, sym, ap, ◌∙◌, Bool, true, false, [], ◌∷◌, arith, ◌==◌,
  length, get_or, set, get_or-take, get_or-set_self, pos, ltb_ℤ, ◌↔◌,
}
use emilua.ByteSpan.{Bytes, Handle, Memory, number, ok, bytes_at, view, splice, write}
use emilua.ByteSpan.View.{IsValid, length-view}
use emilua.ByteSpan.Copy.{view-write_in, write_in-IsValid}
use emilua.ByteSpan.Access.{bytes_eq, mt_eq, mt_index, mt_newindex}

-- A splice of one byte is a write at an index.
splice_one : (old : Bytes) (i x : ℕ) → i < length old → splice old i (x ∷ []) ≡ set old i x
unfolding splice
splice_one [] i x h = absurd (omega arith)
splice_one (y ∷ old) zero x h = refl
splice_one (y ∷ old) (suc i) x h =
    let e : suc i + 1 ≡ suc (i + 1) = omega arith in
    rw e (ap (◌∷◌ y) (splice_one old i x (omega arith)))

-- The byte at an index of a span, for an index in range.
pub mt_index_lem :
    (m : Memory) (bs : Handle) (i : ℕ)
    → i < bs.size
    → mt_index bs (pos (i + 1)) m ≡ ok (get_or (view m bs) i 0) m
unfolding mt_index view
mt_index_lem m bs i h =
    let e : i + 1 - 1 ≡ i = omega arith in
    let low : ltb_ℤ (pos (i + 1)) (pos 1) ≡ false = ground arith in
    let high : ltb_ℤ (pos bs.size) (pos (i + 1)) ≡ false = ground arith in
    rw (low, high, e, get_or-take bs.size i (bytes_at m bs.place) 0 h) refl

-- Writing a value below 256 at an index of a valid span succeeds: the span then shows its bytes
-- with that one set, the index reads the byte back, and valid handles stay valid.
pub mt_newindex_lem :
    (m : Memory) (bs : Handle) (i x : ℕ)
    → IsValid m bs
    → i < bs.size
    → x < 256
    → (g : Handle) → IsValid m g
    → (m' : Memory) × (mt_newindex bs (number (pos (i + 1))) (number (pos x)) m ≡ ok tt m')
      × (view m' bs ≡ set (view m bs) i x)
      × (mt_index bs (pos (i + 1)) m' ≡ ok x m')
      × IsValid m' g
unfolding mt_newindex
mt_newindex_lem m bs i x v h small g k =
    let m' : Memory = write bs.place i (x ∷ []) m in
    let shown : view m' bs ≡ set (view m bs) i x =
      view-write_in m bs v i (x ∷ []) (omega arith) (omega arith)
      ∙ splice_one (view m bs) i x (omega (arith, length-view m bs v)) in
    let e : i + 1 - 1 ≡ i = omega arith in
    let low : ltb_ℤ (pos (i + 1)) (pos 1) ≡ false = ground arith in
    let high : ltb_ℤ (pos bs.size) (pos (i + 1)) ≡ false = ground arith in
    let nonneg : ltb_ℤ (pos x) (pos 0) ≡ false = ground arith in
    let byte : ltb_ℤ (pos 255) (pos x) ≡ false = ground arith in
    (
      m',
      rw (low, high, nonneg, byte, e) refl,
      shown,
      mt_index_lem m' bs i h
          ∙ rw shown
              (rw (get_or-set_self (view m bs) i x 0 (omega (arith, length-view m bs v))) refl),
      write_in-IsValid m bs i (x ∷ []) v (omega arith) (omega arith) g k,
    )

bytes_eq_sound : (s t : Bytes) → bytes_eq s t ≡ true → s ≡ t
unfolding bytes_eq
bytes_eq_sound [] [] e = refl
bytes_eq_sound [] (y ∷ t) e = absurd (ground arith)
bytes_eq_sound (x ∷ s) [] e = absurd (ground arith)
bytes_eq_sound (x ∷ s) (y ∷ t) e =
    let head : x ≡ y = ground arith in
    let tail : bytes_eq s t ≡ true = ground arith in rw (head, bytes_eq_sound s t tail) refl

bytes_eq_refl : (s : Bytes) → bytes_eq s s ≡ true
unfolding bytes_eq
bytes_eq_refl [] = refl
bytes_eq_refl (x ∷ s) = let same : (x == x) ≡ true = ground arith in rw same (bytes_eq_refl s)

-- `__eq` succeeds, leaves the memory as it is, and returns true exactly if the two spans show the
-- same bytes.
pub mt_eq_lem :
    (m : Memory) (a b : Handle)
    → (r : Bool) × (mt_eq a b m ≡ ok r m) × ((r ≡ true) ↔ (view m a ≡ view m b))
unfolding mt_eq
mt_eq_lem m a b = (
  bytes_eq (view m a) (view m b),
  refl,
  (
    bytes_eq_sound (view m a) (view m b),
    λ e. ap (bytes_eq (view m a)) (sym e) ∙ bytes_eq_refl (view m a),
  ),
)
