-- ===== src/Common/Counts.antt =====
-- Occurrences of a number in a list, and weighted sums over a table.
use Prim.Native.Nat.{ℕ, zero, suc, ◌+◌}
use mathlib.Core.Path.{◌≡◌}
use mathlib.Core.List.{List, [], ◌∷◌, ◌++◌}
use mathlib.Core.Option.{some}
use native.Mathlib.Omega.{arith}
use emilua.Common.Tests.{◌==◌, if◌then◌else◌}
use emilua.Common.Lists.{get_elem?, set}

-- 1 for the same number, 0 for another.
abbrev pub hit : ℕ → ℕ → ℕ
hit a x = if x == a then 1 else 0

unfoldable pub count : ℕ → List ℕ → ℕ
count a [] = 0
count a (x ∷ xs) = hit a x + count a xs

pub count-append : (a : ℕ) (xs ys : List ℕ) → count a (xs ++ ys) ≡ count a xs + count a ys
unfolding count
count-append a [] ys = omega arith
count-append a (x ∷ xs) ys = omega (arith, count-append a xs ys)

pub count-snoc : (a : ℕ) (xs : List ℕ) (x : ℕ) → count a (xs ++ x ∷ []) ≡ count a xs + hit a x
unfolding count
count-snoc a xs x = omega (arith, count-append a xs (x ∷ []))

module _ {ℓ} {A : Type ℓ} (w : A → ℕ) where
  unfoldable pub total : List A → ℕ
  total [] = 0
  total (x ∷ xs) = w x + total xs

  pub total-set :
      (xs : List A) (i : ℕ) (x a : A)
      → get_elem? xs i ≡ some x
      → total (set xs i a) + w x ≡ total xs + w a
  unfolding total
  total-set [] i x a h = cc
  total-set (y ∷ xs) zero x a h = ground arith
  total-set (y ∷ xs) (suc i) x a h = omega (arith, total-set xs i x a h)

  pub total-append : (xs ys : List A) → total (xs ++ ys) ≡ total xs + total ys
  unfolding total
  total-append [] ys = omega arith
  total-append (x ∷ xs) ys = omega (arith, total-append xs ys)
