-- ===== src/Common/Slices.antt =====
-- Laws of `take`, `drop` and `get_or` on lists.
use Prim.Native.Nat.{ℕ, zero, suc, ◌+◌, ◌-◌, ◌≤◌, ◌<◌}
use mathlib.Core.Path.{◌≡◌, refl, ap}
use mathlib.Core.Logic.{◌≢◌}
use mathlib.Core.List.{List, [], ◌∷◌, ◌++◌}
use native.Mathlib.Omega.{arith}
use emilua.Common.Lists.{length, take, drop, get_or, set}

module _ {ℓ} {A : Type ℓ} where
  pub take-nil : (n : ℕ) → take {A = A} n [] ≡ []
  take-nil zero = refl
  take-nil (suc n) = refl

  pub drop-nil : (n : ℕ) → drop {A = A} n [] ≡ []
  drop-nil zero = refl
  drop-nil (suc n) = refl

  pub drop-drop : (i j : ℕ) (xs : List A) → drop i (drop j xs) ≡ drop (j + i) xs
  drop-drop i zero xs = let e : zero + i ≡ i = omega arith in rw e
  drop-drop i (suc j) [] = rw (drop-nil i, drop-nil (suc j + i))
  drop-drop i (suc j) (x ∷ xs) =
      let e : suc j + i ≡ suc (j + i) = omega arith in rw e (drop-drop i j xs)

  pub take_all : (n : ℕ) (xs : List A) → length xs ≤ n → take n xs ≡ xs
  take_all zero [] h = refl
  take_all zero (x ∷ xs) h = absurd (omega arith)
  take_all (suc n) [] h = refl
  take_all (suc n) (x ∷ xs) h = ap (◌∷◌ x) (take_all n xs (omega arith))

  pub drop_all : (n : ℕ) (xs : List A) → length xs ≤ n → drop n xs ≡ []
  drop_all zero [] h = refl
  drop_all zero (x ∷ xs) h = absurd (omega arith)
  drop_all (suc n) [] h = refl
  drop_all (suc n) (x ∷ xs) h = drop_all n xs (omega arith)

  pub take-append : (n : ℕ) (xs ys : List A) → n ≤ length xs → take n (xs ++ ys) ≡ take n xs
  take-append zero xs ys h = refl
  take-append (suc n) [] ys h = absurd (omega arith)
  take-append (suc n) (x ∷ xs) ys h = ap (◌∷◌ x) (take-append n xs ys (omega arith))

  -- Past the first list.
  pub take-append_ge :
      (n : ℕ) (xs ys : List A) → length xs ≤ n → take n (xs ++ ys) ≡ xs ++ take (n - length xs) ys
  take-append_ge n [] ys h = let e : n - zero ≡ n = omega arith in rw e
  take-append_ge zero (x ∷ xs) ys h = absurd (omega arith)
  take-append_ge (suc n) (x ∷ xs) ys h =
      let e : suc n - suc (length xs) ≡ n - length xs = omega arith in
      rw e (ap (◌∷◌ x) (take-append_ge n xs ys (omega arith)))

  pub drop-append : (n : ℕ) (xs ys : List A) → n ≤ length xs → drop n (xs ++ ys) ≡ drop n xs ++ ys
  drop-append zero xs ys h = refl
  drop-append (suc n) [] ys h = absurd (omega arith)
  drop-append (suc n) (x ∷ xs) ys h = drop-append n xs ys (omega arith)

  pub drop-append_ge :
      (n : ℕ) (xs ys : List A) → length xs ≤ n → drop n (xs ++ ys) ≡ drop (n - length xs) ys
  drop-append_ge n [] ys h = let e : n - zero ≡ n = omega arith in rw e
  drop-append_ge zero (x ∷ xs) ys h = absurd (omega arith)
  drop-append_ge (suc n) (x ∷ xs) ys h =
      let e : suc n - suc (length xs) ≡ n - length xs = omega arith in
      rw e (drop-append_ge n xs ys (omega arith))

  pub drop-take : (i n : ℕ) (xs : List A) → drop i (take n xs) ≡ take (n - i) (drop i xs)
  drop-take zero n xs = let e : n - zero ≡ n = omega arith in rw e
  drop-take (suc i) zero xs = let e : zero - suc i ≡ zero = omega arith in rw e
  drop-take (suc i) (suc n) [] = rw (take-nil (suc n - suc i))
  drop-take (suc i) (suc n) (x ∷ xs) =
      let e : suc n - suc i ≡ n - i = omega arith in rw e (drop-take i n xs)

  pub take-take : (n k : ℕ) (xs : List A) → n ≤ k → take n (take k xs) ≡ take n xs
  take-take zero k xs h = refl
  take-take (suc n) zero xs h = absurd (omega arith)
  take-take (suc n) (suc k) [] h = refl
  take-take (suc n) (suc k) (x ∷ xs) h = ap (◌∷◌ x) (take-take n k xs (omega arith))

  pub get_or-set_self :
      (xs : List A) (i : ℕ) (v d : A) → i < length xs → get_or (set xs i v) i d ≡ v
  get_or-set_self [] i v d h = absurd (omega arith)
  get_or-set_self (x ∷ xs) zero v d h = refl
  get_or-set_self (x ∷ xs) (suc i) v d h = get_or-set_self xs i v d (omega arith)

  pub get_or-set_ne :
      (xs : List A) (i j : ℕ) (v d : A) → i ≢ j → get_or (set xs i v) j d ≡ get_or xs j d
  get_or-set_ne [] i j v d h = refl
  get_or-set_ne (x ∷ xs) zero zero v d h = absurd (h refl)
  get_or-set_ne (x ∷ xs) zero (suc j) v d h = refl
  get_or-set_ne (x ∷ xs) (suc i) zero v d h = refl
  get_or-set_ne (x ∷ xs) (suc i) (suc j) v d h = get_or-set_ne xs i j v d (λ e. h (ap suc e))

  pub get_or-drop : (i j : ℕ) (xs : List A) (d : A) → get_or (drop i xs) j d ≡ get_or xs (i + j) d
  get_or-drop zero j xs d = let e : zero + j ≡ j = omega arith in rw e
  get_or-drop (suc i) j [] d = refl
  get_or-drop (suc i) j (x ∷ xs) d =
      let e : suc i + j ≡ suc (i + j) = omega arith in rw e (get_or-drop i j xs d)

  pub get_or-take : (n i : ℕ) (xs : List A) (d : A) → i < n → get_or (take n xs) i d ≡ get_or xs i d
  get_or-take zero i xs d h = absurd (omega arith)
  get_or-take (suc n) i [] d h = refl
  get_or-take (suc n) zero (x ∷ xs) d h = refl
  get_or-take (suc n) (suc i) (x ∷ xs) d h = get_or-take n i xs d (omega arith)
