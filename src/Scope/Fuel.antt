-- ===== src/Scope/Fuel.antt =====
-- How much fuel a chunk of Lua and the handlers that are registered need (src/scope_cleanup.cpp).
use emilua.Common.{
  ℕ, ◌+◌, ◌≤◌, ◌≡◌, refl, sym, ap, subst, ◌∙◌, Option, none, some, List, [], ◌∷◌, ◌++◌, arith,
  total, total-append,
}
use emilua.Scope.{
  Code, stop, throw, show, push, pop, scope, pcall, State, Result, returned, raised, terminated,
  stuck, split_last, scope_cleanup_pop, disable_interruption,
}

unfoldable pub size : Code → ℕ
size stop = 0
size (throw e) = 0
size (show k rest) = 1 + size rest
size (push h rest) = 2 + size h + size rest
size (pop execute rest) = 1 + size rest
size (scope body rest) = 1 + size body + size rest
size (pcall body rest) = 1 + size body + size rest

-- A handler that is registered.
abbrev pub cost : Code → ℕ
cost h = 1 + size h

unfoldable pub weight : List (List Code) → ℕ
weight scopes = total (total cost) scopes

-- What the code keeps: the fuel is bounded, the counter is as it was, and only the innermost list of
-- handlers has changed.
pub record Kept (b d : ℕ) (rest : List (List Code)) (u : State) : Type 0 where
  pub bound : weight u.scopes ≤ b
  pub disabled : u.disabled ≡ d
  pub top : List Code
  pub scopes : u.scopes ≡ top ∷ rest

-- The code ends: it returns or raises with these kept, or the VM is terminated.
abbrev pub Ends : ℕ → ℕ → List (List Code) → Result → Type 0
Ends b d rest (returned u) = Kept b d rest u
Ends b d rest (raised e u) = Kept b d rest u
Ends b d rest (terminated u) = Unit {0}
Ends b d rest stuck = ⊥

-- The same for handlers, whose errors terminate the VM.
abbrev pub Runs : ℕ → ℕ → List (List Code) → Result → Type 0
Runs b d rest (returned u) = Kept b d rest u
Runs b d rest (raised e u) = ⊥
Runs b d rest (terminated u) = Unit {0}
Runs b d rest stuck = ⊥

pub Kept-le :
    {b c d : ℕ} {rest : List (List Code)} {u : State} → Kept b d rest u → b ≤ c → Kept c d rest u
Kept-le k le = record {
  bound = omega (arith, k.bound, le);
  disabled = k.disabled;
  top = k.top;
  scopes = k.scopes;
}

pub Ends-le :
    {b c : ℕ} (d : ℕ) (rest : List (List Code)) (r : Result)
    → Ends b d rest r
    → b ≤ c
    → Ends c d rest r
Ends-le d rest (returned u) k le = Kept-le k le
Ends-le d rest (raised e u) k le = Kept-le k le
Ends-le d rest (terminated u) k le = tt
Ends-le d rest stuck k le = k

-- A chunk is followed by another one that has the rest of the fuel.
pub weight_cons :
    (top : List Code) (rest : List (List Code)) → weight (top ∷ rest) ≡ total cost top + weight rest
unfolding weight total
weight_cons top rest = refl

pub weight_fresh : (rest : List (List Code)) → weight ([] ∷ rest) ≡ weight rest
unfolding weight total
weight_fresh rest = omega arith

pub weight_none : weight [] ≡ 0
unfolding weight total
weight_none = refl

pub weight_snoc :
    (h : Code) (top : List Code) (rest : List (List Code))
    → weight ((top ++ h ∷ []) ∷ rest) ≡ weight (top ∷ rest) + cost h
unfolding weight total
weight_snoc h top rest = omega (arith, total-append cost top (h ∷ []))

unfoldable pub split_size : Option (List Code × Code) → ℕ
split_size none = 0
split_size (some (front, h)) = total cost front + cost h

pub split_last-size : (hs : List Code) → total cost hs ≡ split_size (split_last hs)
unfolding split_last total split_size
split_last-size [] = refl
split_last-size (x ∷ hs) = go (split_last hs) (split_last-size hs)
  where
    go :
        (o : Option (List Code × Code))
        → total cost hs ≡ split_size o
        → cost x + total cost hs
          ≡ split_size (elim o [ none ↦ some ([], x) | some (front, y) ↦ some (x ∷ front, y) ])
    go none k = omega (arith, k)
    go (some (front, y)) k = omega (arith, k)

-- What `scope_cleanup_pop` takes from the innermost list.
pub data Popped (s : State) (rest : List (List Code)) : Option (Code × State) → Type 0 where
  unmatched : Popped s rest none
  taken :
      (h : Code) (u : State)
      → Kept (weight s.scopes) (s.disabled + 1) rest u
      → weight u.scopes + cost h ≡ weight s.scopes
      → Popped s rest (some (h, u))

pub scope_cleanup_pop-Popped :
    (s : State) (top : List Code) (rest : List (List Code))
    → s.scopes ≡ top ∷ rest
    → Popped s rest (scope_cleanup_pop s)
unfolding scope_cleanup_pop split_size
scope_cleanup_pop-Popped s top rest e = go s.scopes e
  where
    by_last :
        (o : Option (List Code × Code))
        → total cost top ≡ split_size o
        → Popped s rest (elim o [
          | none ↦ none
          | some (front, h) ↦ some (h, disable_interruption (record s { scopes = front ∷ rest }))
        ])
    by_last none k = unmatched
    by_last (some (front, h)) k =
        let all : weight s.scopes ≡ total cost top + weight rest =
          ap weight e ∙ weight_cons top rest in
        let left : weight (front ∷ rest) ≡ total cost front + weight rest =
          weight_cons front rest in
        taken h (disable_interruption (record s { scopes = front ∷ rest }))
          (record {
            bound = omega (arith, all, left, k);
            disabled = refl;
            top = front;
            scopes = refl;
          })
          (omega (arith, all, left, k))

    go :
        (xs : List (List Code))
        → xs ≡ top ∷ rest
        → Popped s rest (elim xs [
          | [] ↦ none
          | top ∷ rest ↦ elim (split_last top) [
            | none ↦ none
            | some (front, h) ↦ some (h, disable_interruption (record s { scopes = front ∷ rest }))
          ]
        ])
    go xs k =
        subst
          (λ xs. Popped s rest (elim xs [
            | [] ↦ none
            | top ∷ rest ↦ elim (split_last top) [
              | none ↦ none
              | some (front, h) ↦
                  some (h, disable_interruption (record s { scopes = front ∷ rest }))
            ]
          ]))
          (sym k) (by_last (split_last top) (split_last-size top))
