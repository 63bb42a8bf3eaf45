-- ===== src/Scheduler/Changes.antt =====
-- src/fiber.cpp and src/core.cpp: changes of one fiber and of the handle that names it.
use native.Mathlib.Decide.{ℕ_discrete}
use emilua.Common.{
  ℕ, ◌<◌, ◌≡◌, ◌≢◌, refl, sym, ap, subst, ◌∙◌, ◌⊎◌, inl, inr, Bool, true, false, if◌then◌else◌,
  Option, none, some, length,
}
use emilua.Runtime.{Joiner, alive, joined, fiber_join, FiberHandle, Vm}
use emilua.Fiber.{joinable_fiber}
use emilua.Scheduler.Links.{life, guard, handle, Links}
use emilua.Scheduler.Quiet.{IsIdle}

pub joinable_parts :
    (h : FiberHandle) (t : ℕ)
    → joinable_fiber h ≡ some t
    → (h.join_in_progress ≡ false) × (h.fiber ≡ some t)
joinable_parts h t e = go h.join_in_progress e
  where
    go : (b : Bool) → (if b then none else h.fiber) ≡ some t → (b ≡ false) × (h.fiber ≡ some t)
    go true k = absurd (clash k)
      where
        clash : none ≡ some t → ⊥
        clash c = cc
    go false k = (refl, k)

-- A change of fiber `T`, and of no handle that names another fiber.
pub record Changes (T : ℕ) (v w : Vm) : Type 0 where
  pub size : length w.fibers ≡ length v.fibers
  pub life_others : (u : ℕ) → T ≢ u → life w u ≡ life v u
  pub back_others :
      (j t : ℕ) (g : FiberHandle)
      → T ≢ t
      → handle w j ≡ some g
      → g.fiber ≡ some t
      → handle v j ≡ some g
  pub forth_others :
      (j t : ℕ) (g : FiberHandle)
      → T ≢ t
      → handle v j ≡ some g
      → g.fiber ≡ some t
      → handle w j ≡ some g
  pub back_own :
      (j : ℕ) (g : FiberHandle)
      → handle w j ≡ some g
      → g.fiber ≡ some T
      → (k : FiberHandle) × (handle v j ≡ some k) × (k.fiber ≡ some T)

-- No handle changes.
pub Changes-fiber :
    {T : ℕ} {v w : Vm}
    → length w.fibers ≡ length v.fibers
    → ((u : ℕ) → T ≢ u → life w u ≡ life v u)
    → ((j : ℕ) → handle w j ≡ handle v j)
    → Changes T v w
Changes-fiber size lives same = record {
  size = size;
  life_others = lives;
  back_others = λ j t g ne e f. sym (same j) ∙ e;
  forth_others = λ j t g ne e f. same j ∙ e;
  back_own = λ j g e f. (g, sym (same j) ∙ e, f);
}

pub some_handle : {x y : FiberHandle} → some x ≡ some y → x.fiber ≡ y.fiber
some_handle k = ap (λ o. elim o [ none ↦ none | some x ↦ x.fiber ]) k

pub some_index : {x y : ℕ} → some x ≡ some y → x ≡ y
some_index {x} k = ap (λ o. elim o [ none ↦ x | some z ↦ z ]) k

-- The handle that names `T` changes, to one that names `T` or nothing.
pub Changes-handle :
    {T id : ℕ} {v w : Vm} (h h' : FiberHandle)
    → length w.fibers ≡ length v.fibers
    → ((u : ℕ) → T ≢ u → life w u ≡ life v u)
    → handle v id ≡ some h
    → h.fiber ≡ some T
    → handle w id ≡ some h'
    → ((t : ℕ) → h'.fiber ≡ some t → t ≡ T)
    → ((j : ℕ) → id ≢ j → handle w j ≡ handle v j)
    → Changes T v w
Changes-handle {T} {id} {v} {w} h h' size lives held names held' names' same = record {
  size = size;
  life_others = lives;
  back_others = λ j t g ne e f. elim (ℕ_discrete id j) [
    | yes k ↦ absurd (
        ne (
          sym
            (names' t (some_handle (sym held' ∙ subst (λ x. handle w x ≡ some g) (sym k) e) ∙ f))))
    | no other ↦ sym (same j other) ∙ e
  ];
  forth_others = λ j t g ne e f. elim (ℕ_discrete id j) [
    | yes k ↦ absurd (
        ne (
          some_index
            (sym names ∙ some_handle (sym held ∙ subst (λ x. handle v x ≡ some g) (sym k) e) ∙ f)))
    | no other ↦ same j other ∙ e
  ];
  back_own = λ j g e f. elim (ℕ_discrete id j) [
    | yes k ↦ (h, subst (λ x. handle v x ≡ some h) k held, names)
    | no other ↦ (g, sym (same j other) ∙ e, f)
  ];
}

-- What is to be shown of the changed fiber.
pub Changes-Links :
    {T : ℕ} {v w : Vm}
    → Links v
    → Changes T v w
    → ((id : ℕ) (h : FiberHandle) (j : Joiner) (u : Option ℕ)
        → handle w id ≡ some h
        → joinable_fiber h ≡ some T
        → life w T ≡ some (none, j, u)
        → j ≡ alive)
    → ((j : ℕ) (u : Option ℕ)
        → life w T ≡ some (none, joined j, u)
        → (id : ℕ) × (h : FiberHandle) × (u ≡ some id)
          × (handle w id ≡ some h)
          × (h.fiber ≡ some T)
          × (h.join_in_progress ≡ true))
    → ((c id f t : ℕ) (b : Bool)
        → guard w c ≡ some (some (fiber_join id f t), b)
        → (f ≡ c) × (b ≡ false) × (life w t ≡ some (none, joined c, some id)))
    → Links w
Changes-Links {T} {v} {w} l c own_unjoined own_target joins = record {
  unjoined = λ id t h j u a b e. elim (ℕ_discrete T t) [
    | yes k ↦
        own_unjoined id h j u a (b ∙ ap some (sym k))
          (subst (λ x. life w x ≡ some (none, j, u)) (sym k) e)
    | no ne ↦
        let (still, names) = joinable_parts h t b in
        l.unjoined id t h j u (c.back_others id t h ne a names) b (sym (c.life_others t ne) ∙ e)
  ];
  unique = λ id id' t h h' a a' b b'.
      let (k, e, f) = back id t h a b in
      let (k', e', f') = back id' t h' a' b' in l.unique id id' t k k' e e' f f';
  known = λ id t h a b.
      let (k, e, f) = back id t h a b in subst (λ n. t < n) (sym c.size) (l.known id t k e f);
  target = λ t j u e. elim (ℕ_discrete T t) [
    | yes k ↦
        let (id, h, x, y, z, p) =
          own_target j u (subst (λ s. life w s ≡ some (none, joined j, u)) (sym k) e) in
        (id, h, x, y, z ∙ ap some k, p)
    | no ne ↦
        let (id, h, x, y, z, p) = l.target t j u (sym (c.life_others t ne) ∙ e) in
        (id, h, x, c.forth_others id t h ne y z, z, p)
  ];
  joins = joins;
}
  where
    back :
        (id t : ℕ) (h : FiberHandle)
        → handle w id ≡ some h
        → h.fiber ≡ some t
        → (k : FiberHandle) × (handle v id ≡ some k) × (k.fiber ≡ some t)
    back id t h a b = elim (ℕ_discrete T t) [
      | yes k ↦ let (g, e, f) = c.back_own id h a (b ∙ ap some (sym k)) in (g, e, f ∙ ap some k)
      | no ne ↦ (h, c.back_others id t h ne a b, b)
    ]

-- The interrupters of joins, where those of the joiner of `T` are gone.
pub Changes-joins :
    {T : ℕ} {v w : Vm}
    → Links v
    → Changes T v w
    → ((c : ℕ)
        → ((guard w c ≡ guard v c) × ((u : Option ℕ) → life v T ≢ some (none, joined c, u)))
          ⊎ IsIdle (guard w c))
    → (c id f t : ℕ) (b : Bool) → guard w c ≡ some (some (fiber_join id f t), b)
    → (f ≡ c) × (b ≡ false) × (life w t ≡ some (none, joined c, some id))
Changes-joins {T} {v} {w} l ch guards c id f t b e = elim (guards c) [
  | inr idle ↦ absurd (idle id f t b e)
  | inl (same, free) ↦
      let (x, y, z) = l.joins c id f t b (sym same ∙ e) in
      elim (ℕ_discrete T t) [
        | yes k ↦
            absurd
              (free (some id) (subst (λ s. life v s ≡ some (none, joined c, some id)) (sym k) z))
        | no ne ↦ (x, y, ch.life_others t ne ∙ z)
      ]
]

-- A fiber that is not live, or that no handle names, joins nothing.
pub Changes-ended :
    {T : ℕ} {v w : Vm}
    → Links v
    → Changes T v w
    → ((j : Joiner) (u : Option ℕ) → life w T ≢ some (none, j, u))
    → ((c : ℕ)
        → ((guard w c ≡ guard v c) × ((u : Option ℕ) → life v T ≢ some (none, joined c, u)))
          ⊎ IsIdle (guard w c))
    → Links w
Changes-ended {T} {v} {w} l c ended guards =
    Changes-Links l c (λ id h j u a b e. absurd (ended j u e))
      (λ j u e. absurd (ended (joined j) u e)) (Changes-joins l c guards)
