-- ===== src/Scheduler/Links.antt =====
-- src/fiber.cpp and src/core.cpp: how a handle, the fiber that it names, its joiner and the joiner's
-- interrupter refer to each other.
use native.Mathlib.Decide.{ℕ_discrete}
use emilua.Common.{
  ℕ, ◌<◌, ◌≡◌, ◌≢◌, sym, ap, subst, ◌∙◌, Bool, true, false, Option, none, some, get_elem?,
  get_elem?-set_found, get_elem?-set_ne, length,
}
use emilua.Runtime.{
  Status, Joiner, alive, joined, is_disabled, Fiber, FiberHandle, Object, fiber_handle, Interrupter,
  fiber_join, Vm, put, put_fiber, lookup_fiber,
}
use emilua.Runtime.Places.{lookup_fiber_entry}
use emilua.Fiber.{joinable_fiber}

-- What the links read of a fiber: its status, its joiner and its user's handle.
abbrev pub Life : Type 0
Life = Option Status × Joiner × Option ℕ

abbrev pub live : Joiner → Option ℕ → Option Life
live j u = some (none, j, u)

-- The interrupter of a join, for a fiber whose interruption is disabled or not.
abbrev pub joining : ℕ → ℕ → ℕ → Bool → Option (Option Interrupter × Bool)
joining id f t b = some (some (fiber_join id f t), b)

unfoldable pub life_of : Option Fiber → Option Life
life_of none = none
life_of (some fiber) = some (fiber.status, fiber.joiner, fiber.user_handle)

unfoldable pub life : Vm → ℕ → Option Life
life v t = life_of (lookup_fiber v t)

-- Its interrupter, and whether its interruption is disabled.
unfoldable pub guard_of : Option Fiber → Option (Option Interrupter × Bool)
guard_of none = none
guard_of (some fiber) = some (fiber.interrupter, is_disabled fiber.interruption_disabled)

unfoldable pub guard : Vm → ℕ → Option (Option Interrupter × Bool)
guard v c = guard_of (lookup_fiber v c)

unfoldable pub handle_of : Option Object → Option FiberHandle
handle_of (some (fiber_handle h)) = some h
handle_of _ = none

unfoldable pub handle : Vm → ℕ → Option FiberHandle
handle v id = handle_of (get_elem? v.objects id)

-- The links of a VM.
pub record Links (v : Vm) : Type 0 where
  -- A fiber that runs and can be joined has no joiner.
  pub unjoined :
      (id t : ℕ) (h : FiberHandle) (j : Joiner) (u : Option ℕ)
      → handle v id ≡ some h
      → joinable_fiber h ≡ some t
      → life v t ≡ some (none, j, u)
      → j ≡ alive
  -- No two handles name one fiber.
  pub unique :
      (id id' t : ℕ) (h h' : FiberHandle)
      → handle v id ≡ some h
      → handle v id' ≡ some h'
      → h.fiber ≡ some t
      → h'.fiber ≡ some t
      → id ≡ id'
  -- A handle names a fiber that was spawned.
  pub known :
      (id t : ℕ) (h : FiberHandle) → handle v id ≡ some h → h.fiber ≡ some t → t < length v.fibers
  -- A fiber that is joined knows the handle, which is being joined.
  pub target :
      (t j : ℕ) (u : Option ℕ)
      → life v t ≡ some (none, joined j, u)
      → (id : ℕ) × (h : FiberHandle) × (u ≡ some id)
        × (handle v id ≡ some h)
        × (h.fiber ≡ some t)
        × (h.join_in_progress ≡ true)
  -- The interrupter of a join stands for a join that is going on.
  pub joins :
      (c id f t : ℕ) (b : Bool)
      → guard v c ≡ some (some (fiber_join id f t), b)
      → (f ≡ c) × (b ≡ false) × (life v t ≡ some (none, joined c, some id))

module _ (v : Vm) (t : ℕ) (e : Option Fiber) where
  pub life-put_fiber :
      (f : Fiber) → lookup_fiber v t ≡ some f → life (put_fiber t e v) t ≡ life_of e
  unfolding life
  life-put_fiber f at =
      ap (λ o. life_of (elim o [ none ↦ none | some entry ↦ entry ]))
        (get_elem?-set_found v.fibers t (some f) e (lookup_fiber_entry v t f at))

  pub life-put_fiber_ne : (u : ℕ) → t ≢ u → life (put_fiber t e v) u ≡ life v u
  unfolding life
  life-put_fiber_ne u ne =
      ap (λ o. life_of (elim o [ none ↦ none | some entry ↦ entry ]))
        (get_elem?-set_ne v.fibers e ne)

  pub guard-put_fiber :
      (f : Fiber) → lookup_fiber v t ≡ some f → guard (put_fiber t e v) t ≡ guard_of e
  unfolding guard
  guard-put_fiber f at =
      ap (λ o. guard_of (elim o [ none ↦ none | some entry ↦ entry ]))
        (get_elem?-set_found v.fibers t (some f) e (lookup_fiber_entry v t f at))

  pub guard-put_fiber_ne : (u : ℕ) → t ≢ u → guard (put_fiber t e v) u ≡ guard v u
  unfolding guard
  guard-put_fiber_ne u ne =
      ap (λ o. guard_of (elim o [ none ↦ none | some entry ↦ entry ]))
        (get_elem?-set_ne v.fibers e ne)

  -- A write that keeps what the links read.
  pub life-put_fiber_same :
      (f : Fiber)
      → lookup_fiber v t ≡ some f
      → life_of e ≡ life_of (some f)
      → (u : ℕ) → life (put_fiber t e v) u ≡ life v u
  life-put_fiber_same f at same u = elim (ℕ_discrete t u) [
    | yes k ↦
        subst (λ x. life (put_fiber t e v) x ≡ life v x) k
          (life-put_fiber f at ∙ same ∙ sym (unfold life in ap life_of at))
    | no ne ↦ life-put_fiber_ne u ne
  ]

  pub guard-put_fiber_same :
      (f : Fiber)
      → lookup_fiber v t ≡ some f
      → guard_of e ≡ guard_of (some f)
      → (u : ℕ) → guard (put_fiber t e v) u ≡ guard v u
  guard-put_fiber_same f at same u = elim (ℕ_discrete t u) [
    | yes k ↦
        subst (λ x. guard (put_fiber t e v) x ≡ guard v x) k
          (guard-put_fiber f at ∙ same ∙ sym (unfold guard in ap guard_of at))
    | no ne ↦ guard-put_fiber_ne u ne
  ]

module _ (v : Vm) (id : ℕ) (o new : Object) (at : get_elem? v.objects id ≡ some o) where
  pub handle-put : handle (put id new v) id ≡ handle_of (some new)
  unfolding handle
  handle-put = ap handle_of (get_elem?-set_found v.objects id o new at)

  pub handle-put_ne : (j : ℕ) → id ≢ j → handle (put id new v) j ≡ handle v j
  unfolding handle
  handle-put_ne j ne = ap handle_of (get_elem?-set_ne v.objects new ne)

  pub handle-put_same :
      handle_of (some new) ≡ handle_of (some o) → (j : ℕ) → handle (put id new v) j ≡ handle v j
  handle-put_same same j = elim (ℕ_discrete id j) [
    | yes k ↦
        subst (λ x. handle (put id new v) x ≡ handle v x) k
          (handle-put ∙ same ∙ sym (unfold handle in ap handle_of at))
    | no ne ↦ handle-put_ne j ne
  ]
