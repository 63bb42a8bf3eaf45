-- ===== src/Scheduler/Leaves.antt =====
-- What a fiber that ends leaves in the table (`fiber_epilogue` of src/core.cpp).
use native.Mathlib.Decide.{ℕ_discrete}
use emilua.Common.{
  ℕ, ◌+◌, ◌≡◌, ◌≢◌, refl, sym, ap, subst, ◌∙◌, ◌⊎◌, inl, inr, Bool, Option, none, some, List, arith,
  hit, length-set,
}
use emilua.Runtime.{Value, Status, Joiner, alive, joined, Fiber, Vm, put_fiber, lookup_fiber}
use emilua.Runtime.Places.{waiting, fiber_waiters, waiting-put_fiber, lookup_fiber_entry}
use emilua.Scheduler.Links.{
  live, joining, life_of, life, guard_of, guard, handle, life-put_fiber, life-put_fiber_ne,
  guard-put_fiber, guard-put_fiber_ne, guard-put_fiber_same,
}
use emilua.Scheduler.Quiet.{IsIdle}
use emilua.Scheduler.Changes.{Changes-fiber, Changes-ended}
use emilua.Scheduler.Account.{lives, lives_of, lives_le, hit_self, Good, running, resting}

-- The facts about the fiber that ends.
module _ (v : Vm) (args : List Value) (good : Good (running v args)) (fiber : Fiber)
    (entry : lookup_fiber v v.current_fiber ≡ some fiber) where
  abbrev pub me : ℕ
  me = v.current_fiber

  alive_me : lives me v ≡ 1
  alive_me = omega (arith, good.account me, hit_self me, lives_le me v)

  shown : life v me ≡ some (fiber.status, fiber.joiner, fiber.user_handle)
  unfolding life life_of
  shown = ap life_of entry

  unended : fiber.status ≡ none
  unfolding lives lives_of
  unended = go fiber.status (ap lives_of shown)
    where
      go :
          (s : Option Status)
          → lives_of (life v me) ≡ lives_of (some (s, fiber.joiner, fiber.user_handle))
          → s ≡ none
      go none a = refl
      go (some s) a = absurd (omega (arith, a, alive_me))

  pub was : life v me ≡ live fiber.joiner fiber.user_handle
  was = shown ∙ ap (λ s. some (s, fiber.joiner, fiber.user_handle)) unended

  pub counted :
      (g : ℕ) (j : Joiner)
      → fiber.joiner ≡ j
      → fiber_waiters g (some fiber)
        ≡ fiber_waiters g (some (record fiber { status = none; joiner = j }))
  unfolding fiber_waiters
  counted g j e = rw (unended, e) refl

  -- The entry that the fiber leaves: none, or one of a fiber that has ended.
  module _ (e : Option Fiber) (over : (j : Joiner) (u : Option ℕ) → life_of e ≢ live j u)
      (none_left : lives_of (life_of e) ≡ 0) (nobody : (g : ℕ) → fiber_waiters g e ≡ 0)
      (keeps : (guard_of e ≡ guard_of (some fiber)) ⊎ (guard_of e ≡ none)) where
    abbrev left : Vm
    left = put_fiber me e v

    life-left : life left me ≡ life_of e
    life-left = life-put_fiber v me e fiber entry

    pub lives-left : (g : ℕ) → lives g left + hit g me ≡ lives g v
    unfolding lives
    lives-left g = elim (ℕ_discrete me g) [
      | yes k ↦
          subst (λ x. lives x left + hit x me ≡ lives x v) k
            (let now : lives_of (life left me) ≡ 0 = ap lives_of life-left ∙ none_left in
              omega (arith, now, hit_self me, alive_me))
      | no ne ↦
          let same : lives_of (life left g) ≡ lives_of (life v g) =
            ap lives_of (life-put_fiber_ne v me e g ne) in
          let apart : hit g me ≡ 0 = ground (arith, ne) in omega (arith, same, apart)
    ]

    pub waiting-left : (g : ℕ) → waiting g left + fiber_waiters g (some fiber) ≡ waiting g v
    waiting-left g = omega (
      arith,
      waiting-put_fiber g v me (some fiber) e (lookup_fiber_entry v me fiber entry),
      nobody g,
    )

    guards_left : (c : ℕ) → (guard left c ≡ guard v c) ⊎ IsIdle (guard left c)
    unfolding guard
    guards_left c = elim keeps [
      | inl same ↦ inl (guard-put_fiber_same v me e fiber entry same c)
      | inr gone ↦ elim (ℕ_discrete me c) [
        | yes k ↦ inr (
            subst (λ x. IsIdle (guard left x)) k
              (λ i f t b q. nothing i f t b (sym (guard-put_fiber v me e fiber entry ∙ gone) ∙ q)))
        | no ne ↦ inl (guard-put_fiber_ne v me e c ne)
      ]
    ]
      where
        nothing : (i f t : ℕ) (b : Bool) → none ≡ joining i f t b → ⊥
        nothing i f t b k = cc

    -- It had no joiner.
    pub left-Good :
        ((c : ℕ) → fiber.joiner ≢ joined c)
        → ((g : ℕ) → fiber_waiters g (some fiber) ≡ 0)
        → Good (resting left)
    unfolding handle
    left-Good free unjoined = record {
      account = λ g. omega (arith, good.account g, waiting-left g, lives-left g, unjoined g);
      links =
          Changes-ended good.links
            (Changes-fiber (length-set v.fibers me e) (life-put_fiber_ne v me e) (λ j. refl))
            (λ j u k. over j u (sym life-left ∙ k))
            (λ c. elim (guards_left c) [
              | inl same ↦ inl (
                same,
                λ u k.
                    free c (ap (λ o. elim o [ none ↦ alive | some (x, y, z) ↦ y ]) (sym was ∙ k)),
              )
              | inr idle ↦ inr idle
            ]);
    }
