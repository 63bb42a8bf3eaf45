-- ===== src/Scheduler/Endings.antt =====
-- `fiber_epilogue` of src/core.cpp keeps the account and the links, or closes the VM.
use emilua.Common.{
  ℕ, ◌≡◌, ◌≢◌, refl, sym, ap, subst, ◌∙◌, ◌⊎◌, inl, inr, false, ◌&&◌, Option, none, some, List,
  arith, ◌==◌, Option-cases, Bool-cases,
}
use emilua.Runtime.{
  Value, Joiner, alive, detached, joined, Fiber, Vm, put_fiber, lookup_fiber, set_interrupter,
}
use emilua.Runtime.Places.{fiber_waiters}
use emilua.Scheduler.{
  Ended, ended_status, ended_stack, join_arguments, is_failed, System, end_detached, end_joined,
  end_alive, fiber_epilogue,
}
use emilua.Scheduler.Links.{live, life_of, life, guard_of}
use emilua.Scheduler.Account.{lives, lives_of, hit_self, Good, running, resting}
use emilua.Scheduler.Leaves.{was, counted, left-Good}
use emilua.Scheduler.Resumes.{settle_lem, joined-Good}

-- The VM has ended.
pub record Closed (s : System) : Type 0 where
  pub invalid : s.vm.valid ≡ false
  pub still : s.running ≡ none

abbrev pub Sound : System → Type 0
Sound s = Good s ⊎ Closed s

module _ (x : Ended) (v : Vm) (args : List Value) (good : Good (running v args)) where
  -- With no handle, or none that is joining, the entry that is left has ended.
  alone-Good :
      (fiber : Fiber)
      → lookup_fiber v v.current_fiber ≡ some fiber
      → ((c : ℕ) → fiber.joiner ≢ joined c)
      → ((g : ℕ) → fiber_waiters g (some fiber) ≡ 0)
      → Good (resting (put_fiber v.current_fiber none v)) × Good (resting (end_alive x fiber v))
  unfolding life_of lives_of fiber_waiters guard_of end_alive
  alone-Good fiber entry free unjoined = (
    left-Good v args good fiber entry none gone refl (λ g. refl) (inr refl) free unjoined,
    left-Good v args good fiber entry
        (some (record fiber { status = some (ended_status x); stack = ended_stack x })) over refl
        (λ g. refl) (inl refl) free unjoined,
  )
    where
      gone : (j : Joiner) (u : Option ℕ) → none ≡ live j u → ⊥
      gone j u k = cc

      over :
          (j : Joiner) (u : Option ℕ)
          → some (some (ended_status x), fiber.joiner, fiber.user_handle) ≡ live j u
          → ⊥
      over j u k = clash (ap (λ o. elim o [ none ↦ none | some (x, y, z) ↦ x ]) k)
        where
          clash : some (ended_status x) ≡ none → ⊥
          clash q = cc

  detached-Sound :
      (fiber : Fiber)
      → lookup_fiber v v.current_fiber ≡ some fiber
      → fiber.joiner ≡ detached
      → Sound (resting (end_detached x v))
  unfolding end_detached fiber_waiters
  detached-Sound fiber entry by =
      elim (Bool-cases (v.current_fiber == v.main_fiber && is_failed x)) [
        | inl b ↦ rw b (inr (record { invalid = refl; still = refl }))
        | inr b ↦ rw b (
            inl
              (alone-Good fiber entry (λ c k. clash c (sym by ∙ k))
                (λ g. counted v args good fiber entry g detached by)).0)
      ]
    where
      clash : (c : ℕ) → detached ≡ joined c → ⊥
      clash c k = cc

  ended-Good :
      (fiber : Fiber)
      → lookup_fiber v v.current_fiber ≡ some fiber
      → (j : ℕ) → fiber.joiner ≡ joined j
      → Good (end_joined x fiber j v)
  unfolding end_joined
  ended-Good fiber entry j by =
      let (id, h, user, held, names, busy) =
        good.links.target v.current_fiber j fiber.user_handle
          (was v args good fiber entry ∙ ap (λ o. live o fiber.user_handle) by) in
      subst
        (λ s.
          Good (running (set_interrupter none (record s { current_fiber = j })) (join_arguments x)))
        (sym (settle_lem v args good fiber entry j by x id h user held names))
        (joined-Good v args good fiber entry j by x id h user held names)

  pub fiber_epilogue-Sound : Sound (fiber_epilogue x v)
  unfolding fiber_epilogue fiber_waiters
  fiber_epilogue-Sound = elim (Option-cases (lookup_fiber v v.current_fiber)) [
    | inl e ↦ absurd (nobody e)
    | inr (fiber, e) ↦ rw (e, fiber_epilogue) (go fiber e fiber.joiner refl)
  ]
    where
      nobody : lookup_fiber v v.current_fiber ≡ none → ⊥
      nobody e =
          let none_alive : lives v.current_fiber v ≡ 0 =
            unfold lives in
            unfold life in unfold life_of in unfold lives_of in ap (λ o. lives_of (life_of o)) e in
          absurd (omega (arith, none_alive, good.account v.current_fiber, hit_self v.current_fiber))

      ending : Fiber → Joiner → System
      ending fiber j = elim j [
        | detached ↦ record { vm = end_detached x v; running = none }
        | joined joiner ↦ end_joined x fiber joiner v
        | alive ↦ record { vm = end_alive x fiber v; running = none }
      ]

      go :
          (fiber : Fiber)
          → lookup_fiber v v.current_fiber ≡ some fiber
          → (j : Joiner) → fiber.joiner ≡ j
          → Sound (ending fiber j)
      go fiber e detached by = detached-Sound fiber e by
      go fiber e (joined j) by = inl (ended-Good fiber e j by)
      go fiber e alive by =
          inl
            (alone-Good fiber e (λ c k. clash c (sym by ∙ k))
              (λ g. counted v args good fiber e g alive by)).1
        where
          clash : (c : ℕ) → alive ≡ joined c → ⊥
          clash c k = cc
