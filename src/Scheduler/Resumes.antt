-- ===== src/Scheduler/Resumes.antt =====
-- The joiner of a fiber that ends goes on (`fiber_epilogue` of src/core.cpp).
use native.Mathlib.Decide.{ℕ_discrete}
use emilua.Common.{
  ℕ, ◌≡◌, ◌≢◌, refl, sym, ap, subst, ◌∙◌, ◌⊎◌, inl, inr, Bool, true, false, Option, none, some,
  List, [], arith, hit, length-set, Option-cases, Bool-cases,
}
use emilua.Runtime.{
  Value, Joiner, alive, joined, is_disabled, Fiber, FiberHandle, fiber_handle, fiber_join, Vm, put,
  put_fiber, lookup_fiber, set_interrupter,
}
use emilua.Runtime.Places.{
  waiting, object_waiters, fiber_waiters, waiting-put, waiting-set_interrupter,
}
use emilua.Scheduler.{Ended, ended_status, ended_interrupted, join_arguments, settle_handle}
use emilua.Scheduler.Links.{
  live, joining, life_of, life, guard_of, guard, handle_of, handle, life-put_fiber,
  life-put_fiber_ne, guard-put_fiber, guard-put_fiber_same, handle-put, handle-put_ne,
}
use emilua.Scheduler.Quiet.{IsIdle, Quiet, Quiet-set_interrupter}
use emilua.Scheduler.Changes.{Changes, Changes-handle, Changes-ended}
use emilua.Scheduler.Account.{lives, lives_of, Good, running}
use emilua.Scheduler.Stops.{handle_entry}
use emilua.Scheduler.Leaves.{was, counted, waiting-left, lives-left}

-- A fiber that runs again is rid of its join interrupter.
pub set_none-IsIdle :
    (v : Vm)
    → ((i f t : ℕ) (d : Bool) → guard v v.current_fiber ≡ joining i f t d → d ≡ false)
    → IsIdle (guard (set_interrupter none v) v.current_fiber)
unfolding set_interrupter guard_of guard
set_none-IsIdle v off = elim (Option-cases (lookup_fiber v v.current_fiber)) [
  | inl e ↦ rw (e, set_interrupter) (λ i f t b k. nothing i f t b (sym (ap guard_of e) ∙ k))
  | inr (fiber, e) ↦ elim (Bool-cases (is_disabled fiber.interruption_disabled)) [
    | inl b ↦ rw (e, set_interrupter) (rw b (λ i f t d k. disabled fiber e b i f t d k))
    | inr b ↦
        rw (e, set_interrupter)
          (rw b (λ i f t d k. cleared i f t d (is_disabled fiber.interruption_disabled) (
            sym (
              guard-put_fiber v v.current_fiber (some (record fiber { interrupter = none })) fiber
                e)
            ∙ k)))
  ]
]
  where
    nothing : (i f t : ℕ) (b : Bool) → none ≡ joining i f t b → ⊥
    nothing i f t b k = cc

    disabled :
        (fiber : Fiber)
        → lookup_fiber v v.current_fiber ≡ some fiber
        → is_disabled fiber.interruption_disabled ≡ true
        → (i f t : ℕ) (d : Bool) → guard v v.current_fiber ≡ joining i f t d
        → ⊥
    disabled fiber e b i f t d k =
        let shows : some (fiber.interrupter, is_disabled fiber.interruption_disabled)
            ≡ joining i f t d =
          sym (ap guard_of e) ∙ k in
        clash (sym b ∙ ap (λ o. elim o [ none ↦ false | some (x, y) ↦ y ]) shows ∙ off i f t d k)
      where
        clash : true ≡ false → ⊥
        clash q = cc

    cleared : (i f t : ℕ) (b d : Bool) → some (none, d) ≡ joining i f t b → ⊥
    cleared i f t b d k = clash (ap (λ o. elim o [ none ↦ none | some (x, y) ↦ x ]) k)
      where
        clash : none ≡ some (fiber_join i f t) → ⊥
        clash q = cc

-- The fiber that ends has a joiner.
module _ (v : Vm) (args : List Value) (good : Good (running v args)) (fiber : Fiber)
    (entry : lookup_fiber v v.current_fiber ≡ some fiber) where
  abbrev me : ℕ
  me = v.current_fiber

  -- The joiner goes on.
  module _ (j : ℕ) (by : fiber.joiner ≡ joined j) (x : Ended) where
    abbrev ended : Fiber
    ended = record fiber { status = some (ended_status x); stack = [] }

    abbrev stored : Vm
    stored = put_fiber me (some ended) v

    over : (o : Joiner) (u : Option ℕ) → life_of (some ended) ≢ live o u
    unfolding life_of
    over o u k = clash (ap (λ o. elim o [ none ↦ none | some (x, y, z) ↦ x ]) k)
      where
        clash : some (ended_status x) ≡ none → ⊥
        clash q = cc

    module _ (id : ℕ) (h : FiberHandle) (user : fiber.user_handle ≡ some id)
        (held : handle v id ≡ some h) (names : h.fiber ≡ some me) where
      abbrev emptied : FiberHandle
      emptied = record h { fiber = none; interruption_caught = some (ended_interrupted x) }

      abbrev settled : Vm
      settled = record (put id (fiber_handle emptied) stored) { current_fiber = j }

      abbrev w : Vm
      w = set_interrupter none settled

      pub settle_lem :
          settle_handle fiber.user_handle (ended_interrupted x) stored
          ≡ put id (fiber_handle emptied) stored
      unfolding settle_handle
      settle_lem =
          let first : settle_handle fiber.user_handle (ended_interrupted x) stored
              ≡ settle_handle (some id) (ended_interrupted x) stored =
            ap (λ o. settle_handle o (ended_interrupted x) stored) user in
          let second : settle_handle (some id) (ended_interrupted x) stored
              ≡ put id (fiber_handle emptied) stored =
            rw (handle_entry v id h held, settle_handle) refl in
          first ∙ second

      quiet : Quiet settled w
      quiet = Quiet-set_interrupter none settled (λ i f t k. clash i f t k)
        where
          clash : (i f t : ℕ) → none ≡ some (fiber_join i f t) → ⊥
          clash i f t k = cc

      life-w : (u : ℕ) → life w u ≡ life stored u
      unfolding life
      life-w u = quiet.life_same u

      handle_own : handle w id ≡ some emptied
      unfolding handle handle_of
      handle_own =
          quiet.handle_same id
          ∙ handle-put stored id (fiber_handle h) (fiber_handle emptied) (handle_entry v id h held)

      handle_others : (i : ℕ) → id ≢ i → handle w i ≡ handle v i
      unfolding handle
      handle_others i ne =
          quiet.handle_same i
          ∙ handle-put_ne stored id (fiber_handle h) (fiber_handle emptied)
              (handle_entry v id h held) i ne

      changes : Changes me v w
      changes =
          Changes-handle h emptied (quiet.size ∙ length-set v.fibers me (some ended))
            (λ u ne. life-w u ∙ life-put_fiber_ne v me (some ended) u ne) held names handle_own
            (λ u k. absurd (clash u k)) handle_others
        where
          clash : (u : ℕ) → none ≡ some u → ⊥
          clash u k = cc

      guards_stored : (c : ℕ) → (guard stored c ≡ guard v c) ⊎ IsIdle (guard stored c)
      unfolding guard_of
      guards_stored c = inl (guard-put_fiber_same v me (some ended) fiber entry refl c)

      guards :
          (c : ℕ)
          → ((guard w c ≡ guard v c) × ((u : Option ℕ) → life v me ≢ live (joined c) u))
            ⊎ IsIdle (guard w c)
      unfolding guard
      guards c = elim (ℕ_discrete j c) [
        | yes k ↦ inr (
            subst (λ y. IsIdle (guard w y)) k
              (set_none-IsIdle settled (λ i f t d q. off i f t d q)))
        | no ne ↦ elim (quiet.guard_same c) [
          | inr idle ↦ inr idle
          | inl same ↦ elim (guards_stored c) [
            | inl before ↦
                inl (same ∙ before, λ u k. ne (other u (sym (was v args good fiber entry) ∙ k)))
            | inr idle ↦ inr (subst IsIdle (sym same) idle)
          ]
        ]
      ]
        where
          off : (i f t : ℕ) (d : Bool) → guard stored j ≡ joining i f t d → d ≡ false
          off i f t d q = elim (guards_stored j) [
            | inl before ↦ (good.links.joins j i f t d (sym before ∙ q)).1
            | inr idle ↦ absurd (idle i f t d q)
          ]

          other : (u : Option ℕ) → live fiber.joiner fiber.user_handle ≡ live (joined c) u → j ≡ c
          other u k = index (sym by ∙ ap (λ o. elim o [ none ↦ alive | some (x, y, z) ↦ y ]) k)
            where
              index : joined j ≡ joined c → j ≡ c
              index q = cc

      pub joined-Good : Good (running w (join_arguments x))
      unfolding lives lives_of object_waiters fiber_waiters waiting guard_of life_of
      joined-Good = record {
        account = λ g.
            let at : hit g w.current_fiber ≡ hit g j = ap (hit g) quiet.current in
            let same : lives_of (life w g) ≡ lives_of (life stored g) = ap lives_of (life-w g) in
            let token : fiber_waiters g (some fiber) ≡ hit g j =
              counted v args good fiber entry g (joined j) by in
            omega (
              arith,
              at,
              same,
              token,
              good.account g,
              waiting-left v args good fiber entry (some ended) over refl (λ g. refl) (inl refl) g,
              lives-left v args good fiber entry (some ended) over refl (λ g. refl) (inl refl) g,
              waiting-put g stored id (fiber_handle h) (fiber_handle emptied)
                  (handle_entry v id h held),
              waiting-set_interrupter g none settled,
            );
        links =
            Changes-ended good.links changes
              (λ o u k.
                over o u (sym (life-w me ∙ life-put_fiber v me (some ended) fiber entry) ∙ k))
              guards;
      }
