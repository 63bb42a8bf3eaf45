-- ===== src/Scheduler/Interrupts.antt =====
-- `interrupt` of src/fiber.cpp keeps the links and the wake-ups.
use emilua.Common.{
  ℕ, ◌≡◌, refl, sym, ap, subst, ◌∙◌, inl, inr, Bool, true, Option, none, some, arith, ◌==◌,
  Option-cases, Bool-cases,
}
use emilua.Runtime.{
  Value, is_disabled, Fiber, Interrupter, cond_wait, future_get, fiber_join, Vm, put_fiber,
  lookup_fiber, return, modify,
}
use emilua.Runtime.Places.{waiting, fiber_waiters, waiting-put_fiber, lookup_fiber_entry, Conserves}
use emilua.Runtime.Checks.{Conserves-check, Holds, check_userdata-IsCheck}
use emilua.Cond.Places.{waiting-interrupt_wait}
use emilua.Future.Places.{waiting-interrupt_get}
use emilua.Cond.{interrupt_wait}
use emilua.Future.{interrupt_get}
use emilua.Fiber.{
  fiber_kind, interrupt_join, run_interrupter, clear_interrupter, interrupt_fiber, interrupt,
}
use emilua.Scheduler.Links.{joining, life_of, guard_of, guard, Links, guard-put_fiber}
use emilua.Scheduler.Quiet.{
  Grows-same, Grows-trans, Quiet, Quiet-refl, Quiet-trans, Quiet-Links, Quiet-put_fiber,
}
use emilua.Scheduler.Gets.{interrupt_wait-Quiet, interrupt_get-Quiet, clear_interrupter-Quiet}
use emilua.Scheduler.Account.{IsKept, IsKept-check}
use emilua.Scheduler.Stops.{Keeps, Quiet-Keeps, waiting-clear, interrupted-Keeps}

interrupt_fiber-Keeps : (c : ℕ) (v : Vm) → Links v → Keeps v (interrupt_fiber c v)
unfolding interrupt_fiber fiber_waiters life_of guard_of
interrupt_fiber-Keeps c v l = elim (Option-cases (lookup_fiber v c)) [
  | inl e ↦ rw (e, interrupt_fiber) (Quiet-Keeps v v l (Quiet-refl v) (λ g. refl))
  | inr (fiber, e) ↦
      rw (e, interrupt_fiber)
        (elim (Bool-cases (c == v.current_fiber)) [
          | inl b ↦ rw b (only_marked fiber e)
          | inr b ↦ rw b (go fiber e fiber.interrupter refl)
        ])
]
  where
    mark : Fiber → Vm
    mark fiber = put_fiber c (some (record fiber { interrupted = true })) v

    mark-Quiet : (fiber : Fiber) → lookup_fiber v c ≡ some fiber → Quiet v (mark fiber)
    mark-Quiet fiber e =
        Quiet-put_fiber v c fiber (record fiber { interrupted = true }) e refl (inl refl)

    mark-waiting :
        (fiber : Fiber)
        → lookup_fiber v c ≡ some fiber
        → (g : ℕ) → waiting g (mark fiber) ≡ waiting g v
    mark-waiting fiber e g = omega (
      arith,
      waiting-put_fiber g v c (some fiber) (some (record fiber { interrupted = true }))
          (lookup_fiber_entry v c fiber e),
    )

    only_marked : (fiber : Fiber) → lookup_fiber v c ≡ some fiber → Keeps v (mark fiber)
    only_marked fiber e = Quiet-Keeps v (mark fiber) l (mark-Quiet fiber e) (mark-waiting fiber e)

    then_ :
        (fiber : Fiber)
        → lookup_fiber v c ≡ some fiber
        → (w : Vm) → Keeps (mark fiber) w
        → Keeps v w
    then_ fiber e w k =
        let m = only_marked fiber e in
        record {
          current = k.current ∙ m.current;
          lives_same = λ g. k.lives_same g ∙ m.lives_same g;
          links = k.links;
          grows = Grows-trans m.grows k.grows;
          waiting_same = λ g. k.waiting_same g ∙ m.waiting_same g;
        }

    cleared :
        (u w : Vm)
        → Links u
        → Quiet u w
        → ((g : ℕ) → waiting g w ≡ waiting g u)
        → Keeps u (clear_interrupter c w)
    cleared u w m q same =
        Quiet-Keeps u (clear_interrupter c w) m (Quiet-trans q (clear_interrupter-Quiet c w))
          (λ g. waiting-clear c w g ∙ same g)

    go :
        (fiber : Fiber)
        → lookup_fiber v c ≡ some fiber
        → (i : Option Interrupter) → fiber.interrupter ≡ i
        → Keeps v (elim i [
          | none ↦ mark fiber
          | some i ↦ clear_interrupter c (run_interrupter i (mark fiber))
        ])
    go fiber e none k = only_marked fiber e
    go fiber e (some (cond_wait id f)) k =
        unfold run_interrupter in
        then_ fiber e (clear_interrupter c (interrupt_wait id f (mark fiber))) (
          cleared (mark fiber) (interrupt_wait id f (mark fiber))
            (Quiet-Links (mark-Quiet fiber e) l) (interrupt_wait-Quiet id f (mark fiber))
            (λ g. waiting-interrupt_wait g id f (mark fiber)))
    go fiber e (some (future_get id f)) k =
        unfold run_interrupter in
        then_ fiber e (clear_interrupter c (interrupt_get id f (mark fiber))) (
          cleared (mark fiber) (interrupt_get id f (mark fiber))
            (Quiet-Links (mark-Quiet fiber e) l) (interrupt_get-Quiet id f (mark fiber))
            (λ g. waiting-interrupt_get g id f (mark fiber)))
    go fiber e (some (fiber_join id f t)) k =
        unfold run_interrupter in
        let links = Quiet-Links (mark-Quiet fiber e) l in
        let b : Bool = is_disabled fiber.interruption_disabled in
        let set_ : guard (mark fiber) c ≡ joining id f t b =
          guard-put_fiber v c (some (record fiber { interrupted = true })) fiber e
          ∙ ap (λ i. some (i, b)) k in
        let own : f ≡ c = (links.joins c id f t b set_).0 in
        then_ fiber e (clear_interrupter c (interrupt_join id f t (mark fiber))) (
          subst
            (λ x.
              guard (mark fiber) c ≡ joining id x t b
              → Keeps (mark fiber) (clear_interrupter c (interrupt_join id x t (mark fiber))))
            (sym own) (λ s. interrupted-Keeps id t c b (mark fiber) links s) set_)

module _ (v : Vm) (value : Value) (l : Links v) where
  pub interrupt-IsKept : IsKept (interrupt value) v
  unfolding interrupt fiber_kind
  interrupt-IsKept =
      IsKept-check (Holds fiber_kind v) l (check_userdata-IsCheck fiber_kind 1 1 value v)
        λ (id, h) at. go h.fiber
    where
      go :
          (o : Option ℕ)
          → IsKept (elim o [ none ↦ return tt | some target ↦ modify (interrupt_fiber target) ]) v
      go none = record {
        current = refl;
        lives_same = λ g. refl;
        links = l;
        grows = Grows-same refl;
      }
      go (some target) =
          let k = interrupt_fiber-Keeps target v l in
          record {
            current = k.current;
            lives_same = k.lives_same;
            links = k.links;
            grows = k.grows;
          }

  pub interrupt-Conserves : Conserves (interrupt value) v
  unfolding interrupt fiber_kind
  interrupt-Conserves =
      Conserves-check (Holds fiber_kind v) (check_userdata-IsCheck fiber_kind 1 1 value v)
        λ (id, h) at. go h.fiber
    where
      go :
          (o : Option ℕ)
          → Conserves
              (elim o [ none ↦ return tt | some target ↦ modify (interrupt_fiber target) ])
              v
      go none = record { balance = λ g. omega arith }
      go (some target) =
          let k = interrupt_fiber-Keeps target v l in
          record { balance = λ g. omega (arith, k.waiting_same g) }
