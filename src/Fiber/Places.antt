-- ===== src/Fiber/Places.antt =====
-- src/fiber.cpp: what the calls on a fiber's handle do to the places where fibers wait.
use emilua.Common.{
  ℕ, ◌+◌, ◌≡◌, refl, ap, ◌∙◌, inl, inr, Bool, true, false, Option, none, some, ◌==◌, arith, hit,
  get_elem?, Bool-cases, Option-cases,
}
use emilua.Runtime.{
  arg, Value, Status, finished_successfully, finished_with_error, alive, detached, joined, Fiber,
  FiberHandle, Object, fiber_handle, Interrupter, cond_wait, future_get, fiber_join, Vm, after, put,
  put_fiber, lookup_fiber, set_interrupter,
}
use emilua.Runtime.Places.{
  waiting, yields_once, object_waiters, fiber_waiters, waiting-put, waiting-put_fiber,
  waiting-set_interrupter, set_interrupter-frame, lookup_fiber_entry, Conserves,
}
use emilua.Runtime.Checks.{
  IsCheck, passes, refuses, Conserves-check, Holds, check_userdata-IsCheck, Anything,
  unsafe_can_suspend-IsCheck,
}
use emilua.Cond.Places.{waiting-interrupt_wait}
use emilua.Future.Places.{waiting-interrupt_get}
use emilua.Fiber.{
  run_interrupter, fiber_kind, joinable_fiber, check_joinable, is_interrupted, top, start_join,
  finish_join, join, join_fiber, release_fiber, detach,
}

-- A fiber that a handle still joins or detaches has no joiner yet.
pub record Linked (v : Vm) : Type 0 where
  pub unjoined :
      (id target : ℕ) (h : FiberHandle) (fiber : Fiber)
      → get_elem? v.objects id ≡ some (fiber_handle h)
      → joinable_fiber h ≡ some target
      → lookup_fiber v target ≡ some fiber
      → fiber.status ≡ none
      → fiber.joiner ≡ alive

abbrev pub Joins : FiberHandle → ℕ → Type 0
Joins h target = joinable_fiber h ≡ some target

pub check_joinable-IsCheck : (h : FiberHandle) (v : Vm) → IsCheck (Joins h) (check_joinable h) v
unfolding check_joinable
check_joinable-IsCheck h v = elim (Option-cases (joinable_fiber h)) [
  | inl e ↦ refuses (arg 1) (rw (e, check_joinable) refl)
  | inr (target, e) ↦ passes target (rw (e, check_joinable) refl) e
]

module _ (g id target : ℕ) (h : FiberHandle) (v : Vm)
    (at : get_elem? v.objects id ≡ some (fiber_handle h)) where
  start_join-balance :
      (fiber : Fiber)
      → lookup_fiber v target ≡ some fiber
      → fiber.status ≡ none
      → fiber.joiner ≡ alive
      → waiting g (after (start_join id h target fiber v)) ≡ waiting g v + hit g v.current_fiber
  unfolding start_join object_waiters fiber_waiters
  start_join-balance fiber e running free =
      let fiber' : Fiber = record fiber {
        joiner = joined v.current_fiber;
        user_handle = some id;
      } in
      let v1 : Vm = put_fiber target (some fiber') v in
      let i : Option Interrupter = some (fiber_join id v.current_fiber target) in
      let v2 : Vm = set_interrupter i v1 in
      let (objs, current, strand) = set_interrupter-frame i v1 in
      let handle' : Object = fiber_handle (record h { join_in_progress = true }) in
      let a =
        waiting-put_fiber g v target (some fiber) (some fiber')
          (lookup_fiber_entry v target fiber e) in
      let b = waiting-set_interrupter g i v1 in
      let c = waiting-put g v2 id (fiber_handle h) handle' (ap (λ o. get_elem? o id) objs ∙ at) in
      let was : fiber_waiters g (some fiber) ≡ 0 = rw (running, free) refl in
      let now : fiber_waiters g (some fiber') ≡ hit g v.current_fiber = rw running refl in
      omega (arith, a, b, c, was, now)

  finish_join-balance :
      (fiber : Fiber) (status : Status)
      → lookup_fiber v target ≡ some fiber
      → fiber.status ≡ some status
      → (waiting g (after (finish_join id h target status fiber.stack v)) ≡ waiting g v)
        × (yields_once g v (finish_join id h target status fiber.stack v) ≡ 0)
  unfolding finish_join object_waiters fiber_waiters
  finish_join-balance fiber finished_successfully e ended =
      let v1 : Vm = put_fiber target none v in
      let a =
        waiting-put_fiber g v target (some fiber) none (lookup_fiber_entry v target fiber e) in
      let c =
        waiting-put g v1 id (fiber_handle h)
          (fiber_handle (record h { fiber = none; interruption_caught = some false })) at in
      let was : fiber_waiters g (some fiber) ≡ 0 = rw ended refl in (omega (arith, a, c, was), refl)
  finish_join-balance fiber finished_with_error e ended =
      elim (Bool-cases (is_interrupted (top fiber.stack))) [
        | inl b ↦ rw b (omega (arith, counted true), refl)
        | inr b ↦ rw b (omega (arith, counted false), refl)
      ]
    where
      counted :
          (caught : Bool)
          → waiting g (
              put id
                (fiber_handle (record h { fiber = none; interruption_caught = some caught }))
                (put_fiber target none v))
            ≡ waiting g v
      counted caught =
          let v1 : Vm = put_fiber target none v in
          let a =
            waiting-put_fiber g v target (some fiber) none (lookup_fiber_entry v target fiber e) in
          let c =
            waiting-put g v1 id (fiber_handle h)
              (fiber_handle (record h { fiber = none; interruption_caught = some caught })) at in
          let was : fiber_waiters g (some fiber) ≡ 0 = rw ended refl in omega (arith, a, c, was)

join_fiber-Conserves :
    (v : Vm) (id target : ℕ) (h : FiberHandle)
    → get_elem? v.objects id ≡ some (fiber_handle h)
    → ((fiber : Fiber)
        → lookup_fiber v target ≡ some fiber
        → fiber.status ≡ none
        → fiber.joiner ≡ alive)
    → Conserves (join_fiber id h target) v
unfolding join_fiber start_join
join_fiber-Conserves v id target h at free = record {
  balance = λ g. elim (Bool-cases (target == v.current_fiber)) [
    | inl b ↦ rw b (omega arith)
    | inr b ↦ elim (Option-cases (lookup_fiber v target)) [
      | inl e ↦ rw (b, e) (omega arith)
      | inr (fiber, e) ↦ elim (Option-cases fiber.status) [
        | inl n ↦ rw (b, e, n) (start_join-balance g id target h v at fiber e n (free fiber e n))
        | inr (status, n) ↦
            let (same, still) = finish_join-balance g id target h v at fiber status e n in
            rw (b, e, n) (omega (arith, same, still))
      ]
    ]
  ];
}

pub join-Conserves : (v : Vm) (value : Value) → Linked v → Conserves (join value) v
unfolding join fiber_kind
join-Conserves v value linked = Conserves-check Anything (unsafe_can_suspend-IsCheck v) λ _ _.
    Conserves-check (Holds fiber_kind v) (check_userdata-IsCheck fiber_kind 1 1 value v)
      λ (id, h) at. Conserves-check (Joins h) (check_joinable-IsCheck h v) λ target j.
        join_fiber-Conserves v id target h at (λ fiber. linked.unjoined id target h fiber at j)

pub release_fiber-balance :
    (g target : ℕ) (v : Vm)
    → ((fiber : Fiber)
        → lookup_fiber v target ≡ some fiber
        → fiber.status ≡ none
        → fiber.joiner ≡ alive)
    → (waiting g (release_fiber target v) ≡ waiting g v)
      × ((release_fiber target v).objects ≡ v.objects)
unfolding release_fiber fiber_waiters
release_fiber-balance g target v free = elim (Option-cases (lookup_fiber v target)) [
  | inl e ↦ rw (e, release_fiber) (refl, refl)
  | inr (fiber, e) ↦ elim (Option-cases fiber.status) [
    | inl n ↦
        rw (e, release_fiber)
          (rw n (
            ground (
              arith,
              waiting-put_fiber g v target (some fiber) (some (record fiber { joiner = detached }))
                  (lookup_fiber_entry v target fiber e),
              free fiber e n,
            ),
            refl,
          ))
    | inr (s, n) ↦
        rw (e, release_fiber)
          (rw n (
            ground (
              arith,
              waiting-put_fiber g v target (some fiber) none (lookup_fiber_entry v target fiber e),
            ),
            refl,
          ))
  ]
]

pub detach-Conserves : (v : Vm) (value : Value) → Linked v → Conserves (detach value) v
unfolding detach fiber_kind object_waiters
detach-Conserves v value linked =
    Conserves-check (Holds fiber_kind v) (check_userdata-IsCheck fiber_kind 1 1 value v)
      λ (id, h) at. Conserves-check (Joins h) (check_joinable-IsCheck h v) λ target j. record {
        balance = λ g.
            let (same, objs) =
              release_fiber-balance g target v (λ fiber. linked.unjoined id target h fiber at j) in
            omega (
              arith,
              same,
              waiting-put g (release_fiber target v) id (fiber_handle h)
                  (fiber_handle (record h { fiber = none })) (ap (λ o. get_elem? o id) objs ∙ at),
            );
      }

-- Where a running fiber that a handle can still join has no joiner, `join` and `detach`, on any
-- argument and every branch, keep the number of places from which each fiber is still to be woken,
-- and add one for the running fiber exactly if the call yields.
fiber-Conserves :
    (v : Vm) (value : Value) → Linked v → Conserves (join value) v × Conserves (detach value) v
fiber-Conserves v value linked = (join-Conserves v value linked, detach-Conserves v value linked)

-- The interrupters that `wait` and `get` set keep the number of places from which each fiber is
-- still to be woken: a fiber that is in the queue moves to the strand, and for one that is not
-- there nothing is posted.
waiting-interrupters :
    (g id f : ℕ) (v : Vm)
    → (waiting g (run_interrupter (cond_wait id f) v) ≡ waiting g v)
      × (waiting g (run_interrupter (future_get id f) v) ≡ waiting g v)
unfolding run_interrupter
waiting-interrupters g id f v = (waiting-interrupt_wait g id f v, waiting-interrupt_get g id f v)
