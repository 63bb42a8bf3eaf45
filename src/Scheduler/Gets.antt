-- ===== src/Scheduler/Gets.antt =====
-- `get` of src/future.cpp, the interrupters of src/condition_variable.cpp and src/future.cpp, and the
-- functions of `this_fiber` keep the links of handles and joiners.
use emilua.Common.{
  ℕ, ◌+◌, ◌-◌, ◌≡◌, ◌≢◌, refl, ap, ◌∙◌, inl, inr, Bool, true, Option, none, some, List, [], ◌==◌,
  get_elem?, Bool-cases, Option-cases, arith,
}
use emilua.Runtime.{
  Error, Value, counter, is_disabled, FutureState, empty, SharedState, Fiber, Object, cond,
  shared_state, Interrupter, future_get, fiber_join, Vm, after, put_fiber, erase_first,
  lookup_fiber, set_interrupter,
}
use emilua.Runtime.Checks.{
  Anything, Holds, check_userdata-IsCheck, unsafe_can_suspend-IsCheck, Conserves-check,
}
use emilua.Runtime.Places.{
  set_interrupter-frame, lookup_fiber_entry, waiting, Conserves, waiting-post, waiting-put_fiber,
  fiber_waiters,
}
use emilua.Cond.{interrupt_wait}
use emilua.Future.{future_kind, wait_for, get_from, get, interrupt_get}
use emilua.Future.Places.{HasState, shared-IsCheck}
use emilua.Fiber.{
  this_fiber_yield, Counter, interruption_disabled, suspension_disallowed, read_counter,
  write_counter, increment_this_fiber_counter, decrement_this_fiber_counter, clear_interrupter,
}
use emilua.Scheduler.Links.{handle_of, guard, guard_of, life_of}
use emilua.Scheduler.Quiet.{
  Quiet, Quiet-refl, Quiet-trans, Quiet-put, Quiet-post, Quiet-set_interrupter, Quiet-put_fiber,
  IsIdle, IsQuiet, IsQuiet-check, IsQuiet-same,
}
use emilua.Scheduler.Waits.{future_get-NoJoin}

wait_for-Quiet :
    (v : Vm) (s : ℕ) (state : SharedState)
    → HasState s v state
    → Quiet v (after (wait_for s state v))
unfolding wait_for handle_of
wait_for-Quiet v s state at =
    let i : Option Interrupter = some (future_get s v.current_fiber) in
    let (objs, current, strand) = set_interrupter-frame i v in
    Quiet-trans (Quiet-set_interrupter i v (future_get-NoJoin s v.current_fiber)) (
      Quiet-put (set_interrupter i v) s (shared_state state) _ (ap (λ o. get_elem? o s) objs ∙ at)
        refl)

pub get-IsQuiet : (v : Vm) (self : Value) → IsQuiet (get self) v
unfolding get future_kind get_from wait_for
get-IsQuiet v self =
    IsQuiet-check (Holds future_kind v) (check_userdata-IsCheck future_kind 1 1 self v) λ (id, s) _.
      IsQuiet-check Anything (unsafe_can_suspend-IsCheck v) λ _ _.
        IsQuiet-check (HasState s v) (shared-IsCheck s v) λ state h. go s state h state.state refl
  where
    go :
        (s : ℕ) (state : SharedState)
        → HasState s v state
        → (q : FutureState) → state.state ≡ q
        → IsQuiet (get_from s state) v
    go s state h empty e = rw (get_from, e) (record { quiet = wait_for-Quiet v s state h })
    go s state h _ e = rw (get_from, e) (IsQuiet-same refl)

pub interrupt_wait-Quiet : (id f : ℕ) (v : Vm) → Quiet v (interrupt_wait id f v)
unfolding handle_of interrupt_wait
interrupt_wait-Quiet id f v = go (get_elem? v.objects id) refl
  where
    found :
        (pending : List ℕ)
        → get_elem? v.objects id ≡ some (cond pending)
        → (o : Option (List ℕ)) → erase_first f pending ≡ o
        → Quiet v (interrupt_wait id f v)
    found pending h none e = rw (h, interrupt_wait) (rw e (Quiet-refl v))
    found pending h (some rest) e =
        rw (h, interrupt_wait)
          (rw e (Quiet-trans (Quiet-put v id (cond pending) (cond rest) h refl) (Quiet-post _ _)))

    go : (o : Option Object) → get_elem? v.objects id ≡ o → Quiet v (interrupt_wait id f v)
    go (some (cond pending)) h = found pending h (erase_first f pending) refl
    go (some _) h = rw (h, interrupt_wait) (Quiet-refl v)
    go none h = rw (h, interrupt_wait) (Quiet-refl v)

pub interrupt_get-Quiet : (s f : ℕ) (v : Vm) → Quiet v (interrupt_get s f v)
unfolding handle_of interrupt_get
interrupt_get-Quiet s f v = go (get_elem? v.objects s) refl
  where
    found :
        (state : SharedState)
        → HasState s v state
        → (o : Option (List ℕ)) → erase_first f state.waiters ≡ o
        → Quiet v (interrupt_get s f v)
    found state h none e = rw (h, interrupt_get) (rw e (Quiet-refl v))
    found state h (some rest) e =
        rw (h, interrupt_get)
          (rw e (
            Quiet-trans
              (Quiet-put v s (shared_state state) (shared_state (record state { waiters = rest })) h
                refl)
              (Quiet-post _ _)))

    go : (o : Option Object) → get_elem? v.objects s ≡ o → Quiet v (interrupt_get s f v)
    go (some (shared_state state)) h = found state h (erase_first f state.waiters) refl
    go (some _) h = rw (h, interrupt_get) (Quiet-refl v)
    go none h = rw (h, interrupt_get) (Quiet-refl v)

-- What `guard` reads, of its two parts.
abbrev guarded : Option Interrupter → Bool → Option (Option Interrupter × Bool)
guarded i b = some (i, b)

pub clear_interrupter-Quiet : (c : ℕ) (v : Vm) → Quiet v (clear_interrupter c v)
unfolding life_of guard_of clear_interrupter
clear_interrupter-Quiet c v = elim (Option-cases (lookup_fiber v c)) [
  | inl e ↦ rw (e, clear_interrupter) (Quiet-refl v)
  | inr (fiber, e) ↦
      rw (e, clear_interrupter)
        (Quiet-put_fiber v c fiber (record fiber { interrupter = none }) e refl
          (inr (λ id f t b k. none_clash id f t b k)))
]
  where
    none_clash :
        {d : Bool} (id f t : ℕ) (b : Bool) → guarded none d ≢ guarded (some (fiber_join id f t)) b
    none_clash id f t b k = cc

pub yield-Conserves : (v : Vm) → Conserves this_fiber_yield v
unfolding this_fiber_yield
yield-Conserves v = Conserves-check Anything (unsafe_can_suspend-IsCheck v) λ _ _. record {
  balance = λ g. omega (
    arith,
    waiting-post g v
        (record { fiber = v.current_fiber; arguments = []; skip_clear_interrupter = true }),
  );
}

pub yield-IsQuiet : (v : Vm) → IsQuiet this_fiber_yield v
unfolding this_fiber_yield
yield-IsQuiet v =
    IsQuiet-check Anything (unsafe_can_suspend-IsCheck v) λ _ _. record { quiet = Quiet-post v _ }

only_guard :
    {d d' : Bool} (i : Option Interrupter) (id f t : ℕ) (b : Bool)
    → guarded i d ≡ guarded (some (fiber_join id f t)) b
    → guarded i d' ≡ guarded (some (fiber_join id f t)) d'
only_guard i id f t b k = cc

-- A write of a counter of the running fiber, whose interrupter is not that of a join.
module _ (v : Vm) (n : ℕ) (fiber : Fiber) (e : lookup_fiber v v.current_fiber ≡ some fiber) where
  write_counter-Quiet :
      (c : Counter)
      → IsIdle (guard v v.current_fiber)
      → Quiet v (put_fiber v.current_fiber (some (write_counter c n fiber)) v)
  unfolding write_counter guard life_of guard_of is_disabled
  write_counter-Quiet interruption_disabled idle =
      Quiet-put_fiber v v.current_fiber fiber (record fiber { interruption_disabled = counter n }) e
        refl
        (inr (λ id f t b k.
          idle id f t (is_disabled fiber.interruption_disabled)
            (ap guard_of e ∙ only_guard fiber.interrupter id f t b k)))
  write_counter-Quiet suspension_disallowed idle =
      Quiet-put_fiber v v.current_fiber fiber (record fiber { suspension_disallowed = n }) e refl
        (inl refl)

  write_counter-waiting :
      (c : Counter) (g : ℕ)
      → waiting g (put_fiber v.current_fiber (some (write_counter c n fiber)) v) ≡ waiting g v
  unfolding write_counter fiber_waiters
  write_counter-waiting interruption_disabled g = omega (
    arith,
    waiting-put_fiber g v v.current_fiber (some fiber)
        (some (record fiber { interruption_disabled = counter n }))
        (lookup_fiber_entry v v.current_fiber fiber e),
  )
  write_counter-waiting suspension_disallowed g = omega (
    arith,
    waiting-put_fiber g v v.current_fiber (some fiber)
        (some (record fiber { suspension_disallowed = n }))
        (lookup_fiber_entry v v.current_fiber fiber e),
  )

pub increment-IsQuiet :
    (v : Vm) (c : Counter)
    → IsIdle (guard v v.current_fiber)
    → IsQuiet (increment_this_fiber_counter c) v × Conserves (increment_this_fiber_counter c) v
unfolding increment_this_fiber_counter
increment-IsQuiet v c idle = elim (Bool-cases (v.current_fiber == v.async_event_thread)) [
  | inl b ↦ (record { quiet = rw b (Quiet-refl v) }, record { balance = λ g. rw b (omega arith) })
  | inr b ↦ elim (Option-cases (lookup_fiber v v.current_fiber)) [
    | inl e ↦ (
      record { quiet = rw (b, e) (Quiet-refl v) },
      record { balance = λ g. rw (b, e) (omega arith) },
    )
    | inr (fiber, e) ↦ (
      record {
        quiet = rw (b, e) (write_counter-Quiet v (read_counter c fiber + 1) fiber e c idle);
      },
      record {
        balance = λ g.
            rw (b, e)
              (omega (arith, write_counter-waiting v (read_counter c fiber + 1) fiber e c g));
      },
    )
  ]
]

pub decrement-IsQuiet :
    (v : Vm) (c : Counter) (x : Error)
    → IsIdle (guard v v.current_fiber)
    → IsQuiet (decrement_this_fiber_counter c x) v × Conserves (decrement_this_fiber_counter c x) v
unfolding decrement_this_fiber_counter
decrement-IsQuiet v c x idle = elim (Bool-cases (v.current_fiber == v.async_event_thread)) [
  | inl b ↦ (record { quiet = rw b (Quiet-refl v) }, record { balance = λ g. rw b (omega arith) })
  | inr b ↦ elim (Option-cases (lookup_fiber v v.current_fiber)) [
    | inl e ↦ (
      record { quiet = rw (b, e) (Quiet-refl v) },
      record { balance = λ g. rw (b, e) (omega arith) },
    )
    | inr (fiber, e) ↦ elim (Bool-cases (read_counter c fiber == 0)) [
      | inl z ↦ (
        record { quiet = rw (b, e, z) (Quiet-refl v) },
        record { balance = λ g. rw (b, e, z) (omega arith) },
      )
      | inr z ↦ (
        record {
          quiet = rw (b, e, z) (write_counter-Quiet v (read_counter c fiber - 1) fiber e c idle);
        },
        record {
          balance = λ g.
              rw (b, e, z)
                (omega (arith, write_counter-waiting v (read_counter c fiber - 1) fiber e c g));
        },
      )
    ]
  ]
]
