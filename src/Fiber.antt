-- ===== src/Fiber.antt =====
-- src/fiber.cpp: spawn, join, detach, interrupt, the collection of a handle, and `this_fiber.yield`;
-- the counters of `this_fiber` are in Fiber/ThisFiber.
mod ThisFiber
pub mod Places
pub mod Counters
pub use ThisFiber.{
  to_counter, Counter, interruption_disabled, suspension_disallowed, disable_interruption,
  restore_interruption, forbid_suspend, allow_suspend,
}
unfoldable pub use ThisFiber.{
  read_counter, write_counter, increment_this_fiber_counter, decrement_this_fiber_counter,
}
use emilua.Common.{
  ℕ, ◌+◌, ◌-◌, ◌≡◌, Bool, true, false, not, ◌&&◌, ◌||◌, Option, none, some, List, [], ◌∷◌, ◌++◌,
  ◌==◌, ltb, if◌then◌else◌, get_elem?, length,
}
use emilua.Runtime.{
  Error, arg, invalid_argument, resource_deadlock_would_occur, interrupted,
  interruption_already_allowed, suspension_already_allowed, Value, nil, boolean, userdata, failure,
  Status, finished_successfully, finished_with_error, Joiner, alive, detached, joined, Disabled,
  flag, counter, Interrupter, cond_wait, future_get, fiber_join, Fiber, FiberHandle, Object,
  fiber_handle, Post, Vm, M, Outcome, done, raised, return, fail, suspend, ◌>>=◌, ◌>>◌, modify, put,
  put_fiber, post, lookup_fiber, Kind, check_userdata, unsafe_can_suspend, set_interrupter,
}
use emilua.Cond.{interrupt_wait}
use emilua.Future.{interrupt_get}

unwrap_fiber : Object → Option FiberHandle
unwrap_fiber (fiber_handle h) = some h
unwrap_fiber _ = none

unwrap_fiber_lem : (o : Object) (h : FiberHandle) → unwrap_fiber o ≡ some h → o ≡ fiber_handle h
unfolding unwrap_fiber
unwrap_fiber_lem (fiber_handle g) h e = cc
unwrap_fiber_lem _ h e = cc

-- `fiber_mt_key`.
unfoldable pub fiber_kind : Kind FiberHandle
unfolding unwrap_fiber unwrap_fiber_lem
fiber_kind = record { wrap = fiber_handle; unwrap = unwrap_fiber; unwrap_lem = unwrap_fiber_lem }

-- The fiber of a handle that can be joined or detached.
abbrev pub joinable_fiber : FiberHandle → Option ℕ
joinable_fiber h = if h.join_in_progress then none else h.fiber

-- The test `!handle->fiber || handle->join_in_progress`.
unfoldable pub check_joinable : FiberHandle → M ℕ
check_joinable h v = elim (joinable_fiber h) [ none ↦ fail (arg 1) v | some f ↦ done f v ]

abbrev pub is_interrupted : Value → Bool
is_interrupted (failure interrupted) = true
is_interrupted _ = false

-- The error of a finished fiber is on top of its stack.
abbrev pub top : List Value → Value
top [] = nil
top (x ∷ xs) = x

-- The joined fiber still runs: the running fiber becomes its joiner.
unfoldable pub start_join : ℕ → FiberHandle → ℕ → Fiber → M (List Value)
start_join id h target fiber v =
    (do
      modify (
          put_fiber target
            (some (record fiber { joiner = joined v.current_fiber; user_handle = some id })))
      modify (set_interrupter (some (fiber_join id v.current_fiber target)))
      modify (put id (fiber_handle (record h { join_in_progress = true })))
      suspend)
      v

-- It has finished: its results or its error are taken, and its entry is dropped.
unfoldable pub finish_join : ℕ → FiberHandle → ℕ → Status → List Value → M (List Value)
finish_join id h target finished_successfully stack = do
  modify (put_fiber target none)
  modify (put id (fiber_handle (record h { fiber = none; interruption_caught = some false })))
  return (boolean true ∷ stack)
finish_join id h target finished_with_error stack = do
  modify (put_fiber target none)
  modify (
      put id (
        fiber_handle
          (record h { fiber = none; interruption_caught = some (is_interrupted (top stack)) })))
  if is_interrupted (top stack) then return (boolean true ∷ []) else raised (top stack)

unfoldable pub join_fiber : ℕ → FiberHandle → ℕ → M (List Value)
join_fiber id h target v =
    if target == v.current_fiber
    then fail resource_deadlock_would_occur v
    else elim (lookup_fiber v target) [
      | none ↦ fail (arg 1) v
      | some fiber ↦ elim fiber.status [
        | none ↦ start_join id h target fiber v
        | some status ↦ finish_join id h target status fiber.stack v
      ]
    ]

unfoldable pub join : Value → M (List Value)
join value = do
  unsafe_can_suspend
  (id, h) ← check_userdata fiber_kind 1 1 value
  target ← check_joinable h
  join_fiber id h target

-- A running fiber is marked, a finished one is dropped from the table.
unfoldable pub release_fiber : ℕ → Vm → Vm
release_fiber target v = elim (lookup_fiber v target) [
  | none ↦ v
  | some fiber ↦ elim fiber.status [
    | none ↦ put_fiber target (some (record fiber { joiner = detached })) v
    | some status ↦ put_fiber target none v
  ]
]

unfoldable pub detach : Value → M (Unit {0})
detach value = do
  (id, h) ← check_userdata fiber_kind 1 1 value
  target ← check_joinable h
  modify (release_fiber target)
  modify (put id (fiber_handle (record h { fiber = none })))

-- The collection of a handle: a handle that is being joined is only collected with the VM.
unfoldable pub fiber_mt_gc : ℕ → FiberHandle → Vm → Vm
fiber_mt_gc id h v = elim (joinable_fiber h) [
  | none ↦ v
  | some target ↦ put id (fiber_handle (record h { fiber = none })) (release_fiber target v)
]

-- The userdata that Lua collects.
unfoldable pub collect_handle : ℕ → M (Unit {0})
collect_handle id v = elim (get_elem? v.objects id) [
  | some (fiber_handle h) ↦ done tt (fiber_mt_gc id h v)
  | _ ↦ done tt v
]

-- The joined fiber has no joiner any more.
unfoldable pub reset_joiner : ℕ → Vm → Vm
reset_joiner target v = elim (lookup_fiber v target) [
  | none ↦ v
  | some fiber ↦ put_fiber target (some (record fiber { joiner = alive; user_handle = none })) v
]

unfoldable pub reset_handle : ℕ → Vm → Vm
reset_handle id v = elim (get_elem? v.objects id) [
  | some (fiber_handle h) ↦ put id (fiber_handle (record h { join_in_progress = false })) v
  | _ ↦ v
]

-- The interrupter that `join` sets.
unfoldable pub interrupt_join : ℕ → ℕ → ℕ → Vm → Vm
interrupt_join id f target v =
    post
      (record {
        fiber = f;
        arguments = boolean false ∷ failure interrupted ∷ [];
        skip_clear_interrupter = false;
      })
      (reset_handle id (reset_joiner target v))

unfoldable pub run_interrupter : Interrupter → Vm → Vm
run_interrupter (cond_wait id f) v = interrupt_wait id f v
run_interrupter (future_get s f) v = interrupt_get s f v
run_interrupter (fiber_join id f target) v = interrupt_join id f target v

unfoldable pub clear_interrupter : ℕ → Vm → Vm
clear_interrupter f v = elim (lookup_fiber v f) [
  | none ↦ v
  | some fiber ↦ put_fiber f (some (record fiber { interrupter = none })) v
]

unfoldable pub interrupt_fiber : ℕ → Vm → Vm
interrupt_fiber target v = elim (lookup_fiber v target) [
  | none ↦ v
  | some fiber ↦
      let marked = put_fiber target (some (record fiber { interrupted = true })) v in
      if target == v.current_fiber then marked else elim fiber.interrupter [
        | none ↦ marked
        | some i ↦ clear_interrupter target (run_interrupter i marked)
      ]
]

unfoldable pub interrupt : Value → M (Unit {0})
interrupt value = do
  (id, h) ← check_userdata fiber_kind 1 1 value
  elim h.fiber [ none ↦ return tt | some target ↦ modify (interrupt_fiber target) ]

unfoldable pub interruption_caught : FiberHandle → M Bool
interruption_caught h = elim h.interruption_caught [
  | none ↦ fail invalid_argument
  | some b ↦ return b
]

unfoldable pub joinable : FiberHandle → Bool
joinable h = elim h.fiber [ none ↦ false | some f ↦ not h.join_in_progress ]

-- The table entry that `spawn` makes.
abbrev pub new_fiber : Fiber
new_fiber = record {
  joiner = alive;
  status = none;
  suspension_disallowed = 0;
  interruption_disabled = counter 0;
  interrupted = false;
  interrupter = none;
  user_handle = none;
  stack = [];
}

abbrev pub new_handle : ℕ → FiberHandle
new_handle f = record { fiber = some f; join_in_progress = false; interruption_caught = none }

-- The new fiber gets the next index of the table.
unfoldable pub spawn : M Value
spawn v = done (userdata (length v.objects)) (
    post (record { fiber = length v.fibers; arguments = []; skip_clear_interrupter = true })
      (record v {
        fibers = v.fibers ++ some new_fiber ∷ [];
        objects = v.objects ++ fiber_handle (new_handle (length v.fibers)) ∷ [];
      }))

unfoldable pub this_fiber_yield : M (Unit {0})
this_fiber_yield = do
  unsafe_can_suspend
  λ v.
      (do
        modify (
            post
              (record { fiber = v.current_fiber; arguments = []; skip_clear_interrupter = true }))
        suspend)
        v
