-- ===== src/Scheduler.antt =====
-- `vm_context::fiber_resume` (include/emilua/core.hpp) and `vm_context::fiber_epilogue`
-- (src/core.cpp), and the histories of a VM: the fiber that runs calls native functions, yields or
-- ends, and then the strand runs the next posted call. Memory is never exhausted, and the messages
-- of other VMs are left out.
pub mod Links
pub mod Quiet
pub mod Silent
pub mod Waits
pub mod Gets
pub mod Account
pub mod Changes
pub mod Starts
pub mod Joins
pub mod Releases
pub mod Detaches
pub mod Stops
pub mod Interrupts
pub mod Spawns
pub mod Leaves
pub mod Resumes
pub mod Endings
pub mod Wakes
pub mod Objects
pub mod Histories
use emilua.Common.{
  ℕ, Bool, true, false, ◌&&◌, Option, none, some, List, [], ◌∷◌, ◌==◌, if◌then◌else◌, get_elem?,
}
use emilua.Runtime.{
  Error, Value, boolean, Status, finished_successfully, finished_with_error, alive, detached,
  joined, Fiber, fiber_handle, Post, Vm, Outcome, done, raised, yielded, put, put_fiber,
  lookup_fiber, set_interrupter,
}
use emilua.Mutex
use emilua.RecursiveMutex
use emilua.Cond
use emilua.Future
use emilua.Fiber
use emilua.Fiber.{Counter, is_interrupted}

-- The result of `lua_resume` for a fiber that has ended.
pub data Ended : Type 0 where
  returned : List Value → Ended
  failed : Value → Ended

abbrev pub ended_status : Ended → Status
ended_status (returned values) = finished_successfully
ended_status (failed e) = finished_with_error

abbrev pub ended_stack : Ended → List Value
ended_stack (returned values) = values
ended_stack (failed e) = e ∷ []

-- The arguments with which a joiner goes on: an interruption that was not caught counts as success.
unfoldable pub join_arguments : Ended → List Value
join_arguments (returned values) = boolean true ∷ values
join_arguments (failed e) = if is_interrupted e then boolean true ∷ [] else boolean false ∷ e ∷ []

abbrev pub ended_interrupted : Ended → Bool
ended_interrupted (returned values) = false
ended_interrupted (failed e) = is_interrupted e

abbrev pub is_failed : Ended → Bool
is_failed (returned values) = false
is_failed (failed e) = true

-- `running` holds the arguments of the fiber that runs, if one does.
pub record System : Type 0 where
  pub vm : Vm
  pub running : Option (List Value)

unfoldable pub fiber_resume : Post → Vm → System
fiber_resume p v =
    if v.valid
    then (let w : Vm = record v { current_fiber = p.fiber } in
        record {
          vm = if p.skip_clear_interrupter then w else set_interrupter none w;
          running = some p.arguments;
        })
    else record { vm = v; running = none }

-- The user's handle of a joined fiber is emptied.
unfoldable pub settle_handle : Option ℕ → Bool → Vm → Vm
settle_handle none caught v = v
settle_handle (some id) caught v = elim (get_elem? v.objects id) [
  | some (fiber_handle h) ↦
      put id (fiber_handle (record h { fiber = none; interruption_caught = some caught })) v
  | _ ↦ v
]

-- A fiber that nobody can join leaves the table; the VM ends with an error of the main fiber.
unfoldable pub end_detached : Ended → Vm → Vm
end_detached e v =
    if v.current_fiber == v.main_fiber && is_failed e
    then record v { valid = false }
    else put_fiber v.current_fiber none v

-- The status is stored, and the joiner goes on at once.
unfoldable pub end_joined : Ended → Fiber → ℕ → Vm → System
end_joined e fiber joiner v =
    let stored : Vm =
      put_fiber v.current_fiber (some (record fiber { status = some (ended_status e); stack = [] }))
        v in
    let settled : Vm = settle_handle fiber.user_handle (ended_interrupted e) stored in
    record {
      vm = set_interrupter none (record settled { current_fiber = joiner });
      running = some (join_arguments e);
    }

-- With a handle alive the status and the stack stay for a later `join`.
unfoldable pub end_alive : Ended → Fiber → Vm → Vm
end_alive e fiber v =
    put_fiber v.current_fiber
      (some (record fiber { status = some (ended_status e); stack = ended_stack e })) v

unfoldable pub fiber_epilogue : Ended → Vm → System
fiber_epilogue e v = elim (lookup_fiber v v.current_fiber) [
  | none ↦ record { vm = v; running = none }
  | some fiber ↦ elim fiber.joiner [
    | detached ↦ record { vm = end_detached e v; running = none }
    | joined joiner ↦ end_joined e fiber joiner v
    | alive ↦ record { vm = end_alive e fiber v; running = none }
  ]
]

-- The native functions that a fiber may call.
pub data Call : Type 0 where
  mutex_lock mutex_try_lock mutex_unlock : Value → Call
  recursive_mutex_lock recursive_mutex_try_lock recursive_mutex_unlock : Value → Call
  cond_wait : Value → Value → Call
  cond_notify_one cond_notify_all : Value → Call
  promise_set_value promise_set_error : Value → Value → Call
  promise_mt_gc : ℕ → Call
  fiber_mt_gc : ℕ → Call
  future_get : Value → Call
  spawn yield_ : Call
  join detach interrupt : Value → Call
  increment : Counter → Call
  decrement : Counter → Error → Call

-- A call that yields leaves no fiber running.
abbrev pub settle : {A : Type 0} → List Value → Outcome A → System
settle args (yielded w) = record { vm = w; running = none }
settle args (done a w) = record { vm = w; running = some args }
settle args (raised e w) = record { vm = w; running = some args }

unfoldable pub perform : Call → List Value → Vm → System
perform (mutex_lock a) args v = settle args (Mutex.mutex_lock a v)
perform (mutex_try_lock a) args v = settle args (Mutex.mutex_try_lock a v)
perform (mutex_unlock a) args v = settle args (Mutex.mutex_unlock a v)
perform (recursive_mutex_lock a) args v = settle args (RecursiveMutex.recursive_mutex_lock a v)
perform (recursive_mutex_try_lock a) args v =
    settle args (RecursiveMutex.recursive_mutex_try_lock a v)
perform (recursive_mutex_unlock a) args v = settle args (RecursiveMutex.recursive_mutex_unlock a v)
perform (cond_wait a b) args v = settle args (Cond.wait a b v)
perform (cond_notify_one a) args v = settle args (Cond.notify_one a v)
perform (cond_notify_all a) args v = settle args (Cond.notify_all a v)
perform (promise_set_value a b) args v = settle args (Future.promise_set_value a b v)
perform (promise_set_error a b) args v = settle args (Future.promise_set_error a b v)
perform (promise_mt_gc s) args v = settle args (Future.promise_mt_gc s v)
perform (fiber_mt_gc id) args v = settle args (Fiber.collect_handle id v)
perform (future_get a) args v = settle args (Future.get a v)
perform spawn args v = settle args (Fiber.spawn v)
perform yield_ args v = settle args (Fiber.this_fiber_yield v)
perform (join a) args v = settle args (Fiber.join a v)
perform (detach a) args v = settle args (Fiber.detach a v)
perform (interrupt a) args v = settle args (Fiber.interrupt a v)
perform (increment c) args v = settle args (Fiber.increment_this_fiber_counter c v)
perform (decrement c e) args v = settle args (Fiber.decrement_this_fiber_counter c e v)

pub data Event : Type 0 where
  call : Call → Event
  finish : Ended → Event
  wake : Event

unfoldable pub wake_next : List Post → Vm → System
wake_next [] v = record { vm = v; running = none }
wake_next (p ∷ rest) v = fiber_resume p (record v { strand = rest })

-- A running fiber calls or ends; with none running, the strand runs its next call. Any other event
-- does nothing.
unfoldable pub step_in : Option (List Value) → Event → Vm → System
step_in (some args) (call c) v = perform c args v
step_in (some args) (finish e) v = fiber_epilogue e v
step_in (some args) wake v = record { vm = v; running = some args }
step_in none wake v = wake_next v.strand v
step_in none event v = record { vm = v; running = none }

unfoldable pub step : Event → System → System
step event s = step_in s.running event s.vm

unfoldable pub run : List Event → System → System
run [] s = s
run (event ∷ events) s = run events (step event s)
