-- ===== src/Tests/Fibers.antt =====
-- The fiber primitives of src/mutex.cpp, src/recursive_mutex.cpp, src/condition_variable.cpp,
-- src/future.cpp and src/fiber.cpp on a VM with three fibers.
use emilua.Common.{
  ℕ, ◌≡◌, refl, Option, none, some, List, [], ◌∷◌, ◌++◌, map, ap, sym, true, arith, get_elem?,
}
use emilua.Runtime.{
  interruption_already_allowed, ◌>>◌, is_disabled, check_userdata, unsafe_can_suspend2, post_all,
  nil, opaque, userdata, failure, broken_promise, promise_already_satisfied, Fiber, empty,
  value_ready, mutex, recursive_mutex, cond, shared_state, promise, future, fiber_handle, Vm, done,
  raised, after, unsafe_can_suspend,
}
use emilua.Runtime.Places.{Conserves}
use emilua.Runtime.Checks.{MaySuspend}
use emilua.Runtime.Steps.{completed, waits, Step}
use emilua.Mutex.{mutex_lock, mutex_try_lock, mutex_unlock, mutex_kind, hand_over}
use emilua.Scheduler.Objects.{objects-Conserve}
use emilua.Mutex.Queue
use emilua.Mutex.Runs.{run_calls, run_calls_lem, answers, last_queue, all_wakes}
use emilua.RecursiveMutex.{recursive_mutex_lock, recursive_mutex_try_lock, recursive_mutex_unlock}
use emilua.RecursiveMutex.Owner
use emilua.RecursiveMutex.Refinement.{recursive_mutex_call_lem}
use emilua.Cond.{wait, notify_one, notify_all}
use emilua.Future.{
  promise_set_value, promise_set_error, promise_mt_gc, get, promise_kind, satisfy, shared,
}
use emilua.Future.Once.{
  Pair, wake_with, set_value_lem, set_value-get, set_error-get, promise_mt_gc-get,
}
use emilua.Fiber.{new_fiber, new_handle}
use emilua.Fiber.{interruption_disabled, increment_this_fiber_counter, decrement_this_fiber_counter}
use emilua.Fiber.Counters.{counters-nest}

-- Objects: a mutex that fiber 2 holds and fiber 0 waits for, a free recursive mutex, a condition
-- variable, a promise, its future, their shared state with two waiters, and a handle of fiber 2.
abbrev test_vm : Vm
test_vm = record {
  valid = true;
  main_fiber = 0;
  current_fiber = 1;
  async_event_thread = 9;
  fibers = some new_fiber ∷ some new_fiber ∷ some new_fiber ∷ [];
  objects =
      mutex (record { pending = 0 ∷ []; locked = true })
      ∷ recursive_mutex (record { pending = []; nlocked = 0; owner = none })
      ∷ cond (0 ∷ [])
      ∷ promise 5
      ∷ future 5
      ∷ shared_state (record { waiters = 2 ∷ 0 ∷ []; state = empty; value_ref = none })
      ∷ fiber_handle (new_handle 2)
      ∷ [];
  strand = [];
}

disallowed : Option Fiber → ℕ
disallowed none = 0
disallowed (some fiber) = fiber.suspension_disallowed

may_1 : MaySuspend test_vm 1
unfolding disallowed
may_1 = record {
  not_system = λ e. absurd (omega (arith, e));
  allowed = λ fiber e. ap disallowed (sym e);
}

may_2 : MaySuspend test_vm 2
unfolding disallowed
may_2 = record {
  not_system = λ e. absurd (omega (arith, e));
  allowed = λ fiber e. ap disallowed (sym e);
}

-- Fiber 1 waits behind fiber 0, and the unlock of fiber 2 wakes fiber 0.
abbrev lock_unlock : List (ℕ × Queue.Call)
lock_unlock = (1, Queue.lock) ∷ (2, Queue.unlock) ∷ []

run_calls_answers : (run_calls 0 lock_unlock test_vm).0 ≡ waits ∷ completed ∷ []
unfolding run_calls Queue.call mutex_lock mutex_unlock hand_over mutex_kind unsafe_can_suspend2
    check_userdata
run_calls_answers = refl

run_calls_example :
    ((run_calls 0 lock_unlock test_vm).0 ≡ answers lock_unlock (2 ∷ 0 ∷ []))
    × Step 0 test_vm
        (run_calls 0 lock_unlock test_vm).1
        (Queue.as_object (last_queue lock_unlock (2 ∷ 0 ∷ [])))
        (all_wakes lock_unlock (2 ∷ 0 ∷ []))
run_calls_example = run_calls_lem 0 lock_unlock test_vm (2 ∷ 0 ∷ []) refl (may_1, (may_2, tt))

recursive_call_example :
    ((Owner.call 1 Owner.lock 1 test_vm).0 ≡ Owner.answer Owner.lock 1 Owner.free)
    × Step 1 test_vm
        (Owner.call 1 Owner.lock 1 test_vm).1
        (Owner.as_object (Owner.next_lock Owner.lock 1 Owner.free))
        (Owner.wakes Owner.lock 1 Owner.free)
    × Owner.Fits (Owner.next_lock Owner.lock 1 Owner.free)
recursive_call_example = recursive_mutex_call_lem 1 Owner.lock 1 test_vm Owner.free tt refl may_1

test-Pair : Pair test_vm 3 4 5 (2 ∷ 0 ∷ [])
test-Pair = record { is_promise = refl; is_future = refl; is_empty = refl }

set_value_example :
    (w : Vm) × (promise_set_value (userdata 3) (opaque 7) test_vm ≡ done tt w)
    × (w.strand ≡ test_vm.strand ++ map (wake_with (nil ∷ opaque 7 ∷ [])) (2 ∷ 0 ∷ []))
    × (get_elem? w.objects 5
        ≡ some (
            shared_state
              (record { waiters = []; state = value_ready; value_ref = some (opaque 7) })))
    × (promise_set_value (userdata 3) (opaque 8) w ≡ raised (failure promise_already_satisfied) w)
set_value_example = set_value_lem test_vm 3 4 5 (2 ∷ 0 ∷ []) (opaque 7) test-Pair (opaque 8)

-- The VM behind a call, in which fiber 1 goes on.
abbrev behind : Vm → Vm
behind w = record w { current_fiber = 1 }

abbrev with_value : Vm
with_value = behind (after (promise_set_value (userdata 3) (opaque 7) test_vm))

with_value-unsafe_can_suspend : unsafe_can_suspend with_value ≡ done tt with_value
unfolding unsafe_can_suspend is_disabled promise_set_value promise_kind satisfy shared
    check_userdata post_all
with_value-unsafe_can_suspend = refl

set_value-get_example : get (userdata 4) with_value ≡ done (nil ∷ opaque 7 ∷ []) with_value
set_value-get_example =
    set_value-get test_vm 3 4 5 (2 ∷ 0 ∷ []) (opaque 7) test-Pair with_value
      with_value-unsafe_can_suspend refl

abbrev with_error : Vm
with_error = behind (after (promise_set_error (userdata 3) (opaque 7) test_vm))

with_error-unsafe_can_suspend : unsafe_can_suspend with_error ≡ done tt with_error
unfolding unsafe_can_suspend is_disabled promise_set_error promise_kind satisfy shared
    check_userdata post_all
with_error-unsafe_can_suspend = refl

set_error-get_example : get (userdata 4) with_error ≡ raised (opaque 7) with_error
set_error-get_example =
    set_error-get test_vm 3 4 5 (2 ∷ 0 ∷ []) (opaque 7) test-Pair with_error
      with_error-unsafe_can_suspend refl refl

-- A promise that is collected after it was satisfied.
abbrev collected : Vm
collected = behind (after (promise_mt_gc 5 with_value))

collected-unsafe_can_suspend : unsafe_can_suspend collected ≡ done tt collected
unfolding unsafe_can_suspend is_disabled promise_set_value promise_mt_gc promise_kind satisfy shared
    check_userdata post_all
collected-unsafe_can_suspend = refl

with_value-object :
    get_elem? with_value.objects 5
    ≡ some
        (shared_state (record { waiters = []; state = value_ready; value_ref = some (opaque 7) }))
unfolding promise_set_value promise_kind satisfy shared check_userdata post_all
with_value-object = refl

with_value-future : get_elem? with_value.objects 4 ≡ some (future 5)
unfolding promise_set_value promise_kind satisfy shared check_userdata post_all
with_value-future = refl

promise_mt_gc-get_example :
    ((after (promise_mt_gc 5 with_value)).strand
      ≡ with_value.strand ++ map (wake_with (failure broken_promise ∷ [])) [])
    × (get (userdata 4) collected ≡ raised (failure broken_promise) collected)
promise_mt_gc-get_example =
    promise_mt_gc-get with_value collected 4 5
      (record { waiters = []; state = value_ready; value_ref = some (opaque 7) }) with_value-future
      with_value-object refl collected-unsafe_can_suspend

-- `disable_interruption` and then `restore_interruption`.
counters-nest_example :
    (increment_this_fiber_counter interruption_disabled
        >> decrement_this_fiber_counter interruption_disabled interruption_already_allowed)
      test_vm
    ≡ done tt test_vm
counters-nest_example =
    counters-nest interruption_disabled interruption_already_allowed test_vm new_fiber 0
      (λ e. absurd (omega (arith, e))) refl refl

-- A condition variable that waits with a mutex, and calls on arguments of another kind.
objects-Conserve_example :
    (Conserves (mutex_lock (userdata 2)) test_vm
      × Conserves (mutex_try_lock (userdata 2)) test_vm
      × Conserves (mutex_unlock (userdata 2)) test_vm)
    × (Conserves (recursive_mutex_lock (userdata 2)) test_vm
        × Conserves (recursive_mutex_try_lock (userdata 2)) test_vm
        × Conserves (recursive_mutex_unlock (userdata 2)) test_vm)
    × (Conserves (wait (userdata 2) (userdata 0)) test_vm
        × Conserves (notify_one (userdata 2)) test_vm
        × Conserves (notify_all (userdata 2)) test_vm)
    × (Conserves (promise_set_value (userdata 2) (userdata 0)) test_vm
        × Conserves (promise_set_error (userdata 2) (userdata 0)) test_vm
        × Conserves (promise_mt_gc 5) test_vm
        × Conserves (get (userdata 2)) test_vm)
objects-Conserve_example = objects-Conserve test_vm (userdata 2) (userdata 0) 5
