-- ===== src/Tests/Scopes.antt =====
-- Scopes of a fiber on small chunks of Lua.
use emilua.Common.{◌+◌, ◌<◌, ◌≡◌, refl, some, [], ◌∷◌, arith, total, map, true, false}
use emilua.Scope.{
  Code, stop, throw, show, push, pop, scope, pcall, interrupted, raised, user,
  unmatched_scope_cleanup, new_scopes, restore_interruption, scope_cleanup_push, split_last,
  scope_cleanup_pop, unsafe_scope_pop, run_handlers, leave_scope, call_handler, run, spawn_start_fn,
  start_fn, leave_root, outermost, run_root, returned, terminated,
}
use emilua.Scope.Fuel.{size, weight, Ends}
use emilua.Scope.Balance.{run-Ends}
use emilua.Scope.Root.{doubled, spawn_start_fn-Ends}
use emilua.Scope.Exit.{handler, registers, in_reverse, state, scope-registers, start-registers}

-- A scope registers two handlers, calls the last one and raises; the code around has a handler.
abbrev nested : Code
nested =
    push (handler 1)
      (scope (push (handler 2) (push (handler 3) (pop true (show 4 (throw 5))))) stop)

nested_runs :
    run 20 nested (new_scopes false)
    ≡ raised (user 5) (state false ((handler 1 ∷ []) ∷ []) 0 ((3, 1) ∷ (4, 0) ∷ (2, 1) ∷ []))
unfolding run scope_cleanup_push scope_cleanup_pop split_last call_handler restore_interruption
    leave_scope unsafe_scope_pop run_handlers
nested_runs = refl

-- A fiber that is interrupted: its `pcall` raises, but the one in a handler catches an error.
pcall_runs :
    run 20
      (scope (push (pcall (throw 6) (show 7 stop)) (pcall stop (show 8 stop))) stop)
      (new_scopes true)
    ≡ raised interrupted (state true ([] ∷ []) 0 ((7, 1) ∷ []))
unfolding run scope_cleanup_push restore_interruption leave_scope unsafe_scope_pop run_handlers
pcall_runs = refl

-- Nothing to pop.
pop_runs :
    run 20 (scope (pop false stop) stop) (new_scopes false)
    ≡ raised unmatched_scope_cleanup (state false ([] ∷ []) 0 [])
unfolding run scope_cleanup_pop split_last restore_interruption leave_scope unsafe_scope_pop
    run_handlers
pop_runs = refl

nested_fuel : size nested + weight (new_scopes false).scopes < 20
unfolding size weight total
nested_fuel = omega arith

run-Ends_example :
    Ends (size nested + weight (new_scopes false).scopes) 0 [] (run 20 nested (new_scopes false))
run-Ends_example = run-Ends 20 nested (new_scopes false) [] [] refl nested_fuel

-- The last handler of a fiber takes itself and the one before it, which it calls, and registers another
-- in its place, which the loop calls next.
abbrev replacing : Code
replacing = push (handler 1) (push (pop false (pop true (push (handler 2) stop))) stop)

replacing_runs :
    spawn_start_fn false 9 replacing
    ≡ returned (state false ((handler 2 ∷ []) ∷ []) 1 ((1, 2) ∷ (2, 1) ∷ []))
unfolding spawn_start_fn run leave_root outermost run_root scope_cleanup_push scope_cleanup_pop
    split_last call_handler restore_interruption
replacing_runs = refl

-- The last handler takes and calls itself, and so the one before it: the loop then finds nil.
popping_runs :
    spawn_start_fn false 9 (push (handler 1) (push (pop true stop) stop))
    ≡ terminated (state false ([] ∷ []) 1 ((1, 3) ∷ []))
unfolding spawn_start_fn run leave_root outermost run_root scope_cleanup_push scope_cleanup_pop
    split_last call_handler restore_interruption
popping_runs = refl

spawn_fuel : doubled (size replacing) (size replacing) < 20000
unfolding doubled size
spawn_fuel = omega arith

spawn_start_fn-Ends_example :
    Ends (doubled (size replacing) (size replacing)) 1 [] (spawn_start_fn true 20000 replacing)
spawn_start_fn-Ends_example = spawn_start_fn-Ends true 20000 replacing spawn_fuel

scope-registers_example :
    run 7 (scope (registers (1 ∷ 2 ∷ []) (some 9)) stop) (state false ([] ∷ []) 0 [])
    ≡ raised (user 9) (state false ([] ∷ []) 0 (in_reverse 1 (1 ∷ 2 ∷ [])))
scope-registers_example =
    scope-registers false 6 (1 ∷ 2 ∷ []) (some 9) stop ([] ∷ []) 0 [] (omega arith)

start-registers_example :
    (spawn_start_fn false 6 (registers (1 ∷ 2 ∷ []) (some 9))
      ≡ raised (user 9) (state false (map handler (1 ∷ 2 ∷ []) ∷ []) 1 (in_reverse 1 (1 ∷ 2 ∷ []))))
    × (start_fn false 6 (registers (1 ∷ 2 ∷ []) (some 9))
        ≡ raised (user 9) (state false (map handler (1 ∷ 2 ∷ []) ∷ []) 0 []))
start-registers_example = start-registers false 6 (1 ∷ 2 ∷ []) (some 9) (omega arith)
