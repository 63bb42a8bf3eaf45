-- ===== src/Future.antt =====
-- src/future.cpp: promises and futures over a shared state.
pub mod Places
pub mod Once
use emilua.Common.{
  ℕ, ◌≡◌, Bool, true, false, Option, none, some, List, [], ◌∷◌, ◌++◌, if◌then◌else◌, get_elem?,
}
use emilua.Runtime.{
  Error, arg, interrupted, promise_already_satisfied, broken_promise, Value, nil, failure,
  Interrupter, future_get, FutureState, empty, broken, value_ready, error_ready, SharedState,
  Object, shared_state, promise, future, Post, Vm, M, Outcome, done, raised, return, fail, suspend,
  ◌>>=◌, ◌>>◌, modify, put, post, post_all, erase_first, Kind, check_userdata, unsafe_can_suspend,
  set_interrupter,
}

unwrap_promise : Object → Option ℕ
unwrap_promise (promise s) = some s
unwrap_promise _ = none

unwrap_promise_lem : (o : Object) (s : ℕ) → unwrap_promise o ≡ some s → o ≡ promise s
unfolding unwrap_promise
unwrap_promise_lem (promise t) s e = cc
unwrap_promise_lem _ s e = cc

-- `promise_mt_key`.
unfoldable pub promise_kind : Kind ℕ
unfolding unwrap_promise unwrap_promise_lem
promise_kind = record { wrap = promise; unwrap = unwrap_promise; unwrap_lem = unwrap_promise_lem }

unwrap_future : Object → Option ℕ
unwrap_future (future s) = some s
unwrap_future _ = none

unwrap_future_lem : (o : Object) (s : ℕ) → unwrap_future o ≡ some s → o ≡ future s
unfolding unwrap_future
unwrap_future_lem (future t) s e = cc
unwrap_future_lem _ s e = cc

-- `future_mt_key`.
unfoldable pub future_kind : Kind ℕ
unfolding unwrap_future unwrap_future_lem
future_kind = record { wrap = future; unwrap = unwrap_future; unwrap_lem = unwrap_future_lem }

-- `lua_getfenv` and entry 1: the shared state, which is there as long as its promise or future is.
unfoldable pub shared : ℕ → M SharedState
shared s v = elim (get_elem? v.objects s) [
  | some (shared_state state) ↦ done state v
  | _ ↦ fail (arg 1) v
]

-- What `set_value` and `set_error` share: the value is stored, and every waiter is woken.
unfoldable pub satisfy : FutureState → Value → List Value → ℕ → SharedState → M (Unit {0})
satisfy ready value args s state = elim state.state [
  | empty ↦ do
    modify (post_all args state.waiters)
    modify (put s (shared_state (record { waiters = []; state = ready; value_ref = some value })))
  | _ ↦ fail promise_already_satisfied
]

unfoldable pub promise_set_value : Value → Value → M (Unit {0})
promise_set_value self value = do
  (id, s) ← check_userdata promise_kind 1 1 self
  state ← shared s
  satisfy value_ready value (nil ∷ value ∷ []) s state

abbrev pub is_nil : Value → Bool
is_nil nil = true
is_nil _ = false

unfoldable pub promise_set_error : Value → Value → M (Unit {0})
promise_set_error self value = do
  (id, s) ← check_userdata promise_kind 1 1 self
  if is_nil value then fail (arg 2) else return tt
  state ← shared s
  satisfy error_ready value (value ∷ []) s state

-- The collection of a promise while the VM runs.
unfoldable pub promise_mt_gc : ℕ → M (Unit {0})
promise_mt_gc s = do
  state ← shared s
  modify (post_all (failure broken_promise ∷ []) state.waiters)
  modify (put s (shared_state (record state { waiters = []; state = broken })))

abbrev pub stored : Option Value → Value
stored none = nil
stored (some value) = value

unfoldable pub wait_for : ℕ → SharedState → M (List Value)
wait_for s state v =
    (do
      modify (set_interrupter (some (future_get s v.current_fiber)))
      modify
          (put s (shared_state (record state { waiters = state.waiters ++ v.current_fiber ∷ [] })))
      suspend)
      v

-- What `get` does in the four states. A fiber that yields gets its values as the arguments of its
-- wake-up.
unfoldable pub get_from : ℕ → SharedState → M (List Value)
get_from s state = elim state.state [
  | broken ↦ fail broken_promise
  | value_ready ↦ return (nil ∷ stored state.value_ref ∷ [])
  | error_ready ↦ raised (stored state.value_ref)
  | empty ↦ wait_for s state
]

unfoldable pub get : Value → M (List Value)
get self = do
  (id, s) ← check_userdata future_kind 1 1 self
  unsafe_can_suspend
  state ← shared s
  get_from s state

-- The interrupter that `get` sets.
unfoldable pub interrupt_get : ℕ → ℕ → Vm → Vm
interrupt_get s f v = elim (get_elem? v.objects s) [
  | some (shared_state state) ↦ elim (erase_first f state.waiters) [
    | none ↦ v
    | some rest ↦
        post
          (record {
            fiber = f;
            arguments = failure interrupted ∷ [];
            skip_clear_interrupter = false;
          })
          (put s (shared_state (record state { waiters = rest })) v)
  ]
  | _ ↦ v
]
