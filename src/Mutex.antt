-- ===== src/Mutex.antt =====
-- src/mutex.cpp: the mutex with its queue of fibers.
pub mod Places
pub mod Queue
pub mod Runs
use emilua.Common.{
  ℕ, ◌≡◌, Bool, true, false, Option, none, some, List, [], ◌∷◌, ◌++◌, if◌then◌else◌,
}
use emilua.Runtime.{
  Error, arg, operation_not_permitted, Value, nil, boolean, Mutex, Object, mutex, Post, Vm, M,
  return, fail, suspend, Kind, check_userdata, ◌>>=◌, ◌>>◌, modify, put, post, unsafe_can_suspend2,
}

unwrap_mutex : Object → Option Mutex
unwrap_mutex (mutex m) = some m
unwrap_mutex _ = none

unwrap_mutex_lem : (o : Object) (m : Mutex) → unwrap_mutex o ≡ some m → o ≡ mutex m
unfolding unwrap_mutex
unwrap_mutex_lem (mutex n) m e = cc
unwrap_mutex_lem _ m e = cc

-- `mutex_mt_key`.
unfoldable pub mutex_kind : Kind Mutex
unfolding unwrap_mutex unwrap_mutex_lem
mutex_kind = record { wrap = mutex; unwrap = unwrap_mutex; unwrap_lem = unwrap_mutex_lem }

unfoldable pub mutex_lock : Value → M (Unit {0})
mutex_lock value = do
  (id, m) ← check_userdata mutex_kind 1 1 value
  unsafe_can_suspend2
  λ v.
      if m.locked
      then (do
        modify (put id (mutex (record m { pending = m.pending ++ v.current_fiber ∷ [] })))
        suspend)
          v
      else modify (put id (mutex (record m { locked = true }))) v

unfoldable pub mutex_try_lock : Value → M Value
mutex_try_lock value = do
  (id, m) ← check_userdata mutex_kind 1 1 value
  if m.locked
      then return (boolean false)
      else (do modify (put id (mutex (record m { locked = true }))); return (boolean true))

-- The part of `unlock` that `cond_wait` shares: the mutex goes to the first of the pending fibers,
-- or opens.
unfoldable pub hand_over : ℕ → Mutex → List ℕ → Vm → Vm
hand_over id m [] v = put id (mutex (record m { locked = false })) v
hand_over id m (next ∷ rest) v =
    post (record { fiber = next; arguments = []; skip_clear_interrupter = true })
      (put id (mutex (record m { pending = rest })) v)

unfoldable pub mutex_unlock : Value → M (Unit {0})
mutex_unlock value = do
  (id, m) ← check_userdata mutex_kind 1 1 value
  if m.locked then modify (hand_over id m m.pending) else fail operation_not_permitted
