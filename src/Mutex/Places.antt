-- ===== src/Mutex/Places.antt =====
-- src/mutex.cpp: what the calls of a mutex do to the places where fibers wait.
use emilua.Common.{
  ℕ, ◌≡◌, refl, true, false, some, List, [], ◌∷◌, ◌++◌, arith, count, count-snoc, get_elem?,
}
use emilua.Runtime.{Value, Mutex, Object, mutex, Vm, put}
use emilua.Runtime.Places.{waiting, object_waiters, waiting-put, waiting-post, Conserves}
use emilua.Runtime.Checks.{
  Conserves-check, Holds, check_userdata-IsCheck, Anything, unsafe_can_suspend2-IsCheck,
}
use emilua.Mutex.{mutex_kind, mutex_lock, mutex_try_lock, hand_over, mutex_unlock}

pub waiting-hand_over :
    (g id : ℕ) (m : Mutex) (pending : List ℕ) (v : Vm)
    → get_elem? v.objects id ≡ some (mutex m)
    → m.pending ≡ pending
    → waiting g (hand_over id m pending v) ≡ waiting g v
unfolding hand_over object_waiters count
waiting-hand_over g id m [] v h e =
    omega (arith, waiting-put g v id (mutex m) (mutex (record m { locked = false })) h)
waiting-hand_over g id m (next ∷ rest) v h e =
    let opened : Object = mutex (record m { pending = rest }) in
    ground (
      arith,
      waiting-put g v id (mutex m) opened h,
      waiting-post g (put id opened v)
          (record { fiber = next; arguments = []; skip_clear_interrupter = true }),
    )

-- On every branch.
pub mutex_lock-Conserves : (v : Vm) (value : Value) → Conserves (mutex_lock value) v
unfolding mutex_lock mutex_kind object_waiters
mutex_lock-Conserves v value =
    Conserves-check (Holds mutex_kind v) (check_userdata-IsCheck mutex_kind 1 1 value v)
      λ (id, m) h. Conserves-check Anything (unsafe_can_suspend2-IsCheck v) λ _ _. record {
        balance = λ g. ground (
          arith,
          waiting-put g v id (mutex m) (mutex (record m { locked = true })) h,
          count-snoc g m.pending v.current_fiber,
          waiting-put g v id (mutex m)
              (mutex (record m { pending = m.pending ++ v.current_fiber ∷ [] })) h,
        );
      }

pub mutex_try_lock-Conserves : (v : Vm) (value : Value) → Conserves (mutex_try_lock value) v
unfolding mutex_try_lock mutex_kind object_waiters
mutex_try_lock-Conserves v value =
    Conserves-check (Holds mutex_kind v) (check_userdata-IsCheck mutex_kind 1 1 value v)
      λ (id, m) h. record {
        balance = λ g.
            ground (arith, waiting-put g v id (mutex m) (mutex (record m { locked = true })) h);
      }

pub mutex_unlock-Conserves : (v : Vm) (value : Value) → Conserves (mutex_unlock value) v
unfolding mutex_unlock mutex_kind
mutex_unlock-Conserves v value =
    Conserves-check (Holds mutex_kind v) (check_userdata-IsCheck mutex_kind 1 1 value v)
      λ (id, m) h. record {
        balance = λ g. ground (arith, waiting-hand_over g id m m.pending v h refl);
      }

-- All of its calls.
pub mutex-Conserves :
    (v : Vm) (value : Value)
    → Conserves (mutex_lock value) v
      × Conserves (mutex_try_lock value) v
      × Conserves (mutex_unlock value) v
mutex-Conserves v value =
    (mutex_lock-Conserves v value, mutex_try_lock-Conserves v value, mutex_unlock-Conserves v value)
