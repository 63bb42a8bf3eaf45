-- ===== src/RecursiveMutex/Places.antt =====
-- src/recursive_mutex.cpp: what the calls do to the places where fibers wait.
use emilua.Common.{
  ℕ, ◌+◌, ◌^◌, ◌%◌, ◌≡◌, refl, true, none, some, List, [], ◌∷◌, ◌++◌, arith, count, count-snoc,
  get_elem?,
}
use emilua.Runtime.{Value, RecursiveMutex, recursive_mutex, Vm, put}
use emilua.Runtime.Places.{
  waiting, object_waiters, waiting-put, waiting_unchanged, waiting-post, Conserves,
}
use emilua.Runtime.Checks.{
  Conserves-check, Anything, Holds, check_userdata-IsCheck, unsafe_can_suspend2-IsCheck,
}
use emilua.RecursiveMutex.{
  size_max, recursive_mutex_kind, relock, own, recursive_mutex_lock, recursive_mutex_try_lock,
  release, recursive_mutex_unlock,
}

module _ (v : Vm) (id : ℕ) (m : RecursiveMutex)
    (h : get_elem? v.objects id ≡ some (recursive_mutex m)) where
  -- A change of the owner or of the count leaves the queue.
  same_queue :
      (g : ℕ) (m' : RecursiveMutex)
      → m'.pending ≡ m.pending
      → waiting g (put id (recursive_mutex m') v) ≡ waiting g v
  unfolding object_waiters
  same_queue g m' e =
      waiting_unchanged g v id (recursive_mutex m) (recursive_mutex m') h (ground arith)

  waiting-release :
      (g : ℕ) (pending : List ℕ)
      → m.pending ≡ pending
      → waiting g (release id m pending v) ≡ waiting g v
  unfolding release object_waiters count
  waiting-release g [] e = same_queue g (record m { owner = none; nlocked = 0 }) refl
  waiting-release g (next ∷ rest) e =
      let m' : RecursiveMutex = record { pending = rest; owner = some next; nlocked = 1 } in
      ground (
        arith,
        waiting-put g v id (recursive_mutex m) (recursive_mutex m') h,
        waiting-post g (put id (recursive_mutex m') v)
            (record { fiber = next; arguments = []; skip_clear_interrupter = true }),
      )

pub recursive_mutex_lock-Conserves :
    (v : Vm) (value : Value) → Conserves (recursive_mutex_lock value) v
unfolding recursive_mutex_lock recursive_mutex_kind object_waiters own relock
recursive_mutex_lock-Conserves v value =
    Conserves-check (Holds recursive_mutex_kind v)
      (check_userdata-IsCheck recursive_mutex_kind 1 1 value v)
      λ (id, m) h. Conserves-check Anything (unsafe_can_suspend2-IsCheck v) λ _ _. record {
        balance = λ g.
            let queued : RecursiveMutex = record m {
              pending = m.pending ++ v.current_fiber ∷ [];
            } in
            ground (
              arith,
              same_queue v id m h g (record m { owner = some v.current_fiber; nlocked = 1 }) refl,
              same_queue v id m h g (record m { nlocked = m.nlocked + 1 }) refl,
              waiting-put g v id (recursive_mutex m) (recursive_mutex queued) h,
              count-snoc g m.pending v.current_fiber,
            );
      }

pub recursive_mutex_try_lock-Conserves :
    (v : Vm) (value : Value) → Conserves (recursive_mutex_try_lock value) v
unfolding recursive_mutex_try_lock recursive_mutex_kind own relock
recursive_mutex_try_lock-Conserves v value =
    Conserves-check (Holds recursive_mutex_kind v)
      (check_userdata-IsCheck recursive_mutex_kind 1 1 value v)
      λ (id, m) h. record {
        balance = λ g. ground (
          arith,
          same_queue v id m h g (record m { owner = some v.current_fiber; nlocked = 1 }) refl,
          same_queue v id m h g (record m { nlocked = m.nlocked + 1 }) refl,
        );
      }

pub recursive_mutex_unlock-Conserves :
    (v : Vm) (value : Value) → Conserves (recursive_mutex_unlock value) v
unfolding recursive_mutex_unlock recursive_mutex_kind
recursive_mutex_unlock-Conserves v value =
    Conserves-check (Holds recursive_mutex_kind v)
      (check_userdata-IsCheck recursive_mutex_kind 1 1 value v)
      λ (id, m) h. record {
        balance = λ g. ground (
          arith,
          waiting-release v id m h g m.pending refl,
          same_queue v id m h g (record m { nlocked = (m.nlocked + size_max) % 2 ^ 64 }) refl,
        );
      }

-- All of its calls.
pub recursive_mutex-Conserves :
    (v : Vm) (value : Value)
    → Conserves (recursive_mutex_lock value) v
      × Conserves (recursive_mutex_try_lock value) v
      × Conserves (recursive_mutex_unlock value) v
recursive_mutex-Conserves v value = (
  recursive_mutex_lock-Conserves v value,
  recursive_mutex_try_lock-Conserves v value,
  recursive_mutex_unlock-Conserves v value,
)
