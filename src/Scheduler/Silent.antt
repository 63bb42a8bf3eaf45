-- ===== src/Scheduler/Silent.antt =====
-- The calls of src/mutex.cpp, src/recursive_mutex.cpp, src/condition_variable.cpp, src/future.cpp
-- and the counters of src/fiber.cpp keep the links of handles and joiners.
use emilua.Common.{
  ℕ, ◌+◌, ◌⊎◌, ◌^◌, ◌%◌, ◌≡◌, refl, inl, inr, true, false, some, List, [], ◌∷◌, ◌==◌, get_elem?,
  Bool-cases, Option-cases,
}
use emilua.Runtime.{
  Value, boolean, Mutex, RecursiveMutex, mutex, recursive_mutex, Vm, after, return, ◌>>=◌,
}
use emilua.Runtime.Checks.{Anything, Holds, check_userdata-IsCheck, unsafe_can_suspend2-IsCheck}
use emilua.Mutex.{mutex_kind, mutex_lock, mutex_try_lock, hand_over, mutex_unlock}
use emilua.RecursiveMutex.{
  recursive_mutex_kind, size_max, is_owner, relock, own, recursive_mutex_lock,
  recursive_mutex_try_lock, release, recursive_mutex_unlock,
}
use emilua.Scheduler.Links.{handle_of}
use emilua.Scheduler.Quiet.{
  Quiet, Quiet-refl, Quiet-trans, Quiet-put, Quiet-post, IsQuiet, IsQuiet-check, IsQuiet-if,
  IsQuiet-same, Quiet-if,
}

pub hand_over-Quiet :
    (id : ℕ) (m : Mutex) (pending : List ℕ) (v : Vm)
    → get_elem? v.objects id ≡ some (mutex m)
    → Quiet v (hand_over id m pending v)
unfolding hand_over handle_of
hand_over-Quiet id m [] v at = Quiet-put v id (mutex m) _ at refl
hand_over-Quiet id m (next ∷ rest) v at =
    Quiet-trans (Quiet-put v id (mutex m) (mutex (record m { pending = rest })) at refl)
      (Quiet-post _ _)

pub mutex_lock-IsQuiet : (v : Vm) (value : Value) → IsQuiet (mutex_lock value) v
unfolding mutex_lock mutex_kind handle_of
mutex_lock-IsQuiet v value =
    IsQuiet-check (Holds mutex_kind v) (check_userdata-IsCheck mutex_kind 1 1 value v) λ (id, m) h.
      IsQuiet-check Anything (unsafe_can_suspend2-IsCheck v) λ _ _. record {
        quiet =
            Quiet-if v m.locked _ _ (Quiet-put v id (mutex m) _ h refl)
              (Quiet-put v id (mutex m) _ h refl);
      }

pub mutex_try_lock-IsQuiet : (v : Vm) (value : Value) → IsQuiet (mutex_try_lock value) v
unfolding mutex_try_lock mutex_kind handle_of
mutex_try_lock-IsQuiet v value =
    IsQuiet-check (Holds mutex_kind v) (check_userdata-IsCheck mutex_kind 1 1 value v) λ (id, m) h.
      IsQuiet-if m.locked _ _ (IsQuiet-same refl)
        (record { quiet = Quiet-put v id (mutex m) _ h refl })

pub mutex_unlock-IsQuiet : (v : Vm) (value : Value) → IsQuiet (mutex_unlock value) v
unfolding mutex_unlock mutex_kind
mutex_unlock-IsQuiet v value =
    IsQuiet-check (Holds mutex_kind v) (check_userdata-IsCheck mutex_kind 1 1 value v) λ (id, m) h.
      IsQuiet-if m.locked _ _ (record { quiet = hand_over-Quiet id m m.pending v h })
        (IsQuiet-same refl)

module _ (v : Vm) (id : ℕ) (m : RecursiveMutex)
    (h : get_elem? v.objects id ≡ some (recursive_mutex m)) where
  relock-IsQuiet : IsQuiet (relock id m) v
  unfolding relock handle_of
  relock-IsQuiet =
      IsQuiet-if (m.nlocked == size_max) _ _ (IsQuiet-same refl)
        (record { quiet = Quiet-put v id (recursive_mutex m) _ h refl })

  release-Quiet : (pending : List ℕ) → Quiet v (release id m pending v)
  unfolding release handle_of
  release-Quiet [] = Quiet-put v id (recursive_mutex m) _ h refl
  release-Quiet (next ∷ rest) =
      Quiet-trans
        (Quiet-put v id (recursive_mutex m)
          (recursive_mutex (record { pending = rest; owner = some next; nlocked = 1 })) h refl)
        (Quiet-post _ _)

pub recursive_mutex_lock-IsQuiet : (v : Vm) (value : Value) → IsQuiet (recursive_mutex_lock value) v
unfolding recursive_mutex_lock recursive_mutex_kind own handle_of
recursive_mutex_lock-IsQuiet v value =
    IsQuiet-check (Holds recursive_mutex_kind v)
      (check_userdata-IsCheck recursive_mutex_kind 1 1 value v)
      λ (id, m) h. IsQuiet-check Anything (unsafe_can_suspend2-IsCheck v) λ _ _. record {
        quiet = elim (Option-cases m.owner) [
          | inl e ↦ rw e (Quiet-put v id (recursive_mutex m) _ h refl)
          | inr (owner, e) ↦ rw e (
              Quiet-if v (owner == v.current_fiber) _ _ (relock-IsQuiet v id m h).quiet
                (Quiet-put v id (recursive_mutex m) _ h refl))
        ];
      }

pub recursive_mutex_try_lock-IsQuiet :
    (v : Vm) (value : Value) → IsQuiet (recursive_mutex_try_lock value) v
unfolding recursive_mutex_try_lock recursive_mutex_kind own relock handle_of
recursive_mutex_try_lock-IsQuiet v value =
    IsQuiet-check (Holds recursive_mutex_kind v)
      (check_userdata-IsCheck recursive_mutex_kind 1 1 value v)
      λ (id, m) h. record {
        quiet = elim (Option-cases m.owner) [
          | inl e ↦ rw e (Quiet-put v id (recursive_mutex m) _ h refl)
          | inr (owner, e) ↦ rw e (
              Quiet-if v (owner == v.current_fiber) _ _
                (again v id m h (Bool-cases (m.nlocked == size_max))) (Quiet-refl v))
        ];
      }
  where
    again :
        (v : Vm) (id : ℕ) (m : RecursiveMutex)
        → get_elem? v.objects id ≡ some (recursive_mutex m)
        → ((m.nlocked == size_max) ≡ true) ⊎ ((m.nlocked == size_max) ≡ false)
        → Quiet v (after ((relock id m >>= λ _. return (boolean true)) v))
    again v id m h (inl b) = rw b (Quiet-refl v)
    again v id m h (inr b) = rw b (Quiet-put v id (recursive_mutex m) _ h refl)

pub recursive_mutex_unlock-IsQuiet :
    (v : Vm) (value : Value) → IsQuiet (recursive_mutex_unlock value) v
unfolding recursive_mutex_unlock recursive_mutex_kind handle_of
recursive_mutex_unlock-IsQuiet v value =
    IsQuiet-check (Holds recursive_mutex_kind v)
      (check_userdata-IsCheck recursive_mutex_kind 1 1 value v)
      λ (id, m) h. record {
        quiet =
            Quiet-if v (is_owner m.owner v.current_fiber) _ _
              (Quiet-if v ((m.nlocked + size_max) % 2 ^ 64 == 0) _ _
                (release-Quiet v id m h m.pending) (Quiet-put v id (recursive_mutex m) _ h refl))
              (Quiet-refl v);
      }
