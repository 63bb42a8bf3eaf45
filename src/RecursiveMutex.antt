-- ===== src/RecursiveMutex.antt =====
-- src/recursive_mutex.cpp: the mutex that its owner may lock again.
pub mod Places
pub mod Owner
pub mod Refinement
use emilua.Common.{
  ℕ, ◌+◌, ◌-◌, ◌^◌, ◌%◌, ◌≡◌, Bool, true, false, Option, none, some, List, [], ◌∷◌, ◌++◌, ◌==◌,
  if◌then◌else◌,
}
use emilua.Runtime.{
  Error, operation_not_permitted, value_too_large, Value, boolean, RecursiveMutex, Object,
  recursive_mutex, Post, Vm, M, return, fail, suspend, ◌>>=◌, ◌>>◌, modify, put, post, Kind,
  check_userdata, unsafe_can_suspend2,
}

-- `std::numeric_limits<std::size_t>::max()` where `std::size_t` has 64 bits.
abbrev pub size_max : ℕ
size_max = 2 ^ 64 - 1

unwrap_recursive_mutex : Object → Option RecursiveMutex
unwrap_recursive_mutex (recursive_mutex m) = some m
unwrap_recursive_mutex _ = none

unwrap_recursive_mutex_lem :
    (o : Object) (m : RecursiveMutex) → unwrap_recursive_mutex o ≡ some m → o ≡ recursive_mutex m
unfolding unwrap_recursive_mutex
unwrap_recursive_mutex_lem (recursive_mutex n) m e = cc
unwrap_recursive_mutex_lem _ m e = cc

-- `recursive_mutex_mt_key`.
unfoldable pub recursive_mutex_kind : Kind RecursiveMutex
unfolding unwrap_recursive_mutex unwrap_recursive_mutex_lem
recursive_mutex_kind = record {
  wrap = recursive_mutex;
  unwrap = unwrap_recursive_mutex;
  unwrap_lem = unwrap_recursive_mutex_lem;
}

-- Whether `owner` is the given fiber; `nullptr` is none.
abbrev pub is_owner : Option ℕ → ℕ → Bool
is_owner none f = false
is_owner (some g) f = g == f

-- What `lock` and `try_lock` do for an owner that locks again.
unfoldable pub relock : ℕ → RecursiveMutex → M (Unit {0})
relock id m =
    if m.nlocked == size_max
    then fail value_too_large
    else modify (put id (recursive_mutex (record m { nlocked = m.nlocked + 1 })))

-- And for the first lock.
unfoldable pub own : ℕ → RecursiveMutex → M (Unit {0})
own id m v =
    modify (put id (recursive_mutex (record m { owner = some v.current_fiber; nlocked = 1 }))) v

unfoldable pub recursive_mutex_lock : Value → M (Unit {0})
recursive_mutex_lock value = do
  (id, m) ← check_userdata recursive_mutex_kind 1 1 value
  unsafe_can_suspend2
  λ v. elim m.owner [
    | none ↦ own id m v
    | some owner ↦
        if owner == v.current_fiber
        then relock id m v
        else yielded_with id (record m { pending = m.pending ++ v.current_fiber ∷ [] }) v
  ]
  where
    yielded_with : ℕ → RecursiveMutex → M (Unit {0})
    yielded_with id m = do modify (put id (recursive_mutex m)); suspend

unfoldable pub recursive_mutex_try_lock : Value → M Value
recursive_mutex_try_lock value = do
  (id, m) ← check_userdata recursive_mutex_kind 1 1 value
  λ v. elim m.owner [
    | none ↦ (do own id m; return (boolean true)) v
    | some owner ↦
        if owner == v.current_fiber
        then (do relock id m; return (boolean true)) v
        else return (boolean false) v
  ]

-- The last unlock hands the mutex to the first pending fiber, or leaves it without an owner.
unfoldable pub release : ℕ → RecursiveMutex → List ℕ → Vm → Vm
release id m [] v = put id (recursive_mutex (record m { owner = none; nlocked = 0 })) v
release id m (next ∷ rest) v =
    post (record { fiber = next; arguments = []; skip_clear_interrupter = true })
      (put id (recursive_mutex (record { pending = rest; owner = some next; nlocked = 1 })) v)

-- `--nlocked` is in `std::size_t`.
unfoldable pub recursive_mutex_unlock : Value → M (Unit {0})
recursive_mutex_unlock value = do
  (id, m) ← check_userdata recursive_mutex_kind 1 1 value
  λ v.
      if is_owner m.owner v.current_fiber
      then (let left = (m.nlocked + size_max) % 2 ^ 64 in
          if left == 0
          then modify (release id m m.pending) v
          else modify (put id (recursive_mutex (record m { nlocked = left }))) v)
      else fail operation_not_permitted v
