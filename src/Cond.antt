-- ===== src/Cond.antt =====
-- src/condition_variable.cpp, and the interrupter that `wait` sets.
pub mod Places
use emilua.Common.{
  ℕ, ◌≡◌, Bool, true, false, Option, none, some, List, [], ◌∷◌, ◌++◌, if◌then◌else◌, get_elem?,
}
use emilua.Runtime.{
  Error, interrupted, operation_not_permitted, Value, failure, Interrupter, cond_wait, Object, cond,
  Post, Vm, M, return, fail, suspend, ◌>>=◌, ◌>>◌, modify, put, post, post_all, erase_first, Kind,
  check_userdata, unsafe_can_suspend, set_interrupter,
}
use emilua.Mutex.{mutex_kind, hand_over}

unwrap_cond : Object → Option (List ℕ)
unwrap_cond (cond pending) = some pending
unwrap_cond _ = none

unwrap_cond_lem : (o : Object) (pending : List ℕ) → unwrap_cond o ≡ some pending → o ≡ cond pending
unfolding unwrap_cond
unwrap_cond_lem (cond xs) pending e = cc
unwrap_cond_lem _ pending e = cc

-- `cond_mt_key`.
unfoldable pub cond_kind : Kind (List ℕ)
unfolding unwrap_cond unwrap_cond_lem
cond_kind = record { wrap = cond; unwrap = unwrap_cond; unwrap_lem = unwrap_cond_lem }

-- A second argument that is no userdata is reported as argument 1.
unfoldable pub wait : Value → Value → M (Unit {0})
wait value mutex_value = do
  (id, pending) ← check_userdata cond_kind 1 1 value
  (mutex_id, m) ← check_userdata mutex_kind 1 2 mutex_value
  if m.locked then return tt else fail operation_not_permitted
  unsafe_can_suspend
  λ v.
      (do
        modify (set_interrupter (some (cond_wait id v.current_fiber)))
        modify (put id (cond (pending ++ v.current_fiber ∷ [])))
        modify (hand_over mutex_id m m.pending)
        suspend)
        v

unfoldable pub notify_first : ℕ → List ℕ → Vm → Vm
notify_first id [] v = v
notify_first id (next ∷ rest) v =
    post (record { fiber = next; arguments = []; skip_clear_interrupter = false })
      (put id (cond rest) v)

unfoldable pub notify_one : Value → M (Unit {0})
notify_one value = do
  (id, pending) ← check_userdata cond_kind 1 1 value
  modify (notify_first id pending)

unfoldable pub notify_all : Value → M (Unit {0})
notify_all value = do
  (id, pending) ← check_userdata cond_kind 1 1 value
  modify (post_all [] pending)
  modify (put id (cond []))

-- The interrupter: a fiber that is found in the queue leaves it and is woken with `interrupted`.
unfoldable pub interrupt_wait : ℕ → ℕ → Vm → Vm
interrupt_wait id f v = elim (get_elem? v.objects id) [
  | some (cond pending) ↦ elim (erase_first f pending) [
    | none ↦ v
    | some rest ↦
        post
          (record {
            fiber = f;
            arguments = failure interrupted ∷ [];
            skip_clear_interrupter = false;
          })
          (put id (cond rest) v)
  ]
  | _ ↦ v
]
