-- ===== src/Scheduler/Waits.antt =====
-- The calls of src/condition_variable.cpp and src/future.cpp, their interrupters, and the functions
-- of `this_fiber` keep the links of handles and joiners.
use emilua.Common.{
  ℕ, ◌≡◌, ◌≢◌, refl, sym, ap, get_elem?-set_ne, ◌∙◌, some, List, [], ◌∷◌, ◌++◌, get_elem?,
}
use emilua.Runtime.{
  Value, Mutex, FutureState, empty, SharedState, Object, mutex, cond, shared_state, cond_wait,
  future_get, Vm, put, post_all, set_interrupter,
}
use emilua.Runtime.Checks.{Anything, Holds, check_userdata-IsCheck, unsafe_can_suspend-IsCheck}
use emilua.Runtime.Places.{set_interrupter-frame, post_all-objects}
use emilua.Mutex.{mutex_kind, hand_over}
use emilua.Cond.{cond_kind, wait, notify_first, notify_one, notify_all}
use emilua.Cond.Places.{locked-IsCheck}
use emilua.Future.{
  promise_kind, satisfy, promise_set_value, promise_set_error, promise_mt_gc, is_nil,
}
use emilua.Future.Places.{HasState, shared-IsCheck, nil-IsCheck}
use emilua.Scheduler.Links.{handle_of}
use emilua.Scheduler.Quiet.{
  Quiet, Quiet-refl, Quiet-trans, Quiet-put, Quiet-post, Quiet-post_all, Quiet-set_interrupter,
  NoJoin, IsQuiet, IsQuiet-check, IsQuiet-same,
}
use emilua.Scheduler.Silent.{hand_over-Quiet}

cond_wait-NoJoin : (id f : ℕ) → NoJoin (some (cond_wait id f))
cond_wait-NoJoin id f a b c e = cc

pub future_get-NoJoin : (id f : ℕ) → NoJoin (some (future_get id f))
future_get-NoJoin id f a b c e = cc

-- The parts of `wait` behind its checks, for two objects that are not the same one.
module _ (v : Vm) (id mutex_id : ℕ) (pending : List ℕ) (m : Mutex)
    (at : get_elem? v.objects id ≡ some (cond pending))
    (mutex_at : get_elem? v.objects mutex_id ≡ some (mutex m)) where
  wait-Quiet : Quiet v (
      hand_over mutex_id m m.pending (
        put id
          (cond (pending ++ v.current_fiber ∷ []))
          (set_interrupter (some (cond_wait id v.current_fiber)) v)))
  unfolding handle_of
  wait-Quiet =
      let v1 : Vm = set_interrupter (some (cond_wait id v.current_fiber)) v in
      let (objs, current, strand) = set_interrupter-frame (some (cond_wait id v.current_fiber)) v in
      let new : Object = cond (pending ++ v.current_fiber ∷ []) in
      Quiet-trans
        (Quiet-set_interrupter (some (cond_wait id v.current_fiber)) v
          (cond_wait-NoJoin id v.current_fiber))
        (Quiet-trans (Quiet-put v1 id (cond pending) new (ap (λ o. get_elem? o id) objs ∙ at) refl)
          (hand_over-Quiet mutex_id m m.pending (put id new v1) (
            get_elem?-set_ne v1.objects new
              (λ e. clash (sym at ∙ ap (get_elem? v.objects) e ∙ mutex_at))
            ∙ ap (λ o. get_elem? o mutex_id) objs
            ∙ mutex_at)))
    where
      clash : some (cond pending) ≢ some (mutex m)
      clash e = cc

pub wait-IsQuiet : (v : Vm) (value mutex_value : Value) → IsQuiet (wait value mutex_value) v
unfolding wait cond_kind mutex_kind
wait-IsQuiet v value mutex_value =
    IsQuiet-check (Holds cond_kind v) (check_userdata-IsCheck cond_kind 1 1 value v)
      λ (id, pending) h.
        IsQuiet-check (Holds mutex_kind v) (check_userdata-IsCheck mutex_kind 1 2 mutex_value v)
          λ (mutex_id, m) hm. IsQuiet-check Anything (locked-IsCheck m.locked v) λ _ _.
            IsQuiet-check Anything (unsafe_can_suspend-IsCheck v)
              λ _ _. record { quiet = wait-Quiet v id mutex_id pending m h hm }

notify_first-Quiet :
    (v : Vm) (id : ℕ) (pending : List ℕ)
    → get_elem? v.objects id ≡ some (cond pending)
    → Quiet v (notify_first id pending v)
unfolding notify_first handle_of
notify_first-Quiet v id [] at = Quiet-refl v
notify_first-Quiet v id (next ∷ rest) at =
    Quiet-trans (Quiet-put v id (cond (next ∷ rest)) (cond rest) at refl) (Quiet-post _ _)

pub notify_one-IsQuiet : (v : Vm) (value : Value) → IsQuiet (notify_one value) v
unfolding notify_one cond_kind
notify_one-IsQuiet v value =
    IsQuiet-check (Holds cond_kind v) (check_userdata-IsCheck cond_kind 1 1 value v)
      λ (id, pending) h. record { quiet = notify_first-Quiet v id pending h }

-- Every waiter is posted, and then the object is written.
wake-Quiet :
    (v : Vm) (id : ℕ) (args : List Value) (fs : List ℕ) (o new : Object)
    → get_elem? v.objects id ≡ some o
    → handle_of (some new) ≡ handle_of (some o)
    → Quiet v (put id new (post_all args fs v))
wake-Quiet v id args fs o new at same = Quiet-trans (Quiet-post_all args fs v) (
    Quiet-put (post_all args fs v) id o new
      (ap (λ l. get_elem? l id) (post_all-objects args fs v) ∙ at) same)

pub notify_all-IsQuiet : (v : Vm) (value : Value) → IsQuiet (notify_all value) v
unfolding notify_all cond_kind handle_of
notify_all-IsQuiet v value =
    IsQuiet-check (Holds cond_kind v) (check_userdata-IsCheck cond_kind 1 1 value v)
      λ (id, pending) h. record {
        quiet = wake-Quiet v id [] pending (cond pending) (cond []) h refl;
      }

satisfy-IsQuiet :
    (v : Vm) (s : ℕ) (state : SharedState) (ready : FutureState) (value : Value) (args : List Value)
    → HasState s v state
    → IsQuiet (satisfy ready value args s state) v
unfolding satisfy handle_of
satisfy-IsQuiet v s state ready value args h = go state.state refl
  where
    go : (q : FutureState) → state.state ≡ q → IsQuiet (satisfy ready value args s state) v
    go empty e =
        rw (satisfy, e)
          (record { quiet = wake-Quiet v s args state.waiters (shared_state state) _ h refl })
    go _ e = rw (satisfy, e) (IsQuiet-same refl)

pub promise_set_value-IsQuiet :
    (v : Vm) (self value : Value) → IsQuiet (promise_set_value self value) v
unfolding promise_set_value promise_kind
promise_set_value-IsQuiet v self value =
    IsQuiet-check (Holds promise_kind v) (check_userdata-IsCheck promise_kind 1 1 self v)
      λ (id, s) _.
        IsQuiet-check (HasState s v) (shared-IsCheck s v)
          λ state h. satisfy-IsQuiet v s state _ _ _ h

pub promise_set_error-IsQuiet :
    (v : Vm) (self value : Value) → IsQuiet (promise_set_error self value) v
unfolding promise_set_error promise_kind
promise_set_error-IsQuiet v self value =
    IsQuiet-check (Holds promise_kind v) (check_userdata-IsCheck promise_kind 1 1 self v)
      λ (id, s) _. IsQuiet-check Anything (nil-IsCheck (is_nil value) v) λ _ _.
        IsQuiet-check (HasState s v) (shared-IsCheck s v)
          λ state h. satisfy-IsQuiet v s state _ _ _ h

pub promise_mt_gc-IsQuiet : (v : Vm) (s : ℕ) → IsQuiet (promise_mt_gc s) v
unfolding promise_mt_gc handle_of
promise_mt_gc-IsQuiet v s =
    IsQuiet-check (HasState s v) (shared-IsCheck s v)
      λ state h. record { quiet = wake-Quiet v s _ state.waiters (shared_state state) _ h refl }
