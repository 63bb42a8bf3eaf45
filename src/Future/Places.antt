-- ===== src/Future/Places.antt =====
-- src/future.cpp: what the calls do to the places where fibers wait.
use emilua.Common.{
  ℕ, ◌+◌, ◌≡◌, refl, ap, ◌∙◌, Bool, true, false, Option, none, some, List, [], ◌∷◌, ◌++◌, arith,
  hit, count, count-snoc, get_elem?, if◌then◌else◌,
}
use emilua.Runtime.{
  broken_promise, future_get, failure, interrupted, arg, Value, Interrupter, Object, SharedState,
  FutureState, broken, shared_state, Vm, put, post_all, set_interrupter, erase_first, return, fail,
}
use emilua.Runtime.Places.{
  waiting, object_waiters, waiting-put, waiting-post, waiting-post_all, waiting-set_interrupter,
  set_interrupter-frame, post_all-objects, count-erase_first, Conserves,
}
use emilua.Runtime.Checks.{
  IsCheck, passes, refuses, Conserves-check, Anything, Holds, check_userdata-IsCheck,
  unsafe_can_suspend-IsCheck,
}
use emilua.Future.{
  promise_kind, future_kind, shared, satisfy, promise_set_value, promise_set_error, promise_mt_gc,
  wait_for, get, get_from, interrupt_get, is_nil,
}

abbrev pub HasState : ℕ → Vm → SharedState → Type 0
HasState s v state = get_elem? v.objects s ≡ some (shared_state state)

pub shared-IsCheck : (s : ℕ) (v : Vm) → IsCheck (HasState s v) (shared s) v
unfolding shared
shared-IsCheck s v = go (get_elem? v.objects s) refl
  where
    go : (o : Option Object) → get_elem? v.objects s ≡ o → IsCheck (HasState s v) (shared s) v
    go (some (shared_state state)) e = passes state (rw (e, shared)) e
    go (some _) e = refuses (arg 1) (rw (e, shared))
    go none e = refuses (arg 1) (rw (e, shared))

module _ (v : Vm) (s : ℕ) (state : SharedState) (h : HasState s v state) where
  waiting-wake :
      (g : ℕ) (args : List Value) (left : SharedState)
      → left.waiters ≡ []
      → waiting g (put s (shared_state left) (post_all args state.waiters v)) ≡ waiting g v
  unfolding object_waiters count
  waiting-wake g args left e =
      let at : get_elem? (post_all args state.waiters v).objects s ≡ some (shared_state state) =
        ap (λ os. get_elem? os s) (post_all-objects args state.waiters v) ∙ h in
      let none_left : count g left.waiters ≡ 0 = rw e in
      omega (
        arith,
        waiting-post_all g args state.waiters v,
        waiting-put g (post_all args state.waiters v) s (shared_state state) (shared_state left) at,
      )

  satisfy-Conserves :
      (ready : FutureState) (value : Value) (args : List Value)
      → Conserves (satisfy ready value args s state) v
  unfolding satisfy
  satisfy-Conserves ready value args = record {
    balance = λ g. ground (
      arith,
      waiting-wake g args (record { waiters = []; state = ready; value_ref = some value }) refl,
    );
  }

  waiting-wait_for :
      (g : ℕ) (i : Option Interrupter)
      → waiting g (
          put s
            (shared_state (record state { waiters = state.waiters ++ v.current_fiber ∷ [] }))
            (set_interrupter i v))
        ≡ waiting g v + hit g v.current_fiber
  unfolding object_waiters
  waiting-wait_for g i =
      let at : get_elem? (set_interrupter i v).objects s ≡ some (shared_state state) =
        ap (λ os. get_elem? os s) (set_interrupter-frame i v).0 ∙ h in
      omega (
        arith,
        waiting-put g (set_interrupter i v) s (shared_state state)
            (shared_state (record state { waiters = state.waiters ++ v.current_fiber ∷ [] })) at,
        waiting-set_interrupter g i v,
        count-snoc g state.waiters v.current_fiber,
      )

pub promise_set_value-Conserves :
    (v : Vm) (self value : Value) → Conserves (promise_set_value self value) v
unfolding promise_set_value promise_kind
promise_set_value-Conserves v self value =
    Conserves-check (Holds promise_kind v) (check_userdata-IsCheck promise_kind 1 1 self v)
      λ (id, s) _.
        Conserves-check (HasState s v) (shared-IsCheck s v)
          λ state h. satisfy-Conserves v s state h _ _ _

pub nil-IsCheck : (b : Bool) (v : Vm) → IsCheck Anything (if b then fail (arg 2) else return tt) v
nil-IsCheck true v = refuses _ refl
nil-IsCheck false v = passes tt refl tt

pub promise_set_error-Conserves :
    (v : Vm) (self value : Value) → Conserves (promise_set_error self value) v
unfolding promise_set_error promise_kind
promise_set_error-Conserves v self value =
    Conserves-check (Holds promise_kind v) (check_userdata-IsCheck promise_kind 1 1 self v)
      λ (id, s) _. Conserves-check Anything (nil-IsCheck (is_nil value) v) λ _ _.
        Conserves-check (HasState s v) (shared-IsCheck s v)
          λ state h. satisfy-Conserves v s state h _ _ _

pub promise_mt_gc-Conserves : (v : Vm) (s : ℕ) → Conserves (promise_mt_gc s) v
unfolding promise_mt_gc
promise_mt_gc-Conserves v s = Conserves-check (HasState s v) (shared-IsCheck s v) λ state h.
    record {
      balance = λ g. omega (
        arith,
        waiting-wake v s state h g (failure broken_promise ∷ [])
            (record state { waiters = []; state = broken }) refl,
      );
    }

pub get-Conserves : (v : Vm) (self : Value) → Conserves (get self) v
unfolding get get_from future_kind wait_for
get-Conserves v self =
    Conserves-check (Holds future_kind v) (check_userdata-IsCheck future_kind 1 1 self v)
      λ (id, s) _. Conserves-check Anything (unsafe_can_suspend-IsCheck v) λ _ _.
        Conserves-check (HasState s v) (shared-IsCheck s v) λ state h. record {
          balance = λ g.
              ground (arith, waiting-wait_for v s state h g (some (future_get s v.current_fiber)));
        }

-- As with `wait`: the interrupter moves a waiter that it finds to the strand.
pub waiting-interrupt_get : (g s f : ℕ) (v : Vm) → waiting g (interrupt_get s f v) ≡ waiting g v
unfolding interrupt_get object_waiters
waiting-interrupt_get g s f v = go (get_elem? v.objects s) refl
  where
    found :
        (state : SharedState)
        → HasState s v state
        → (o : Option (List ℕ)) → erase_first f state.waiters ≡ o
        → waiting g (interrupt_get s f v) ≡ waiting g v
    found state h none e = rw (h, interrupt_get) (rw e)
    found state h (some rest) e =
        rw (h, interrupt_get)
          (rw e (
            omega (
              arith,
              waiting-put g v s (shared_state state)
                  (shared_state (record state { waiters = rest })) h,
              count-erase_first g f state.waiters rest e,
              waiting-post g (put s (shared_state (record state { waiters = rest })) v) (record {
                fiber = f;
                arguments = failure interrupted ∷ [];
                skip_clear_interrupter = false;
              }),
            )))

    go :
        (o : Option Object)
        → get_elem? v.objects s ≡ o
        → waiting g (interrupt_get s f v) ≡ waiting g v
    go (some (shared_state state)) h = found state h (erase_first f state.waiters) refl
    go (some _) h = rw (h, interrupt_get)
    go none h = rw (h, interrupt_get)

-- All of its calls.
pub future-Conserves :
    (v : Vm) (self value : Value) (s : ℕ)
    → Conserves (promise_set_value self value) v
      × Conserves (promise_set_error self value) v
      × Conserves (promise_mt_gc s) v
      × Conserves (get self) v
future-Conserves v self value s = (
  promise_set_value-Conserves v self value,
  promise_set_error-Conserves v self value,
  promise_mt_gc-Conserves v s,
  get-Conserves v self,
)
