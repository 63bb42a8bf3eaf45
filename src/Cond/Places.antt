-- ===== src/Cond/Places.antt =====
-- src/condition_variable.cpp: what the calls do to the places where fibers wait.
use emilua.Common.{
  ℕ, ◌+◌, ◌≡◌, ◌≢◌, refl, ap, ◌∙◌, Bool, true, false, Option, none, some, List, [], ◌∷◌, ◌++◌,
  arith, hit, count, count-snoc, get_elem?, get_elem?-set_ne, if◌then◌else◌,
}
use emilua.Runtime.{
  failure, interrupted, operation_not_permitted, Value, Interrupter, Mutex, mutex, Object, cond, Vm,
  put, post_all, set_interrupter, erase_first, return, fail,
}
use emilua.Runtime.Places.{
  waiting, object_waiters, waiting-put, waiting-post, waiting-post_all, waiting-set_interrupter,
  set_interrupter-frame, post_all-objects, count-erase_first, Conserves,
}
use emilua.Runtime.Checks.{
  IsCheck, passes, refuses, Conserves-check, Anything, Holds, check_userdata-IsCheck,
  unsafe_can_suspend-IsCheck,
}
use emilua.Mutex.{mutex_kind, hand_over}
use emilua.Mutex.Places.{waiting-hand_over}
use emilua.Cond.{cond_kind, wait, notify_first, notify_one, notify_all, interrupt_wait}

waiting-notify_first :
    (g id : ℕ) (pending : List ℕ) (v : Vm)
    → get_elem? v.objects id ≡ some (cond pending)
    → waiting g (notify_first id pending v) ≡ waiting g v
unfolding notify_first object_waiters count
waiting-notify_first g id [] v h = refl
waiting-notify_first g id (next ∷ rest) v h = omega (
  arith,
  waiting-put g v id (cond (next ∷ rest)) (cond rest) h,
  waiting-post g (put id (cond rest) v)
      (record { fiber = next; arguments = []; skip_clear_interrupter = false }),
)

pub notify_one-Conserves : (v : Vm) (value : Value) → Conserves (notify_one value) v
unfolding notify_one cond_kind
notify_one-Conserves v value =
    Conserves-check (Holds cond_kind v) (check_userdata-IsCheck cond_kind 1 1 value v)
      λ (id, pending) h. record {
        balance = λ g. omega (arith, waiting-notify_first g id pending v h);
      }

pub notify_all-Conserves : (v : Vm) (value : Value) → Conserves (notify_all value) v
unfolding notify_all cond_kind object_waiters count
notify_all-Conserves v value =
    Conserves-check (Holds cond_kind v) (check_userdata-IsCheck cond_kind 1 1 value v)
      λ (id, pending) h. record {
        balance = λ g. omega (
          arith,
          waiting-post_all g [] pending v,
          waiting-put g (post_all [] pending v) id (cond pending) (cond [])
              (ap (λ os. get_elem? os id) (post_all-objects [] pending v) ∙ h),
        );
      }

-- The running fiber joins the queue, and the mutex goes on to another fiber.
module _ (v : Vm) (id mutex_id : ℕ) (pending : List ℕ) (m : Mutex)
    (h : get_elem? v.objects id ≡ some (cond pending))
    (hm : get_elem? v.objects mutex_id ≡ some (mutex m)) where
  other : id ≢ mutex_id
  other e = cc

  queued : Vm → Vm
  queued w = put id (cond (pending ++ v.current_fiber ∷ [])) w

  waiting-wait :
      (g : ℕ) (i : Option Interrupter)
      → waiting g (
          hand_over mutex_id m m.pending
            (put id (cond (pending ++ v.current_fiber ∷ [])) (set_interrupter i v)))
        ≡ waiting g v + hit g v.current_fiber
  unfolding object_waiters
  waiting-wait g i =
      let (same, _, _) = set_interrupter-frame i v in
      let at : get_elem? (set_interrupter i v).objects id ≡ some (cond pending) =
        ap (λ os. get_elem? os id) same ∙ h in
      let mutex_at : get_elem?
            (put id (cond (pending ++ v.current_fiber ∷ [])) (set_interrupter i v)).objects mutex_id
          ≡ some (mutex m) =
        get_elem?-set_ne (set_interrupter i v).objects (cond (pending ++ v.current_fiber ∷ []))
          other
        ∙ (ap (λ os. get_elem? os mutex_id) same ∙ hm) in
      omega (
        arith,
        waiting-hand_over g mutex_id m m.pending
            (put id (cond (pending ++ v.current_fiber ∷ [])) (set_interrupter i v)) mutex_at refl,
        waiting-put g (set_interrupter i v) id (cond pending)
            (cond (pending ++ v.current_fiber ∷ [])) at,
        waiting-set_interrupter g i v,
        count-snoc g pending v.current_fiber,
      )

pub locked-IsCheck :
    (b : Bool) (v : Vm) → IsCheck Anything (if b then return tt else fail operation_not_permitted) v
locked-IsCheck true v = passes tt refl tt
locked-IsCheck false v = refuses _ refl

pub wait-Conserves : (v : Vm) (value mutex_value : Value) → Conserves (wait value mutex_value) v
unfolding wait cond_kind mutex_kind
wait-Conserves v value mutex_value =
    Conserves-check (Holds cond_kind v) (check_userdata-IsCheck cond_kind 1 1 value v)
      λ (id, pending) h.
        Conserves-check (Holds mutex_kind v) (check_userdata-IsCheck mutex_kind 1 2 mutex_value v)
          λ (mutex_id, m) hm. Conserves-check Anything (locked-IsCheck m.locked v) λ _ _.
            Conserves-check Anything (unsafe_can_suspend-IsCheck v)
              λ _ _. record { balance = λ g. waiting-wait v id mutex_id pending m h hm g _ }

-- The interrupter takes a fiber that it finds out of the queue and posts its wake-up; a fiber that a
-- notification took out before is left alone.
pub waiting-interrupt_wait : (g id f : ℕ) (v : Vm) → waiting g (interrupt_wait id f v) ≡ waiting g v
unfolding interrupt_wait object_waiters
waiting-interrupt_wait g id f v = go (get_elem? v.objects id) refl
  where
    found :
        (pending : List ℕ)
        → get_elem? v.objects id ≡ some (cond pending)
        → (o : Option (List ℕ)) → erase_first f pending ≡ o
        → waiting g (interrupt_wait id f v) ≡ waiting g v
    found pending h none e = rw (h, interrupt_wait) (rw e)
    found pending h (some rest) e =
        rw (h, interrupt_wait)
          (rw e (
            omega (
              arith,
              waiting-put g v id (cond pending) (cond rest) h,
              count-erase_first g f pending rest e,
              waiting-post g (put id (cond rest) v) (record {
                fiber = f;
                arguments = failure interrupted ∷ [];
                skip_clear_interrupter = false;
              }),
            )))

    go :
        (o : Option Object)
        → get_elem? v.objects id ≡ o
        → waiting g (interrupt_wait id f v) ≡ waiting g v
    go (some (cond pending)) h = found pending h (erase_first f pending) refl
    go (some _) h = rw (h, interrupt_wait)
    go none h = rw (h, interrupt_wait)

-- All of its calls.
pub cond-Conserves :
    (v : Vm) (value mutex_value : Value)
    → Conserves (wait value mutex_value) v
      × Conserves (notify_one value) v
      × Conserves (notify_all value) v
cond-Conserves v value mutex_value =
    (wait-Conserves v value mutex_value, notify_one-Conserves v value, notify_all-Conserves v value)
