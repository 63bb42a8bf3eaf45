-- ===== src/Scheduler/Histories.antt =====
-- The histories of a VM: src/fiber.cpp, src/mutex.cpp, src/recursive_mutex.cpp,
-- src/condition_variable.cpp, src/future.cpp and the scheduler of src/core.cpp together.
use emilua.Common.{
  ℕ, ◌+◌, ◌≡◌, refl, sym, ap, subst, inl, inr, true, false, Option, none, some, List, [], ◌∷◌,
  arith, hit, total,
}
use emilua.Runtime.{Value, Post, Vm, M}
use emilua.Runtime.Places.{waiting, post_waiters, Conserves}
use emilua.Mutex.Places.{mutex_lock-Conserves, mutex_try_lock-Conserves, mutex_unlock-Conserves}
use emilua.RecursiveMutex.Places.{
  recursive_mutex_lock-Conserves, recursive_mutex_try_lock-Conserves,
  recursive_mutex_unlock-Conserves,
}
use emilua.Cond.Places.{wait-Conserves, notify_one-Conserves, notify_all-Conserves}
use emilua.Future.Places.{
  promise_set_value-Conserves, promise_set_error-Conserves, promise_mt_gc-Conserves, get-Conserves,
}
use emilua.Fiber.Places.{join-Conserves, detach-Conserves}
use emilua.Scheduler.{
  Call, mutex_lock, mutex_try_lock, mutex_unlock, recursive_mutex_lock, recursive_mutex_try_lock,
  recursive_mutex_unlock, cond_wait, cond_notify_one, cond_notify_all, promise_set_value,
  promise_set_error, promise_mt_gc, fiber_mt_gc, future_get, spawn, yield_, join, detach, interrupt,
  increment, decrement, Event, call, finish, wake, System, perform, settle, step_in, step, run,
}
use emilua.Scheduler.Quiet.{Grows, IsQuiet}
use emilua.Scheduler.Silent.{
  mutex_lock-IsQuiet, mutex_try_lock-IsQuiet, mutex_unlock-IsQuiet, recursive_mutex_lock-IsQuiet,
  recursive_mutex_try_lock-IsQuiet, recursive_mutex_unlock-IsQuiet,
}
use emilua.Scheduler.Waits.{
  wait-IsQuiet, notify_one-IsQuiet, notify_all-IsQuiet, promise_set_value-IsQuiet,
  promise_set_error-IsQuiet, promise_mt_gc-IsQuiet,
}
use emilua.Scheduler.Gets.{
  get-IsQuiet, yield-IsQuiet, yield-Conserves, increment-IsQuiet, decrement-IsQuiet,
}
use emilua.Scheduler.Account.{
  lives, lives_le, runs, hit_self, Good, running, runs-IsIdle, IsQuiet-IsKept, Moves-call,
}
use emilua.Scheduler.Joins.{join-IsKept, Links-Linked}
use emilua.Scheduler.Detaches.{detach-IsKept, collect_handle-IsKept, collect_handle-Conserves}
use emilua.Scheduler.Interrupts.{interrupt-IsKept, interrupt-Conserves}
use emilua.Scheduler.Spawns.{spawn-Good}
use emilua.Scheduler.Endings.{Closed, Sound, fiber_epilogue-Sound}
use emilua.Scheduler.Wakes.{wake_next-Sound, wake_next-Closed}

module _ (v : Vm) (args : List Value) (good : Good (running v args)) where
  -- A call that keeps the links and the wake-ups.
  quietly :
      {A : Type 0} (m : M A)
      → Conserves m v
      → IsQuiet m v
      → Good (settle args (m v)) × Grows v (settle args (m v)).vm
  quietly m keeps quiet = Moves-call m v args good keeps (IsQuiet-IsKept m v good.links quiet)

  pub perform-Moves : (c : Call) → Good (perform c args v) × Grows v (perform c args v).vm
  unfolding perform
  perform-Moves (mutex_lock a) = quietly _ (mutex_lock-Conserves v a) (mutex_lock-IsQuiet v a)
  perform-Moves (mutex_try_lock a) =
      quietly _ (mutex_try_lock-Conserves v a) (mutex_try_lock-IsQuiet v a)
  perform-Moves (mutex_unlock a) = quietly _ (mutex_unlock-Conserves v a) (mutex_unlock-IsQuiet v a)
  perform-Moves (recursive_mutex_lock a) =
      quietly _ (recursive_mutex_lock-Conserves v a) (recursive_mutex_lock-IsQuiet v a)
  perform-Moves (recursive_mutex_try_lock a) =
      quietly _ (recursive_mutex_try_lock-Conserves v a) (recursive_mutex_try_lock-IsQuiet v a)
  perform-Moves (recursive_mutex_unlock a) =
      quietly _ (recursive_mutex_unlock-Conserves v a) (recursive_mutex_unlock-IsQuiet v a)
  perform-Moves (cond_wait a b) = quietly _ (wait-Conserves v a b) (wait-IsQuiet v a b)
  perform-Moves (cond_notify_one a) = quietly _ (notify_one-Conserves v a) (notify_one-IsQuiet v a)
  perform-Moves (cond_notify_all a) = quietly _ (notify_all-Conserves v a) (notify_all-IsQuiet v a)
  perform-Moves (promise_set_value a b) =
      quietly _ (promise_set_value-Conserves v a b) (promise_set_value-IsQuiet v a b)
  perform-Moves (promise_set_error a b) =
      quietly _ (promise_set_error-Conserves v a b) (promise_set_error-IsQuiet v a b)
  perform-Moves (promise_mt_gc s) =
      quietly _ (promise_mt_gc-Conserves v s) (promise_mt_gc-IsQuiet v s)
  perform-Moves (fiber_mt_gc id) =
      Moves-call _ v args good (collect_handle-Conserves v id good.links)
        (collect_handle-IsKept v id good.links)
  perform-Moves (future_get a) = quietly _ (get-Conserves v a) (get-IsQuiet v a)
  perform-Moves spawn = spawn-Good v args good
  perform-Moves yield_ = quietly _ (yield-Conserves v) (yield-IsQuiet v)
  perform-Moves (join a) =
      Moves-call _ v args good (join-Conserves v a (Links-Linked v good.links))
        (join-IsKept v a good.links (runs-IsIdle v args good))
  perform-Moves (detach a) =
      Moves-call _ v args good (detach-Conserves v a (Links-Linked v good.links))
        (detach-IsKept v a good.links)
  perform-Moves (interrupt a) =
      Moves-call _ v args good (interrupt-Conserves v a good.links)
        (interrupt-IsKept v a good.links)
  perform-Moves (increment c) =
      let (quiet, keeps) = increment-IsQuiet v c (runs-IsIdle v args good) in quietly _ keeps quiet
  perform-Moves (decrement c e) =
      let (quiet, keeps) = decrement-IsQuiet v c e (runs-IsIdle v args good) in
      quietly _ keeps quiet

pub step-Sound : (event : Event) (s : System) → Sound s → Sound (step event s)
unfolding step step_in
step-Sound event s (inl good) = go event s.running good
  where
    go :
        (event : Event) (r : Option (List Value))
        → Good (record { vm = s.vm; running = r })
        → Sound (step_in r event s.vm)
    go (call c) (some args) good = inl (perform-Moves s.vm args good c).0
    go (finish e) (some args) good = fiber_epilogue-Sound e s.vm args good
    go wake (some args) good = inl good
    go wake none good = wake_next-Sound s.vm good
    go (call c) none good = inl good
    go (finish e) none good = inl good
step-Sound event s (inr closed) =
    inr (subst (λ r. Closed (step_in r event s.vm)) (sym closed.still) (go event))
  where
    go : (event : Event) → Closed (step_in none event s.vm)
    go wake = wake_next-Closed s.vm s.vm.strand closed.invalid
    go (call c) = record { invalid = closed.invalid; still = refl }
    go (finish e) = record { invalid = closed.invalid; still = refl }

-- A system that is sound stays sound over any sequence of events. Sound means that the VM has been
-- closed and nothing runs; or that every fiber that is alive runs or is to be woken from exactly
-- one place (the strand, the queue of a mutex, a condition variable or a future, or the joiner
-- field of a live fiber) and no other fiber is, and that the links hold: a live fiber that a handle
-- can join has no joiner, a handle names a spawned fiber and no two name the same, a joined fiber
-- knows the handle that is being joined, and the interrupter of a join stands for a join that is
-- going on. The events are any of the modelled calls with any arguments, the end of the running
-- fiber, and the next call of the strand.
pub run-Sound : (events : List Event) (s : System) → Sound s → Sound (run events s)
unfolding run
run-Sound [] s sound = sound
run-Sound (event ∷ events) s sound = run-Sound events (step event s) (step-Sound event s sound)

module _ (events : List Event) (s : System) (good : Good s) where
  abbrev last : System
  last = run events s

  pub valid-Good : last.vm.valid ≡ true → Good last
  valid-Good valid = elim (run-Sound events s (inl good)) [
    | inl good ↦ good
    | inr closed ↦ absurd (clash (subst (λ b. b ≡ true) closed.invalid valid))
  ]
    where
      clash : false ≡ true → ⊥
      clash k = cc

  -- After any sequence of events from a system in which every live fiber runs or waits in one place
  -- and the links hold, if the VM is still valid, then for every fiber the number of places from
  -- which it is to be woken, and one if it runs, make one if the fiber is alive and none if it has
  -- ended or was never spawned.
  pub waits_once :
      (g : ℕ)
      → last.vm.valid ≡ true
      → waiting g last.vm + runs g last.running last.vm ≡ lives g last.vm
  waits_once g valid = (valid-Good valid).account g

  -- After any sequence of events from a system in which every live fiber runs or waits in one place
  -- and the links hold, if the VM is still valid, the fiber of the next call of the strand is
  -- alive, does not run, and has no further call in the strand.
  pub resumes_live :
      (p : Post) (rest : List Post)
      → last.vm.valid ≡ true
      → last.vm.strand ≡ p ∷ rest
      → (lives p.fiber last.vm ≡ 1)
        × (runs p.fiber last.running last.vm ≡ 0)
        × (total (post_waiters p.fiber) rest ≡ 0)
  unfolding waiting total post_waiters
  resumes_live p rest valid next =
      let account = (valid-Good valid).account p.fiber in
      let posts : total (post_waiters p.fiber) last.vm.strand
          ≡ hit p.fiber p.fiber + total (post_waiters p.fiber) rest =
        ap (total (post_waiters p.fiber)) next in
      (
        omega (arith, account, posts, hit_self p.fiber, lives_le p.fiber last.vm),
        omega (arith, account, posts, hit_self p.fiber, lives_le p.fiber last.vm),
        omega (arith, account, posts, hit_self p.fiber, lives_le p.fiber last.vm),
      )
