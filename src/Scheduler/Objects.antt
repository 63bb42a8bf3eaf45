-- ===== src/Scheduler/Objects.antt =====
-- src/mutex.cpp, src/recursive_mutex.cpp, src/condition_variable.cpp, src/future.cpp: the calls of
-- the four synchronisation objects together.
use emilua.Common.{ℕ}
use emilua.Runtime.{Value, Vm}
use emilua.Runtime.Places.{Conserves}
use emilua.Mutex.{mutex_lock, mutex_try_lock, mutex_unlock}
use emilua.Mutex.Places.{mutex-Conserves}
use emilua.RecursiveMutex.{recursive_mutex_lock, recursive_mutex_try_lock, recursive_mutex_unlock}
use emilua.RecursiveMutex.Places.{recursive_mutex-Conserves}
use emilua.Cond.{wait, notify_one, notify_all}
use emilua.Cond.Places.{cond-Conserves}
use emilua.Future.{promise_set_value, promise_set_error, promise_mt_gc, get}
use emilua.Future.Places.{future-Conserves}

-- Each of `lock`, `try_lock` and `unlock` of a mutex and of a recursive mutex, of `wait`,
-- `notify_one` and `notify_all`, of `set_value`, `set_error`, `get` and the collection of a
-- promise, on any arguments and state and on every branch, keeps the number of places from which
-- each fiber is still to be woken, and adds one for the running fiber exactly if the call yields.
pub objects-Conserve :
    (v : Vm) (self value : Value) (s : ℕ)
    → (Conserves (mutex_lock self) v
        × Conserves (mutex_try_lock self) v
        × Conserves (mutex_unlock self) v)
      × (Conserves (recursive_mutex_lock self) v
          × Conserves (recursive_mutex_try_lock self) v
          × Conserves (recursive_mutex_unlock self) v)
      × (Conserves (wait self value) v
          × Conserves (notify_one self) v
          × Conserves (notify_all self) v)
      × (Conserves (promise_set_value self value) v
          × Conserves (promise_set_error self value) v
          × Conserves (promise_mt_gc s) v
          × Conserves (get self) v)
objects-Conserve v self value s = (
  mutex-Conserves v self,
  recursive_mutex-Conserves v self,
  cond-Conserves v self value,
  future-Conserves v self value s,
)
