-- ===== src/Runtime/Places.antt =====
-- Where a suspended fiber waits to be woken: a call that is posted to the strand, the queue of a
-- mutex, a condition variable or a future, or the joiner field of a fiber that still runs.
use emilua.Common.{
  ℕ, ◌+◌, ◌≡◌, refl, inl, inr, false, List, [], ◌∷◌, Option, Option-cases, none, some, arith, hit,
  count, total, total-set, total-append, get_elem?,
}
use emilua.Runtime.{
  Value, Status, Joiner, alive, detached, joined, Fiber, Object, mutex, recursive_mutex, cond,
  shared_state, promise, future, fiber_handle, Post, Vm, M, Outcome, done, raised, yielded, after,
  put, put_fiber, post, post_all, set_interrupter, Interrupter, lookup_fiber, erase_first,
}

unfoldable pub object_waiters : ℕ → Object → ℕ
object_waiters g (mutex m) = count g m.pending
object_waiters g (recursive_mutex m) = count g m.pending
object_waiters g (cond pending) = count g pending
object_waiters g (shared_state s) = count g s.waiters
object_waiters g (promise s) = 0
object_waiters g (future s) = 0
object_waiters g (fiber_handle h) = 0

abbrev joiner_waits : ℕ → Option Status → Joiner → ℕ
joiner_waits g none (joined j) = hit g j
joiner_waits g none alive = 0
joiner_waits g none detached = 0
joiner_waits g (some s) j = 0

unfoldable pub fiber_waiters : ℕ → Option Fiber → ℕ
fiber_waiters g none = 0
fiber_waiters g (some f) = joiner_waits g f.status f.joiner

unfoldable pub post_waiters : ℕ → Post → ℕ
post_waiters g p = hit g p.fiber

-- How many wake-ups are still to come for fiber `g`.
unfoldable pub waiting : ℕ → Vm → ℕ
waiting g v =
    total (post_waiters g) v.strand
    + total (object_waiters g) v.objects
    + total (fiber_waiters g) v.fibers

-- A call that yields leaves the running fiber to be woken once; no other wake-up is made or lost.
abbrev pub yields_once : {A : Type 0} → ℕ → Vm → Outcome A → ℕ
yields_once g v (yielded w) = hit g v.current_fiber
yields_once g v (done a w) = 0
yields_once g v (raised e w) = 0

pub record Conserves {A : Type 0} (m : M A) (v : Vm) : Type 0 where
  pub balance : (g : ℕ) → waiting g (after (m v)) ≡ waiting g v + yields_once g v (m v)

module _ (g : ℕ) (v : Vm) where
  pub waiting-post : (p : Post) → waiting g (post p v) ≡ waiting g v + hit g p.fiber
  unfolding waiting total post_waiters
  waiting-post p = omega (arith, total-append (post_waiters g) v.strand (p ∷ []))

  pub waiting-put :
      (id : ℕ) (o o' : Object)
      → get_elem? v.objects id ≡ some o
      → waiting g (put id o' v) + object_waiters g o ≡ waiting g v + object_waiters g o'
  unfolding waiting
  waiting-put id o o' h = omega (arith, total-set (object_waiters g) v.objects id o o' h)

  pub waiting-put_fiber :
      (f : ℕ) (e e' : Option Fiber)
      → get_elem? v.fibers f ≡ some e
      → waiting g (put_fiber f e' v) + fiber_waiters g e ≡ waiting g v + fiber_waiters g e'
  unfolding waiting
  waiting-put_fiber f e e' h = omega (arith, total-set (fiber_waiters g) v.fibers f e e' h)

-- A change of the queue of one object counts as the change of that queue.
pub waiting_unchanged :
    (g : ℕ) (v : Vm) (id : ℕ) (o o' : Object)
    → get_elem? v.objects id ≡ some o
    → object_waiters g o ≡ object_waiters g o'
    → waiting g (put id o' v) ≡ waiting g v
waiting_unchanged g v id o o' h e = omega (arith, waiting-put g v id o o' h)

pub waiting-post_all :
    (g : ℕ) (args : List Value) (fs : List ℕ) (v : Vm)
    → waiting g (post_all args fs v) ≡ waiting g v + count g fs
unfolding post_all count
waiting-post_all g args [] v = omega arith
waiting-post_all g args (f ∷ fs) v =
    let p : Post = record { fiber = f; arguments = args; skip_clear_interrupter = false } in
    omega (arith, waiting-post_all g args fs (post p v), waiting-post g v p)

pub lookup_fiber_entry :
    (v : Vm) (f : ℕ) (fiber : Fiber)
    → lookup_fiber v f ≡ some fiber
    → get_elem? v.fibers f ≡ some (some fiber)
lookup_fiber_entry v f fiber h = ground arith

pub waiting-set_interrupter :
    (g : ℕ) (i : Option Interrupter) (v : Vm) → waiting g (set_interrupter i v) ≡ waiting g v
unfolding set_interrupter fiber_waiters
waiting-set_interrupter g i v = elim (Option-cases (lookup_fiber v v.current_fiber)) [
  | inl e ↦ rw (e, set_interrupter)
  | inr (fiber, e) ↦
      rw (e, set_interrupter)
        (ground (
          arith,
          waiting-put_fiber g v v.current_fiber (some fiber)
              (some (record fiber { interrupter = i }))
              (lookup_fiber_entry v v.current_fiber fiber e),
        ))
]

pub count-erase_first :
    (g f : ℕ) (xs ys : List ℕ) → erase_first f xs ≡ some ys → count g xs ≡ count g ys + hit g f
unfolding erase_first count
count-erase_first g f [] ys h = cc
count-erase_first g f (x ∷ xs) ys h = elim (Option-cases (erase_first f xs)) [
  | inl e ↦ ground arith
  | inr (zs, e) ↦ ground (arith, count-erase_first g f xs zs e)
]

pub set_interrupter-frame :
    (i : Option Interrupter) (v : Vm)
    → ((set_interrupter i v).objects ≡ v.objects)
      × ((set_interrupter i v).current_fiber ≡ v.current_fiber)
      × ((set_interrupter i v).strand ≡ v.strand)
unfolding set_interrupter
set_interrupter-frame i v = (ground arith, ground arith, ground arith)

pub post_all-objects :
    (args : List Value) (fs : List ℕ) (v : Vm) → (post_all args fs v).objects ≡ v.objects
unfolding post_all
post_all-objects args [] v = refl
post_all-objects args (f ∷ fs) v = post_all-objects args fs _
