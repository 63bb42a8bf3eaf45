-- ===== src/RecursiveMutex/Refinement.antt =====
-- src/recursive_mutex.cpp: the calls refine the owner with its depth and queue.
use emilua.Common.{
  ℕ, ◌+◌, ◌-◌, ◌^◌, ◌%◌, ◌<◌, ◌≡◌, ◌≢◌, refl, ◌∙◌, ◌⊎◌, inl, inr, Bool, true, false, List, [], ◌∷◌,
  ◌++◌, arith, ◌==◌, if◌then◌else◌, Bool-cases,
}
use emilua.Runtime.{
  value_too_large, operation_not_permitted, userdata, boolean, failure, recursive_mutex, Vm, done,
  raised, yielded, put, post, ◌>>=◌, check_userdata, unsafe_can_suspend2,
}
use emilua.Runtime.Checks.{MaySuspend, MaySuspend-unsafe_can_suspend2, check_userdata_ok, bind_done}
use emilua.Runtime.Steps.{
  woken, completed, waits, refused, reply, reply_bool, Step, Step-none, Step-put, Step-post, by,
  by_outcome,
}
use emilua.RecursiveMutex.{
  size_max, recursive_mutex_kind, relock, own, recursive_mutex_lock, recursive_mutex_try_lock,
  release, recursive_mutex_unlock,
}
use emilua.RecursiveMutex.Owner.{
  Lock, free, held, as_mutex, as_object, Represents, Fits, Call, lock, try_lock, unlock, deeper,
  hand_on, shallower, next_lock, answer, wakes, call,
}

module _ (id f : ℕ) (v : Vm) where
  abbrev Refines : Call → Lock → Type 0
  Refines c l =
      ((call id c f v).0 ≡ answer c f l)
      × Step id v (call id c f v).1 (as_object (next_lock c f l)) (wakes c f l)

  found :
      (l : Lock)
      → Represents v id l
      → check_userdata recursive_mutex_kind 1 1 (userdata id) (by id f v)
        ≡ done (id, as_mutex l) (by id f v)
  unfolding recursive_mutex_kind
  found l rep = check_userdata_ok recursive_mutex_kind 1 1 id (as_mutex l) (by id f v) rep refl

  lock_lem :
      (l : Lock)
      → Represents v id l
      → unsafe_can_suspend2 (by id f v) ≡ done tt (by id f v)
      → Refines lock l
  unfolding call recursive_mutex_lock own relock answer next_lock wakes
  lock_lem free rep may =
      by_outcome id f v reply completed (as_object (held f 0 [])) []
        (bind_done (check_userdata recursive_mutex_kind 1 1 (userdata id)) _ (found free rep)
          ∙ bind_done unsafe_can_suspend2 _ may)
        (refl, Step-put id f v (as_object free) rep (as_object (held f 0 [])))
  lock_lem (held owner depth queue) rep may =
      go (Bool-cases (owner == f)) (Bool-cases (depth + 1 == size_max))
    where
      l : Lock
      l = held owner depth queue

      first : recursive_mutex_lock (userdata id) (by id f v) ≡ (
          if owner == f
          then relock id (as_mutex l) (by id f v)
          else yielded (put id (as_object (held owner depth (queue ++ f ∷ []))) (by id f v)))
      first =
          bind_done (check_userdata recursive_mutex_kind 1 1 (userdata id)) _ (found l rep)
          ∙ bind_done unsafe_can_suspend2 _ may

      go :
          ((owner == f) ≡ true) ⊎ ((owner == f) ≡ false)
          → ((depth + 1 == size_max) ≡ true) ⊎ ((depth + 1 == size_max) ≡ false)
          → Refines lock l
      go (inl e) (inl g) =
          rw (e, g)
            (by_outcome id f v reply {o = raised (failure value_too_large) (by id f v)} refused
              (as_object l) [] (first ∙ rw (e, g) refl) (refl, Step-none id f v (as_object l) rep))
      go (inl e) (inr g) =
          rw (e, g)
            (by_outcome id f v reply
              {o = done tt (put id (as_object (held owner (depth + 1) queue)) (by id f v))}
              completed (as_object (held owner (depth + 1) queue)) [] (first ∙ rw (e, g) refl)
              (refl, Step-put id f v (as_object l) rep (as_object (held owner (depth + 1) queue))))
      go (inr e) _ = rw e (
          by_outcome id f v reply
            {o = yielded (put id (as_object (held owner depth (queue ++ f ∷ []))) (by id f v))}
            waits (as_object (held owner depth (queue ++ f ∷ []))) [] (first ∙ rw e refl)
            (
              refl,
              Step-put id f v (as_object l) rep (as_object (held owner depth (queue ++ f ∷ []))),
            ))

  try_lock_lem : (l : Lock) → Represents v id l → Refines try_lock l
  unfolding call recursive_mutex_try_lock own relock answer next_lock wakes
  try_lock_lem free rep =
      by_outcome id f v reply_bool completed (as_object (held f 0 [])) []
        (bind_done (check_userdata recursive_mutex_kind 1 1 (userdata id)) _ (found free rep))
        (refl, Step-put id f v (as_object free) rep (as_object (held f 0 [])))
  try_lock_lem (held owner depth queue) rep =
      go (Bool-cases (owner == f)) (Bool-cases (depth + 1 == size_max))
    where
      l : Lock
      l = held owner depth queue

      first : recursive_mutex_try_lock (userdata id) (by id f v) ≡ (
          if owner == f
          then (relock id (as_mutex l) >>= λ _ w. done (boolean true) w) (by id f v)
          else done (boolean false) (by id f v))
      first = bind_done (check_userdata recursive_mutex_kind 1 1 (userdata id)) _ (found l rep)

      go :
          ((owner == f) ≡ true) ⊎ ((owner == f) ≡ false)
          → ((depth + 1 == size_max) ≡ true) ⊎ ((depth + 1 == size_max) ≡ false)
          → Refines try_lock l
      go (inl e) (inl g) =
          rw (e, g)
            (by_outcome id f v reply_bool {o = raised (failure value_too_large) (by id f v)} refused
              (as_object l) [] (first ∙ rw (e, g) refl) (refl, Step-none id f v (as_object l) rep))
      go (inl e) (inr g) =
          rw (e, g)
            (by_outcome id f v reply_bool
              {o = done (boolean true)
                (put id (as_object (held owner (depth + 1) queue)) (by id f v))}
              completed (as_object (held owner (depth + 1) queue)) [] (first ∙ rw (e, g) refl)
              (refl, Step-put id f v (as_object l) rep (as_object (held owner (depth + 1) queue))))
      go (inr e) _ = rw e (
          by_outcome id f v reply_bool {o = done (boolean false) (by id f v)} refused (as_object l)
            [] (first ∙ rw e refl) (refl, Step-none id f v (as_object l) rep))

  -- The decrement of the counter.
  decrement : (depth : ℕ) → depth < size_max → (depth + 1 + size_max) % 2 ^ 64 ≡ depth
  decrement depth h = omega arith

  unlock_lem : (l : Lock) → Fits l → Represents v id l → Refines unlock l
  unfolding call recursive_mutex_unlock release answer next_lock wakes
  unlock_lem free fits rep =
      by_outcome id f v reply refused (as_object free) []
        (bind_done (check_userdata recursive_mutex_kind 1 1 (userdata id)) _ (found free rep))
        (refl, Step-none id f v (as_object free) rep)
  unlock_lem (held owner depth queue) fits rep =
      go queue refl (Bool-cases (owner == f)) (Bool-cases (depth == 0))
    where
      l : Lock
      l = held owner depth queue

      first : recursive_mutex_unlock (userdata id) (by id f v) ≡ (
          if owner == f
          then (if depth == 0
              then done tt (release id (as_mutex l) queue (by id f v))
              else done tt
                  (put id (recursive_mutex (record (as_mutex l) { nlocked = depth })) (by id f v)))
          else raised (failure operation_not_permitted) (by id f v))
      first =
          bind_done (check_userdata recursive_mutex_kind 1 1 (userdata id)) _ (found l rep)
          ∙ rw (decrement depth fits) refl

      less : (depth == 0) ≡ false → depth - 1 + 1 ≡ depth
      less e = let p : 0 < depth = ground arith in omega arith

      go :
          (q : List ℕ)
          → queue ≡ q
          → ((owner == f) ≡ true) ⊎ ((owner == f) ≡ false)
          → ((depth == 0) ≡ true) ⊎ ((depth == 0) ≡ false)
          → Refines unlock l
      go [] z (inl e) (inl g) =
          rw (e, g, z)
            (by_outcome id f v reply {o = done tt (put id (as_object free) (by id f v))} completed
              (as_object free) [] (first ∙ rw (e, g, z) refl)
              (refl, Step-put id f v (as_object l) rep (as_object free)))
      go (next ∷ rest) z (inl e) (inl g) =
          rw (e, g, z)
            (by_outcome id f v reply
              {o = done tt (post (woken next) (put id (as_object (held next 0 rest)) (by id f v)))}
              completed (as_object (held next 0 rest)) (next ∷ []) (first ∙ rw (e, g, z) refl)
              (refl, Step-post id f v (as_object l) rep (as_object (held next 0 rest)) next))
      go q z (inl e) (inr g) =
          rw (e, g)
            (by_outcome id f v reply
              {o = done tt (put id (as_object (held owner (depth - 1) queue)) (by id f v))}
              completed (as_object (held owner (depth - 1) queue)) []
              (first ∙ rw (e, g) (rw (less g) refl))
              (refl, Step-put id f v (as_object l) rep (as_object (held owner (depth - 1) queue))))
      go q z (inr e) h = rw e (
          by_outcome id f v reply {o = raised (failure operation_not_permitted) (by id f v)} refused
            (as_object l) [] (first ∙ rw e refl) (refl, Step-none id f v (as_object l) rep))

Fits-if :
    (b : Bool) (x y : Lock) → (b ≡ true → Fits x) → (b ≡ false → Fits y) → Fits (if b then x else y)
Fits-if true x y a b = a refl
Fits-if false x y a b = b refl

deeper-Fits :
    (owner depth : ℕ) (queue : List ℕ) → depth < size_max → Fits (deeper owner depth queue)
deeper-Fits owner depth queue fits =
    Fits-if (depth + 1 == size_max) (held owner depth queue) (held owner (depth + 1) queue)
      (λ e. fits) (λ e. let room : depth + 1 ≢ size_max = ground arith in omega arith)

hand_on-Fits : (queue : List ℕ) → Fits (hand_on queue)
hand_on-Fits [] = tt
hand_on-Fits (next ∷ rest) = omega arith

-- No call makes the counter overflow.
next_lock-Fits : (c : Call) (f : ℕ) (l : Lock) → Fits l → Fits (next_lock c f l)
unfolding next_lock
next_lock-Fits lock f free fits = omega arith
next_lock-Fits lock f (held owner depth queue) fits =
    Fits-if (owner == f) (deeper owner depth queue) (held owner depth (queue ++ f ∷ []))
      (λ e. deeper-Fits owner depth queue fits) (λ e. fits)
next_lock-Fits try_lock f free fits = omega arith
next_lock-Fits try_lock f (held owner depth queue) fits =
    Fits-if (owner == f) (deeper owner depth queue) (held owner depth queue)
      (λ e. deeper-Fits owner depth queue fits) (λ e. fits)
next_lock-Fits unlock f free fits = tt
next_lock-Fits unlock f (held owner depth queue) fits =
    Fits-if (owner == f) (shallower owner depth queue) (held owner depth queue)
      (λ e.
        Fits-if (depth == 0) (hand_on queue) (held owner (depth - 1) queue)
          (λ g. hand_on-Fits queue) (λ g. omega arith))
      (λ e. fits)

refines :
    (id : ℕ) (c : Call) (f : ℕ) (v : Vm) (l : Lock)
    → Fits l
    → Represents v id l
    → MaySuspend v f
    → Refines id f v c l
refines id lock f v l fits rep may = lock_lem id f v l rep (
    MaySuspend-unsafe_can_suspend2 (record v { current_fiber = f })
      (record { not_system = may.not_system; allowed = may.allowed }))
refines id try_lock f v l fits rep may = try_lock_lem id f v l rep
refines id unlock f v l fits rep may = unlock_lem id f v l fits rep

-- For a recursive mutex in the state of a lock (free, or an owner with a depth and a queue, and a
-- counter within `std::size_t`), each of `lock`, `try_lock` and `unlock` by a fiber that the
-- suspension guard lets through gives the answer of the lock and leaves the mutex in its next
-- state: an owner goes one deeper unless the counter is at its maximum, the last unlock hands the
-- mutex to the first fiber in the queue and wakes it, and only the owner may unlock. The other
-- objects and the fiber table are kept, and the counter stays within `std::size_t`.
pub recursive_mutex_call_lem :
    (id : ℕ) (c : Call) (f : ℕ) (v : Vm) (l : Lock)
    → Fits l
    → Represents v id l
    → MaySuspend v f
    → ((call id c f v).0 ≡ answer c f l)
      × Step id v (call id c f v).1 (as_object (next_lock c f l)) (wakes c f l)
      × Fits (next_lock c f l)
recursive_mutex_call_lem id c f v l fits rep may =
    let (said, step) = refines id c f v l fits rep may in (said, step, next_lock-Fits c f l fits)
