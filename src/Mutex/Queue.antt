-- ===== src/Mutex/Queue.antt =====
-- src/mutex.cpp refines a queue of fibers: the first one holds the mutex, the others wait in the
-- order of their calls.
use emilua.Common.{ℕ, ◌≡◌, refl, ◌∙◌, true, false, some, List, [], ◌∷◌, ◌++◌, get_elem?}
use emilua.Runtime.{userdata, Mutex, Object, mutex, Vm, done, check_userdata, unsafe_can_suspend2}
use emilua.Runtime.Checks.{MaySuspend, MaySuspend-unsafe_can_suspend2, check_userdata_ok, bind_done}
use emilua.Runtime.Steps.{
  Answer, completed, waits, refused, reply, reply_bool, Step, Step-none, Step-put, Step-post, by,
  by_outcome,
}
use emilua.Mutex.{mutex_kind, mutex_lock, mutex_try_lock, hand_over, mutex_unlock}

-- The mutex that a queue stands for.
abbrev pub as_mutex : List ℕ → Mutex
as_mutex [] = record { pending = []; locked = false }
as_mutex (holder ∷ rest) = record { pending = rest; locked = true }

abbrev pub as_object : List ℕ → Object
as_object queue = mutex (as_mutex queue)

abbrev pub Represents : Vm → ℕ → List ℕ → Type 0
Represents v id queue = get_elem? v.objects id ≡ some (as_object queue)

-- The abstract mutex: what a call of fiber `f` makes of the queue, and which fiber it wakes.
pub data Call : Type 0 where
  lock try_lock unlock : Call

abbrev pub enter : ℕ → List ℕ → List ℕ
enter f [] = f ∷ []
enter f (holder ∷ rest) = holder ∷ rest

abbrev pub leave : List ℕ → List ℕ
leave [] = []
leave (holder ∷ rest) = rest

abbrev pub front : List ℕ → List ℕ
front [] = []
front (next ∷ rest) = next ∷ []

unfoldable pub next_queue : Call → ℕ → List ℕ → List ℕ
next_queue lock f queue = queue ++ f ∷ []
next_queue try_lock f queue = enter f queue
next_queue unlock f queue = leave queue

unfoldable pub wakes : Call → List ℕ → List ℕ
wakes lock queue = []
wakes try_lock queue = []
wakes unlock queue = front (leave queue)

abbrev pub if_free : List ℕ → Answer → Answer
if_free [] otherwise = completed
if_free (holder ∷ rest) otherwise = otherwise

unfoldable pub answer : Call → List ℕ → Answer
answer lock queue = if_free queue waits
answer try_lock queue = if_free queue refused
answer unlock [] = refused
answer unlock (holder ∷ rest) = completed

-- A call of the code by fiber `f`: its answer and the state that it leaves.
unfoldable pub call : ℕ → Call → ℕ → Vm → Answer × Vm
call id lock f v = reply (mutex_lock (userdata id) (record v { current_fiber = f }))
call id try_lock f v = reply_bool (mutex_try_lock (userdata id) (record v { current_fiber = f }))
call id unlock f v = reply (mutex_unlock (userdata id) (record v { current_fiber = f }))

module _ (id f : ℕ) (v : Vm) where
  found :
      (queue : List ℕ)
      → Represents v id queue
      → check_userdata mutex_kind 1 1 (userdata id) (by id f v)
        ≡ done (id, as_mutex queue) (by id f v)
  unfolding mutex_kind
  found queue rep = check_userdata_ok mutex_kind 1 1 id (as_mutex queue) (by id f v) rep refl

  abbrev Refines : Call → List ℕ → Type 0
  Refines c queue =
      ((call id c f v).0 ≡ answer c queue)
      × Step id v (call id c f v).1 (as_object (next_queue c f queue)) (wakes c queue)

  lock_lem :
      (queue : List ℕ)
      → Represents v id queue
      → unsafe_can_suspend2 (by id f v) ≡ done tt (by id f v)
      → Refines lock queue
  unfolding call mutex_lock answer next_queue wakes
  lock_lem [] rep may =
      by_outcome id f v reply completed (as_object (f ∷ [])) []
        (bind_done (check_userdata mutex_kind 1 1 (userdata id)) _ (found [] rep)
          ∙ bind_done unsafe_can_suspend2 _ may)
        (refl, Step-put id f v (as_object []) rep (as_object (f ∷ [])))
  lock_lem (holder ∷ rest) rep may =
      by_outcome id f v reply waits (as_object (holder ∷ rest ++ f ∷ [])) []
        (bind_done (check_userdata mutex_kind 1 1 (userdata id)) _ (found (holder ∷ rest) rep)
          ∙ bind_done unsafe_can_suspend2 _ may)
        (
          refl,
          Step-put id f v (as_object (holder ∷ rest)) rep (as_object (holder ∷ rest ++ f ∷ [])),
        )

  try_lock_lem : (queue : List ℕ) → Represents v id queue → Refines try_lock queue
  unfolding call mutex_try_lock answer next_queue wakes
  try_lock_lem [] rep =
      by_outcome id f v reply_bool completed (as_object (f ∷ [])) []
        (bind_done (check_userdata mutex_kind 1 1 (userdata id)) _ (found [] rep))
        (refl, Step-put id f v (as_object []) rep (as_object (f ∷ [])))
  try_lock_lem (holder ∷ rest) rep =
      by_outcome id f v reply_bool refused (as_object (holder ∷ rest)) []
        (bind_done (check_userdata mutex_kind 1 1 (userdata id)) _ (found (holder ∷ rest) rep))
        (refl, Step-none id f v (as_object (holder ∷ rest)) rep)

  unlock_lem : (queue : List ℕ) → Represents v id queue → Refines unlock queue
  unfolding call mutex_unlock hand_over answer next_queue wakes
  unlock_lem [] rep =
      by_outcome id f v reply refused (as_object []) []
        (bind_done (check_userdata mutex_kind 1 1 (userdata id)) _ (found [] rep))
        (refl, Step-none id f v (as_object []) rep)
  unlock_lem (holder ∷ []) rep =
      by_outcome id f v reply completed (as_object []) []
        (bind_done (check_userdata mutex_kind 1 1 (userdata id)) _ (found (holder ∷ []) rep))
        (refl, Step-put id f v (as_object (holder ∷ [])) rep (as_object []))
  unlock_lem (holder ∷ next ∷ rest) rep =
      by_outcome id f v reply completed (as_object (next ∷ rest)) (next ∷ [])
        (bind_done (check_userdata mutex_kind 1 1 (userdata id)) _
          (found (holder ∷ next ∷ rest) rep))
        (
          refl,
          Step-post id f v (as_object (holder ∷ next ∷ rest)) rep (as_object (next ∷ rest)) next,
        )

-- Every call refines the queue, for a fiber that may suspend.
pub call_lem :
    (id : ℕ) (c : Call) (f : ℕ) (v : Vm) (queue : List ℕ)
    → Represents v id queue
    → MaySuspend v f
    → ((call id c f v).0 ≡ answer c queue)
      × Step id v (call id c f v).1 (as_object (next_queue c f queue)) (wakes c queue)
call_lem id lock f v queue rep may = lock_lem id f v queue rep (
    MaySuspend-unsafe_can_suspend2 (record v { current_fiber = f })
      (record { not_system = may.not_system; allowed = may.allowed }))
call_lem id try_lock f v queue rep may = try_lock_lem id f v queue rep
call_lem id unlock f v queue rep may = unlock_lem id f v queue rep
