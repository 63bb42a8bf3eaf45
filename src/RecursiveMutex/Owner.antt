-- ===== src/RecursiveMutex/Owner.antt =====
-- src/recursive_mutex.cpp refines an owner with a depth, and the queue behind it.
use emilua.Common.{
  ℕ, ◌+◌, ◌-◌, ◌<◌, ◌≡◌, none, some, List, [], ◌∷◌, ◌++◌, ◌==◌, if◌then◌else◌, get_elem?,
}
use emilua.Runtime.{userdata, RecursiveMutex, Object, recursive_mutex, Vm}
use emilua.Runtime.Steps.{Answer, completed, waits, refused, reply, reply_bool, by}
use emilua.RecursiveMutex.{
  size_max, recursive_mutex_lock, recursive_mutex_try_lock, recursive_mutex_unlock,
}

-- Free, or held by a fiber that may unlock it `depth` times more before its last unlock.
pub data Lock : Type 0 where
  free : Lock
  held : ℕ → ℕ → List ℕ → Lock

abbrev pub as_mutex : Lock → RecursiveMutex
as_mutex free = record { pending = []; nlocked = 0; owner = none }
as_mutex (held owner depth queue) = record {
  pending = queue;
  nlocked = depth + 1;
  owner = some owner;
}

abbrev pub as_object : Lock → Object
as_object l = recursive_mutex (as_mutex l)

abbrev pub Represents : Vm → ℕ → Lock → Type 0
Represents v id l = get_elem? v.objects id ≡ some (as_object l)

-- The counter fits in a `std::size_t`.
abbrev pub Fits : Lock → Type 0
Fits free = Unit {0}
Fits (held owner depth queue) = depth < size_max

pub data Call : Type 0 where
  lock try_lock unlock : Call

abbrev pub deeper : ℕ → ℕ → List ℕ → Lock
deeper owner depth queue =
    if depth + 1 == size_max then held owner depth queue else held owner (depth + 1) queue

abbrev pub deeper_answer : ℕ → Answer
deeper_answer depth = if depth + 1 == size_max then refused else completed

abbrev pub hand_on : List ℕ → Lock
hand_on [] = free
hand_on (next ∷ rest) = held next 0 rest

abbrev pub front : List ℕ → List ℕ
front [] = []
front (next ∷ rest) = next ∷ []

abbrev pub shallower : ℕ → ℕ → List ℕ → Lock
shallower owner depth queue = if depth == 0 then hand_on queue else held owner (depth - 1) queue

-- What a call of fiber `f` makes of the lock, its answer, and the fiber that it wakes.
unfoldable pub next_lock : Call → ℕ → Lock → Lock
next_lock lock f free = held f 0 []
next_lock lock f (held owner depth queue) =
    if owner == f then deeper owner depth queue else held owner depth (queue ++ f ∷ [])
next_lock try_lock f free = held f 0 []
next_lock try_lock f (held owner depth queue) =
    if owner == f then deeper owner depth queue else held owner depth queue
next_lock unlock f free = free
next_lock unlock f (held owner depth queue) =
    if owner == f then shallower owner depth queue else held owner depth queue

unfoldable pub answer : Call → ℕ → Lock → Answer
answer lock f free = completed
answer lock f (held owner depth queue) = if owner == f then deeper_answer depth else waits
answer try_lock f free = completed
answer try_lock f (held owner depth queue) = if owner == f then deeper_answer depth else refused
answer unlock f free = refused
answer unlock f (held owner depth queue) = if owner == f then completed else refused

unfoldable pub wakes : Call → ℕ → Lock → List ℕ
wakes lock f l = []
wakes try_lock f l = []
wakes unlock f free = []
wakes unlock f (held owner depth queue) =
    if owner == f then (if depth == 0 then front queue else []) else []

unfoldable pub call : ℕ → Call → ℕ → Vm → Answer × Vm
call id lock f v = reply (recursive_mutex_lock (userdata id) (by id f v))
call id try_lock f v = reply_bool (recursive_mutex_try_lock (userdata id) (by id f v))
call id unlock f v = reply (recursive_mutex_unlock (userdata id) (by id f v))
