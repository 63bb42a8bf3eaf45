-- ===== src/Runtime.antt =====
-- The state that the fiber primitives share: include/emilua/fiber.hpp, the fiber table and the
-- suspension guards of src/core.cpp, the handles of mutex, recursive_mutex, condition_variable and
-- future, and the queue of the VM's strand. Fibers and userdata are indices into tables. A native
-- function is a state transformer that returns, raises or yields.
pub mod Places
pub mod Checks
pub mod Steps
use emilua.Common.{
  ℕ, ◌≡◌, Bool, true, false, Option, none, some, List, [], ◌∷◌, ◌++◌, ◌==◌, ltb, if◌then◌else◌,
  get_elem?, set,
}

-- The errors that these functions push: `arg n` is `EINVAL` with its field `arg`.
pub data Error : Type 0 where
  arg : ℕ → Error
  invalid_argument operation_not_permitted value_too_large : Error
  resource_deadlock_would_occur system_fiber forbid_suspend_block interrupted : Error
  promise_already_satisfied broken_promise : Error
  interruption_already_allowed suspension_already_allowed : Error

-- Lua values: `userdata` is a reference, `opaque` any value that the runtime only passes on.
pub data Value : Type 0 where
  nil : Value
  boolean : Bool → Value
  userdata : ℕ → Value
  opaque : ℕ → Value
  failure : Error → Value

-- `FiberStatus`; a running fiber has none.
pub data Status : Type 0 where
  finished_successfully finished_with_error : Status

-- `FiberDataIndex::JOINER`: nil, `false` or a thread.
pub data Joiner : Type 0 where
  alive detached : Joiner
  joined : ℕ → Joiner

-- `FiberDataIndex::INTERRUPTION_DISABLED`: a boolean for a module's fiber, else a counter.
pub data Disabled : Type 0 where
  flag : Bool → Disabled
  counter : ℕ → Disabled

-- The closures that are set as interrupters, with their upvalues: the object and the fiber, and
-- for `join` also the fiber that is joined.
pub data Interrupter : Type 0 where
  cond_wait future_get : ℕ → ℕ → Interrupter
  fiber_join : ℕ → ℕ → ℕ → Interrupter

pub record Fiber : Type 0 where
  pub joiner : Joiner
  pub status : Option Status
  pub suspension_disallowed : ℕ
  pub interruption_disabled : Disabled
  pub interrupted : Bool
  pub interrupter : Option Interrupter
  pub user_handle : Option ℕ
  -- What a finished fiber has left on its stack: its results, or its error alone.
  pub stack : List Value

pub record Mutex : Type 0 where
  pub pending : List ℕ
  pub locked : Bool

pub record RecursiveMutex : Type 0 where
  pub pending : List ℕ
  pub nlocked : ℕ
  pub owner : Option ℕ

pub data FutureState : Type 0 where
  empty broken value_ready error_ready : FutureState

pub record SharedState : Type 0 where
  pub waiters : List ℕ
  pub state : FutureState
  pub value_ref : Option Value

pub record FiberHandle : Type 0 where
  pub fiber : Option ℕ
  pub join_in_progress : Bool
  pub interruption_caught : Option Bool

-- A userdata with its metatable. A promise and a future name their shared state.
pub data Object : Type 0 where
  mutex : Mutex → Object
  recursive_mutex : RecursiveMutex → Object
  cond : List ℕ → Object
  shared_state : SharedState → Object
  promise future : ℕ → Object
  fiber_handle : FiberHandle → Object

-- A call of `fiber_resume` that was posted to the strand: the fiber, the arguments, and whether
-- the option `skip_clear_interrupter` is set.
pub record Post : Type 0 where
  pub fiber : ℕ
  pub arguments : List Value
  pub skip_clear_interrupter : Bool

-- `fibers` is the table under `fiber_list_key`; `main_fiber` is `L()`.
pub record Vm : Type 0 where
  pub valid : Bool
  pub main_fiber : ℕ
  pub current_fiber : ℕ
  pub async_event_thread : ℕ
  pub fibers : List (Option Fiber)
  pub objects : List Object
  pub strand : List Post

pub data Outcome (A : Type 0) : Type 0 where
  done : A → Vm → Outcome A
  raised : Value → Vm → Outcome A
  yielded : Vm → Outcome A

abbrev pub M : Type 0 → Type 0
M A = Vm → Outcome A

abbrev pub return : {A : Type 0} → A → M A
return a v = done a v

abbrev pub fail : {A : Type 0} → Error → M A
fail e v = raised (failure e) v

abbrev pub suspend : {A : Type 0} → M A
suspend v = yielded v

infixl 5 ◌>>=◌ ◌>>◌
abbrev pub ◌>>=◌ : {A B : Type 0} → M A → (A → M B) → M B
◌>>=◌ m f v = elim (m v) [ done a w ↦ f a w | raised e w ↦ raised e w | yielded w ↦ yielded w ]

abbrev pub ◌>>◌ : {A B : Type 0} → M A → M B → M B
m >> k = m >>= λ _. k

abbrev pub modify : (Vm → Vm) → M (Unit {0})
modify f v = done tt (f v)

-- The state in which a call leaves the VM.
abbrev pub after : {A : Type 0} → Outcome A → Vm
after (done a w) = w
after (raised e w) = w
after (yielded w) = w

abbrev pub has_yielded : {A : Type 0} → Outcome A → Bool
has_yielded (yielded w) = true
has_yielded _ = false

-- The running fiber and every fiber that a handle names have an entry; where the table has none the
-- functions below go on as for a fiber with nothing set.
abbrev pub lookup_fiber : Vm → ℕ → Option Fiber
lookup_fiber v f = elim (get_elem? v.fibers f) [ none ↦ none | some entry ↦ entry ]

abbrev pub put_fiber : ℕ → Option Fiber → Vm → Vm
put_fiber f entry v = record v { fibers = set v.fibers f entry }

abbrev pub put : ℕ → Object → Vm → Vm
put id o v = record v { objects = set v.objects id o }

abbrev pub post : Post → Vm → Vm
post p v = record v { strand = v.strand ++ p ∷ [] }

-- A kind of userdata: what its metatable stands for.
pub record Kind (A : Type 0) : Type 0 where
  pub wrap : A → Object
  pub unwrap : Object → Option A
  pub unwrap_lem : (o : Object) (a : A) → unwrap o ≡ some a → o ≡ wrap a

-- The test of an argument by `lua_touserdata` and its metatable. `null_arg` is the position that
-- the error names for a value that is no userdata, `other_arg` that for another kind of userdata.
unfoldable pub check_userdata : {A : Type 0} → Kind A → ℕ → ℕ → Value → M (ℕ × A)
check_userdata k null_arg other_arg (userdata id) v = elim (get_elem? v.objects id) [
  | none ↦ fail (arg null_arg) v
  | some o ↦ elim (k.unwrap o) [ none ↦ fail (arg other_arg) v | some a ↦ done (id, a) v ]
]
check_userdata k null_arg other_arg value v = fail (arg null_arg) v

unfoldable pub is_disabled : Disabled → Bool
is_disabled (flag b) = b
is_disabled (counter n) = ltb 0 n

-- `EMILUA_CHECK_SUSPEND_ALLOWED_ASSUMING_INTERRUPTION_DISABLED`.
unfoldable pub unsafe_can_suspend2 : M (Unit {0})
unsafe_can_suspend2 v =
    if v.current_fiber == v.async_event_thread
    then fail system_fiber v
    else elim (lookup_fiber v v.current_fiber) [
      | none ↦ done tt v
      | some fiber ↦
          if fiber.suspension_disallowed == 0 then done tt v else fail forbid_suspend_block v
    ]

-- `EMILUA_CHECK_SUSPEND_ALLOWED`.
unfoldable pub unsafe_can_suspend : M (Unit {0})
unfolding is_disabled
unsafe_can_suspend v =
    if v.current_fiber == v.async_event_thread
    then fail system_fiber v
    else elim (lookup_fiber v v.current_fiber) [
      | none ↦ done tt v
      | some fiber ↦
          if fiber.suspension_disallowed == 0
          then (if is_disabled fiber.interruption_disabled
              then done tt v
              else if fiber.interrupted
              then fail interrupted v
              else done tt v)
          else fail forbid_suspend_block v
    ]

unfoldable pub set_interrupter : Option Interrupter → Vm → Vm
unfolding is_disabled
set_interrupter i v = elim (lookup_fiber v v.current_fiber) [
  | none ↦ v
  | some fiber ↦
      if is_disabled fiber.interruption_disabled
      then v
      else put_fiber v.current_fiber (some (record fiber { interrupter = i })) v
]

-- The erased list, if `std::find` finds the fiber.
unfoldable pub erase_first : ℕ → List ℕ → Option (List ℕ)
erase_first f [] = none
erase_first f (x ∷ xs) =
    if x == f then some xs else elim (erase_first f xs) [ none ↦ none | some ys ↦ some (x ∷ ys) ]

-- A post for every fiber of a queue, in its order.
unfoldable pub post_all : List Value → List ℕ → Vm → Vm
post_all args [] v = v
post_all args (f ∷ fs) v =
    post_all args fs
      (post (record { fiber = f; arguments = args; skip_clear_interrupter = false }) v)
