-- ===== src/Scope.antt =====
-- src/scope_cleanup.cpp with bytecode/scope.lua, bytecode/scope_cleanup_pop.lua, bytecode/pcall.lua,
-- bytecode/spawn_start_fn.lua and bytecode/start_fn.lua: the cleanup handlers of a fiber, for Lua code
-- that prints, raises and uses scopes, that itself neither disables nor restores the interruption,
-- and that nobody interrupts while it runs.
pub mod Fuel
pub mod Handlers
pub mod Balance
pub mod Root
pub mod Exit
use emilua.Common.{
  ℕ, zero, suc, ◌+◌, Bool, true, false, Option, none, some, List, [], ◌∷◌, ◌++◌, ◌-◌, ◌==◌,
  if◌then◌else◌, ltb, not, get_elem?, length,
}

-- The errors of these functions, and those of the code.
pub data Error : Type 0 where
  unmatched_scope_cleanup interruption_already_allowed interrupted : Error
  user : ℕ → Error

-- A chunk of Lua, by its first statement; `show` stands for any other work.
pub data Code : Type 0 where
  stop : Code
  throw : ℕ → Code
  show : ℕ → Code → Code
  push : Code → Code → Code
  pop : Bool → Code → Code
  scope : Code → Code → Code
  pcall : Code → Code → Code

-- The lists of handlers of a fiber, the innermost scope first, and in each list the last handler
-- last; its counter of disabled interruptions and whether it is interrupted; and what was shown,
-- each with the counter.
pub record State : Type 0 where
  pub scopes : List (List Code)
  pub disabled : ℕ
  pub interrupted : Bool
  pub shown : List (ℕ × ℕ)

pub data Result : Type 0 where
  returned : State → Result
  raised : Error → State → Result
  -- The VM is terminated by the error of a handler.
  terminated : State → Result
  -- The fuel is used up.
  stuck : Result

abbrev pub disable_interruption : State → State
disable_interruption s = record s { disabled = s.disabled + 1 }

unfoldable pub restore_interruption : State → Option State
restore_interruption s =
    if s.disabled == 0 then none else some (record s { disabled = s.disabled - 1 })

unfoldable pub scope_cleanup_push : Code → State → State
scope_cleanup_push h s = elim s.scopes [
  | [] ↦ s
  | top ∷ rest ↦ record s { scopes = (top ++ h ∷ []) ∷ rest }
]

-- The last element, and what is before it.
unfoldable pub split_last : List Code → Option (List Code × Code)
split_last [] = none
split_last (h ∷ hs) = elim (split_last hs) [
  | none ↦ some ([], h)
  | some (front, x) ↦ some (h ∷ front, x)
]

unfoldable pub scope_cleanup_pop : State → Option (Code × State)
scope_cleanup_pop s = elim s.scopes [
  | [] ↦ none
  | top ∷ rest ↦ elim (split_last top) [
    | none ↦ none
    | some (front, h) ↦ some (h, disable_interruption (record s { scopes = front ∷ rest }))
  ]
]

abbrev pub unsafe_scope_push : State → State
unsafe_scope_push s = record s { scopes = [] ∷ s.scopes }

unfoldable pub unsafe_scope_pop : State → List Code × State
unsafe_scope_pop s = elim s.scopes [
  | [] ↦ ([], disable_interruption s)
  | top ∷ rest ↦ (top, disable_interruption (record s { scopes = rest }))
]

-- The list at index 1, which stays where it is.
unfoldable pub outermost : List (List Code) → List Code
outermost [] = []
outermost (top ∷ rest) = elim rest [ [] ↦ top | next ∷ others ↦ outermost rest ]

-- The table itself is returned, so the loop below reads it where it is, in the state.
abbrev pub root_scope : State → State
root_scope s = disable_interruption s

-- The loop over the handlers of a scope that is left, from the last to the first. The table is no
-- longer among the scopes, so the handlers do not change it.
unfoldable pub run_handlers : (Code → State → Result) → List Code → State → Result
run_handlers call [] s = returned s
run_handlers call (h ∷ hs) s = elim (run_handlers call hs s) [
  | returned u ↦ elim (call h u) [
    | returned w ↦ returned w
    | raised e w ↦ terminated w
    | terminated w ↦ terminated w
    | stuck ↦ stuck
  ]
  | raised e u ↦ raised e u
  | terminated u ↦ terminated u
  | stuck ↦ stuck
]

-- The loop over the table of the root scope, whose index counts down from its first size. The handlers
-- may change the table on the way; an index with no handler any more gives nil, and to call nil fails.
unfoldable pub run_root : (Code → State → Result) → ℕ → State → Result
run_root call zero s = returned s
run_root call (suc i) s = elim (get_elem? (outermost s.scopes) i) [
  | none ↦ terminated s
  | some h ↦ elim (call h s) [
    | returned w ↦ run_root call i w
    | raised e w ↦ terminated w
    | terminated w ↦ terminated w
    | stuck ↦ stuck
  ]
]

-- `restore_interruption`, and then the rest of the code.
abbrev pub then_restore : (State → Result) → State → Result
then_restore rest s = elim (restore_interruption s) [
  | none ↦ raised interruption_already_allowed s
  | some w ↦ rest w
]

-- The exit of a scope whose body has ended in a state.
unfoldable pub leave_scope : (Code → State → Result) → (State → Result) → State → Result
leave_scope call rest s =
    let (handlers, u) = unsafe_scope_pop s in
    elim (run_handlers call handlers u) [
      | returned w ↦ then_restore rest w
      | raised e w ↦ raised e w
      | terminated w ↦ terminated w
      | stuck ↦ stuck
    ]

-- A handler that `scope_cleanup_pop` has taken.
unfoldable pub call_handler : (Code → State → Result) → (State → Result) → Code → State → Result
call_handler call rest h s = elim (call h s) [
  | returned w ↦ then_restore rest w
  | raised e w ↦ terminated w
  | terminated w ↦ terminated w
  | stuck ↦ stuck
]

-- A fiber that is interrupted, and whose interruption is not disabled, raises `interrupted`.
abbrev pub check_not_interrupted : State → Bool
check_not_interrupted s = if ltb 0 s.disabled then true else not s.interrupted

unfoldable pub run : ℕ → Code → State → Result
run zero code s = stuck
run (suc n) stop s = returned s
run (suc n) (throw e) s = raised (user e) s
run (suc n) (show k rest) s = run n rest (record s { shown = s.shown ++ (k, s.disabled) ∷ [] })
run (suc n) (push h rest) s = run n rest (scope_cleanup_push h s)
run (suc n) (pop execute rest) s = elim (scope_cleanup_pop s) [
  | none ↦ raised unmatched_scope_cleanup s
  | some (h, u) ↦ elim execute [
    | true ↦ call_handler (run n) (run n rest) h u
    | false ↦ then_restore (run n rest) u
  ]
]
run (suc n) (scope body rest) s = elim (run n body (unsafe_scope_push s)) [
  | returned u ↦ leave_scope (run n) (run n rest) u
  | raised e u ↦ leave_scope (run n) (raised e) u
  | terminated u ↦ terminated u
  | stuck ↦ stuck
]
run (suc n) (pcall body rest) s = elim (check_not_interrupted s) [
  | false ↦ raised interrupted s
  | true ↦ elim (run n body (unsafe_scope_push s)) [
    | returned u ↦ leave_scope (run n) (run n rest) u
    | raised e u ↦ leave_scope (run n) (run n rest) u
    | terminated u ↦ terminated u
    | stuck ↦ stuck
  ]
]

-- `init_new_coro_or_fiber_scope`: the root scope of a new fiber.
abbrev pub new_scopes : Bool → State
new_scopes i = record { scopes = [] ∷ []; disabled = 0; interrupted = i; shown = [] }

-- The handlers of the root scope run, and then the fiber ends with its result.
unfoldable pub leave_root : (Code → State → Result) → (State → Result) → State → Result
leave_root call end_ s =
    let u : State = root_scope s in
    elim (run_root call (length (outermost u.scopes)) u) [
      | returned w ↦ end_ w
      | raised e w ↦ raised e w
      | terminated w ↦ terminated w
      | stuck ↦ stuck
    ]

-- The function with which a spawned fiber starts, which may be interrupted already.
unfoldable pub spawn_start_fn : Bool → ℕ → Code → Result
spawn_start_fn i n code = elim (run n code (new_scopes i)) [
  | returned u ↦ leave_root (run n) returned u
  | raised e u ↦ leave_root (run n) (raised e) u
  | terminated u ↦ terminated u
  | stuck ↦ stuck
]

-- That of the main fiber.
unfoldable pub start_fn : Bool → ℕ → Code → Result
start_fn i n code = elim (run n code (new_scopes i)) [
  | returned u ↦ leave_root (run n) returned u
  | raised e u ↦ raised e u
  | terminated u ↦ terminated u
  | stuck ↦ stuck
]
