-- ===== src/Scope/Exit.antt =====
-- The exit of a scope (bytecode/scope.lua) and of a fiber (bytecode/spawn_start_fn.lua and
-- bytecode/start_fn.lua): the handlers run in the reverse order of their registration.
use emilua.Common.{
  ℕ, zero, suc, ◌+◌, ◌≤◌, ◌<◌, ◌≡◌, refl, sym, ap, ◌∙◌, Option, none, some, List, [], ◌∷◌, ◌++◌,
  append-nil, append_assoc, map, arith, length, Bool, get_elem?, length-append, length-map,
}
use emilua.Scope.{
  Code, stop, throw, show, push, scope, State, Result, returned, raised, terminated, stuck, user,
  scope_cleanup_push, unsafe_scope_pop, run_root, interruption_already_allowed, run_handlers,
  then_restore, leave_scope, run, outermost, leave_root, spawn_start_fn, start_fn,
}
use emilua.Scope.Handlers.{restore_lem}

-- Code that registers a handler for each number and then returns or raises.
abbrev pub handler : ℕ → Code
handler k = show k stop

unfoldable pub registers : List ℕ → Option ℕ → Code
registers [] none = stop
registers [] (some e) = throw e
registers (k ∷ ks) end_ = push (handler k) (registers ks end_)

abbrev pub ended : Option ℕ → State → Result
ended none u = returned u
ended (some e) u = raised (user e) u

get_elem?-behind :
    (pre : List Code) (h : Code) (post : List Code)
    → get_elem? (pre ++ h ∷ post) (length pre) ≡ some h
get_elem?-behind [] h post = refl
get_elem?-behind (x ∷ pre) h post = get_elem?-behind pre h post

-- What the handlers show, the last one first.
unfoldable pub in_reverse : ℕ → List ℕ → List (ℕ × ℕ)
in_reverse d [] = []
in_reverse d (k ∷ ks) = in_reverse d ks ++ (k, d) ∷ []

-- A fiber that is interrupted or not.
module _ (i : Bool) where
  abbrev pub state : List (List Code) → ℕ → List (ℕ × ℕ) → State
  state scopes d shown_ = record { scopes = scopes; disabled = d; interrupted = i; shown = shown_ }

  run-registers :
      (n : ℕ) (ks : List ℕ) (end_ : Option ℕ) (top : List Code) (rest : List (List Code)) (d : ℕ)
      (o : List (ℕ × ℕ))
      → length ks < n
      → run n (registers ks end_) (state (top ∷ rest) d o)
        ≡ ended end_ (state ((top ++ map handler ks) ∷ rest) d o)
  unfolding run registers scope_cleanup_push
  run-registers zero ks end_ top rest d o fuel = absurd (omega (arith, fuel))
  run-registers (suc n) [] none top rest d o fuel =
      ap (λ t. returned (state (t ∷ rest) d o)) (sym (append-nil top))
  run-registers (suc n) [] (some e) top rest d o fuel =
      ap (λ t. raised (user e) (state (t ∷ rest) d o)) (sym (append-nil top))
  run-registers (suc n) (k ∷ ks) end_ top rest d o fuel =
      run-registers n ks end_ (top ++ handler k ∷ []) rest d o (omega (arith, fuel))
      ∙ ap (λ t. ended end_ (state (t ∷ rest) d o))
          (append_assoc top (handler k ∷ []) (map handler ks))

  run_handlers-map :
      (n : ℕ) (ks : List ℕ) (scopes : List (List Code)) (d : ℕ) (o : List (ℕ × ℕ))
      → run_handlers (run (suc (suc n))) (map handler ks) (state scopes d o)
        ≡ returned (state scopes d (o ++ in_reverse d ks))
  unfolding run_handlers run in_reverse
  run_handlers-map n [] scopes d o = ap (λ x. returned (state scopes d x)) (sym (append-nil o))
  run_handlers-map n (k ∷ ks) scopes d o =
      ap
        (λ r. elim r [
          | returned u ↦ elim (run (suc (suc n)) (handler k) u) [
            | returned w ↦ returned w
            | raised e w ↦ terminated w
            | terminated w ↦ terminated w
            | stuck ↦ stuck
          ]
          | raised e u ↦ raised e u
          | terminated u ↦ terminated u
          | stuck ↦ stuck
        ])
        (run_handlers-map n ks scopes d o)
      ∙ ap (λ x. returned (state scopes d x)) (append_assoc o (in_reverse d ks) ((k, d) ∷ []))

  -- A scope goes on with the code behind it, or raises the error of its body.
  abbrev pub after_scope : ℕ → Option ℕ → Code → State → Result
  after_scope n none code u = run n code u
  after_scope n (some e) code u = raised (user e) u

  leave_scope-map :
      (n : ℕ) (cont : State → Result) (ks : List ℕ) (scopes : List (List Code)) (d : ℕ)
      (o : List (ℕ × ℕ))
      → leave_scope (run (suc (suc n))) cont (state (map handler ks ∷ scopes) d o)
        ≡ cont (state scopes d (o ++ in_reverse (d + 1) ks))
  unfolding leave_scope unsafe_scope_pop
  leave_scope-map n cont ks scopes d o =
      ap
        (λ r. elim r [
          | returned w ↦ then_restore cont w
          | raised e w ↦ raised e w
          | terminated w ↦ terminated w
          | stuck ↦ stuck
        ])
        (run_handlers-map n ks scopes (d + 1) o)
      ∙ ap
          (λ r. elim r [
            | none ↦
                raised interruption_already_allowed
                  (state scopes (d + 1) (o ++ in_reverse (d + 1) ks))
            | some x ↦ cont x
          ])
          (restore_lem d (state scopes (d + 1) (o ++ in_reverse (d + 1) ks)) refl)

  run_root-show :
      (n k : ℕ) (pre post hs : List Code) (d : ℕ) (o : List (ℕ × ℕ))
      → hs ≡ pre ++ handler k ∷ post
      → run_root (run (suc (suc n))) (suc (length pre)) (state (hs ∷ []) d o)
        ≡ run_root (run (suc (suc n))) (length pre) (state (hs ∷ []) d (o ++ (k, d) ∷ []))
  unfolding run_root outermost run
  run_root-show n k pre post hs d o e =
      ap
        (λ x. elim x [
          | none ↦ terminated (state (hs ∷ []) d o)
          | some h ↦ elim (run (suc (suc n)) h (state (hs ∷ []) d o)) [
            | returned w ↦ run_root (run (suc (suc n))) (length pre) w
            | raised e w ↦ terminated w
            | terminated w ↦ terminated w
            | stuck ↦ stuck
          ]
        ])
        (ap (λ l. get_elem? l (length pre)) e ∙ get_elem?-behind pre (handler k) post)

  -- The handlers of the root scope that come last.
  run_root-map :
      (n : ℕ) (ks : List ℕ) (pre hs : List Code) (d : ℕ) (o : List (ℕ × ℕ))
      → hs ≡ pre ++ map handler ks
      → run_root (run (suc (suc n))) (length pre + length ks) (state (hs ∷ []) d o)
        ≡ run_root (run (suc (suc n))) (length pre) (state (hs ∷ []) d (o ++ in_reverse d ks))
  unfolding in_reverse
  run_root-map n [] pre hs d o e =
      ap (λ i. run_root (run (suc (suc n))) i (state (hs ∷ []) d o)) (omega arith)
      ∙ ap (λ x. run_root (run (suc (suc n))) (length pre) (state (hs ∷ []) d x))
          (sym (append-nil o))
  run_root-map n (k ∷ ks) pre hs d o e =
      let call = run (suc (suc n)) in
      let longer : length (pre ++ handler k ∷ []) ≡ suc (length pre) =
        omega (arith, length-append pre (handler k ∷ [])) in
      ap (λ i. run_root call i (state (hs ∷ []) d o)) (omega (arith, longer))
      ∙ run_root-map n ks (pre ++ handler k ∷ []) hs d o
          (e ∙ sym (append_assoc pre (handler k ∷ []) (map handler ks)))
      ∙ ap (λ i. run_root call i (state (hs ∷ []) d (o ++ in_reverse d ks))) longer
      ∙ run_root-show n k pre (map handler ks) hs d (o ++ in_reverse d ks) e
      ∙ ap (λ x. run_root call (length pre) (state (hs ∷ []) d x))
          (append_assoc o (in_reverse d ks) ((k, d) ∷ []))

  zero_first : (n : ℕ) → n ≡ 0 + n
  zero_first n = omega arith

  leave_root-map :
      (n : ℕ) (end_ : State → Result) (ks : List ℕ)
      → leave_root (run (suc (suc n))) end_ (state (map handler ks ∷ []) 0 [])
        ≡ end_ (state (map handler ks ∷ []) 1 (in_reverse 1 ks))
  unfolding leave_root outermost run_root
  leave_root-map n end_ ks =
      let s : State = state (map handler ks ∷ []) 1 [] in
      ap
        (λ r. elim r [
          | returned w ↦ end_ w
          | raised e w ↦ raised e w
          | terminated w ↦ terminated w
          | stuck ↦ stuck
        ])
        (ap (λ i. run_root (run (suc (suc n))) i s) (length-map ks handler ∙ zero_first (length ks))
          ∙ run_root-map n ks [] (map handler ks) 1 [] refl)

  -- For a scope whose body registers a handler for each number of a list and then returns or raises
  -- an error, with at least two more fuel than the list is long, the handlers run from the last to
  -- the first with the counter of disabled interruptions one higher; the scopes and the counter are
  -- then as before, and the code behind the scope runs, or the error is raised.
  pub scope-registers :
      (n : ℕ) (ks : List ℕ) (end_ : Option ℕ) (code : Code) (scopes : List (List Code)) (d : ℕ)
      (o : List (ℕ × ℕ))
      → length ks + 2 ≤ n
      → run (suc n) (scope (registers ks end_) code) (state scopes d o)
        ≡ after_scope n end_ code (state scopes d (o ++ in_reverse (d + 1) ks))
  unfolding run
  scope-registers zero ks end_ code scopes d o fuel = absurd (omega (arith, fuel))
  scope-registers (suc zero) ks end_ code scopes d o fuel = absurd (omega (arith, fuel))
  scope-registers (suc (suc m)) ks none code scopes d o fuel =
      ap
        (λ r. elim r [
          | returned u ↦ leave_scope (run (suc (suc m))) (run (suc (suc m)) code) u
          | raised e u ↦ leave_scope (run (suc (suc m))) (raised e) u
          | terminated u ↦ terminated u
          | stuck ↦ stuck
        ])
        (run-registers (suc (suc m)) ks none [] scopes d o (omega (arith, fuel)))
      ∙ leave_scope-map m (run (suc (suc m)) code) ks scopes d o
  scope-registers (suc (suc m)) ks (some x) code scopes d o fuel =
      ap
        (λ r. elim r [
          | returned u ↦ leave_scope (run (suc (suc m))) (run (suc (suc m)) code) u
          | raised e u ↦ leave_scope (run (suc (suc m))) (raised e) u
          | terminated u ↦ terminated u
          | stuck ↦ stuck
        ])
        (run-registers (suc (suc m)) ks (some x) [] scopes d o (omega (arith, fuel)))
      ∙ leave_scope-map m (raised (user x)) ks scopes d o

  -- What the two start functions show at the end.
  abbrev pub main_shows : Option ℕ → List ℕ → State → State
  main_shows none ks u = record u { disabled = 1; shown = in_reverse 1 ks }
  main_shows (some e) ks u = u

  -- For a fiber whose function registers a handler for each number of a list in its root scope and
  -- then returns or raises an error, with at least two more fuel than the list is long: in a
  -- spawned fiber the handlers run from the last to the first with the interruption disabled, and
  -- the fiber ends with the result of the function; the main fiber does the same if the function
  -- returns, and if it raises, ends with the error and no handler has run, though the tutorial says
  -- that the handlers of a root scope run on this exit too.
  pub start-registers :
      (n : ℕ) (ks : List ℕ) (end_ : Option ℕ)
      → length ks + 2 ≤ n
      → (spawn_start_fn i n (registers ks end_)
          ≡ ended end_ (state (map handler ks ∷ []) 1 (in_reverse 1 ks)))
        × (start_fn i n (registers ks end_)
            ≡ ended end_ (main_shows end_ ks (state (map handler ks ∷ []) 0 [])))
  unfolding spawn_start_fn start_fn
  start-registers zero ks end_ fuel = absurd (omega (arith, fuel))
  start-registers (suc zero) ks end_ fuel = absurd (omega (arith, fuel))
  start-registers (suc (suc m)) ks end_ fuel = (spawned end_, main end_)
    where
      spawned :
          (x : Option ℕ)
          → spawn_start_fn i (suc (suc m)) (registers ks x)
            ≡ ended x (state (map handler ks ∷ []) 1 (in_reverse 1 ks))
      spawned x =
          ap exit (run-registers (suc (suc m)) ks x [] [] 0 [] (omega (arith, fuel))) ∙ last x
        where
          exit : Result → Result
          exit r = elim r [
            | returned u ↦ leave_root (run (suc (suc m))) returned u
            | raised e u ↦ leave_root (run (suc (suc m))) (raised e) u
            | terminated u ↦ terminated u
            | stuck ↦ stuck
          ]

          last :
              (x : Option ℕ)
              → exit (ended x (state (map handler ks ∷ []) 0 []))
                ≡ ended x (state (map handler ks ∷ []) 1 (in_reverse 1 ks))
          last none = leave_root-map m returned ks
          last (some e) = leave_root-map m (raised (user e)) ks

      main :
          (x : Option ℕ)
          → start_fn i (suc (suc m)) (registers ks x)
            ≡ ended x (main_shows x ks (state (map handler ks ∷ []) 0 []))
      main x = ap exit (run-registers (suc (suc m)) ks x [] [] 0 [] (omega (arith, fuel))) ∙ last x
        where
          exit : Result → Result
          exit r = elim r [
            | returned u ↦ leave_root (run (suc (suc m))) returned u
            | raised e u ↦ raised e u
            | terminated u ↦ terminated u
            | stuck ↦ stuck
          ]

          last :
              (x : Option ℕ)
              → exit (ended x (state (map handler ks ∷ []) 0 []))
                ≡ ended x (main_shows x ks (state (map handler ks ∷ []) 0 []))
          last none = leave_root-map m returned ks
          last (some e) = refl
