-- ===== src/Scope/Balance.antt =====
-- src/scope_cleanup.cpp and bytecode/scope.lua: with enough fuel, code that uses scopes ends, and
-- leaves the counter of disabled interruptions and the outer scopes as they were.
use emilua.Common.{
  ℕ, zero, suc, ◌+◌, ◌<◌, ◌≡◌, refl, sym, ap, subst, ◌∙◌, Bool, true, false, Option, none, some,
  List, [], ◌∷◌, ◌++◌, arith,
}
use emilua.Scope.{
  pcall, check_not_interrupted, interrupted, Error, Code, stop, throw, show, push, pop, scope,
  State, Result, returned, raised, terminated, stuck, unmatched_scope_cleanup, scope_cleanup_push,
  scope_cleanup_pop, unsafe_scope_push, then_restore, leave_scope, call_handler, run,
}
use emilua.Scope.Fuel.{
  size, cost, weight, weight_fresh, weight_snoc, Kept, Kept-le, Ends, Ends-le, Popped, unmatched,
  taken, scope_cleanup_pop-Popped,
}
use emilua.Scope.Handlers.{then_restore-Ends, call_handler-Ends, leave_scope-Ends}

module _ (n : ℕ)
    (ih : (code : Code) (s : State) (top : List Code) (rest : List (List Code))
      → s.scopes ≡ top ∷ rest
      → size code + weight s.scopes < n
      → Ends (size code + weight s.scopes) s.disabled rest (run n code s)) where
  push-Ends :
      (h code : Code) (s : State) (top : List Code) (rest : List (List Code))
      → s.scopes ≡ top ∷ rest
      → size (push h code) + weight s.scopes < suc n
      → Ends (size (push h code) + weight s.scopes) s.disabled rest (run (suc n) (push h code) s)
  unfolding run size scope_cleanup_push
  push-Ends h code s top rest e fuel =
      let pushed : scope_cleanup_push h s ≡ record s { scopes = (top ++ h ∷ []) ∷ rest } =
        push_lem s.scopes e in
      let s' : State = record s { scopes = (top ++ h ∷ []) ∷ rest } in
      let heavier : weight s'.scopes ≡ weight s.scopes + cost h =
        weight_snoc h top rest ∙ ap (λ w. w + cost h) (ap weight (sym e)) in
      Ends-le s.disabled rest (run n code (scope_cleanup_push h s))
        (subst (λ u. Ends (size code + weight s'.scopes) s.disabled rest (run n code u))
          (sym pushed) (ih code s' (top ++ h ∷ []) rest refl (omega (arith, heavier, fuel))))
        (omega (arith, heavier))
    where
      push_lem :
          (xs : List (List Code))
          → xs ≡ top ∷ rest
          → elim xs [ [] ↦ s | t ∷ r ↦ record s { scopes = (t ++ h ∷ []) ∷ r } ]
            ≡ record s { scopes = (top ++ h ∷ []) ∷ rest }
      push_lem xs k =
          ap (λ xs. elim xs [ [] ↦ s | t ∷ r ↦ record s { scopes = (t ++ h ∷ []) ∷ r } ]) k

  pop-Ends :
      (execute : Bool) (code : Code) (s : State) (top : List Code) (rest : List (List Code))
      → s.scopes ≡ top ∷ rest
      → size (pop execute code) + weight s.scopes < suc n
      → Ends
          (size (pop execute code) + weight s.scopes)
          s.disabled
          rest
          (run (suc n) (pop execute code) s)
  unfolding run size
  pop-Ends execute code s top rest e fuel =
      by_popped (scope_cleanup_pop s) (scope_cleanup_pop-Popped s top rest e)
    where
      after_ :
          (x : State)
          → Kept (weight s.scopes) s.disabled rest x
          → Ends (1 + size code + weight s.scopes) s.disabled rest (run n code x)
      after_ x k =
          subst (λ d. Ends (1 + size code + weight s.scopes) d rest (run n code x)) k.disabled
            (Ends-le x.disabled rest (run n code x)
              (ih code x k.top rest k.scopes (omega (arith, fuel, k.bound)))
              (omega (arith, k.bound)))

      by_execute :
          (b : Bool) (h : Code) (u : State)
          → Kept (weight s.scopes) (s.disabled + 1) rest u
          → weight u.scopes + cost h ≡ weight s.scopes
          → Ends (1 + size code + weight s.scopes) s.disabled rest (elim b [
            | true ↦ call_handler (run n) (run n code) h u
            | false ↦ then_restore (run n code) u
          ])
      by_execute true h u k w =
          call_handler-Ends n (run n) (ih) (weight s.scopes) (1 + size code + weight s.scopes)
            s.disabled rest (run n code) after_ h u k (omega (arith, w)) (omega (arith, w, fuel))
      by_execute false h u k w =
          then_restore-Ends (weight s.scopes) (1 + size code + weight s.scopes) s.disabled rest
            (run n code) u k after_

      by_popped :
          (o : Option (Code × State))
          → Popped s rest o
          → Ends (1 + size code + weight s.scopes) s.disabled rest (elim o [
            | none ↦ raised unmatched_scope_cleanup s
            | some (h, u) ↦ elim execute [
              | true ↦ call_handler (run n) (run n code) h u
              | false ↦ then_restore (run n code) u
            ]
          ])
      by_popped _ unmatched = record { bound = omega arith; disabled = refl; top = top; scopes = e }
      by_popped _ (taken h u k w) = by_execute execute h u k w

  -- A body in a scope of its own, whose error may be caught.
  body-Ends :
      (body code : Code) (caught : Error → State → Result) (s : State) (top : List Code)
      (rest : List (List Code))
      → s.scopes ≡ top ∷ rest
      → size body + size code + weight s.scopes < n
      → ((x : Error) (w : State)
          → Kept (size body + weight s.scopes) s.disabled rest w
          → ((w : State)
              → Kept (size body + weight s.scopes) s.disabled rest w
              → Ends (1 + size body + size code + weight s.scopes) s.disabled rest (run n code w))
          → Ends (1 + size body + size code + weight s.scopes) s.disabled rest (caught x w))
      → Ends
          (1 + size body + size code + weight s.scopes)
          s.disabled
          rest
          (elim (run n body (unsafe_scope_push s)) [
            | returned u ↦ leave_scope (run n) (run n code) u
            | raised x u ↦ leave_scope (run n) (caught x) u
            | terminated u ↦ terminated u
            | stuck ↦ stuck
          ])
  body-Ends body code caught s top rest e fuel keeps = by_body (run n body (unsafe_scope_push s)) (
      Ends-le s.disabled (top ∷ rest) (run n body (unsafe_scope_push s))
        (subst
          (λ xs.
            Ends (size body + weight ([] ∷ s.scopes)) s.disabled xs
              (run n body (unsafe_scope_push s)))
          e
          (ih body (unsafe_scope_push s) [] s.scopes refl
            (omega (arith, fuel, weight_fresh s.scopes))))
        (omega (arith, weight_fresh s.scopes)))
    where
      c : ℕ
      c = 1 + size body + size code + weight s.scopes

      b : ℕ
      b = size body + weight s.scopes

      after_ : (x : State) → Kept b s.disabled rest x → Ends c s.disabled rest (run n code x)
      after_ x k =
          subst (λ d. Ends c d rest (run n code x)) k.disabled
            (Ends-le x.disabled rest (run n code x)
              (ih code x k.top rest k.scopes (omega (arith, fuel, k.bound)))
              (omega (arith, k.bound)))

      by_body :
          (r : Result)
          → Ends b s.disabled (top ∷ rest) r
          → Ends c s.disabled rest (elim r [
            | returned u ↦ leave_scope (run n) (run n code) u
            | raised x u ↦ leave_scope (run n) (caught x) u
            | terminated u ↦ terminated u
            | stuck ↦ stuck
          ])
      by_body (returned u) k =
          leave_scope-Ends n (run n) (ih) b c s.disabled rest (run n code) after_ top u k
            (omega (arith, fuel))
      by_body (raised x u) k =
          leave_scope-Ends n (run n) (ih) b c s.disabled rest (caught x) (λ w q. keeps x w q after_)
            top u k (omega (arith, fuel))
      by_body (terminated u) k = tt
      by_body stuck k = k

  scope-Ends :
      (body code : Code) (s : State) (top : List Code) (rest : List (List Code))
      → s.scopes ≡ top ∷ rest
      → size (scope body code) + weight s.scopes < suc n
      → Ends
          (size (scope body code) + weight s.scopes)
          s.disabled
          rest
          (run (suc n) (scope body code) s)
  unfolding run size
  scope-Ends body code s top rest e fuel =
      body-Ends body code raised s top rest e (omega (arith, fuel))
        (λ x w k after_. Kept-le k (omega arith))

  pcall-Ends :
      (body code : Code) (s : State) (top : List Code) (rest : List (List Code))
      → s.scopes ≡ top ∷ rest
      → size (pcall body code) + weight s.scopes < suc n
      → Ends
          (size (pcall body code) + weight s.scopes)
          s.disabled
          rest
          (run (suc n) (pcall body code) s)
  unfolding run size
  pcall-Ends body code s top rest e fuel = checked (check_not_interrupted s)
    where
      checked :
          (b : Bool)
          → Ends (1 + size body + size code + weight s.scopes) s.disabled rest (elim b [
            | false ↦ raised interrupted s
            | true ↦ elim (run n body (unsafe_scope_push s)) [
              | returned u ↦ leave_scope (run n) (run n code) u
              | raised x u ↦ leave_scope (run n) (run n code) u
              | terminated u ↦ terminated u
              | stuck ↦ stuck
            ]
          ])
      checked false = record { bound = omega arith; disabled = refl; top = top; scopes = e }
      checked true =
          body-Ends body code (λ x. run n code) s top rest e (omega (arith, fuel))
            (λ x w k after_. after_ w k)

-- With more fuel than the size of the code and of the handlers that are registered, running the
-- code in a fiber that has a scope does not get stuck: it terminates the VM, or it returns or
-- raises in a state whose handlers weigh no more than both did, in which the counter of disabled
-- interruptions is as before, a scope is there, and the scopes outside it are as before.
pub run-Ends :
    (n : ℕ) (code : Code) (s : State) (top : List Code) (rest : List (List Code))
    → s.scopes ≡ top ∷ rest
    → size code + weight s.scopes < n
    → Ends (size code + weight s.scopes) s.disabled rest (run n code s)
unfolding run size
run-Ends zero code s top rest e fuel = absurd (omega (arith, fuel))
run-Ends (suc n) stop s top rest e fuel = record {
  bound = omega arith;
  disabled = refl;
  top = top;
  scopes = e;
}
run-Ends (suc n) (throw x) s top rest e fuel = record {
  bound = omega arith;
  disabled = refl;
  top = top;
  scopes = e;
}
run-Ends (suc n) (show k code) s top rest e fuel =
    let s' : State = record s { shown = s.shown ++ (k, s.disabled) ∷ [] } in
    Ends-le s.disabled rest (run n code s') (run-Ends n code s' top rest e (omega (arith, fuel)))
      (omega arith)
run-Ends (suc n) (push h code) s top rest e fuel = push-Ends n (run-Ends n) h code s top rest e fuel
run-Ends (suc n) (pop execute code) s top rest e fuel =
    pop-Ends n (run-Ends n) execute code s top rest e fuel
run-Ends (suc n) (scope body code) s top rest e fuel =
    scope-Ends n (run-Ends n) body code s top rest e fuel
run-Ends (suc n) (pcall body code) s top rest e fuel =
    pcall-Ends n (run-Ends n) body code s top rest e fuel
