-- ===== src/Scope/Handlers.antt =====
-- src/scope_cleanup.cpp and bytecode/scope.lua: what the handlers of a scope keep, if each call does.
use emilua.Common.{
  ℕ, ◌+◌, ◌-◌, ◌≤◌, ◌<◌, ◌≡◌, refl, sym, ap, subst, ◌∙◌, false, none, some, List, [], ◌∷◌, arith,
  total, ◌==◌, if◌then◌else◌,
}
use emilua.Scope.{
  Code, State, Result, returned, raised, terminated, stuck, interruption_already_allowed,
  disable_interruption, restore_interruption, unsafe_scope_pop, run_handlers, then_restore,
  leave_scope, call_handler,
}
use emilua.Scope.Fuel.{size, cost, weight, weight_cons, Kept, Ends, Runs}

pub restore_lem :
    (d : ℕ) (w : State)
    → w.disabled ≡ d + 1
    → restore_interruption w ≡ some (record w { disabled = d })
unfolding restore_interruption
restore_lem d w e =
    let test : (w.disabled == 0) ≡ false = ground arith in
    let less : w.disabled - 1 ≡ d = omega arith in
    λ i. if test i then none else some (record w { disabled = less i })

pub then_restore-Ends :
    (b c d : ℕ) (rest : List (List Code)) (cont : State → Result) (w : State)
    → Kept b (d + 1) rest w
    → ((x : State) → Kept b d rest x → Ends c d rest (cont x))
    → Ends c d rest (then_restore cont w)
then_restore-Ends b c d rest cont w k go =
    subst
      (λ o.
        Ends c d rest (elim o [ none ↦ raised interruption_already_allowed w | some x ↦ cont x ]))
      (sym (restore_lem d w k.disabled))
      (go (record w { disabled = d })
        (record { bound = k.bound; disabled = refl; top = k.top; scopes = k.scopes }))

module _ (n : ℕ) (call : Code → State → Result)
    (ends : (h : Code) (u : State) (top : List Code) (rest : List (List Code))
      → u.scopes ≡ top ∷ rest
      → size h + weight u.scopes < n
      → Ends (size h + weight u.scopes) u.disabled rest (call h u)) where
  pub run_handlers-Runs :
      (hs : List Code) (s : State) (top : List Code) (rest : List (List Code))
      → s.scopes ≡ top ∷ rest
      → total cost hs + weight s.scopes < n
      → Runs (total cost hs + weight s.scopes) s.disabled rest (run_handlers call hs s)
  unfolding run_handlers total
  run_handlers-Runs [] s top rest e fuel = record {
    bound = omega arith;
    disabled = refl;
    top = top;
    scopes = e;
  }
  run_handlers-Runs (h ∷ hs) s top rest e fuel =
      later (run_handlers call hs s) (run_handlers-Runs hs s top rest e (omega (arith, fuel)))
    where
      now :
          (u : State)
          → Kept (total cost hs + weight s.scopes) s.disabled rest u
          → (r : Result) → Ends (size h + weight u.scopes) u.disabled rest r
          → Runs (cost h + total cost hs + weight s.scopes) s.disabled rest (elim r [
            | returned w ↦ returned w
            | raised e w ↦ terminated w
            | terminated w ↦ terminated w
            | stuck ↦ stuck
          ])
      now u k (returned w) x = record {
        bound = omega (arith, k.bound, x.bound);
        disabled = x.disabled ∙ k.disabled;
        top = x.top;
        scopes = x.scopes;
      }
      now u k (raised e w) x = tt
      now u k (terminated w) x = tt
      now u k stuck x = x

      later :
          (r : Result)
          → Runs (total cost hs + weight s.scopes) s.disabled rest r
          → Runs (cost h + total cost hs + weight s.scopes) s.disabled rest (elim r [
            | returned u ↦ elim (call h u) [
              | returned w ↦ returned w
              | raised e w ↦ terminated w
              | terminated w ↦ terminated w
              | stuck ↦ stuck
            ]
            | raised e u ↦ raised e u
            | terminated u ↦ terminated u
            | stuck ↦ stuck
          ])
      later (returned u) k =
          now u k (call h u) (ends h u k.top rest k.scopes (omega (arith, fuel, k.bound)))
      later (raised e u) k = k
      later (terminated u) k = k
      later stuck k = k

  module _ (b c d : ℕ) (rest : List (List Code)) (cont : State → Result)
      (go : (x : State) → Kept b d rest x → Ends c d rest (cont x)) where
    pub call_handler-Ends :
        (h : Code) (u : State)
        → Kept b (d + 1) rest u
        → size h + weight u.scopes ≤ b
        → size h + weight u.scopes < n
        → Ends c d rest (call_handler call cont h u)
    unfolding call_handler
    call_handler-Ends h u k le fuel = by_result (call h u) (ends h u k.top rest k.scopes fuel)
      where
        by_result :
            (r : Result)
            → Ends (size h + weight u.scopes) u.disabled rest r
            → Ends c d rest (elim r [
              | returned w ↦ then_restore cont w
              | raised e w ↦ terminated w
              | terminated w ↦ terminated w
              | stuck ↦ stuck
            ])
        by_result (returned w) x =
            then_restore-Ends b c d rest cont w
              (record {
                bound = omega (arith, x.bound, le);
                disabled = x.disabled ∙ k.disabled;
                top = x.top;
                scopes = x.scopes;
              })
              go
        by_result (raised e w) x = tt
        by_result (terminated w) x = tt
        by_result stuck x = x

    pub leave_scope-Ends :
        (outer : List Code) (u : State)
        → Kept b d (outer ∷ rest) u
        → b < n
        → Ends c d rest (leave_scope call cont u)
    unfolding leave_scope unsafe_scope_pop
    leave_scope-Ends outer u k fuel = by_scopes u.scopes k.scopes
      where
        all : weight u.scopes ≡ total cost k.top + weight (outer ∷ rest)
        all = ap weight k.scopes ∙ weight_cons k.top (outer ∷ rest)

        after_pop : State
        after_pop = disable_interruption (record u { scopes = outer ∷ rest })

        by_result :
            (r : Result)
            → Runs (total cost k.top + weight (outer ∷ rest)) (u.disabled + 1) rest r
            → Ends c d rest (elim r [
              | returned w ↦ then_restore cont w
              | raised e w ↦ raised e w
              | terminated w ↦ terminated w
              | stuck ↦ stuck
            ])
        by_result (returned w) x =
            then_restore-Ends b c d rest cont w
              (record {
                bound = omega (arith, x.bound, all, k.bound);
                disabled = x.disabled ∙ ap (λ m. m + 1) k.disabled;
                top = x.top;
                scopes = x.scopes;
              })
              go
        by_result (raised e w) x = absurd x
        by_result (terminated w) x = tt
        by_result stuck x = x

        popped : List (List Code) → List Code × State
        popped xs = elim xs [
          | [] ↦ ([], disable_interruption u)
          | top ∷ rest ↦ (top, disable_interruption (record u { scopes = rest }))
        ]

        left : List Code × State → Result
        left (handlers, s) = elim (run_handlers call handlers s) [
          | returned w ↦ then_restore cont w
          | raised e w ↦ raised e w
          | terminated w ↦ terminated w
          | stuck ↦ stuck
        ]

        by_scopes :
            (xs : List (List Code)) → xs ≡ k.top ∷ outer ∷ rest → Ends c d rest (left (popped xs))
        by_scopes xs e =
            subst (λ xs. Ends c d rest (left (popped xs))) (sym e)
              (by_result (run_handlers call k.top after_pop) (
                run_handlers-Runs k.top after_pop outer rest refl
                  (omega (arith, all, k.bound, fuel))))
