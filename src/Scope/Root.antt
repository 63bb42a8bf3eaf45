-- ===== src/Scope/Root.antt =====
-- bytecode/spawn_start_fn.lua: a spawned fiber ends, with the handlers of its root scope, which may
-- register and take handlers of this scope while it is walked.
use emilua.Common.{
  ℕ, zero, suc, ◌+◌, ◌≤◌, ◌<◌, ◌≡◌, refl, sym, ap, subst, ◌∙◌, Option, none, some, List, [], ◌∷◌,
  arith, total, Bool, get_elem?, length,
}
use emilua.Scope.{
  Code, State, Result, returned, raised, terminated, stuck, root_scope, run_root, run, outermost,
  leave_root, new_scopes, spawn_start_fn,
}
use emilua.Scope.Fuel.{
  size, cost, weight, weight_cons, weight_fresh, weight_none, Kept, Ends, Ends-le, Runs,
}
use emilua.Scope.Balance.{run-Ends}

-- The second number doubled as often as the first says.
unfoldable pub doubled : ℕ → ℕ → ℕ
doubled zero w = w
doubled (suc i) w = doubled i (w + w)

doubled-le : (i v w : ℕ) → v ≤ w → doubled i v ≤ doubled i w
unfolding doubled
doubled-le zero v w h = h
doubled-le (suc i) v w h = doubled-le i (v + v) (w + w) (omega (arith, h))

doubled_grows : (i w : ℕ) → w ≤ doubled i w
unfolding doubled
doubled_grows zero w = omega arith
doubled_grows (suc i) w = omega (arith, doubled_grows i (w + w))

doubled_more : (i j w : ℕ) → i ≤ j → doubled i w ≤ doubled j w
unfolding doubled
doubled_more zero j w h = doubled_grows j w
doubled_more (suc i) zero w h = absurd (omega (arith, h))
doubled_more (suc i) (suc j) w h = doubled_more i j (w + w) (omega (arith, h))

Runs-le :
    {b c : ℕ} (d d' : ℕ) (rest : List (List Code)) (r : Result)
    → Runs b d rest r
    → b ≤ c
    → d ≡ d'
    → Runs c d' rest r
Runs-le d d' rest (returned u) k le e = record {
  bound = omega (arith, k.bound, le);
  disabled = k.disabled ∙ e;
  top = k.top;
  scopes = k.scopes;
}
Runs-le d d' rest (raised x u) k le e = k
Runs-le d d' rest (terminated u) k le e = tt
Runs-le d d' rest stuck k le e = k

length-cost : (hs : List Code) → length hs ≤ total cost hs
unfolding total
length-cost [] = omega arith
length-cost (h ∷ hs) = omega (arith, length-cost hs)

abbrev Costs : ℕ → Option Code → Type 0
Costs w none = Unit
Costs w (some h) = size h ≤ w

get_elem?-Costs : (hs : List Code) (i : ℕ) → Costs (total cost hs) (get_elem? hs i)
unfolding total
get_elem?-Costs [] i = tt
get_elem?-Costs (h ∷ hs) zero = omega arith
get_elem?-Costs (h ∷ hs) (suc i) = later (get_elem? hs i) (get_elem?-Costs hs i)
  where
    later : (o : Option Code) → Costs (total cost hs) o → Costs (cost h + total cost hs) o
    later none k = tt
    later (some x) k = omega (arith, k)

root_weight : (s : State) (top : List Code) → s.scopes ≡ top ∷ [] → weight s.scopes ≡ total cost top
root_weight s top e = ap weight e ∙ omega (arith, weight_cons top [], weight_none)

module _ (n : ℕ) where
  -- Each handler at most doubles what is registered.
  run_root-Runs :
      (i : ℕ) (s : State) (top : List Code)
      → s.scopes ≡ top ∷ []
      → doubled i (weight s.scopes) < n
      → Runs (doubled i (weight s.scopes)) s.disabled [] (run_root (run n) i s)
  unfolding run_root outermost doubled
  run_root-Runs zero s top e fuel = record {
    bound = omega arith;
    disabled = refl;
    top = top;
    scopes = e;
  }
  run_root-Runs (suc i) s top e fuel =
      subst (λ xs. Runs b s.disabled [] (by_entry (get_elem? (outermost xs) i))) (sym e)
        (found (run_root-Runs i) (get_elem? top i) (get_elem?-Costs top i))
    where
      w : ℕ
      w = weight s.scopes

      b : ℕ
      b = doubled i (w + w)

      by_end : Result → Result
      by_end r = elim r [
        | returned u ↦ run_root (run n) i u
        | raised x u ↦ terminated u
        | terminated u ↦ terminated u
        | stuck ↦ stuck
      ]

      by_entry : Option Code → Result
      by_entry o = elim o [ none ↦ terminated s | some h ↦ by_end (run n h s) ]

      Later : Type 0
      Later =
          (u : State) (top : List Code)
          → u.scopes ≡ top ∷ []
          → doubled i (weight u.scopes) < n
          → Runs (doubled i (weight u.scopes)) u.disabled [] (run_root (run n) i u)

      ended : Later → (r : Result) → Ends (w + w) s.disabled [] r → Runs b s.disabled [] (by_end r)
      ended later (returned u) k =
          let less = doubled-le i (weight u.scopes) (w + w) k.bound in
          Runs-le u.disabled s.disabled [] (run_root (run n) i u)
            (later u k.top k.scopes (omega (arith, less, fuel))) less k.disabled
      ended later (raised x u) k = tt
      ended later (terminated u) k = tt
      ended later stuck k = k

      found :
          Later → (o : Option Code) → Costs (total cost top) o → Runs b s.disabled [] (by_entry o)
      found later none k = tt
      found later (some h) k =
          let small : size h ≤ w = omega (arith, k, root_weight s top e) in
          ended later (run n h s) (
            Ends-le s.disabled [] (run n h s)
              (run-Ends n h s top [] e (omega (arith, small, doubled_grows i (w + w), fuel)))
              (omega (arith, small)))

  leave_root-Ends :
      (c : ℕ) (cont : State → Result)
      → ((x : State) → Kept (doubled c c) 1 [] x → Ends (doubled c c) 1 [] (cont x))
      → (u : State) → Kept c 0 [] u
      → doubled c c < n
      → Ends (doubled c c) 1 [] (leave_root (run n) cont u)
  unfolding leave_root outermost
  leave_root-Ends c cont go u k fuel =
      subst
        (λ xs. Ends (doubled c c) 1 [] (by_result (run_root (run n) (length (outermost xs)) u')))
        (sym k.scopes)
        (by_runs (run_root (run n) (length k.top) u') (
          Runs-le u'.disabled 1 [] (run_root (run n) (length k.top) u')
            (run_root-Runs (length k.top) u' k.top k.scopes (omega (arith, less, fuel))) less
            (ap (λ d. d + 1) k.disabled)))
    where
      u' : State
      u' = root_scope u

      few : length k.top ≤ c
      few = omega (arith, length-cost k.top, root_weight u k.top k.scopes, k.bound)

      less : doubled (length k.top) (weight u.scopes) ≤ doubled c c
      less = omega (
        arith,
        doubled-le (length k.top) (weight u.scopes) c k.bound,
        doubled_more (length k.top) c c few,
      )

      by_result : Result → Result
      by_result r = elim r [
        | returned w ↦ cont w
        | raised e w ↦ raised e w
        | terminated w ↦ terminated w
        | stuck ↦ stuck
      ]

      by_runs : (r : Result) → Runs (doubled c c) 1 [] r → Ends (doubled c c) 1 [] (by_result r)
      by_runs (returned w) x = go w x
      by_runs (raised e w) x = absurd x
      by_runs (terminated w) x = tt
      by_runs stuck x = x

-- With more fuel than the size of its function doubled as often as this size says, a spawned fiber,
-- interrupted or not, does not get stuck: the VM is terminated, or the fiber returns or raises in a
-- state with its root scope alone, handlers that weigh at most as much as that, and a counter of
-- disabled interruptions of one.
pub spawn_start_fn-Ends :
    (i : Bool) (n : ℕ) (code : Code)
    → doubled (size code) (size code) < n
    → Ends (doubled (size code) (size code)) 1 [] (spawn_start_fn i n code)
unfolding spawn_start_fn
spawn_start_fn-Ends i n code fuel = by_code (run n code (new_scopes i)) (
    Ends-le 0 [] (run n code (new_scopes i))
      (run-Ends n code (new_scopes i) [] [] refl
        (omega (arith, fuel, empty, doubled_grows (size code) (size code))))
      (omega (arith, empty)))
  where
    b : ℕ
    b = doubled (size code) (size code)

    empty : weight ([] ∷ []) ≡ 0
    empty = weight_fresh [] ∙ weight_none

    by_code :
        (r : Result)
        → Ends (size code) 0 [] r
        → Ends b 1 [] (elim r [
          | returned u ↦ leave_root (run n) returned u
          | raised e u ↦ leave_root (run n) (raised e) u
          | terminated u ↦ terminated u
          | stuck ↦ stuck
        ])
    by_code (returned u) k = leave_root-Ends n (size code) returned (λ x q. q) u k fuel
    by_code (raised e u) k = leave_root-Ends n (size code) (raised e) (λ x q. q) u k fuel
    by_code (terminated u) k = tt
    by_code stuck k = k
