-- ===== src/Fiber/Counters.antt =====
-- src/fiber.cpp: the counters of `this_fiber` nest.
use emilua.Common.{
  ℕ, suc, zero, ◌+◌, ◌-◌, ◌<◌, ◌≡◌, ◌≢◌, refl, sym, ap, ◌∙◌, false, some, List, [], ◌∷◌, arith,
  ◌==◌, get_elem?, set, get_elem?-set_found,
}
use emilua.Runtime.{Error, counter, Fiber, Vm, M, done, raised, yielded, put_fiber, ◌>>=◌, ◌>>◌}
use emilua.Fiber.{
  to_counter, Counter, interruption_disabled, suspension_disallowed, read_counter, write_counter,
  increment_this_fiber_counter, decrement_this_fiber_counter,
}

bind_after :
    {A B : Type 0} (x : M A) (f : A → M B) {v w : Vm} {a : A} → x v ≡ done a w → (x >>= f) v ≡ f a w
bind_after x f e =
    λ i. elim (e i) [ done a u ↦ f a u | raised r u ↦ raised r u | yielded u ↦ yielded u ]

set-set : {A : Type 0} (xs : List A) (i : ℕ) (a b : A) → set (set xs i a) i b ≡ set xs i b
set-set [] i a b = refl
set-set (x ∷ xs) zero a b = refl
set-set (x ∷ xs) (suc i) a b = ap (◌∷◌ x) (set-set xs i a b)

set_same : {A : Type 0} (xs : List A) (i : ℕ) (a : A) → get_elem? xs i ≡ some a → set xs i a ≡ xs
set_same [] i a e = refl
set_same (x ∷ xs) zero a e = let same : x ≡ a = cc in rw same refl
set_same (x ∷ xs) (suc i) a e = ap (◌∷◌ x) (set_same xs i a e)

module _ (c : Counter) (v : Vm) (fiber : Fiber)
    (not_system : v.current_fiber ≢ v.async_event_thread)
    (at : get_elem? v.fibers v.current_fiber ≡ some (some fiber)) where
  increment_lem :
      increment_this_fiber_counter c v
      ≡ done tt
          (put_fiber v.current_fiber (some (write_counter c (read_counter c fiber + 1) fiber)) v)
  unfolding increment_this_fiber_counter
  increment_lem =
      let other : (v.current_fiber == v.async_event_thread) ≡ false = ground (arith, not_system) in
      rw (other, at) refl

  decrement_lem :
      (e : Error)
      → 0 < read_counter c fiber
      → decrement_this_fiber_counter c e v
        ≡ done tt
            (put_fiber v.current_fiber (some (write_counter c (read_counter c fiber - 1) fiber)) v)
  unfolding decrement_this_fiber_counter
  decrement_lem e some_ =
      let other : (v.current_fiber == v.async_event_thread) ≡ false = ground (arith, not_system) in
      let positive : (read_counter c fiber == 0) ≡ false = ground arith in
      rw (other, at, positive) refl

read-write : (c : Counter) (n : ℕ) (fiber : Fiber) → read_counter c (write_counter c n fiber) ≡ n
unfolding read_counter write_counter
read-write interruption_disabled n fiber = refl
read-write suspension_disallowed n fiber = refl

write_back :
    (c : Counter) (n : ℕ) (d : ℕ) (fiber : Fiber)
    → fiber.interruption_disabled ≡ counter d
    → write_counter c (read_counter c fiber) (write_counter c n fiber) ≡ fiber
unfolding read_counter write_counter
write_back interruption_disabled n d fiber e =
    ap (λ x. record fiber { interruption_disabled = counter (to_counter x) }) e
    ∙ ap (λ x. record fiber { interruption_disabled = x }) (sym e)
write_back suspension_disallowed n d fiber e = refl

-- For a fiber that is not the event thread, has an entry in the table and counts its disabled
-- interruptions, an increment of one of its two counters followed by a decrement of it succeeds and
-- leaves the VM as it was.
pub counters-nest :
    (c : Counter) (e : Error) (v : Vm) (fiber : Fiber) (d : ℕ)
    → v.current_fiber ≢ v.async_event_thread
    → get_elem? v.fibers v.current_fiber ≡ some (some fiber)
    → fiber.interruption_disabled ≡ counter d
    → (increment_this_fiber_counter c >> decrement_this_fiber_counter c e) v ≡ done tt v
counters-nest c e v fiber d not_system at is_counter =
    let n : ℕ = read_counter c fiber in
    let up : Fiber = write_counter c (n + 1) fiber in
    let w : Vm = put_fiber v.current_fiber (some up) v in
    let read : read_counter c up ≡ n + 1 = read-write c (n + 1) fiber in
    let back : read_counter c up - 1 ≡ n = omega arith in
    let whole : write_counter c (read_counter c up - 1) up ≡ fiber =
      ap (λ k. write_counter c k up) back ∙ write_back c (n + 1) d fiber is_counter in
    bind_after (increment_this_fiber_counter c) (λ _. decrement_this_fiber_counter c e) {v = v}
      (increment_lem c v fiber not_system at)
    ∙ decrement_lem c w up not_system
        (get_elem?-set_found v.fibers v.current_fiber (some fiber) (some up) at) e (omega arith)
    ∙ ap (λ f. done tt (put_fiber v.current_fiber (some f) w)) whole
    ∙ ap (λ t. done tt (record v { fibers = t }))
        (set-set v.fibers v.current_fiber (some up) (some fiber)
          ∙ set_same v.fibers v.current_fiber (some fiber) at)
