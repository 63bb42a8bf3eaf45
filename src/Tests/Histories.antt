-- ===== src/Tests/Histories.antt =====
-- A history in which fibers are spawned, joined, interrupted and end.
use emilua.Common.{
  ℕ, zero, suc, ◌+◌, Bool, ◌≡◌, refl, sym, ap, inl, true, false, Option, none, some, List, [], ◌∷◌,
  arith, total,
}
use emilua.Runtime.{
  userdata, boolean, detached, joined, Joiner, counter, is_disabled, Fiber, FiberHandle, fiber_join,
  Post, set_interrupter, check_userdata, unsafe_can_suspend,
}
use emilua.Runtime.Places.{waiting, post_waiters, fiber_waiters}
use emilua.Fiber
use emilua.Fiber.{fiber_kind, check_joinable, join_fiber, start_join}
use emilua.Scheduler.{
  System, Event, call, finish, wake, returned, spawn, yield_, join, step, step_in, perform, run,
  wake_next, fiber_resume, fiber_epilogue, end_joined, settle_handle, join_arguments,
}
use emilua.Scheduler.Links.{live, joining, life_of, life, guard_of, guard, handle_of, handle}
use emilua.Scheduler.Account.{lives, lives_of, runs, Good}
use emilua.Scheduler.Endings.{Sound}
use emilua.Scheduler.Histories.{run-Sound, waits_once, resumes_live}

abbrev main_fiber_ : Fiber
main_fiber_ = record {
  joiner = detached;
  status = none;
  suspension_disallowed = 0;
  interruption_disabled = counter 0;
  interrupted = false;
  interrupter = none;
  user_handle = none;
  stack = [];
}

-- A VM whose main fiber runs.
abbrev started : System
started = record {
  vm = record {
    valid = true;
    main_fiber = 0;
    current_fiber = 0;
    async_event_thread = 100;
    fibers = some main_fiber_ ∷ [];
    objects = [];
    strand = [];
  };
  running = some [];
}

started-life : (t : ℕ) (j : Joiner) (u : Option ℕ) → life started.vm t ≡ live j u → j ≡ detached
unfolding life life_of
started-life zero j u e = ap (λ o. elim o [ none ↦ detached | some (x, y, z) ↦ y ]) (sym e)
started-life (suc t) j u e = cc

started-Good : Good started
unfolding waiting total lives life life_of lives_of fiber_waiters handle guard guard_of handle_of
started-Good = record {
  account = account;
  links = record {
    unjoined = λ id t h j u a b c. absurd (no_handle h a);
    unique = λ id id' t h h' a. absurd (no_handle h a);
    known = λ id t h a. absurd (no_handle h a);
    target = λ t j u e. absurd (clash j (started-life t (joined j) u e));
    joins = λ c id f t b e. absurd (no_guard c id f t b e);
  };
}
  where
    account :
        (g : ℕ) → waiting g started.vm + runs g started.running started.vm ≡ lives g started.vm
    account zero = refl
    account (suc g) = ground arith

    no_handle : (h : FiberHandle) → none ≡ some h → ⊥
    no_handle h k = cc

    clash : (j : ℕ) → joined j ≡ detached → ⊥
    clash j k = cc

    no_guard : (c id f t : ℕ) (b : Bool) → guard started.vm c ≡ joining id f t b → ⊥
    no_guard zero id f t b e = other (ap (λ o. elim o [ none ↦ none | some (x, y) ↦ x ]) e)
      where
        other : none ≡ some (fiber_join id f t) → ⊥
        other k = cc
    no_guard (suc c) id f t b e = cc

-- The main fiber spawns a fiber and joins it; that fiber ends, and the main fiber goes on.
abbrev joins_and_ends : List Event
joins_and_ends =
    call spawn ∷ call (join (userdata 0)) ∷ wake ∷ finish (returned (boolean false ∷ [])) ∷ []

-- Both fibers are to be woken.
abbrev spawns_and_yields : List Event
spawns_and_yields = call spawn ∷ call yield_ ∷ []

joins_and_ends_runs :
    (run joins_and_ends started).running ≡ some (boolean true ∷ boolean false ∷ [])
unfolding run step step_in perform Fiber.spawn Fiber.join fiber_kind check_userdata
    unsafe_can_suspend check_joinable join_fiber start_join set_interrupter is_disabled wake_next
    fiber_resume fiber_epilogue end_joined settle_handle join_arguments
joins_and_ends_runs = refl

run-Sound_example : Sound (run joins_and_ends started)
run-Sound_example = run-Sound joins_and_ends started (inl started-Good)

still_valid : (run joins_and_ends started).vm.valid ≡ true
unfolding run step step_in perform Fiber.spawn Fiber.join fiber_kind check_userdata
    unsafe_can_suspend check_joinable join_fiber start_join set_interrupter is_disabled wake_next
    fiber_resume fiber_epilogue end_joined settle_handle join_arguments
still_valid = refl

waits_once_example :
    waiting 0 (run joins_and_ends started).vm
      + runs 0 (run joins_and_ends started).running (run joins_and_ends started).vm
    ≡ lives 0 (run joins_and_ends started).vm
waits_once_example = waits_once joins_and_ends started started-Good 0 still_valid

abbrev post_of : ℕ → Post
post_of f = record { fiber = f; arguments = []; skip_clear_interrupter = true }

yields_valid : (run spawns_and_yields started).vm.valid ≡ true
unfolding run step step_in perform Fiber.spawn Fiber.this_fiber_yield unsafe_can_suspend is_disabled
yields_valid = refl

yields_strand : (run spawns_and_yields started).vm.strand ≡ post_of 1 ∷ post_of 0 ∷ []
unfolding run step step_in perform Fiber.spawn Fiber.this_fiber_yield unsafe_can_suspend is_disabled
yields_strand = refl

resumes_live_example :
    (lives 1 (run spawns_and_yields started).vm ≡ 1)
    × (runs 1 (run spawns_and_yields started).running (run spawns_and_yields started).vm ≡ 0)
    × (total (post_waiters 1) (post_of 0 ∷ []) ≡ 0)
resumes_live_example =
    resumes_live spawns_and_yields started started-Good (post_of 1) (post_of 0 ∷ []) yields_valid
      yields_strand
