-- ===== src/Scheduler/Stops.antt =====
-- The interrupter that `join` of src/fiber.cpp sets keeps the links and the wake-ups.
use native.Mathlib.Decide.{ℕ_discrete}
use emilua.Common.{
  ℕ, ◌≡◌, ◌≢◌, refl, sym, ap, subst, ◌∙◌, ◌⊎◌, inl, inr, Bool, false, Option, none, some, [], ◌∷◌,
  arith, hit, get_elem?, length-set, Option-cases,
}
use emilua.Runtime.{
  boolean, failure, interrupted, Joiner, alive, joined, is_disabled, Fiber, FiberHandle, Object,
  mutex, recursive_mutex, cond, shared_state, promise, future, fiber_handle, fiber_join, Post, Vm,
  put, put_fiber, post, lookup_fiber,
}
use emilua.Runtime.Places.{
  waiting, object_waiters, fiber_waiters, waiting-put, waiting-put_fiber, waiting-post,
  lookup_fiber_entry,
}
use emilua.Fiber.{reset_joiner, reset_handle, interrupt_join, clear_interrupter}
use emilua.Scheduler.Links.{
  live, joining, life_of, life, guard_of, guard, handle_of, handle, Links, life-put_fiber,
  life-put_fiber_ne, guard-put_fiber, guard-put_fiber_same, handle-put, handle-put_ne,
}
use emilua.Scheduler.Quiet.{
  IsIdle, Grows, Grows-same, Grows-trans, Quiet, Quiet-trans, Quiet-Links, Quiet-post,
}
use emilua.Scheduler.Gets.{clear_interrupter-Quiet}
use emilua.Scheduler.Changes.{some_index, Changes, Changes-handle, Changes-Links, Changes-joins}
use emilua.Scheduler.Account.{lives, lives_of, lives-Quiet, life_entry}

pub handle_entry :
    (v : Vm) (id : ℕ) (h : FiberHandle)
    → handle v id ≡ some h
    → get_elem? v.objects id ≡ some (fiber_handle h)
unfolding handle handle_of
handle_entry v id h e = go (get_elem? v.objects id) refl e
  where
    go :
        (o : Option Object)
        → get_elem? v.objects id ≡ o
        → handle_of o ≡ some h
        → get_elem? v.objects id ≡ some (fiber_handle h)
    go (some (fiber_handle g)) at k =
        at ∙ ap (λ o. elim o [ none ↦ some (fiber_handle g) | some x ↦ some (fiber_handle x) ]) k
    go none at k = absurd (clash k)
      where
        clash : none ≡ some h → ⊥
        clash c = cc
    go (some (mutex m)) at k = cc
    go (some (recursive_mutex m)) at k = cc
    go (some (cond m)) at k = cc
    go (some (shared_state m)) at k = cc
    go (some (promise m)) at k = cc
    go (some (future m)) at k = cc

-- What keeps the fibers that are alive, the links and the wake-ups.
pub record Keeps (v w : Vm) : Type 0 where
  pub current : w.current_fiber ≡ v.current_fiber
  pub lives_same : (g : ℕ) → lives g w ≡ lives g v
  pub links : Links w
  pub grows : Grows v w
  pub waiting_same : (g : ℕ) → waiting g w ≡ waiting g v

pub Quiet-Keeps :
    (v w : Vm) → Links v → Quiet v w → ((g : ℕ) → waiting g w ≡ waiting g v) → Keeps v w
Quiet-Keeps v w l q same = record {
  current = q.current;
  lives_same = lives-Quiet v w q;
  links = Quiet-Links q l;
  grows = q.grows;
  waiting_same = same;
}

pub waiting-clear : (c : ℕ) (v : Vm) (g : ℕ) → waiting g (clear_interrupter c v) ≡ waiting g v
unfolding clear_interrupter fiber_waiters
waiting-clear c v g = elim (Option-cases (lookup_fiber v c)) [
  | inl e ↦ rw (e, clear_interrupter) refl
  | inr (fiber, e) ↦
      rw (e, clear_interrupter)
        (omega (
          arith,
          waiting-put_fiber g v c (some fiber) (some (record fiber { interrupter = none }))
              (lookup_fiber_entry v c fiber e),
        ))
]

clear-IsIdle : (c : ℕ) (v : Vm) → IsIdle (guard (clear_interrupter c v) c)
unfolding clear_interrupter guard_of guard
clear-IsIdle c v = elim (Option-cases (lookup_fiber v c)) [
  | inl e ↦ rw (e, clear_interrupter) (λ i f t b k. nothing i f t b (sym (ap guard_of e) ∙ k))
  | inr (fiber, e) ↦
      rw (e, clear_interrupter)
        (λ i f t b k.
          cleared i f t b (is_disabled fiber.interruption_disabled)
            (sym (guard-put_fiber v c (some (record fiber { interrupter = none })) fiber e) ∙ k))
]
  where
    nothing : (i f t : ℕ) (b : Bool) → none ≡ joining i f t b → ⊥
    nothing i f t b k = cc

    cleared : (i f t : ℕ) (b d : Bool) → some (none, d) ≡ joining i f t b → ⊥
    cleared i f t b d k = clash (ap (λ o. elim o [ none ↦ none | some (x, y) ↦ x ]) k)
      where
        clash : none ≡ some (fiber_join i f t) → ⊥
        clash q = cc

-- The interrupter of a join, which the joiner `c` has set.
module _ (id t c : ℕ) (b : Bool) (v : Vm) (l : Links v) (set_ : guard v c ≡ joining id c t b) where
  was : life v t ≡ live (joined c) (some id)
  was = (l.joins c id c t b set_).2

  abbrev woken : Post
  woken = record {
    fiber = c;
    arguments = boolean false ∷ failure interrupted ∷ [];
    skip_clear_interrupter = false;
  }

  module _ (h : FiberHandle) (fiber : Fiber) (held : handle v id ≡ some h)
      (names : h.fiber ≡ some t) (entry : lookup_fiber v t ≡ some fiber)
      (unended : fiber.status ≡ none) (by : fiber.joiner ≡ joined c) where
    abbrev free : Fiber
    free = record fiber { joiner = alive; user_handle = none }

    abbrev open_ : FiberHandle
    open_ = record h { join_in_progress = false }

    abbrev v1 : Vm
    v1 = put_fiber t (some free) v

    abbrev reset : Vm
    reset = put id (fiber_handle open_) v1

    abbrev w : Vm
    w = clear_interrupter c (post woken reset)

    interrupt_join_lem : interrupt_join id c t v ≡ post woken reset
    unfolding interrupt_join reset_joiner reset_handle
    interrupt_join_lem =
        let first : reset_joiner t v ≡ v1 = rw (entry, reset_joiner) refl in
        let second : reset_handle id v1 ≡ reset =
          rw (handle_entry v id h held, reset_handle) refl in
        ap (λ u. post woken (reset_handle id u)) first ∙ ap (post woken) second

    life_t : life reset t ≡ live alive none
    unfolding life life_of
    life_t = life-put_fiber v t (some free) fiber entry ∙ ap (λ s. some (s, alive, none)) unended

    life_others : (u : ℕ) → t ≢ u → life reset u ≡ life v u
    unfolding life
    life_others u ne = life-put_fiber_ne v t (some free) u ne

    handle_own : handle reset id ≡ some open_
    unfolding handle_of
    handle_own = handle-put v1 id (fiber_handle h) (fiber_handle open_) (handle_entry v id h held)

    handle_others : (j : ℕ) → id ≢ j → handle reset j ≡ handle v j
    unfolding handle
    handle_others j ne =
        handle-put_ne v1 id (fiber_handle h) (fiber_handle open_) (handle_entry v id h held) j ne

    quiet : Quiet reset w
    quiet = Quiet-trans (Quiet-post reset woken) (clear_interrupter-Quiet c (post woken reset))

    changes : Changes t v w
    changes =
        Changes-handle h open_ (quiet.size ∙ length-set v.fibers t (some free))
          (λ u ne. quiet.life_same u ∙ life_others u ne) held names
          (quiet.handle_same id ∙ handle_own) (λ u e. some_index (sym e ∙ names))
          (λ j ne. quiet.handle_same j ∙ handle_others j ne)

    life_now : life w t ≡ live alive none
    life_now = quiet.life_same t ∙ life_t

    joiner_of : (j : Joiner) (u : Option ℕ) → live j u ≡ live alive none → j ≡ alive
    joiner_of j u k = ap (λ o. elim o [ none ↦ alive | some (x, y, z) ↦ y ]) k

    not_joined : (j : ℕ) → joined j ≡ alive → ⊥
    not_joined j k = cc

    guards :
        (x : ℕ)
        → ((guard w x ≡ guard v x) × ((u : Option ℕ) → life v t ≢ live (joined x) u))
          ⊎ IsIdle (guard w x)
    unfolding guard guard_of
    guards x = elim (ℕ_discrete c x) [
      | yes k ↦ inr (subst (λ y. IsIdle (guard w y)) k (clear-IsIdle c (post woken reset)))
      | no ne ↦ elim (quiet.guard_same x) [
        | inr idle ↦ inr idle
        | inl same ↦ inl (
          same ∙ guard-put_fiber_same v t (some free) fiber entry refl x,
          λ u e. ne (other u (sym was ∙ e)),
        )
      ]
    ]
      where
        other : (u : Option ℕ) → live (joined c) (some id) ≡ live (joined x) u → c ≡ x
        other u k = joiner_index (ap (λ o. elim o [ none ↦ alive | some (x, y, z) ↦ y ]) k)
          where
            joiner_index : joined c ≡ joined x → c ≡ x
            joiner_index q = cc

    interrupt_join-Links : Links w
    interrupt_join-Links =
        Changes-Links l changes (λ j g o u a e k. joiner_of o u (sym k ∙ life_now))
          (λ j u k. absurd (not_joined j (joiner_of (joined j) u (sym k ∙ life_now))))
          (Changes-joins l changes guards)

    interrupt_join-Keeps : Keeps v w
    unfolding lives lives_of object_waiters fiber_waiters
    interrupt_join-Keeps = record {
      current = quiet.current;
      lives_same = λ g. elim (ℕ_discrete t g) [
        | yes k ↦
            subst (λ x. lives x w ≡ lives x v) k (ap lives_of life_now ∙ sym (ap lives_of was))
        | no ne ↦ ap lives_of (quiet.life_same g ∙ life_others g ne)
      ];
      links = interrupt_join-Links;
      grows = Grows-trans (Grows-same refl) quiet.grows;
      waiting_same = λ g.
          let before : fiber_waiters g (some fiber) ≡ hit g c = rw (unended, by) refl in
          let now : fiber_waiters g (some free) ≡ 0 = rw unended refl in
          omega (
            arith,
            waiting-put_fiber g v t (some fiber) (some free) (lookup_fiber_entry v t fiber entry),
            waiting-put g v1 id (fiber_handle h) (fiber_handle open_) (handle_entry v id h held),
            waiting-post g reset woken,
            waiting-clear c (post woken reset) g,
            before,
            now,
          );
    }

  pub interrupted-Keeps : Keeps v (clear_interrupter c (interrupt_join id c t v))
  unfolding life_of
  interrupted-Keeps =
      let (fiber, entry, shows) = life_entry v t (none, joined c, some id) was in
      let (id', h, same, held, names, busy) = l.target t c (some id) was in
      let held' : handle v id ≡ some h =
        subst (λ x. handle v x ≡ some h) (sym (some_index same)) held in
      let unended : fiber.status ≡ none =
        sym (ap (λ o. elim o [ none ↦ none | some (x, y, z) ↦ x ]) shows) in
      let by : fiber.joiner ≡ joined c =
        sym (ap (λ o. elim o [ none ↦ alive | some (x, y, z) ↦ y ]) shows) in
      subst (λ u. Keeps v (clear_interrupter c u))
        (sym (interrupt_join_lem h fiber held' names entry unended by))
        (interrupt_join-Keeps h fiber held' names entry unended by)
