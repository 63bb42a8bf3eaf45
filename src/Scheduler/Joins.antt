-- ===== src/Scheduler/Joins.antt =====
-- `join` of src/fiber.cpp keeps the links.
use native.Mathlib.Decide.{ℕ_discrete}
use emilua.Common.{
  ℕ, ◌≡◌, refl, sym, ap, subst, ◌∙◌, inl, inr, Bool, true, false, Option, none, some, List, [], ◌∷◌,
  ◌==◌, get_elem?, length-set, Option-cases, Bool-cases,
}
use emilua.Runtime.{
  Value, boolean, failure, arg, resource_deadlock_would_occur, Outcome, done, raised, Status,
  finished_successfully, finished_with_error, Joiner, joined, Fiber, FiberHandle, fiber_handle, Vm,
  after, put, put_fiber, lookup_fiber,
}
use emilua.Runtime.Checks.{Holds, check_userdata-IsCheck, Anything, unsafe_can_suspend-IsCheck}
use emilua.Fiber.Places.{Linked, Joins, check_joinable-IsCheck}
use emilua.Fiber.{
  fiber_kind, joinable_fiber, is_interrupted, top, start_join, finish_join, join_fiber, join,
}
use emilua.Scheduler.Links.{
  live, joining, life_of, life, guard_of, guard, handle_of, handle, Links, life-put_fiber,
  life-put_fiber_ne, guard-put_fiber, guard-put_fiber_ne, handle-put, handle-put_ne,
}
use emilua.Scheduler.Quiet.{IsIdle, Grows, Grows-same}
use emilua.Scheduler.Changes.{joinable_parts, Changes-handle, Changes-ended}
use emilua.Scheduler.Account.{lives, lives_of, IsKept, IsKept-check}
use emilua.Scheduler.Starts.{start_join-IsKept}

-- The facts about a `join` of a fiber that has ended, which is over at once.
module _ (id target : ℕ) (h : FiberHandle) (fiber : Fiber) (status : Status) (caught : Bool)
    (v : Vm) (l : Links v) (at : get_elem? v.objects id ≡ some (fiber_handle h))
    (can : joinable_fiber h ≡ some target) (entry : lookup_fiber v target ≡ some fiber)
    (over : fiber.status ≡ some status) where
  abbrev taken : FiberHandle
  taken = record h { fiber = none; interruption_caught = some caught }

  abbrev left : Vm
  left = put id (fiber_handle taken) (put_fiber target none v)

  life_gone : life left target ≡ none
  unfolding life life_of
  life_gone = life-put_fiber v target none fiber entry

  life_was : life v target ≡ some (some status, fiber.joiner, fiber.user_handle)
  unfolding life life_of
  life_was = ap life_of entry ∙ ap (λ s. some (s, fiber.joiner, fiber.user_handle)) over

  finish_join-Links : Links left
  unfolding life handle handle_of guard_of guard
  finish_join-Links =
      Changes-ended l
        (Changes-handle h taken (length-set v.fibers target none)
          (λ u ne. life-put_fiber_ne v target none u ne) (ap handle_of at)
          (joinable_parts h target can).1
          (handle-put (put_fiber target none v) id (fiber_handle h) (fiber_handle taken) at)
          (λ t e. absurd (clash e))
          (λ j ne.
            handle-put_ne (put_fiber target none v) id (fiber_handle h) (fiber_handle taken) at j
              ne))
        (λ j u e. gone j u (sym life_gone ∙ e))
        (λ c. elim (ℕ_discrete target c) [
          | yes k ↦ inr (λ i f t b e. none_guard i f t b (
              sym (guard-put_fiber v target none fiber entry)
              ∙ subst (λ x. guard left x ≡ joining i f t b) (sym k) e))
          | no ne ↦
              inl (guard-put_fiber_ne v target none c ne, λ u e. ended_live c u (sym life_was ∙ e))
        ])
    where
      clash : {t : ℕ} → none ≡ some t → ⊥
      clash k = cc

      gone : (j : Joiner) (u : Option ℕ) → none ≡ live j u → ⊥
      gone j u k = cc

      none_guard : (i f t : ℕ) (b : Bool) → none ≡ joining i f t b → ⊥
      none_guard i f t b k = cc

      ended_live :
          (c : ℕ) (u : Option ℕ)
          → some (some status, fiber.joiner, fiber.user_handle) ≡ live (joined c) u
          → ⊥
      ended_live c u k = status_clash (ap (λ o. elim o [ none ↦ none | some (x, y, z) ↦ x ]) k)
        where
          status_clash : some status ≡ none → ⊥
          status_clash q = cc

  finish_join-lives : (g : ℕ) → lives g left ≡ lives g v
  unfolding lives lives_of life
  finish_join-lives g = elim (ℕ_discrete target g) [
    | yes k ↦
        subst (λ x. lives x left ≡ lives x v) k (ap lives_of life_gone ∙ sym (ap lives_of life_was))
    | no ne ↦ ap lives_of (life-put_fiber_ne v target none g ne)
  ]

join_fiber-IsKept :
    (id target : ℕ) (h : FiberHandle) (v : Vm)
    → Links v
    → IsIdle (guard v v.current_fiber)
    → get_elem? v.objects id ≡ some (fiber_handle h)
    → joinable_fiber h ≡ some target
    → IsKept (join_fiber id h target) v
unfolding join_fiber finish_join
join_fiber-IsKept id target h v l idle at can = elim (Bool-cases (target == v.current_fiber)) [
  | inl b ↦ same (failure resource_deadlock_would_occur) (rw b refl)
  | inr b ↦ elim (Option-cases (lookup_fiber v target)) [
    | inl e ↦ same (failure (arg 1)) (rw (b, e) refl)
    | inr (fiber, e) ↦ elim (Option-cases fiber.status) [
      | inl n ↦
          let k = start_join-IsKept id target h fiber v l idle at can e n in
          becomes (start_join id h target fiber v) (rw (b, e) (by_status fiber n)) k.current
            k.lives_same k.links k.grows
      | inr (finished_successfully, n) ↦
          becomes (finish_join id h target finished_successfully fiber.stack v)
            (rw (b, e) (by_status fiber n)) refl
            (finish_join-lives id target h fiber finished_successfully false v l at can e n)
            (finish_join-Links id target h fiber finished_successfully false v l at can e n)
            (Grows-same refl)
      | inr (finished_with_error, n) ↦
          becomes (finish_join id h target finished_with_error fiber.stack v)
            (rw (b, e) (by_status fiber n))
            (branches (λ o. (after o).current_fiber ≡ v.current_fiber) fiber.stack refl refl)
            (branches (λ o. (g : ℕ) → lives g (after o) ≡ lives g v) fiber.stack
              (finish_join-lives id target h fiber finished_with_error true v l at can e n)
              (finish_join-lives id target h fiber finished_with_error false v l at can e n))
            (branches (λ o. Links (after o)) fiber.stack
              (finish_join-Links id target h fiber finished_with_error true v l at can e n)
              (finish_join-Links id target h fiber finished_with_error false v l at can e n))
            (branches (λ o. Grows v (after o)) fiber.stack (Grows-same refl) (Grows-same refl))
    ]
  ]
]
  where
    becomes :
        (o : Outcome (List Value))
        → join_fiber id h target v ≡ o
        → (after o).current_fiber ≡ v.current_fiber
        → ((g : ℕ) → lives g (after o) ≡ lives g v)
        → Links (after o)
        → Grows v (after o)
        → IsKept (join_fiber id h target) v
    becomes o e a b c d = record {
      current = subst (λ o. (after o).current_fiber ≡ v.current_fiber) (sym e) a;
      lives_same = subst (λ o. (g : ℕ) → lives g (after o) ≡ lives g v) (sym e) b;
      links = subst (λ o. Links (after o)) (sym e) c;
      grows = subst (λ o. Grows v (after o)) (sym e) d;
    }

    same : (x : Value) → join_fiber id h target v ≡ raised x v → IsKept (join_fiber id h target) v
    same x e = becomes (raised x v) e refl (λ g. refl) l (Grows-same refl)

    by_status :
        (fiber : Fiber) {s : Option Status}
        → fiber.status ≡ s
        → elim fiber.status [
          | none ↦ start_join id h target fiber v
          | some status ↦ finish_join id h target status fiber.stack v
        ]
          ≡ elim s [
            | none ↦ start_join id h target fiber v
            | some status ↦ finish_join id h target status fiber.stack v
          ]
    by_status fiber n =
        ap
          (λ s. elim s [
            | none ↦ start_join id h target fiber v
            | some status ↦ finish_join id h target status fiber.stack v
          ])
          n

    ended : Bool → Vm
    ended caught =
        put id (fiber_handle (record h { fiber = none; interruption_caught = some caught }))
          (put_fiber target none v)

    branches :
        (P : Outcome (List Value) → Type 0) (stack : List Value)
        → P (done (boolean true ∷ []) (ended true))
        → P (raised (top stack) (ended false))
        → P (finish_join id h target finished_with_error stack v)
    branches P stack p q = elim (Bool-cases (is_interrupted (top stack))) [
      | inl b ↦ rw b p
      | inr b ↦ rw b q
    ]

pub join-IsKept :
    (v : Vm) (value : Value) → Links v → IsIdle (guard v v.current_fiber) → IsKept (join value) v
unfolding join fiber_kind
join-IsKept v value l idle = IsKept-check Anything l (unsafe_can_suspend-IsCheck v) λ _ _.
    IsKept-check (Holds fiber_kind v) l (check_userdata-IsCheck fiber_kind 1 1 value v)
      λ (id, h) at.
        IsKept-check (Joins h) l (check_joinable-IsCheck h v)
          λ target j. join_fiber-IsKept id target h v l idle at j

-- The links give what `join` and `detach` need to keep the wake-ups.
pub Links-Linked : (v : Vm) → Links v → Linked v
unfolding life life_of handle handle_of
Links-Linked v l = record {
  unjoined = λ id target h fiber at j e n.
      l.unjoined id target h fiber.joiner fiber.user_handle (ap handle_of at) j
        (ap life_of e ∙ ap (λ s. some (s, fiber.joiner, fiber.user_handle)) n);
}
