-- ===== src/Scheduler/Starts.antt =====
-- `join` of src/fiber.cpp on a fiber that still runs keeps the links, where the running fiber is not
-- joining.
use native.Mathlib.Decide.{ℕ_discrete}
use emilua.Common.{
  ℕ, zero, ◌≡◌, ◌≢◌, refl, sym, ap, subst, ◌∙◌, ◌⊎◌, inl, inr, Bool, true, false, Option, none,
  some, get_elem?, length, length-set, Option-cases, Bool-cases,
}
use emilua.Runtime.{
  Joiner, alive, joined, is_disabled, Fiber, FiberHandle, fiber_handle, Interrupter, fiber_join, Vm,
  put, put_fiber, lookup_fiber, set_interrupter,
}
use emilua.Runtime.Places.{set_interrupter-frame}
use emilua.Fiber.{joinable_fiber, start_join}
use emilua.Scheduler.Links.{
  live, joining, life_of, life, guard_of, guard, handle_of, handle, Links, life-put_fiber,
  life-put_fiber_ne, life-put_fiber_same, guard-put_fiber, guard-put_fiber_ne, guard-put_fiber_same,
  handle-put, handle-put_ne,
}
use emilua.Scheduler.Quiet.{IsIdle, Grows-same}
use emilua.Scheduler.Changes.{joinable_parts, some_index, Changes, Changes-handle, Changes-Links}
use emilua.Scheduler.Account.{lives, lives_of, IsKept}

-- What `set_interrupter` changes.
pub record Interrupted (i : Option Interrupter) (v w : Vm) : Type 0 where
  pub life_same : (u : ℕ) → life w u ≡ life v u
  pub others : (c : ℕ) → v.current_fiber ≢ c → guard w c ≡ guard v c
  pub own :
      (guard w v.current_fiber ≡ guard v v.current_fiber)
      ⊎ (guard w v.current_fiber ≡ some (i, false))
  pub size : length w.fibers ≡ length v.fibers

pub set_interrupter-Interrupted :
    (i : Option Interrupter) (v : Vm) → Interrupted i v (set_interrupter i v)
unfolding set_interrupter guard_of life_of
set_interrupter-Interrupted i v = elim (Option-cases (lookup_fiber v v.current_fiber)) [
  | inl e ↦
      rw (e, set_interrupter)
        (record { life_same = λ u. refl; others = λ c ne. refl; own = inl refl; size = refl })
  | inr (fiber, e) ↦ elim (Bool-cases (is_disabled fiber.interruption_disabled)) [
    | inl b ↦
        rw (e, set_interrupter)
          (rw b
            (record { life_same = λ u. refl; others = λ c ne. refl; own = inl refl; size = refl }))
    | inr b ↦ rw (e, set_interrupter) (rw b (written fiber e b))
  ]
]
  where
    written :
        (fiber : Fiber)
        → lookup_fiber v v.current_fiber ≡ some fiber
        → is_disabled fiber.interruption_disabled ≡ false
        → Interrupted i v (put_fiber v.current_fiber (some (record fiber { interrupter = i })) v)
    written fiber e b =
        let fiber' : Fiber = record fiber { interrupter = i } in
        record {
          life_same = life-put_fiber_same v v.current_fiber (some fiber') fiber e refl;
          others = λ c ne. guard-put_fiber_ne v v.current_fiber (some fiber') c ne;
          own =
              inr
                (guard-put_fiber v v.current_fiber (some fiber') fiber e ∙ ap (λ d. some (i, d)) b);
          size = length-set v.fibers v.current_fiber (some fiber');
        }

join_parts :
    (id f t id' f' t' : ℕ)
    → some (fiber_join id f t) ≡ some (fiber_join id' f' t')
    → (id ≡ id') × (f ≡ f') × (t ≡ t')
join_parts id f t id' f' t' k = (at x, at y, at z)
  where
    at : (r : Interrupter → ℕ) → r (fiber_join id f t) ≡ r (fiber_join id' f' t')
    at r = ap (λ o. elim o [ none ↦ zero | some i ↦ r i ]) k

    x : Interrupter → ℕ
    x (fiber_join a b c) = a
    x _ = zero

    y : Interrupter → ℕ
    y (fiber_join a b c) = b
    y _ = zero

    z : Interrupter → ℕ
    z (fiber_join a b c) = c
    z _ = zero

-- The facts about a `join` that starts.
module _ (id target : ℕ) (h : FiberHandle) (fiber : Fiber) (v : Vm) (l : Links v)
    (idle : IsIdle (guard v v.current_fiber)) (at : get_elem? v.objects id ≡ some (fiber_handle h))
    (can : joinable_fiber h ≡ some target) (entry : lookup_fiber v target ≡ some fiber)
    (unended : fiber.status ≡ none) where
  abbrev me : ℕ
  me = v.current_fiber

  abbrev fiber' : Fiber
  fiber' = record fiber { joiner = joined me; user_handle = some id }

  abbrev h' : FiberHandle
  h' = record h { join_in_progress = true }

  abbrev v1 : Vm
  v1 = put_fiber target (some fiber') v

  abbrev v2 : Vm
  v2 = set_interrupter (some (fiber_join id me target)) v1

  abbrev w : Vm
  w = put id (fiber_handle h') v2

  set_ : Interrupted (some (fiber_join id me target)) v1 v2
  set_ = set_interrupter-Interrupted (some (fiber_join id me target)) v1

  held : handle v id ≡ some h
  unfolding handle handle_of
  held = ap handle_of at

  life_target : life w target ≡ some (none, joined me, some id)
  unfolding life life_of
  life_target =
      set_.life_same target
      ∙ life-put_fiber v target (some fiber') fiber entry
      ∙ ap (λ s. some (s, joined me, some id)) unended

  life_others : (u : ℕ) → target ≢ u → life w u ≡ life v u
  unfolding life
  life_others u ne = set_.life_same u ∙ life-put_fiber_ne v target (some fiber') u ne

  guard_first : (c : ℕ) → guard v1 c ≡ guard v c
  unfolding guard_of
  guard_first = guard-put_fiber_same v target (some fiber') fiber entry refl

  objects_same : v2.objects ≡ v.objects
  objects_same = (set_interrupter-frame (some (fiber_join id me target)) v1).0

  handle_own : handle w id ≡ some h'
  unfolding handle_of
  handle_own =
      handle-put v2 id (fiber_handle h) (fiber_handle h')
        (ap (λ o. get_elem? o id) objects_same ∙ at)

  handle_others : (j : ℕ) → id ≢ j → handle w j ≡ handle v j
  unfolding handle
  handle_others j ne =
      handle-put_ne v2 id (fiber_handle h) (fiber_handle h')
        (ap (λ o. get_elem? o id) objects_same ∙ at) j ne
      ∙ ap (λ o. handle_of (get_elem? o j)) objects_same

  -- The life before.
  was : life v target ≡ some (none, alive, fiber.user_handle)
  unfolding life life_of
  was =
      let e : life v target ≡ some (none, fiber.joiner, fiber.user_handle) =
        ap life_of entry ∙ ap (λ s. some (s, fiber.joiner, fiber.user_handle)) unended in
      e
      ∙ ap (λ j. some (none, j, fiber.user_handle))
          (l.unjoined id target h fiber.joiner fiber.user_handle held can e)

  size_same : length w.fibers ≡ length v.fibers
  size_same = set_.size ∙ length-set v.fibers target (some fiber')

  names : h.fiber ≡ some target
  names = (joinable_parts h target can).1

  changes : Changes target v w
  changes =
      Changes-handle h h' size_same life_others held names handle_own
        (λ t e. some_index (sym e ∙ names)) handle_others

  -- Only `id` names the target, and it is being joined.
  own_unjoined :
      (j : ℕ) (g : FiberHandle) (o : Joiner) (u : Option ℕ)
      → handle w j ≡ some g
      → joinable_fiber g ≡ some target
      → life w target ≡ some (none, o, u)
      → o ≡ alive
  own_unjoined j g o u e c r =
      let (still, names') = joinable_parts g target c in
      let (k, e', f') = changes.back_own j g e names' in
      let same : id ≡ j = l.unique id j target h k held e' names f' in
      let now : some h' ≡ some g = sym handle_own ∙ subst (λ x. handle w x ≡ some g) (sym same) e in
      absurd (clash (ap (λ o. elim o [ none ↦ true | some x ↦ x.join_in_progress ]) now ∙ still))
    where
      clash : true ≡ false → ⊥
      clash k = cc

  own_target :
      (j : ℕ) (u : Option ℕ)
      → life w target ≡ some (none, joined j, u)
      → (i : ℕ) × (g : FiberHandle) × (u ≡ some i)
        × (handle w i ≡ some g)
        × (g.fiber ≡ some target)
        × (g.join_in_progress ≡ true)
  own_target j u e = (id, h', user_of (sym e ∙ life_target), handle_own, names, refl)
    where
      user_of : live (joined j) u ≡ live (joined me) (some id) → u ≡ some id
      user_of k = ap (λ o. elim o [ none ↦ none | some (x, y, z) ↦ z ]) k

  joins_now :
      (c i f t : ℕ) (b : Bool)
      → guard w c ≡ some (some (fiber_join i f t), b)
      → (f ≡ c) × (b ≡ false) × (life w t ≡ some (none, joined c, some i))
  unfolding set_interrupter guard
  joins_now c i f t b e = elim (ℕ_discrete me c) [
    | yes k ↦ elim set_.own [
      | inl same ↦ absurd (
          idle i f t b (
            sym (same ∙ guard_first me)
            ∙ subst (λ x. guard w x ≡ some (some (fiber_join i f t), b)) (sym k) e))
      | inr new ↦
          let (x, y, z, d) =
            parts
              (sym new ∙ subst (λ x. guard w x ≡ some (some (fiber_join i f t), b)) (sym k) e) in
          (
            sym y ∙ k,
            sym d,
            ap (life w) (sym z) ∙ life_target ∙ (λ n. live (joined (k n)) (some (x n))),
          )
    ]
    | no ne ↦
        let (x, y, z) = l.joins c i f t b (sym (set_.others c ne ∙ guard_first c) ∙ e) in
        elim (ℕ_discrete target t) [
          | yes k ↦
              absurd
                (clash (sym was ∙ subst (λ s. life v s ≡ some (none, joined c, some i)) (sym k) z))
          | no apart ↦ (x, y, life_others t apart ∙ z)
        ]
  ]
    where
      clash : live alive fiber.user_handle ≡ live (joined c) (some i) → ⊥
      clash k = joiner_clash (ap (λ o. elim o [ none ↦ alive | some (x, y, z) ↦ y ]) k)
        where
          joiner_clash : alive ≡ joined c → ⊥
          joiner_clash q = cc

      parts :
          joining id me target false ≡ joining i f t b
          → (id ≡ i) × (me ≡ f) × (target ≡ t) × (false ≡ b)
      parts k =
          let (x, y, z) =
            join_parts id me target i f t (ap (λ o. elim o [ none ↦ none | some (x, y) ↦ x ]) k) in
          (x, y, z, ap (λ o. elim o [ none ↦ false | some (x, y) ↦ y ]) k)

  start_join-Links : Links w
  start_join-Links = Changes-Links l changes own_unjoined own_target joins_now

  start_join-lives : (g : ℕ) → lives g w ≡ lives g v
  unfolding lives lives_of
  start_join-lives g = elim (ℕ_discrete target g) [
    | yes k ↦ subst (λ x. lives x w ≡ lives x v) k (ap lives_of life_target ∙ sym (ap lives_of was))
    | no ne ↦ ap lives_of (life_others g ne)
  ]

  pub start_join-IsKept : IsKept (start_join id h target fiber) v
  unfolding start_join
  start_join-IsKept = record {
    current = (set_interrupter-frame (some (fiber_join id me target)) v1).1;
    lives_same = start_join-lives;
    links = start_join-Links;
    grows = Grows-same (set_interrupter-frame (some (fiber_join id me target)) v1).2;
  }
