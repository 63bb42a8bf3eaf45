-- ===== src/Scheduler/Spawns.antt =====
-- `spawn` of src/fiber.cpp keeps the account and the links.
use native.Mathlib.Decide.{ℕ_discrete}
use emilua.Common.{
  ℕ, refl, ◌+◌, ◌<◌, ◌≡◌, ◌≢◌, refl, sym, ap, subst, ◌∙◌, ◌⊎◌, inl, inr, Bool, true, false, Option,
  none, some, List, [], ◌∷◌, ◌++◌, arith, hit, total, total-append, get_elem?-snoc, get_elem?-last,
  get_elem?-end, length, length-append,
}
use emilua.Runtime.{
  Value, Joiner, alive, joined, is_disabled, Fiber, FiberHandle, fiber_handle, fiber_join, Post, Vm,
}
use emilua.Runtime.Places.{waiting, object_waiters, fiber_waiters, waiting-post}
use emilua.Fiber.{new_fiber, new_handle, spawn}
use emilua.Scheduler.{settle}
use emilua.Scheduler.Links.{live, joining, life_of, life, guard_of, guard, handle_of, handle, Links}
use emilua.Scheduler.Quiet.{Grows, Quiet-post, Quiet-Links}
use emilua.Scheduler.Changes.{joinable_parts, some_handle, some_index}
use emilua.Scheduler.Account.{lives, lives_of, hit_self, Good, running}

module _ (v : Vm) where
  -- The indices that the new fiber and its handle get.
  abbrev n : ℕ
  n = length v.fibers

  abbrev m : ℕ
  m = length v.objects

  -- The state before the new fiber is posted.
  abbrev grown : Vm
  grown = record v {
    fibers = v.fibers ++ some new_fiber ∷ [];
    objects = v.objects ++ fiber_handle (new_handle n) ∷ [];
  }

  abbrev entry_of : Option (Option Fiber) → Option Fiber
  entry_of o = elim o [ none ↦ none | some entry ↦ entry ]

  life_new : life grown n ≡ live alive none
  unfolding life life_of
  life_new = ap (λ o. life_of (entry_of o)) (get_elem?-last v.fibers (some new_fiber))

  life_before : life v n ≡ none
  unfolding life life_of
  life_before = ap (λ o. life_of (entry_of o)) (get_elem?-end v.fibers)

  life_old : (t : ℕ) → t ≢ n → life grown t ≡ life v t
  unfolding life
  life_old t ne = ap (λ o. life_of (entry_of o)) (get_elem?-snoc v.fibers (some new_fiber) t ne)

  guard_new : guard grown n ≡ some (none, false)
  unfolding guard guard_of is_disabled
  guard_new = ap (λ o. guard_of (entry_of o)) (get_elem?-last v.fibers (some new_fiber))

  guard_old : (c : ℕ) → c ≢ n → guard grown c ≡ guard v c
  unfolding guard
  guard_old c ne = ap (λ o. guard_of (entry_of o)) (get_elem?-snoc v.fibers (some new_fiber) c ne)

  handle_new : handle grown m ≡ some (new_handle n)
  unfolding handle handle_of
  handle_new = ap handle_of (get_elem?-last v.objects (fiber_handle (new_handle n)))

  handle_before : handle v m ≡ none
  unfolding handle handle_of
  handle_before = ap handle_of (get_elem?-end v.objects)

  handle_old : (id : ℕ) → id ≢ m → handle grown id ≡ handle v id
  unfolding handle
  handle_old id ne = ap handle_of (get_elem?-snoc v.objects (fiber_handle (new_handle n)) id ne)

  size : length grown.fibers ≡ n + 1
  size = length-append v.fibers (some new_fiber ∷ [])

  module _ (l : Links v) where
    -- A handle is the new one or one from before, which names another fiber.
    which :
        (id t : ℕ) (h : FiberHandle)
        → handle grown id ≡ some h
        → h.fiber ≡ some t
        → ((id ≡ m) × (t ≡ n)) ⊎ ((handle v id ≡ some h) × (t < n))
    which id t h e f = elim (ℕ_discrete id m) [
      | yes k ↦ inl (
        k,
        sym (
            some_index
              (some_handle (sym handle_new ∙ subst (λ x. handle grown x ≡ some h) k e) ∙ f)),
      )
      | no ne ↦
          let was : handle v id ≡ some h = sym (handle_old id ne) ∙ e in
          inr (was, l.known id t h was f)
    ]

    grown-Links : Links grown
    grown-Links = record {
      unjoined = λ id t h j u a b e.
          let (still, f) = joinable_parts h t b in
          elim (which id t h a f) [
            | inl (x, y) ↦ joiner_of j u (sym (subst (λ s. life grown s ≡ live j u) y e) ∙ life_new)
            | inr (was, less) ↦ l.unjoined id t h j u was b (sym (life_old t (apart t less)) ∙ e)
          ];
      unique = λ id id' t h h' a a' b b'. elim (which id t h a b) [
        | inl (x, y) ↦ elim (which id' t h' a' b') [
          | inl (x', y') ↦ x ∙ sym x'
          | inr (was', less') ↦ absurd (apart t less' y)
        ]
        | inr (was, less) ↦ elim (which id' t h' a' b') [
          | inl (x', y') ↦ absurd (apart t less y')
          | inr (was', less') ↦ l.unique id id' t h h' was was' b b'
        ]
      ];
      known = λ id t h a b.
          subst (λ s. t < s) (sym size)
            (elim (which id t h a b) [
              | inl (x, y) ↦ omega (arith, y)
              | inr (was, less) ↦ omega (arith, less)
            ]);
      target = λ t j u e. elim (ℕ_discrete t n) [
        | yes k ↦ absurd (
            clash j (
              joiner_of (joined j) u
                (sym (subst (λ s. life grown s ≡ live (joined j) u) k e) ∙ life_new)))
        | no ne ↦
            let (id, h, x, y, z, p) = l.target t j u (sym (life_old t ne) ∙ e) in
            (
              id,
              h,
              x,
              handle_old id
                    (λ k. nothing h (sym handle_before ∙ subst (λ s. handle v s ≡ some h) k y))
                  ∙ y,
              z,
              p,
            )
      ];
      joins = λ c id f t b e. elim (ℕ_discrete c n) [
        | yes k ↦ absurd (
            no_guard id f t b (
              ap (λ o. elim o [ none ↦ none | some (x, y) ↦ x ])
                (sym guard_new ∙ subst (λ s. guard grown s ≡ joining id f t b) k e)))
        | no ne ↦
            let (x, y, z) = l.joins c id f t b (sym (guard_old c ne) ∙ e) in
            (
              x,
              y,
              life_old t (λ k.
                    no_life c id
                      (sym life_before ∙ subst (λ s. life v s ≡ live (joined c) (some id)) k z))
                  ∙ z,
            )
      ];
    }
      where
        apart : (t : ℕ) → t < n → t ≢ n
        apart t less e = absurd (omega (arith, less, e))

        joiner_of : (j : Joiner) (u : Option ℕ) → live j u ≡ live alive none → j ≡ alive
        joiner_of j u k = ap (λ o. elim o [ none ↦ alive | some (x, y, z) ↦ y ]) k

        clash : (j : ℕ) → joined j ≡ alive → ⊥
        clash j k = cc

        nothing : (h : FiberHandle) → none ≡ some h → ⊥
        nothing h k = cc

        no_guard : (id f t : ℕ) (b : Bool) → none ≡ some (fiber_join id f t) → ⊥
        no_guard id f t b k = cc

        no_life : (c id : ℕ) → none ≡ live (joined c) (some id) → ⊥
        no_life c id k = cc

  lives-grown : (g : ℕ) → lives g grown ≡ lives g v + hit g n
  unfolding lives lives_of
  lives-grown g = elim (ℕ_discrete g n) [
    | yes k ↦
        let now : lives_of (life grown g) ≡ 1 =
          ap (λ x. lives_of (life grown x)) k ∙ ap lives_of life_new in
        let before : lives_of (life v g) ≡ 0 =
          ap (λ x. lives_of (life v x)) k ∙ ap lives_of life_before in
        let self : hit g n ≡ 1 = ap (λ x. hit x n) k ∙ hit_self n in
        omega (arith, now, before, self)
    | no ne ↦
        let same : lives_of (life grown g) ≡ lives_of (life v g) = ap lives_of (life_old g ne) in
        let apart : hit g n ≡ 0 = ground (arith, ne) in omega (arith, same, apart)
  ]

  waiting-grown : (g : ℕ) → waiting g grown ≡ waiting g v
  unfolding waiting total object_waiters fiber_waiters
  waiting-grown g = omega (
    arith,
    total-append (object_waiters g) v.objects (fiber_handle (new_handle n) ∷ []),
    total-append (fiber_waiters g) v.fibers (some new_fiber ∷ []),
  )

  pub spawn-Good :
      (args : List Value)
      → Good (running v args)
      → Good (settle args (spawn v)) × Grows v (settle args (spawn v)).vm
  unfolding spawn lives life
  spawn-Good args good =
      let p : Post = record { fiber = n; arguments = []; skip_clear_interrupter = true } in
      (
        record {
          account = λ g.
              omega (arith, waiting-post g grown p, waiting-grown g, lives-grown g, good.account g);
          links = Quiet-Links (Quiet-post grown p) (grown-Links good.links);
        },
        record { posts = p ∷ []; strand = refl },
      )
