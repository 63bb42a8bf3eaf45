-- ===== src/Scheduler/Releases.antt =====
-- A fiber whose handle gives it up (`detach` and the collection of a handle of src/fiber.cpp).
use native.Mathlib.Decide.{ℕ_discrete}
use emilua.Common.{
  ℕ, ◌≡◌, ◌≢◌, refl, sym, ap, subst, ◌∙◌, ◌⊎◌, inl, inr, Bool, Option, none, some, length,
  length-set, Option-cases,
}
use emilua.Runtime.{Status, detached, joined, Fiber, Vm, put_fiber, lookup_fiber}
use emilua.Fiber.{release_fiber}
use emilua.Scheduler.Links.{
  live, joining, life_of, life, guard_of, guard, life-put_fiber, life-put_fiber_ne, guard-put_fiber,
  guard-put_fiber_ne, guard-put_fiber_same,
}
use emilua.Scheduler.Quiet.{IsIdle}
use emilua.Scheduler.Account.{lives, lives_of}

-- What the release of a fiber leaves: its life is not that of a joined fiber.
pub record Released (target : ℕ) (v w : Vm) : Type 0 where
  pub objects : w.objects ≡ v.objects
  pub current : w.current_fiber ≡ v.current_fiber
  pub strand : w.strand ≡ v.strand
  pub size : length w.fibers ≡ length v.fibers
  pub others : (u : ℕ) → target ≢ u → life w u ≡ life v u
  pub own : (j : ℕ) (u : Option ℕ) → life w target ≢ live (joined j) u
  pub guards : (c : ℕ) → (guard w c ≡ guard v c) ⊎ IsIdle (guard w c)
  pub lives_same : (g : ℕ) → lives g w ≡ lives g v

lives_others :
    (target : ℕ) (v w : Vm)
    → ((u : ℕ) → target ≢ u → life w u ≡ life v u)
    → lives_of (life w target) ≡ lives_of (life v target)
    → (g : ℕ) → lives g w ≡ lives g v
unfolding lives
lives_others target v w others own g = elim (ℕ_discrete target g) [
  | yes k ↦ subst (λ x. lives x w ≡ lives x v) k own
  | no ne ↦ ap lives_of (others g ne)
]

pub release_fiber-Released :
    (target : ℕ) (v : Vm)
    → ((j : ℕ) (u : Option ℕ) → life v target ≢ live (joined j) u)
    → Released target v (release_fiber target v)
unfolding release_fiber life_of guard_of lives_of
release_fiber-Released target v free = elim (Option-cases (lookup_fiber v target)) [
  | inl e ↦
      rw (e, release_fiber)
        record {
          objects = refl;
          current = refl;
          strand = refl;
          size = refl;
          others = λ u ne. refl;
          own = free;
          guards = λ c. inl refl;
          lives_same = λ g. refl;
        }
  | inr (fiber, e) ↦ elim (Option-cases fiber.status) [
    | inl n ↦ rw (e, release_fiber) (rw n (released fiber e n))
    | inr (s, n) ↦ rw (e, release_fiber) (rw n (removed fiber s e n))
  ]
]
  where
    before :
        (fiber : Fiber) (s : Option Status)
        → lookup_fiber v target ≡ some fiber
        → fiber.status ≡ s
        → life v target ≡ some (s, fiber.joiner, fiber.user_handle)
    before fiber s e n =
        unfold life in (ap life_of e ∙ ap (λ s. some (s, fiber.joiner, fiber.user_handle)) n)

    released :
        (fiber : Fiber)
        → lookup_fiber v target ≡ some fiber
        → fiber.status ≡ none
        → Released target v (put_fiber target (some (record fiber { joiner = detached })) v)
    released fiber e n =
        let new : Fiber = record fiber { joiner = detached } in
        let now : life (put_fiber target (some new) v) target ≡ live detached fiber.user_handle =
          life-put_fiber v target (some new) fiber e
          ∙ ap (λ s. some (s, detached, fiber.user_handle)) n in
        let others = life-put_fiber_ne v target (some new) in
        record {
          objects = refl;
          current = refl;
          strand = refl;
          size = length-set v.fibers target (some new);
          others = others;
          own = λ j u k. clash j u (sym now ∙ k);
          guards = λ c. inl (guard-put_fiber_same v target (some new) fiber e refl c);
          lives_same =
              lives_others target v (put_fiber target (some new) v) others
                (ap lives_of now ∙ sym (ap lives_of (before fiber none e n)));
        }
      where
        clash : (j : ℕ) (u : Option ℕ) → live detached fiber.user_handle ≡ live (joined j) u → ⊥
        clash j u k = joiner_clash (ap (λ o. elim o [ none ↦ detached | some (x, y, z) ↦ y ]) k)
          where
            joiner_clash : detached ≡ joined j → ⊥
            joiner_clash q = cc

    removed :
        (fiber : Fiber) (s : Status)
        → lookup_fiber v target ≡ some fiber
        → fiber.status ≡ some s
        → Released target v (put_fiber target none v)
    removed fiber s e n =
        let now : life (put_fiber target none v) target ≡ none =
          life-put_fiber v target none fiber e in
        let others = life-put_fiber_ne v target none in
        record {
          objects = refl;
          current = refl;
          strand = refl;
          size = length-set v.fibers target none;
          others = others;
          own = λ j u k. clash j u (sym now ∙ k);
          guards = λ c. elim (ℕ_discrete target c) [
            | yes k ↦ inr (
                subst (λ x. IsIdle (guard (put_fiber target none v) x)) k
                  (λ i f t b q.
                    none_guard i f t b (sym (guard-put_fiber v target none fiber e) ∙ q)))
            | no ne ↦ inl (guard-put_fiber_ne v target none c ne)
          ];
          lives_same =
              lives_others target v (put_fiber target none v) others
                (ap lives_of now ∙ sym (ap lives_of (before fiber (some s) e n)));
        }
      where
        clash : (j : ℕ) (u : Option ℕ) → none ≡ live (joined j) u → ⊥
        clash j u k = cc

        none_guard : (i f t : ℕ) (b : Bool) → none ≡ joining i f t b → ⊥
        none_guard i f t b k = cc
