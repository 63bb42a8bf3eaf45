-- ===== src/Scheduler/Quiet.antt =====
-- Changes of a VM that leave the links of handles, fibers, joiners and interrupters as they are.
use native.Mathlib.Decide.{ℕ_discrete}
use emilua.Common.{
  ℕ, ◌<◌, ◌≡◌, ◌≢◌, refl, sym, ap, subst, ◌∙◌, ◌⊎◌, inl, inr, Bool, true, false, if◌then◌else◌,
  Option, none, some, List, [], ◌∷◌, ◌++◌, append-nil, append_assoc, get_elem?, length, length-set,
  Option-cases, Bool-cases,
}
use emilua.Runtime.{
  Value, is_disabled, Fiber, Object, Interrupter, fiber_join, Post, Vm, M, Outcome, after, ◌>>=◌,
  put, put_fiber, post, post_all, lookup_fiber, set_interrupter,
}
use emilua.Runtime.Checks.{IsCheck, passes, refuses, bind_done, bind_raised}
use emilua.Scheduler.Links.{
  life_of, life, guard_of, guard, handle_of, handle, Links, life-put_fiber_same, guard-put_fiber,
  guard-put_fiber_ne, guard-put_fiber_same, handle-put_same,
}

-- No interrupter of a join.
abbrev pub IsIdle : Option (Option Interrupter × Bool) → Type 0
IsIdle g = (id f t : ℕ) (b : Bool) → g ≢ some (some (fiber_join id f t), b)

-- Calls are only added to the strand, behind those that are there.
pub record Grows (v w : Vm) : Type 0 where
  pub posts : List Post
  pub strand : w.strand ≡ v.strand ++ posts

pub Grows-same : {v w : Vm} → w.strand ≡ v.strand → Grows v w
Grows-same {v} e = record { posts = []; strand = e ∙ sym (append-nil v.strand) }

pub Grows-trans : {u v w : Vm} → Grows u v → Grows v w → Grows u w
Grows-trans {u} a b = record {
  posts = a.posts ++ b.posts;
  strand = b.strand ∙ ap (λ x. x ++ b.posts) a.strand ∙ append_assoc u.strand a.posts b.posts;
}

pub record Quiet (v w : Vm) : Type 0 where
  pub current : w.current_fiber ≡ v.current_fiber
  pub valid : w.valid ≡ v.valid
  pub size : length w.fibers ≡ length v.fibers
  pub grows : Grows v w
  pub life_same : (t : ℕ) → life w t ≡ life v t
  pub handle_same : (id : ℕ) → handle w id ≡ handle v id
  pub guard_same : (c : ℕ) → (guard w c ≡ guard v c) ⊎ IsIdle (guard w c)

pub Quiet-refl : (v : Vm) → Quiet v v
Quiet-refl v = record {
  current = refl;
  valid = refl;
  size = refl;
  grows = Grows-same refl;
  life_same = λ t. refl;
  handle_same = λ id. refl;
  guard_same = λ c. inl refl;
}

pub Quiet-trans : {u v w : Vm} → Quiet u v → Quiet v w → Quiet u w
Quiet-trans {u} {v} {w} a b = record {
  current = b.current ∙ a.current;
  valid = b.valid ∙ a.valid;
  size = b.size ∙ a.size;
  grows = Grows-trans a.grows b.grows;
  life_same = λ t. b.life_same t ∙ a.life_same t;
  handle_same = λ id. b.handle_same id ∙ a.handle_same id;
  guard_same = λ c. elim (b.guard_same c) [
    | inl e ↦ elim (a.guard_same c) [
      | inl d ↦ inl (e ∙ d)
      | inr idle ↦ inr (subst IsIdle (sym e) idle)
    ]
    | inr idle ↦ inr idle
  ];
}

pub Quiet-Links : {v w : Vm} → Quiet v w → Links v → Links w
Quiet-Links {v} {w} q l = record {
  unjoined = λ id t h j u a b c.
      l.unjoined id t h j u (sym (q.handle_same id) ∙ a) b (sym (q.life_same t) ∙ c);
  unique = λ id id' t h h' a b.
      l.unique id id' t h h' (sym (q.handle_same id) ∙ a) (sym (q.handle_same id') ∙ b);
  known =
      λ id t h a b. subst (λ n. t < n) (sym q.size) (l.known id t h (sym (q.handle_same id) ∙ a) b);
  target = λ t j u a.
      let (id, h, b, c, d, e) = l.target t j u (sym (q.life_same t) ∙ a) in
      (id, h, b, q.handle_same id ∙ c, d, e);
  joins = λ c id f t b a. elim (q.guard_same c) [
    | inl e ↦ let (x, y, z) = l.joins c id f t b (sym e ∙ a) in (x, y, q.life_same t ∙ z)
    | inr idle ↦ absurd (idle id f t b a)
  ];
}

-- A write of an object that is no handle.
pub Quiet-put :
    (v : Vm) (id : ℕ) (o new : Object)
    → get_elem? v.objects id ≡ some o
    → handle_of (some new) ≡ handle_of (some o)
    → Quiet v (put id new v)
unfolding life guard
Quiet-put v id o new at same = record {
  current = refl;
  valid = refl;
  size = refl;
  grows = Grows-same refl;
  life_same = λ t. refl;
  handle_same = handle-put_same v id o new at same;
  guard_same = λ c. inl refl;
}

pub Quiet-post : (v : Vm) (p : Post) → Quiet v (post p v)
unfolding life guard handle
Quiet-post v p = record {
  current = refl;
  valid = refl;
  size = refl;
  grows = record { posts = p ∷ []; strand = refl };
  life_same = λ t. refl;
  handle_same = λ id. refl;
  guard_same = λ c. inl refl;
}

pub Quiet-post_all : (args : List Value) (fs : List ℕ) (v : Vm) → Quiet v (post_all args fs v)
unfolding post_all
Quiet-post_all args [] v = Quiet-refl v
Quiet-post_all args (f ∷ fs) v = Quiet-trans (Quiet-post v _) (Quiet-post_all args fs _)

-- A write of a fiber's entry that keeps its life and does not set the interrupter of a join.
pub Quiet-put_fiber :
    (v : Vm) (t : ℕ) (f f' : Fiber)
    → lookup_fiber v t ≡ some f
    → life_of (some f') ≡ life_of (some f)
    → (guard_of (some f') ≡ guard_of (some f)) ⊎ IsIdle (guard_of (some f'))
    → Quiet v (put_fiber t (some f') v)
unfolding handle
Quiet-put_fiber v t f f' at same may = record {
  current = refl;
  valid = refl;
  size = length-set v.fibers t (some f');
  grows = Grows-same refl;
  life_same = life-put_fiber_same v t (some f') f at same;
  handle_same = λ id. refl;
  guard_same = go may;
}
  where
    go :
        (guard_of (some f') ≡ guard_of (some f)) ⊎ IsIdle (guard_of (some f'))
        → (c : ℕ)
        → (guard (put_fiber t (some f') v) c ≡ guard v c)
          ⊎ IsIdle (guard (put_fiber t (some f') v) c)
    go (inl e) c = inl (guard-put_fiber_same v t (some f') f at e c)
    go (inr idle) c = elim (ℕ_discrete t c) [
      | yes k ↦ inr (
          subst (λ x. IsIdle (guard (put_fiber t (some f') v) x)) k
            (subst IsIdle (sym (guard-put_fiber v t (some f') f at)) idle))
      | no ne ↦ inl (guard-put_fiber_ne v t (some f') c ne)
    ]

abbrev pub NoJoin : Option Interrupter → Type 0
NoJoin i = (id f t : ℕ) → i ≢ some (fiber_join id f t)

pub Quiet-set_interrupter :
    (i : Option Interrupter) (v : Vm) → NoJoin i → Quiet v (set_interrupter i v)
unfolding set_interrupter guard_of life_of
Quiet-set_interrupter i v ok = elim (Option-cases (lookup_fiber v v.current_fiber)) [
  | inl e ↦ rw (e, set_interrupter) (Quiet-refl v)
  | inr (fiber, e) ↦ elim (Bool-cases (is_disabled fiber.interruption_disabled)) [
    | inl b ↦ rw (e, set_interrupter) (rw b (Quiet-refl v))
    | inr b ↦
        rw (e, set_interrupter)
          (rw b (
            Quiet-put_fiber v v.current_fiber fiber (record fiber { interrupter = i }) e refl
              (inr
                (λ id f t c k. ok id f t (ap (λ o. elim o [ none ↦ none | some (x, y) ↦ x ]) k)))))
  ]
]

-- A call that keeps the links.
pub record IsQuiet {A : Type 0} (m : M A) (v : Vm) : Type 0 where
  pub quiet : Quiet v (after (m v))

-- A call that starts with a check.
pub IsQuiet-check :
    {A B : Type 0} (P : A → Type 0) {m : M A} {f : A → M B} {v : Vm}
    → IsCheck P m v
    → ((a : A) → P a → IsQuiet (f a) v)
    → IsQuiet (m >>= f) v
IsQuiet-check P {m} {f} {v} (passes a e p) go = record {
  quiet = subst (λ o. Quiet v (after o)) (sym (bind_done m f e)) (go a p).quiet;
}
IsQuiet-check P {m} {f} {v} (refuses x e) go = record {
  quiet = subst (λ o. Quiet v (after o)) (sym (bind_raised m f e)) (Quiet-refl v);
}

pub Quiet-if :
    {A : Type 0} (v : Vm) (b : Bool) (x y : Outcome A)
    → Quiet v (after x)
    → Quiet v (after y)
    → Quiet v (after (if b then x else y))
Quiet-if v true x y p q = p
Quiet-if v false x y p q = q

pub IsQuiet-if :
    {A : Type 0} {v : Vm} (b : Bool) (x y : M A)
    → IsQuiet x v
    → IsQuiet y v
    → IsQuiet (if b then x else y) v
IsQuiet-if true x y p q = p
IsQuiet-if false x y p q = q

pub IsQuiet-same : {A : Type 0} {m : M A} {v : Vm} → after (m v) ≡ v → IsQuiet m v
IsQuiet-same {v = v} e = record { quiet = subst (Quiet v) (sym e) (Quiet-refl v) }
