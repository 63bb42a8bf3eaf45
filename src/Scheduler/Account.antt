-- ===== src/Scheduler/Account.antt =====
-- A live fiber runs or waits in one place, and a call that keeps the links keeps that.
use emilua.Common.{
  ℕ, ◌+◌, ◌≤◌, ◌≡◌, refl, sym, ap, subst, ◌∙◌, inl, inr, Option, none, some, List, arith, hit,
  Option-cases,
}
use emilua.Runtime.{
  Value, alive, joined, Fiber, Vm, M, Outcome, done, raised, yielded, after, ◌>>=◌, lookup_fiber,
}
use emilua.Runtime.Places.{
  waiting, fiber_waiters, waiting-put_fiber, lookup_fiber_entry, yields_once, Conserves,
}
use emilua.Runtime.Checks.{IsCheck, passes, refuses, bind_done, bind_raised}
use emilua.Scheduler.{System, settle}
use emilua.Scheduler.Links.{Life, life_of, life, guard, Links}
use emilua.Scheduler.Quiet.{Grows, Grows-same, Quiet, Quiet-Links, IsIdle, IsQuiet}

-- A fiber that has an entry in the table and has not ended is alive.
unfoldable pub lives_of : Option Life → ℕ
lives_of none = 0
lives_of (some (none, joiner, user)) = 1
lives_of (some (some status, joiner, user)) = 0

unfoldable pub lives : ℕ → Vm → ℕ
lives g v = lives_of (life v g)

abbrev pub runs : ℕ → Option (List Value) → Vm → ℕ
runs g none v = 0
runs g (some args) v = hit g v.current_fiber

-- Every fiber that is alive runs, or is to be woken from exactly one place; no other is.
pub record Good (s : System) : Type 0 where
  pub account : (g : ℕ) → waiting g s.vm + runs g s.running s.vm ≡ lives g s.vm
  pub links : Links s.vm

abbrev pub running : Vm → List Value → System
running v args = record { vm = v; running = some args }

abbrev pub resting : Vm → System
resting v = record { vm = v; running = none }

pub lives-Quiet : (v w : Vm) → Quiet v w → (g : ℕ) → lives g w ≡ lives g v
unfolding lives
lives-Quiet v w q g = ap lives_of (q.life_same g)

pub lives_le : (g : ℕ) (v : Vm) → lives g v ≤ 1
unfolding lives
lives_le g v = go (life v g)
  where
    go : (l : Option Life) → lives_of l ≤ 1
    go none = unfold lives_of in omega arith
    go (some (none, joiner, user)) = unfold lives_of in omega arith
    go (some (some status, joiner, user)) = unfold lives_of in omega arith

pub hit_self : (g : ℕ) → hit g g ≡ 1
hit_self g = ground arith

-- A life that the table shows.
pub life_entry :
    (v : Vm) (t : ℕ) (l : Life)
    → life v t ≡ some l
    → (f : Fiber) × (lookup_fiber v t ≡ some f) × (some l ≡ life_of (some f))
unfolding life
life_entry v t l e = elim (Option-cases (lookup_fiber v t)) [
  | inl k ↦ absurd (clash (sym (ap life_of k) ∙ e))
  | inr (f, k) ↦ (f, k, sym e ∙ ap life_of k)
]
  where
    clash : life_of none ≡ some l → ⊥
    clash c = unfold life_of in cc

-- A joiner waits.
pub joined_waits :
    (v : Vm) (c t : ℕ) (u : Option ℕ) → life v t ≡ some (none, joined c, u) → 1 ≤ waiting c v
unfolding life_of fiber_waiters
joined_waits v c t u e =
    let (f, at, same) = life_entry v t (none, joined c, u) e in
    let ended : none ≡ f.status = ap (λ o. elim o [ none ↦ none | some (x, y, z) ↦ x ]) same in
    let by : joined c ≡ f.joiner = ap (λ o. elim o [ none ↦ alive | some (x, y, z) ↦ y ]) same in
    let one : fiber_waiters c (some f) ≡ 1 = rw (← ended, ← by) (hit_self c) in
    omega (arith, waiting-put_fiber c v t (some f) none (lookup_fiber_entry v t f at), one)

-- A fiber that runs is not joining.
pub runs-IsIdle :
    (v : Vm) (args : List Value) → Good (running v args) → IsIdle (guard v v.current_fiber)
runs-IsIdle v args good id f t b e =
    let (x, y, z) = good.links.joins v.current_fiber id f t b e in
    absurd (
      omega (
        arith,
        joined_waits v v.current_fiber t (some id) z,
        good.account v.current_fiber,
        hit_self v.current_fiber,
        lives_le v.current_fiber v,
      ))

-- A call that keeps the fibers that are alive and has the links behind it.
pub record IsKept {A : Type 0} (m : M A) (v : Vm) : Type 0 where
  pub current : (after (m v)).current_fiber ≡ v.current_fiber
  pub lives_same : (g : ℕ) → lives g (after (m v)) ≡ lives g v
  pub links : Links (after (m v))
  pub grows : Grows v (after (m v))

pub IsQuiet-IsKept : {A : Type 0} (m : M A) (v : Vm) → Links v → IsQuiet m v → IsKept m v
IsQuiet-IsKept m v l q = record {
  current = q.quiet.current;
  lives_same = lives-Quiet v (after (m v)) q.quiet;
  links = Quiet-Links q.quiet l;
  grows = q.quiet.grows;
}

pub IsKept-check :
    {A B : Type 0} (P : A → Type 0) {m : M A} {f : A → M B} {v : Vm}
    → Links v
    → IsCheck P m v
    → ((a : A) → P a → IsKept (f a) v)
    → IsKept (m >>= f) v
IsKept-check P {m} {f} {v} l (passes a e p) go =
    let k = go a p in
    record {
      current =
          subst (λ o. (after o).current_fiber ≡ v.current_fiber) (sym (bind_done m f e)) k.current;
      lives_same =
          subst (λ o. (g : ℕ) → lives g (after o) ≡ lives g v) (sym (bind_done m f e)) k.lives_same;
      links = subst (λ o. Links (after o)) (sym (bind_done m f e)) k.links;
      grows = subst (λ o. Grows v (after o)) (sym (bind_done m f e)) k.grows;
    }
IsKept-check P {m} {f} {v} l (refuses x e) go = record {
  current = subst (λ o. (after o).current_fiber ≡ v.current_fiber) (sym (bind_raised m f e)) refl;
  lives_same =
      subst (λ o. (g : ℕ) → lives g (after o) ≡ lives g v) (sym (bind_raised m f e)) (λ g. refl);
  links = subst (λ o. Links (after o)) (sym (bind_raised m f e)) l;
  grows = subst (λ o. Grows v (after o)) (sym (bind_raised m f e)) (Grows-same refl);
}

-- Such a call keeps the account if it keeps the wake-ups.
Good-call :
    {A : Type 0} (m : M A) (v : Vm) (args : List Value)
    → Good (running v args)
    → Conserves m v
    → IsKept m v
    → Good (settle args (m v))
Good-call {A} m v args good keeps kept =
    go (m v) keeps.balance kept.current kept.lives_same kept.links
  where
    go :
        (o : Outcome A)
        → ((g : ℕ) → waiting g (after o) ≡ waiting g v + yields_once g v o)
        → (after o).current_fiber ≡ v.current_fiber
        → ((g : ℕ) → lives g (after o) ≡ lives g v)
        → Links (after o)
        → Good (settle args o)
    go (done a w) bal current same links = record {
      account = λ g.
          let at : hit g w.current_fiber ≡ hit g v.current_fiber = ap (hit g) current in
          omega (arith, at, bal g, good.account g, same g);
      links = links;
    }
    go (raised e w) bal current same links = record {
      account = λ g.
          let at : hit g w.current_fiber ≡ hit g v.current_fiber = ap (hit g) current in
          omega (arith, at, bal g, good.account g, same g);
      links = links;
    }
    go (yielded w) bal current same links = record {
      account = λ g. omega (arith, bal g, good.account g, same g);
      links = links;
    }

settle-Grows :
    {A : Type 0} (v : Vm) (args : List Value) (o : Outcome A)
    → Grows v (after o)
    → Grows v (settle args o).vm
settle-Grows v args (done a w) g = g
settle-Grows v args (raised e w) g = g
settle-Grows v args (yielded w) g = g

-- The same with what the strand gets.
pub Moves-call :
    {A : Type 0} (m : M A) (v : Vm) (args : List Value)
    → Good (running v args)
    → Conserves m v
    → IsKept m v
    → Good (settle args (m v)) × Grows v (settle args (m v)).vm
Moves-call m v args good keeps kept =
    (Good-call m v args good keeps kept, settle-Grows v args (m v) kept.grows)
