-- ===== src/Runtime/Checks.antt =====
-- The checks that a native function starts with: they leave the VM as it is and do not yield.
use emilua.Common.{
  ◌≢◌, ℕ, ◌+◌, ◌≡◌, refl, sym, subst, ◌⊎◌, inl, inr, some, arith, get_elem?, Option-cases, ap, ◌∙◌,
}
use emilua.Runtime.{
  Error, arg, system_fiber, forbid_suspend_block, interrupted, Value, userdata, failure, Fiber, Vm,
  M, Outcome, done, raised, yielded, after, ◌>>=◌, check_userdata, Kind, lookup_fiber,
  unsafe_can_suspend, unsafe_can_suspend2,
}
use emilua.Runtime.Places.{waiting, yields_once, Conserves}

pub data IsCheck {A : Type 0} (P : A → Type 0) (m : M A) (v : Vm) : Type 0 where
  passes : (a : A) → m v ≡ done a v → P a → IsCheck P m v
  refuses : (e : Error) → m v ≡ raised (failure e) v → IsCheck P m v

pub bind_done :
    {A B : Type 0} (m : M A) (f : A → M B) {v : Vm} {a : A} → m v ≡ done a v → (m >>= f) v ≡ f a v
bind_done m f {v} e =
    λ i. elim (e i) [ done a w ↦ f a w | raised x w ↦ raised x w | yielded w ↦ yielded w ]

pub bind_raised :
    {A B : Type 0} (m : M A) (f : A → M B) {v : Vm} {x : Value}
    → m v ≡ raised x v
    → (m >>= f) v ≡ raised x v
bind_raised m f {v} e =
    λ i. elim (e i) [ done a w ↦ f a w | raised x w ↦ raised x w | yielded w ↦ yielded w ]

abbrev Balanced : {A : Type 0} → ℕ → Vm → Outcome A → Type 0
Balanced g v o = waiting g (after o) ≡ waiting g v + yields_once g v o

-- A call that starts with a check conserves the wake-ups if the rest does.
pub Conserves-check :
    {A B : Type 0} (P : A → Type 0) {m : M A} {f : A → M B} {v : Vm}
    → IsCheck P m v
    → ((a : A) → P a → Conserves (f a) v)
    → Conserves (m >>= f) v
Conserves-check {B = B} P {m} {f} {v} (passes a e p) go = record {
  balance = λ g. subst (Balanced {A = B} g v) (sym (bind_done m f e)) ((go a p).balance g);
}
Conserves-check {B = B} P {m} {f} {v} (refuses x e) go = record {
  balance = λ g. subst (Balanced {A = B} g v) (sym (bind_raised m f e)) (omega arith);
}

abbrev pub Anything : {A : Type 0} → A → Type 0
Anything a = Unit {0}

-- The refusals of the two suspension guards, in the order in which they are tested.
pub unsafe_can_suspend2_cases :
    (v : Vm)
    → (unsafe_can_suspend2 v ≡ done tt v)
      ⊎ (unsafe_can_suspend2 v ≡ raised (failure system_fiber) v)
      ⊎ (unsafe_can_suspend2 v ≡ raised (failure forbid_suspend_block) v)
unfolding unsafe_can_suspend2
unsafe_can_suspend2_cases v = ground arith

pub unsafe_can_suspend_cases :
    (v : Vm)
    → (unsafe_can_suspend v ≡ done tt v)
      ⊎ (unsafe_can_suspend v ≡ raised (failure system_fiber) v)
      ⊎ (unsafe_can_suspend v ≡ raised (failure forbid_suspend_block) v)
      ⊎ (unsafe_can_suspend v ≡ raised (failure interrupted) v)
unfolding unsafe_can_suspend
unsafe_can_suspend_cases v = ground arith

pub unsafe_can_suspend2-IsCheck : (v : Vm) → IsCheck Anything unsafe_can_suspend2 v
unsafe_can_suspend2-IsCheck v = elim (unsafe_can_suspend2_cases v) [
  | inl e ↦ passes tt e tt
  | inr (inl e) ↦ refuses _ e
  | inr (inr e) ↦ refuses _ e
]

pub unsafe_can_suspend-IsCheck : (v : Vm) → IsCheck Anything unsafe_can_suspend v
unsafe_can_suspend-IsCheck v = elim (unsafe_can_suspend_cases v) [
  | inl e ↦ passes tt e tt
  | inr (inl e) ↦ refuses _ e
  | inr (inr (inl e)) ↦ refuses _ e
  | inr (inr (inr e)) ↦ refuses _ e
]

-- A fiber that the suspension guards let through: neither the event thread nor within
-- `forbid_suspend`.
pub record MaySuspend (v : Vm) (f : ℕ) : Type 0 where
  pub not_system : f ≢ v.async_event_thread
  pub allowed : (fiber : Fiber) → lookup_fiber v f ≡ some fiber → fiber.suspension_disallowed ≡ 0

pub MaySuspend-unsafe_can_suspend2 :
    (v : Vm) → MaySuspend v v.current_fiber → unsafe_can_suspend2 v ≡ done tt v
unfolding unsafe_can_suspend2
MaySuspend-unsafe_can_suspend2 v g = elim (Option-cases (lookup_fiber v v.current_fiber)) [
  | inl e ↦ ground (arith, g.not_system)
  | inr (fiber, e) ↦ ground (arith, g.not_system, g.allowed fiber e)
]

-- A test that the argument passes.
pub check_userdata_ok :
    {A : Type 0} (k : Kind A) (n m id : ℕ) (a : A) (v : Vm)
    → get_elem? v.objects id ≡ some (k.wrap a)
    → k.unwrap (k.wrap a) ≡ some a
    → check_userdata k n m (userdata id) v ≡ done (id, a) v
unfolding check_userdata
check_userdata_ok k n m id a v e u = rw (e, check_userdata) (rw u refl)

-- The object of an argument that passes its test.
abbrev pub Holds : {A : Type 0} → Kind A → Vm → ℕ × A → Type 0
Holds k v (id, a) = get_elem? v.objects id ≡ some (k.wrap a)

pub check_userdata-IsCheck :
    {A : Type 0} (k : Kind A) (n m : ℕ) (value : Value) (v : Vm)
    → IsCheck (Holds k v) (check_userdata k n m value) v
unfolding check_userdata
check_userdata-IsCheck k n m (userdata id) v = elim (Option-cases (get_elem? v.objects id)) [
  | inl e ↦ refuses (arg n) (rw (e, check_userdata))
  | inr (o, e) ↦ elim (Option-cases (k.unwrap o)) [
    | inl u ↦ refuses (arg m) (rw (e, check_userdata) (rw u))
    | inr (a, u) ↦ passes (id, a) (rw (e, check_userdata) (rw u)) (e ∙ ap some (k.unwrap_lem o a u))
  ]
]
check_userdata-IsCheck k n m _ v = refuses (arg n) refl
