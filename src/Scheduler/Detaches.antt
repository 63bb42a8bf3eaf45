-- ===== src/Scheduler/Detaches.antt =====
-- `detach` and the collection of a handle of src/fiber.cpp keep the links.
use emilua.Common.{
  ℕ, ◌≡◌, ◌≢◌, refl, sym, ap, subst, ◌∙◌, inl, inr, Option, none, some, arith, get_elem?,
}
use emilua.Runtime.{Value, alive, joined, FiberHandle, Object, fiber_handle, after, Vm, put}
use emilua.Runtime.Checks.{Holds, check_userdata-IsCheck}
use emilua.Fiber.Places.{Joins, check_joinable-IsCheck, release_fiber-balance}
use emilua.Runtime.Places.{waiting, yields_once, object_waiters, waiting-put, Conserves}
use emilua.Fiber.{fiber_kind, joinable_fiber, release_fiber, detach, fiber_mt_gc, collect_handle}
use emilua.Scheduler.Links.{live, life, guard, handle_of, handle, Links, handle-put, handle-put_ne}
use emilua.Scheduler.Quiet.{Grows-same, IsQuiet-same}
use emilua.Scheduler.Joins.{Links-Linked}
use emilua.Scheduler.Changes.{
  joinable_parts, some_handle, Changes, Changes-handle, Changes-Links, Changes-joins,
}
use emilua.Scheduler.Account.{lives, IsKept, IsKept-check, IsQuiet-IsKept}
use emilua.Scheduler.Releases.{Released, release_fiber-Released}

module _ (id target : ℕ) (h : FiberHandle) (v : Vm) (l : Links v)
    (at : get_elem? v.objects id ≡ some (fiber_handle h))
    (can : joinable_fiber h ≡ some target) where
  abbrev emptied : FiberHandle
  emptied = record h { fiber = none }

  abbrev w : Vm
  w = put id (fiber_handle emptied) (release_fiber target v)

  held : handle v id ≡ some h
  unfolding handle handle_of
  held = ap handle_of at

  names : h.fiber ≡ some target
  names = (joinable_parts h target can).1

  free : (j : ℕ) (u : Option ℕ) → life v target ≢ live (joined j) u
  free j u e = clash (l.unjoined id target h (joined j) u held can e)
    where
      clash : joined j ≡ alive → ⊥
      clash k = cc

  released : Released target v (release_fiber target v)
  released = release_fiber-Released target v free

  handle_own : handle w id ≡ some emptied
  unfolding handle_of
  handle_own =
      handle-put (release_fiber target v) id (fiber_handle h) (fiber_handle emptied)
        (ap (λ o. get_elem? o id) released.objects ∙ at)

  handle_others : (j : ℕ) → id ≢ j → handle w j ≡ handle v j
  unfolding handle
  handle_others j ne =
      handle-put_ne (release_fiber target v) id (fiber_handle h) (fiber_handle emptied)
        (ap (λ o. get_elem? o id) released.objects ∙ at) j ne
      ∙ ap (λ o. handle_of (get_elem? o j)) released.objects

  changes : Changes target v w
  unfolding life
  changes =
      Changes-handle h emptied released.size released.others held names handle_own
        (λ t e. absurd (clash t e)) handle_others
    where
      clash : (t : ℕ) → none ≡ some t → ⊥
      clash t k = cc

  detach-Links : Links w
  unfolding life guard
  detach-Links =
      Changes-Links l changes
        (λ j g o u a b e.
          let (still, names') = joinable_parts g target b in
          let (k, e', f') = changes.back_own j g a names' in
          let same : id ≡ j = l.unique id j target h k held e' names f' in
          absurd (
            clash (
              some_handle (sym handle_own ∙ subst (λ x. handle w x ≡ some g) (sym same) a)
              ∙ names')))
        (λ j u e. absurd (released.own j u e))
        (Changes-joins l changes
          (λ c. elim (released.guards c) [ inl same ↦ inl (same, free c) | inr idle ↦ inr idle ]))
    where
      clash : none ≡ some target → ⊥
      clash k = cc

pub detach-IsKept : (v : Vm) (value : Value) → Links v → IsKept (detach value) v
unfolding detach fiber_kind lives life
detach-IsKept v value l =
    IsKept-check (Holds fiber_kind v) l (check_userdata-IsCheck fiber_kind 1 1 value v)
      λ (id, h) at. IsKept-check (Joins h) l (check_joinable-IsCheck h v) λ target can. record {
        current = (released id target h v l at can).current;
        lives_same = (released id target h v l at can).lives_same;
        links = detach-Links id target h v l at can;
        grows = Grows-same (released id target h v l at can).strand;
      }

pub collect_handle-IsKept : (v : Vm) (id : ℕ) → Links v → IsKept (collect_handle id) v
unfolding collect_handle fiber_mt_gc lives life
collect_handle-IsKept v id l = go (get_elem? v.objects id) refl
  where
    same : after (collect_handle id v) ≡ v → IsKept (collect_handle id) v
    same e = IsQuiet-IsKept (collect_handle id) v l (IsQuiet-same e)

    freed :
        (h : FiberHandle)
        → get_elem? v.objects id ≡ some (fiber_handle h)
        → (o : Option ℕ) → joinable_fiber h ≡ o
        → IsKept (collect_handle id) v
    freed h at none k = same (rw (at, collect_handle) (rw (k, fiber_mt_gc) refl))
    freed h at (some target) k =
        let e : after (collect_handle id v) ≡ w id target h v l at k =
          rw (at, collect_handle) (rw (k, fiber_mt_gc) refl) in
        let r = released id target h v l at k in
        record {
          current = ap (λ u. u.current_fiber) e ∙ r.current;
          lives_same = λ g. ap (lives g) e ∙ r.lives_same g;
          links = subst Links (sym e) (detach-Links id target h v l at k);
          grows = Grows-same (ap (λ u. u.strand) e ∙ r.strand);
        }

    go : (o : Option Object) → get_elem? v.objects id ≡ o → IsKept (collect_handle id) v
    go (some (fiber_handle h)) at = freed h at (joinable_fiber h) refl
    go (some _) at = same (rw (at, collect_handle) refl)
    go none at = same (rw (at, collect_handle) refl)

pub collect_handle-Conserves : (v : Vm) (id : ℕ) → Links v → Conserves (collect_handle id) v
unfolding collect_handle fiber_mt_gc object_waiters
collect_handle-Conserves v id l = go (get_elem? v.objects id) refl
  where
    kept :
        ((g : ℕ) → waiting g (after (collect_handle id v)) ≡ waiting g v)
        → ((g : ℕ) → yields_once g v (collect_handle id v) ≡ 0)
        → Conserves (collect_handle id) v
    kept same still = record { balance = λ g. omega (arith, same g, still g) }

    freed :
        (h : FiberHandle)
        → get_elem? v.objects id ≡ some (fiber_handle h)
        → (o : Option ℕ) → joinable_fiber h ≡ o
        → Conserves (collect_handle id) v
    freed h at none k =
        kept (λ g. rw (at, collect_handle) (rw (k, fiber_mt_gc) refl))
          (λ g. rw (at, collect_handle) refl)
    freed h at (some target) k =
        let e : after (collect_handle id v) ≡ w id target h v l at k =
          rw (at, collect_handle) (rw (k, fiber_mt_gc) refl) in
        kept
          (λ g.
            let (same, objs) =
              release_fiber-balance g target v
                (λ fiber. (Links-Linked v l).unjoined id target h fiber at k) in
            let now : waiting g (after (collect_handle id v)) ≡ waiting g (w id target h v l at k) =
              ap (waiting g) e in
            omega (
              arith,
              same,
              now,
              waiting-put g (release_fiber target v) id (fiber_handle h)
                  (fiber_handle (record h { fiber = none })) (ap (λ o. get_elem? o id) objs ∙ at),
            ))
          (λ g. rw (at, collect_handle) refl)

    go : (o : Option Object) → get_elem? v.objects id ≡ o → Conserves (collect_handle id) v
    go (some (fiber_handle h)) at = freed h at (joinable_fiber h) refl
    go (some _) at = kept (λ g. rw (at, collect_handle) refl) (λ g. rw (at, collect_handle) refl)
    go none at = kept (λ g. rw (at, collect_handle) refl) (λ g. rw (at, collect_handle) refl)
