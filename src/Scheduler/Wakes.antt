-- ===== src/Scheduler/Wakes.antt =====
-- The strand resumes a fiber (`fiber_resume` of include/emilua/core.hpp): the account and the links
-- are kept, or the VM is closed.
use emilua.Common.{
  ℕ, ◌+◌, ◌≡◌, refl, ap, inl, inr, true, false, none, some, List, [], ◌∷◌, arith, hit, total, Bool,
  if◌then◌else◌,
}
use emilua.Runtime.{fiber_join, Post, Vm, set_interrupter}
use emilua.Runtime.Places.{waiting, post_waiters, waiting-set_interrupter}
use emilua.Scheduler.{fiber_resume, wake_next}
use emilua.Scheduler.Links.{life, guard, handle, Links}
use emilua.Scheduler.Quiet.{Quiet, Quiet-Links, Quiet-set_interrupter}
use emilua.Scheduler.Account.{lives, lives-Quiet, Good, running, resting}
use emilua.Scheduler.Endings.{Sound, Closed}

-- The links depend neither on the strand nor on the fiber that runs.
switch-Links :
    (c : ℕ) (rest : List Post) (v : Vm)
    → Links v
    → Links (record v { strand = rest; current_fiber = c })
unfolding life guard handle
switch-Links c rest v l = record {
  unjoined = l.unjoined;
  unique = l.unique;
  known = l.known;
  target = l.target;
  joins = l.joins;
}

module _ (v : Vm) (good : Good (resting v)) (p : Post) (rest : List Post)
    (next : v.strand ≡ p ∷ rest) where
  abbrev taken : Vm
  taken = record v { strand = rest; current_fiber = p.fiber }

  taken-waiting : (g : ℕ) → waiting g taken + hit g p.fiber ≡ waiting g v
  unfolding waiting total post_waiters
  taken-waiting g =
      let all : total (post_waiters g) v.strand ≡ hit g p.fiber + total (post_waiters g) rest =
        ap (total (post_waiters g)) next in
      omega (arith, all)

  taken-lives : (g : ℕ) → lives g taken ≡ lives g v
  unfolding lives life
  taken-lives g = refl

  taken-Good : Good (running taken p.arguments)
  taken-Good = record {
    account = λ g. omega (arith, taken-waiting g, taken-lives g, good.account g);
    links = switch-Links p.fiber rest v good.links;
  }

  cleared-Good : Good (running (set_interrupter none taken) p.arguments)
  cleared-Good =
      let q : Quiet taken (set_interrupter none taken) =
        Quiet-set_interrupter none taken (λ i f t k. clash i f t k) in
      record {
        account = λ g.
            let at : hit g (set_interrupter none taken).current_fiber ≡ hit g p.fiber =
              ap (hit g) q.current in
            omega (
              arith,
              at,
              taken-Good.account g,
              waiting-set_interrupter g none taken,
              lives-Quiet taken (set_interrupter none taken) q g,
            );
        links = Quiet-Links q taken-Good.links;
      }
    where
      clash : (i f t : ℕ) → none ≡ some (fiber_join i f t) → ⊥
      clash i f t k = cc

  fiber_resume-Sound : Sound (fiber_resume p (record v { strand = rest }))
  unfolding fiber_resume
  fiber_resume-Sound = go v.valid refl
    where
      skipped :
          (b : Bool)
          → Good (record {
            vm = if b then taken else set_interrupter none taken;
            running = some p.arguments;
          })
      skipped true = taken-Good
      skipped false = cleared-Good

      go :
          (b : Bool)
          → v.valid ≡ b
          → Sound (
              if b
              then record {
                vm = if p.skip_clear_interrupter then taken else set_interrupter none taken;
                running = some p.arguments;
              }
              else record { vm = record v { strand = rest }; running = none })
      go true e = inl (skipped p.skip_clear_interrupter)
      go false e = inr (record { invalid = e; still = refl })

-- The next call of the strand, if there is one.
pub wake_next-Sound : (v : Vm) → Good (resting v) → Sound (wake_next v.strand v)
unfolding wake_next
wake_next-Sound v good = go v.strand refl
  where
    go : (posts : List Post) → v.strand ≡ posts → Sound (wake_next posts v)
    go [] e = inl good
    go (p ∷ rest) e = fiber_resume-Sound v good p rest e

pub wake_next-Closed : (v : Vm) (posts : List Post) → v.valid ≡ false → Closed (wake_next posts v)
unfolding wake_next fiber_resume
wake_next-Closed v [] e = record { invalid = e; still = refl }
wake_next-Closed v (p ∷ rest) e = go v.valid e e
  where
    go :
        (b : Bool)
        → b ≡ false
        → v.valid ≡ false
        → Closed (
            if b
            then record {
              vm =
                  if p.skip_clear_interrupter
                  then record v { strand = rest; current_fiber = p.fiber }
                  else set_interrupter none (record v { strand = rest; current_fiber = p.fiber });
              running = some p.arguments;
            }
            else record { vm = record v { strand = rest }; running = none })
    go true k e = cc
    go false k e = record { invalid = e; still = refl }
