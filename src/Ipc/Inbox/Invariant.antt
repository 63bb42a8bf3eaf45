-- ===== src/Ipc/Inbox/Invariant.antt =====
-- src/actor.ypp, src/ipc_actor.cpp, include/emilua/core.hpp: what every operation of an inbox keeps.
use emilua.Common.{
  contrary, ℕ, suc, ◌+◌, ◌-◌, ◌<◌, ◌≡◌, refl, sym, ap, subst, ◌++◌, ◌∙◌, inl, inr, Bool, true,
  false, Option, none, some, List, [], ◌∷◌, ◌==◌, arith, length, Bool-cases,
}
use emilua.Ipc.Values.{Received, received, refused}
use emilua.Ipc.Inbox.{
  Entry, Result, no_senders, Service, Inbox, resume_receiver, erase, set_running, remove_service,
  no_senders_left, store, hand_to, enqueue_all, is_waiting, wake, close_fds, receiver,
}
use emilua.Ipc.Inbox.Steps.{InboxOk, Origins, has_service}

-- After the receiver was resumed nobody waits, and the rest is as it was.
pub record Resumed (v w : Inbox) : Type 0 where
  pub idle : w.recv_fiber ≡ none
  pub guard_ : v.work_guard ≡ is_waiting v.recv_fiber → w.work_guard ≡ false
  pub is_open : w.is_open ≡ v.is_open
  pub incoming : w.incoming ≡ v.incoming
  pub nsenders : w.nsenders ≡ v.nsenders
  pub services : w.services ≡ v.services
  pub checks : w.checks ≡ v.checks

pub resume_receiver-Resumed : (result : Result) (v : Inbox) → Resumed v (resume_receiver result v)
unfolding resume_receiver
resume_receiver-Resumed result v = go v.recv_fiber refl
  where
    go :
        (o : Option ℕ)
        → v.recv_fiber ≡ o
        → Resumed v (elim o [
          | none ↦ v
          | some f ↦ wake (receiver f result) (record v { recv_fiber = none; work_guard = false })
        ])
    go none e = record {
      idle = e;
      guard_ = λ g. g ∙ ap is_waiting e;
      is_open = refl;
      incoming = refl;
      nsenders = refl;
      services = refl;
      checks = refl;
    }
    go (some f) e = record {
      idle = refl;
      guard_ = λ g. refl;
      is_open = refl;
      incoming = refl;
      nsenders = refl;
      services = refl;
      checks = refl;
    }

pub Origins-append : (l m : List Entry) → Origins l → Origins m → Origins (l ++ m)
Origins-append [] m h k = k
Origins-append (e ∷ l) m (a, b) k = (a, Origins-append l m b k)

-- What is left of the invariant between an operation's changes and the resumption of the receiver.
pub record Half (others : ℕ) (v : Inbox) : Type 0 where
  pub counted : v.nsenders ≡ length v.services + others
  pub guarded : v.work_guard ≡ is_waiting v.recv_fiber
  pub shut_ : v.is_open ≡ false → length v.incoming ≡ 0
  pub origins : Origins v.incoming

pub no_wait : {o : Option ℕ} → o ≡ none → is_waiting o ≡ true → ⊥
no_wait e h = contrary (sym h ∙ ap is_waiting e)

pub resume-InboxOk :
    (others : ℕ) (result : Result) (v : Inbox)
    → Half others v
    → InboxOk others (resume_receiver result v)
resume-InboxOk others result v h =
    let r = resume_receiver-Resumed result v in
    let waits = λ (k : is_waiting (resume_receiver result v).recv_fiber ≡ true). no_wait r.idle k in
    record {
      counted = r.nsenders ∙ h.counted ∙ ap (λ l. length l + others) (sym r.services);
      guarded = r.guard_ h.guarded ∙ sym (ap is_waiting r.idle);
      open_ = λ k. absurd (waits k);
      empty = λ k. absurd (waits k);
      senders = λ k. absurd (waits k);
      shut_ = λ k. ap length r.incoming ∙ h.shut_ (sym r.is_open ∙ k);
      origins = subst Origins (sym r.incoming) h.origins;
    }

length-erase :
    (id : ℕ) (l : List Service) → has_service id l ≡ true → suc (length (erase id l)) ≡ length l
length-erase id [] h = cc
length-erase id (s ∷ rest) h = elim (Bool-cases (s.fd == id)) [
  | inl e ↦ rw e refl
  | inr e ↦ rw e (ap suc (length-erase id rest (rw e at h)))
]

pub length-set_running :
    (id : ℕ) (b : Bool) (l : List Service) → length (set_running id b l) ≡ length l
length-set_running id b [] = refl
length-set_running id b (s ∷ rest) = elim (Bool-cases (s.fd == id)) [
  | inl e ↦ rw e refl
  | inr e ↦ rw e (ap suc (length-set_running id b rest))
]

pub length-enqueue_all : (l : List Service) → length (enqueue_all l) ≡ length l
length-enqueue_all [] = refl
length-enqueue_all (s ∷ rest) = ap suc (length-enqueue_all rest)

module _ (others : ℕ) where
  pub InboxOk-Half : (v : Inbox) → InboxOk others v → Half others v
  InboxOk-Half v k = record {
    counted = k.counted;
    guarded = k.guarded;
    shut_ = k.shut_;
    origins = k.origins;
  }

  remove-Half :
      (id : ℕ) (v : Inbox)
      → Half others v
      → has_service id v.services ≡ true
      → Half others (remove_service id v)
  remove-Half id v k h = record {
    counted = omega (arith, k.counted, length-erase id v.services h);
    guarded = k.guarded;
    shut_ = k.shut_;
    origins = k.origins;
  }

  pub remove-InboxOk :
      (id : ℕ) (v : Inbox)
      → InboxOk others v
      → has_service id v.services ≡ true
      → (is_waiting v.recv_fiber ≡ true → 0 < v.nsenders - 1)
      → InboxOk others (remove_service id v)
  remove-InboxOk id v k h left = record {
    counted = omega (arith, k.counted, length-erase id v.services h);
    guarded = k.guarded;
    open_ = k.open_;
    empty = k.empty;
    senders = λ w. omega (arith, left w);
    shut_ = k.shut_;
    origins = k.origins;
  }

  pub removed-InboxOk :
      (id : ℕ) (v : Inbox)
      → InboxOk others v
      → has_service id v.services ≡ true
      → InboxOk others (no_senders_left (remove_service id v))
  removed-InboxOk id v k h = elim (Bool-cases (v.nsenders - 1 == 0)) [
    | inl e ↦ rw e (
        resume-InboxOk others no_senders (remove_service id v)
          (remove-Half id v (InboxOk-Half v k) h))
    | inr e ↦ rw e (remove-InboxOk id v k h (λ w. ground arith))
  ]

  pub close_fds-InboxOk :
      (fds : List ℕ) (v : Inbox) → InboxOk others v → InboxOk others (close_fds fds v)
  close_fds-InboxOk fds v k = record {
    counted = k.counted;
    guarded = k.guarded;
    open_ = k.open_;
    empty = k.empty;
    senders = k.senders;
    shut_ = k.shut_;
    origins = k.origins;
  }

  pub idle-InboxOk : (v : Inbox) → Half others v → v.recv_fiber ≡ none → InboxOk others v
  idle-InboxOk v h e = record {
    counted = h.counted;
    guarded = h.guarded;
    open_ = λ k. absurd (no_wait e k);
    empty = λ k. absurd (no_wait e k);
    senders = λ k. absurd (no_wait e k);
    shut_ = h.shut_;
    origins = h.origins;
  }

  pub store-InboxOk :
      (id : ℕ) (r : Received) (v : Inbox)
      → Half others v
      → v.recv_fiber ≡ none
      → v.is_open ≡ true
      → has_service id v.services ≡ true
      → InboxOk others (store id r v)
  unfolding store
  store-InboxOk id (received value closed) v h e o k =
      idle-InboxOk _
        (record {
          counted = h.counted;
          guarded = h.guarded;
          shut_ = λ n. absurd (contrary (sym o ∙ n));
          origins = Origins-append v.incoming (_ ∷ []) h.origins (refl, tt);
        })
        e
  store-InboxOk id (refused closed) v h e o k =
      idle-InboxOk _
        (record {
          counted = omega (arith, h.counted, length-erase id v.services k);
          guarded = h.guarded;
          shut_ = h.shut_;
          origins = h.origins;
        })
        e

  pub hand_to-InboxOk :
      (id fiber : ℕ) (r : Received) (v : Inbox)
      → InboxOk others v
      → v.recv_fiber ≡ some fiber
      → has_service id v.services ≡ true
      → InboxOk others (hand_to id fiber r v)
  unfolding hand_to
  hand_to-InboxOk id fiber (received value closed) v k e h =
      close_fds-InboxOk closed _ (resume-InboxOk others _ v (InboxOk-Half v k))
  hand_to-InboxOk id fiber (refused closed) v k e h =
      let waits : is_waiting v.recv_fiber ≡ true = ap is_waiting e in
      elim (Bool-cases (v.nsenders - 1 == 0)) [
        | inl z ↦ rw z (record {
          counted = omega (arith, k.counted, length-erase id v.services h);
          guarded = refl;
          open_ = λ c. absurd (contrary (sym c));
          empty = λ c. absurd (contrary (sym c));
          senders = λ c. absurd (contrary (sym c));
          shut_ = k.shut_;
          origins = k.origins;
        })
        | inr z ↦ rw z (record {
          counted = omega (arith, k.counted, length-erase id v.services h);
          guarded = refl;
          open_ = λ c. k.open_ waits;
          empty = λ c. k.empty waits;
          senders = λ c. ground arith;
          shut_ = k.shut_;
          origins = k.origins;
        })
      ]
