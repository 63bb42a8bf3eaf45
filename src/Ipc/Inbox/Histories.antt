-- ===== src/Ipc/Inbox/Histories.antt =====
-- src/actor.ypp, src/ipc_actor.cpp, include/emilua/core.hpp: every state of an inbox that a history
-- reaches is well-formed.
use emilua.Common.{
  contrary, ℕ, ◌+◌, ◌-◌, ◌<◌, ◌≡◌, refl, sym, ap, subst, ◌∙◌, inl, inr, true, [], ◌∷◌, ◌==◌, arith,
  length, length-append, Bool-cases,
}
use emilua.Ipc.Inbox.{
  Inbox, new_address, drop_address, add_own_service, announce_service, add_posted_service,
  is_waiting,
}
use emilua.Ipc.Inbox.Steps.{
  System, Origins, InboxOk, SystemOk, Step, socket_ready, receive, break_off, send, unsend, close_,
  collect, address, forget, check, share_own, announce, arrive, Reach, stop, go, new_inbox,
}
use emilua.Ipc.Inbox.Services.{on_wait-InboxOk}
use emilua.Ipc.Inbox.Operations.{
  IfDefined, interrupt_receive-InboxOk, chan_receive-InboxOk, deliver-InboxOk,
  interrupt_send-InboxOk, inbox_close-InboxOk, inbox_gc-InboxOk, check_senders-InboxOk,
}

-- More or fewer senders, each counted, and as many checks as before or one more.
recount-InboxOk :
    (others others' : ℕ) (v w : Inbox)
    → InboxOk others v
    → w.recv_fiber ≡ v.recv_fiber
    → w.work_guard ≡ v.work_guard
    → w.is_open ≡ v.is_open
    → w.incoming ≡ v.incoming
    → w.nsenders ≡ length w.services + others'
    → (0 < v.nsenders + v.checks → 0 < w.nsenders + w.checks)
    → InboxOk others' w
recount-InboxOk others others' v w k r g o l n c =
    let waits = λ (h : is_waiting w.recv_fiber ≡ true). sym (ap is_waiting r) ∙ h in
    record {
      counted = n;
      guarded = g ∙ k.guarded ∙ sym (ap is_waiting r);
      open_ = λ h. o ∙ k.open_ (waits h);
      empty = λ h. ap length l ∙ k.empty (waits h);
      senders = λ h. c (k.senders (waits h));
      shut_ = λ h. ap length l ∙ k.shut_ (sym o ∙ h);
      origins = subst Origins (sym l) k.origins;
    }

drop_address-InboxOk :
    (others : ℕ) (v : Inbox) → 0 < others → InboxOk others v → InboxOk (others - 1) (drop_address v)
unfolding drop_address
drop_address-InboxOk others v h k =
    recount-InboxOk others (others - 1) v _ k refl refl refl refl (omega (arith, k.counted)) (λ c.
      elim (Bool-cases (v.nsenders - 1 == 0)) [
        | inl z ↦ rw z (omega arith)
        | inr z ↦ rw z (ground arith)
      ])

Step-SystemOk : (s t : System) → Step s t → SystemOk s → SystemOk t
unfolding new_address add_own_service announce_service add_posted_service
Step-SystemOk s _ (socket_ready _ id event h) k = on_wait-InboxOk _ id event s.inbox k h
Step-SystemOk s _ (receive _ fiber) k = chan_receive-InboxOk _ fiber s.inbox k
Step-SystemOk s _ (break_off _) k = interrupt_receive-InboxOk _ s.inbox k
Step-SystemOk s _ (send _ fiber token) k = deliver-InboxOk _ fiber token s.inbox k
Step-SystemOk s _ (unsend _ fiber) k = interrupt_send-InboxOk _ fiber s.inbox k
Step-SystemOk s _ (close_ _ v e) k = subst (IfDefined _) e (inbox_close-InboxOk _ s.inbox k)
Step-SystemOk s _ (collect _ v e) k = subst (IfDefined _) e (inbox_gc-InboxOk _ s.inbox k)
Step-SystemOk s _ (address _) k =
    recount-InboxOk _ _ s.inbox _ k refl refl refl refl (omega (arith, k.counted))
      (λ c. omega arith)
Step-SystemOk s _ (forget _ h) k =
    subst (λ n. InboxOk n (drop_address s.inbox)) (omega arith)
      (drop_address-InboxOk (s.addresses + s.announced) s.inbox (omega arith) k)
Step-SystemOk s _ (check _ h) k = check_senders-InboxOk _ s.inbox k
Step-SystemOk s _ (share_own _ fd) k =
    recount-InboxOk _ _ s.inbox _ k refl refl refl refl
      (omega (arith, k.counted, length-append s.inbox.services (_ ∷ []))) (λ c. omega arith)
Step-SystemOk s _ (announce _) k =
    recount-InboxOk _ _ s.inbox _ k refl refl refl refl (omega (arith, k.counted))
      (λ c. omega arith)
Step-SystemOk s _ (arrive _ fd h) k =
    recount-InboxOk _ _ s.inbox _ k refl refl refl refl
      (omega (arith, k.counted, length-append s.inbox.services (_ ∷ []))) (λ c. c)

Reach-SystemOk : (s t : System) → Reach s t → SystemOk s → SystemOk t
Reach-SystemOk s t (stop _) k = k
Reach-SystemOk s t (go {t = u} h r) k = Reach-SystemOk u t r (Step-SystemOk s u h k)

new_inbox-SystemOk : SystemOk new_inbox
new_inbox-SystemOk = record {
  counted = refl;
  guarded = refl;
  open_ = λ c. absurd (contrary (sym c));
  empty = λ c. refl;
  senders = λ c. omega arith;
  shut_ = λ c. refl;
  origins = tt;
}

pub inbox-SystemOk : (t : System) → Reach new_inbox t → SystemOk t
inbox-SystemOk t r = Reach-SystemOk new_inbox t r new_inbox-SystemOk
