-- ===== src/Ipc/Inbox/Operations.antt =====
-- src/actor.ypp, src/ipc_actor.cpp, include/emilua/core.hpp: the operations of an inbox keep it
-- well-formed.
use emilua.Common.{
  contrary, ℕ, suc, ◌+◌, ◌-◌, ◌≡◌, refl, sym, ap, subst, ◌∙◌, inl, inr, Bool, true, false, Option,
  none, some, List, [], ◌∷◌, ◌++◌, if◌then◌else◌, ◌==◌, arith, length, Bool-cases,
}
use emilua.Ipc.Inbox.{
  Msg, local, destroyed, interrupt_receive, null_fiber, receiver, Result, no_senders, interrupted,
  channel_closed, delivered, Inbox, resume_receiver, chan_receive, deliver, interrupt_send,
  inbox_close, inbox_gc, check_senders, is_waiting, Wake, wake, shut, Entry, receiving, wake_sender,
  sender_, erase_entry, is_from,
}
use emilua.Ipc.Inbox.Steps.{InboxOk, Origins}
use emilua.Ipc.Inbox.Invariant.{
  Half, no_wait, Resumed, resume_receiver-Resumed, Origins-append, resume-InboxOk,
  length-enqueue_all, InboxOk-Half, idle-InboxOk,
}

-- One entry less.
abbrev Shorter : List Entry → Option (List Entry) → Type 0
Shorter l none = Unit
Shorter l (some rest) = (suc (length rest) ≡ length l) × (Origins l → Origins rest)

erase_entry-Shorter : (fiber : ℕ) (l : List Entry) → Shorter l (erase_entry fiber l)
erase_entry-Shorter fiber [] = tt
erase_entry-Shorter fiber (e ∷ rest) =
    elim (is_from fiber e.sender)
      as (λ b. Shorter (e ∷ rest) (
        if b
        then some rest
        else elim (erase_entry fiber rest) [ none ↦ none | some l ↦ some (e ∷ l) ])) [
          | true ↦ (refl, λ h. h.1)
          | false ↦ by_case (erase_entry fiber rest) (erase_entry-Shorter fiber rest)
        ]
  where
    by_case :
        (o : Option (List Entry))
        → Shorter rest o
        → Shorter (e ∷ rest) (elim o [ none ↦ none | some l ↦ some (e ∷ l) ])
    by_case none h = tt
    by_case (some l) (h, k) = (ap suc h, λ a. (a.0, k a.1))

-- A call whose behaviour is defined.
abbrev pub IfDefined : ℕ → Option Inbox → Type 0
IfDefined others none = Unit
IfDefined others (some w) = InboxOk others w

module _ (others : ℕ) where
  wake-InboxOk : (w : Wake) (v : Inbox) → InboxOk others v → InboxOk others (wake w v)
  wake-InboxOk w v k = record {
    counted = k.counted;
    guarded = k.guarded;
    open_ = k.open_;
    empty = k.empty;
    senders = k.senders;
    shut_ = k.shut_;
    origins = k.origins;
  }

  wake_sender-InboxOk :
      (result : Option Result) (sender : Option ℕ) (v : Inbox)
      → InboxOk others v
      → InboxOk others (wake_sender result sender v)
  wake_sender-InboxOk result none v k = k
  wake_sender-InboxOk result (some f) v k = wake-InboxOk _ v k

  -- Another queue, at an open inbox where no fiber waits, or with nothing in it.
  queue-InboxOk :
      (l : List Entry) (v : Inbox)
      → InboxOk others v
      → (is_waiting v.recv_fiber ≡ true → length l ≡ 0)
      → (v.is_open ≡ false → length l ≡ 0)
      → Origins l
      → InboxOk others (record v { incoming = l })
  queue-InboxOk l v k e s a = record {
    counted = k.counted;
    guarded = k.guarded;
    open_ = k.open_;
    empty = e;
    senders = k.senders;
    shut_ = s;
    origins = a;
  }

  receiving-InboxOk :
      (fiber : ℕ) (v : Inbox) (b : Bool) (r : Option ℕ) (l : List Entry)
      → v.is_open ≡ b
      → v.recv_fiber ≡ r
      → v.incoming ≡ l
      → InboxOk others v
      → InboxOk others (receiving fiber v b r l).1
  unfolding receiving
  receiving-InboxOk fiber v false r l o e f k = k
  receiving-InboxOk fiber v true (some g) l o e f k = k
  receiving-InboxOk fiber v true none (entry ∷ rest) o e f k =
      wake_sender-InboxOk none entry.sender _ (
        queue-InboxOk rest v k (λ w. absurd (no_wait e w)) (λ c. absurd (contrary (sym o ∙ c)))
          (subst Origins f k.origins).1)
  receiving-InboxOk fiber v true none [] o e f k = elim (Bool-cases (v.nsenders == 0)) [
    | inl z ↦ rw z k
    | inr z ↦ rw z (record {
      counted = k.counted ∙ ap (λ n. n + others) (sym (length-enqueue_all v.services));
      guarded = refl;
      open_ = λ c. o;
      empty = λ c. ap length f;
      senders = λ c. ground arith;
      shut_ = k.shut_;
      origins = k.origins;
    })
  ]

  pub chan_receive-InboxOk :
      (fiber : ℕ) (v : Inbox) → InboxOk others v → InboxOk others (chan_receive fiber v).1
  unfolding chan_receive
  chan_receive-InboxOk fiber v k =
      receiving-InboxOk fiber v v.is_open v.recv_fiber v.incoming refl refl refl k

  pub deliver-InboxOk :
      (fiber token : ℕ) (v : Inbox)
      → InboxOk others v
      → InboxOk others (deliver fiber (local token) v)
  unfolding deliver
  deliver-InboxOk fiber token v k = by_case v.is_open refl v.recv_fiber refl
    where
      m : Msg
      m = local token

      by_case :
          (b : Bool)
          → v.is_open ≡ b
          → (r : Option ℕ) → v.recv_fiber ≡ r
          → InboxOk others (
              if b
              then elim r [
                | none ↦ record v {
                  incoming = v.incoming ++ record { sender = some fiber; msg = m } ∷ [];
                }
                | some _ ↦ wake (sender_ fiber none) (resume_receiver (delivered m) v)
              ]
              else wake (sender_ fiber (some channel_closed)) v)
      by_case false o r e = wake-InboxOk _ v k
      by_case true o none e =
          queue-InboxOk _ v k (λ w. absurd (no_wait e w)) (λ c. absurd (contrary (sym o ∙ c)))
            (Origins-append v.incoming (_ ∷ []) k.origins (refl, tt))
      by_case true o (some g) e =
          wake-InboxOk _ _ (resume-InboxOk others (delivered m) v (InboxOk-Half others v k))

  pub interrupt_send-InboxOk :
      (fiber : ℕ) (v : Inbox) → InboxOk others v → InboxOk others (interrupt_send fiber v)
  unfolding interrupt_send
  interrupt_send-InboxOk fiber v k =
      by_case (erase_entry fiber v.incoming) (erase_entry-Shorter fiber v.incoming)
    where
      by_case :
          (o : Option (List Entry))
          → Shorter v.incoming o
          → InboxOk others (elim o [
            | none ↦ v
            | some rest ↦ wake (sender_ fiber (some interrupted)) (record v { incoming = rest })
          ])
      by_case none h = k
      by_case (some rest) (h, g) = wake-InboxOk _ _ (
          queue-InboxOk rest v k (λ w. omega (arith, h, k.empty w))
            (λ c. omega (arith, h, k.shut_ c)) (g k.origins))

  pub interrupt_receive-InboxOk :
      (v : Inbox) → InboxOk others v → InboxOk others (interrupt_receive v)
  unfolding interrupt_receive
  interrupt_receive-InboxOk v k = by_case v.recv_fiber
    where
      w : Inbox
      w = record v { recv_fiber = none; work_guard = false }

      idle : InboxOk others w
      idle =
          idle-InboxOk others w
            (record { counted = k.counted; guarded = refl; shut_ = k.shut_; origins = k.origins })
            refl

      by_case :
          (r : Option ℕ)
          → InboxOk others (elim r [
            | none ↦ wake (null_fiber interrupted) w
            | some f ↦ wake (receiver f interrupted) w
          ])
      by_case none = wake-InboxOk _ w idle
      by_case (some f) = wake-InboxOk _ w idle

  shut-IfDefined : (v : Inbox) → Half others v → v.recv_fiber ≡ none → IfDefined others (shut v)
  shut-IfDefined v k e = by_case (destroyed v.incoming)
    where
      by_case :
          (o : Option (List Wake))
          → IfDefined others (elim o [
            | none ↦ none
            | some ws ↦ some (record v { is_open = false; wakes = v.wakes ++ ws; incoming = [] })
          ])
      by_case none = tt
      by_case (some ws) =
          idle-InboxOk others _
            (record { counted = k.counted; guarded = k.guarded; shut_ = λ c. refl; origins = tt }) e

  pub inbox_close-InboxOk : (v : Inbox) → InboxOk others v → IfDefined others (inbox_close v)
  unfolding inbox_close
  inbox_close-InboxOk v k =
      let w : Inbox = resume_receiver channel_closed v in
      elim v.is_open as (λ b. IfDefined others (if b then shut w else some v)) [
        | true ↦
            let resumed = resume-InboxOk others channel_closed v (InboxOk-Half others v k) in
            shut-IfDefined w (InboxOk-Half others w resumed)
              (Resumed.idle (resume_receiver-Resumed channel_closed v))
        | false ↦ k
      ]

  pub inbox_gc-InboxOk : (v : Inbox) → InboxOk others v → IfDefined others (inbox_gc v)
  unfolding inbox_gc
  inbox_gc-InboxOk v k =
      let w : Inbox = record v { recv_fiber = none; work_guard = false } in
      elim v.is_open as (λ b. IfDefined others (if b then shut w else some v)) [
        | true ↦
            shut-IfDefined w
              (record { counted = k.counted; guarded = refl; shut_ = k.shut_; origins = k.origins })
              refl
        | false ↦ k
      ]

  pub check_senders-InboxOk : (v : Inbox) → InboxOk others v → InboxOk others (check_senders v)
  unfolding check_senders
  check_senders-InboxOk v k =
      let w : Inbox = record v { checks = v.checks - 1 } in
      elim (Bool-cases (v.nsenders == 0)) [
        | inl z ↦ rw z (
            resume-InboxOk others no_senders w (record {
              counted = k.counted;
              guarded = k.guarded;
              shut_ = k.shut_;
              origins = k.origins;
            }))
        | inr z ↦ rw z (record {
          counted = k.counted;
          guarded = k.guarded;
          open_ = k.open_;
          empty = k.empty;
          senders = λ c. ground arith;
          shut_ = k.shut_;
          origins = k.origins;
        })
      ]
