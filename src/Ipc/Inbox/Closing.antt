-- ===== src/Ipc/Inbox/Closing.antt =====
-- src/actor.ypp: `inbox_close`, `inbox_gc` and the messages that nobody received.
use emilua.Common.{
  contrary, ℕ, ◌≡◌, refl, sym, ap, ◌∙◌, Bool, true, false, not, Option, none, some, List, [], ◌∷◌,
  ◌++◌, if◌then◌else◌,
}
use emilua.Ipc.Inbox.{
  Entry, Wake, sender_, channel_closed, Inbox, resume_receiver, destroyed, shut, inbox_close,
  inbox_gc, is_waiting,
}
use emilua.Ipc.Inbox.Steps.{System, Origins, is_remote, Reach, new_inbox}
use emilua.Ipc.Inbox.Invariant.{Resumed, resume_receiver-Resumed}
use emilua.Ipc.Inbox.Histories.{inbox-SystemOk}

-- A message of another process is among those that nobody received.
abbrev pub has_remote : List Entry → Bool
has_remote [] = false
has_remote (e ∷ rest) = if is_remote e.msg then true else has_remote rest

abbrev pub is_defined : {A : Type 0} → Option A → Bool
is_defined none = false
is_defined (some x) = true

destroyed-defined : (l : List Entry) → Origins l → is_defined (destroyed l) ≡ not (has_remote l)
unfolding destroyed
destroyed-defined [] h = refl
destroyed-defined (e ∷ rest) (a, h) =
    by_case (destroyed-defined rest h) e.sender (is_remote e.msg) a
  where
    more : (f : ℕ) → Option (List Wake) → Option (List Wake)
    more f o = elim o [ none ↦ none | some ws ↦ some (sender_ f (some channel_closed) ∷ ws) ]

    more-defined : (f : ℕ) (o : Option (List Wake)) → is_defined (more f o) ≡ is_defined o
    more-defined f none = refl
    more-defined f (some ws) = refl

    by_case :
        is_defined (destroyed rest) ≡ not (has_remote rest)
        → (o : Option ℕ) (b : Bool) → is_waiting o ≡ not b
        → is_defined {A = List Wake} (elim o [ none ↦ none | some f ↦ more f (destroyed rest) ])
          ≡ not (if b then true else has_remote rest)
    by_case d none true k = refl
    by_case d none false k = absurd (contrary (sym k))
    by_case d (some f) true k = absurd (contrary k)
    by_case d (some f) false k = more-defined f (destroyed rest) ∙ d

shut-defined : (v : Inbox) → is_defined (shut v) ≡ is_defined (destroyed v.incoming)
shut-defined v = by_case (destroyed v.incoming)
  where
    by_case :
        (o : Option (List Wake))
        → is_defined {A = Inbox} (elim o [
          | none ↦ none
          | some ws ↦ some (record v { is_open = false; wakes = v.wakes ++ ws; incoming = [] })
        ])
          ≡ is_defined o
    by_case none = refl
    by_case (some ws) = refl

open_shut :
    (v w : Inbox)
    → v.is_open ≡ true
    → w.incoming ≡ v.incoming
    → Origins v.incoming
    → is_defined (if v.is_open then shut w else some v) ≡ not (has_remote v.incoming)
open_shut v w o e h =
    ap (λ b. is_defined (if b then shut w else some v)) o
    ∙ shut-defined w
    ∙ ap (λ l. is_defined (destroyed l)) e
    ∙ destroyed-defined v.incoming h

-- In every state of an open inbox that a new one reaches, to close it, by `close` or by its
-- collection, is defined exactly if no message of another process is among those that nobody
-- received.
pub closing-defined :
    (t : System)
    → Reach new_inbox t
    → t.inbox.is_open ≡ true
    → (is_defined (inbox_close t.inbox) ≡ not (has_remote t.inbox.incoming))
      × (is_defined (inbox_gc t.inbox) ≡ not (has_remote t.inbox.incoming))
unfolding inbox_close inbox_gc
closing-defined t r o =
    let v : Inbox = t.inbox in
    let h = (inbox-SystemOk t r).origins in
    (
      open_shut v (resume_receiver channel_closed v) o
          (Resumed.incoming (resume_receiver-Resumed channel_closed v)) h,
      open_shut v (record v { recv_fiber = none; work_guard = false }) o refl h,
    )
