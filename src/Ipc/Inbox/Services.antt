-- ===== src/Ipc/Inbox/Services.antt =====
-- src/actor.ypp: what the service of a connection does keeps the inbox well-formed.
use emilua.Common.{
  contrary, ℕ, ◌≡◌, refl, sym, ◌∙◌, inl, inr, Bool, true, false, Option, none, some, List, [], ◌∷◌,
  if◌then◌else◌, ◌==◌, ltb, ◌||◌, arith, Bool-cases,
}
use emilua.Ipc.Inbox.{
  Service, Inbox, set_running, remove_service, no_senders_left, Event, store, hand_to, read,
  on_wait, close_fds, wait_failed, again, recv_failed, datagram,
}
use emilua.Ipc.Inbox.Steps.{InboxOk, has_service}
use emilua.Ipc.Inbox.Invariant.{
  length-set_running, InboxOk-Half, removed-InboxOk, remove-InboxOk, close_fds-InboxOk,
  store-InboxOk, hand_to-InboxOk,
}
use emilua.Ipc.Queue.{queue_message}
use emilua.Ipc.Push.{push_message}
use emilua.Ipc.{Message}

has_service-set_running :
    (id : ℕ) (b : Bool) (l : List Service)
    → has_service id l ≡ true
    → has_service id (set_running id b l) ≡ true
has_service-set_running id b [] h = h
has_service-set_running id b (s ∷ rest) h = elim (Bool-cases (s.fd == id)) [
  | inl e ↦ rw (e, e) refl
  | inr e ↦ rw (e, e) (has_service-set_running id b rest (rw e at h))
]

module _ (others : ℕ) where
  stopped-InboxOk :
      (id : ℕ) (v : Inbox)
      → InboxOk others v
      → InboxOk others (record v { services = set_running id false v.services })
  stopped-InboxOk id v k = record {
    counted = omega (arith, k.counted, length-set_running id false v.services);
    guarded = k.guarded;
    open_ = k.open_;
    empty = k.empty;
    senders = k.senders;
    shut_ = k.shut_;
    origins = k.origins;
  }

  read-InboxOk :
      (id : ℕ) (m : Message) (nread : ℕ) (fds : List ℕ) (v : Inbox)
      → InboxOk others v
      → v.is_open ≡ true
      → has_service id v.services ≡ true
      → InboxOk others (read id m nread fds v)
  unfolding read
  read-InboxOk id m nread fds v k o h = by_case v.recv_fiber refl
    where
      w : Inbox
      w = record v { services = set_running id false v.services }

      here : has_service id w.services ≡ true
      here = has_service-set_running id false v.services h

      by_case :
          (r : Option ℕ)
          → v.recv_fiber ≡ r
          → InboxOk others (elim r [
            | none ↦ store id (queue_message m nread fds) w
            | some f ↦ hand_to id f (push_message m nread fds) w
          ])
      by_case none e =
          store-InboxOk others id (queue_message m nread fds) w
            (InboxOk-Half others w (stopped-InboxOk id v k)) e o here
      by_case (some f) e =
          hand_to-InboxOk others id f (push_message m nread fds) w (stopped-InboxOk id v k) e here

  pub on_wait-InboxOk :
      (id : ℕ) (event : Event) (v : Inbox)
      → InboxOk others v
      → has_service id v.services ≡ true
      → InboxOk others (on_wait id event v)
  unfolding on_wait
  on_wait-InboxOk id event v k h = by_case v.is_open refl event
    where
      by_case :
          (o : Bool)
          → v.is_open ≡ o
          → (event : Event)
          → InboxOk others (elim o [
            | false ↦ remove_service id v
            | true ↦ elim event [
              | wait_failed ↦ no_senders_left (remove_service id v)
              | again ↦ v
              | recv_failed ↦ no_senders_left (remove_service id v)
              | datagram m nread truncated fds ↦
                  if ltb nread 16 || truncated
                  then close_fds fds (no_senders_left (remove_service id v))
                  else read id m nread fds v
            ]
          ])
      by_case false e event =
          remove-InboxOk others id v k h (λ w. absurd (contrary (sym (k.open_ w) ∙ e)))
      by_case true e wait_failed = removed-InboxOk others id v k h
      by_case true e again = k
      by_case true e recv_failed = removed-InboxOk others id v k h
      by_case true e (datagram m nread truncated fds) =
          elim (ltb nread 16 || truncated)
            as (λ b. InboxOk others (
              if b
              then close_fds fds (no_senders_left (remove_service id v))
              else read id m nread fds v)) [
                | true ↦ close_fds-InboxOk others fds _ (removed-InboxOk others id v k h)
                | false ↦ read-InboxOk id m nread fds v k e h
              ]
