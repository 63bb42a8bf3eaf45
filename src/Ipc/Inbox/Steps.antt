-- ===== src/Ipc/Inbox/Steps.antt =====
-- src/actor.ypp, src/ipc_actor.cpp, include/emilua/core.hpp: the histories of an inbox.
use emilua.Common.{
  ℕ, ◌+◌, ◌-◌, ◌<◌, ◌≡◌, Bool, true, false, not, none, some, List, [], ◌∷◌, if◌then◌else◌, ◌==◌,
  length,
}
use emilua.Ipc.Inbox.{
  Msg, local, remote, Entry, Service, Inbox, Event, on_wait, chan_receive, interrupt_receive,
  deliver, interrupt_send, inbox_close, inbox_gc, new_address, drop_address, check_senders,
  add_own_service, announce_service, add_posted_service, is_waiting,
}

abbrev pub has_service : ℕ → List Service → Bool
has_service id [] = false
has_service id (s ∷ rest) = if s.fd == id then true else has_service id rest

-- The inbox, the addresses of it in this process, and the services that are announced and not there
-- yet.
pub record System : Type 0 where
  pub inbox : Inbox
  pub addresses : ℕ
  pub announced : ℕ

-- Calls of the actors and events of the system; a call whose behaviour is undefined is no step. A
-- receiver may be interrupted at any time, also when `recv_fiber` has changed since it was suspended.
pub data Step : System → System → Type 0 where
  socket_ready :
      (s : System) (id : ℕ) (event : Event)
      → has_service id s.inbox.services ≡ true
      → Step s (record s { inbox = on_wait id event s.inbox })
  receive : (s : System) (fiber : ℕ) → Step s (record s { inbox = (chan_receive fiber s.inbox).1 })
  break_off : (s : System) → Step s (record s { inbox = interrupt_receive s.inbox })
  send :
      (s : System) (fiber token : ℕ)
      → Step s (record s { inbox = deliver fiber (local token) s.inbox })
  unsend : (s : System) (fiber : ℕ) → Step s (record s { inbox = interrupt_send fiber s.inbox })
  close_ : (s : System) (v : Inbox) → inbox_close s.inbox ≡ some v → Step s (record s { inbox = v })
  collect : (s : System) (v : Inbox) → inbox_gc s.inbox ≡ some v → Step s (record s { inbox = v })
  address :
      (s : System) → Step s (record s { inbox = new_address s.inbox; addresses = s.addresses + 1 })
  forget :
      (s : System)
      → 0 < s.addresses
      → Step s (record s { inbox = drop_address s.inbox; addresses = s.addresses - 1 })
  check : (s : System) → 0 < s.inbox.checks → Step s (record s { inbox = check_senders s.inbox })
  share_own : (s : System) (fd : ℕ) → Step s (record s { inbox = add_own_service fd s.inbox })
  announce :
      (s : System)
      → Step s (record s { inbox = announce_service s.inbox; announced = s.announced + 1 })
  arrive :
      (s : System) (fd : ℕ)
      → 0 < s.announced
      → Step s (record s { inbox = add_posted_service fd s.inbox; announced = s.announced - 1 })

abbrev pub is_remote : Msg → Bool
is_remote (local token) = false
is_remote (remote value) = true

-- The messages of other processes are those whose pointer to a VM is null.
abbrev pub Origins : List Entry → Type 0
Origins [] = Unit
Origins (e ∷ rest) = (is_waiting e.sender ≡ not (is_remote e.msg)) × Origins rest

-- Every sender is counted, `others` being those that are no service; the actor is kept alive exactly
-- while a fiber waits; a fiber waits only at an open and empty inbox that has a sender, or for
-- which a check for senders is on its way; a closed inbox is empty; and exactly the messages of other
-- processes have no sender.
pub record InboxOk (others : ℕ) (v : Inbox) : Type 0 where
  pub counted : v.nsenders ≡ length v.services + others
  pub guarded : v.work_guard ≡ is_waiting v.recv_fiber
  pub open_ : is_waiting v.recv_fiber ≡ true → v.is_open ≡ true
  pub empty : is_waiting v.recv_fiber ≡ true → length v.incoming ≡ 0
  pub senders : is_waiting v.recv_fiber ≡ true → 0 < v.nsenders + v.checks
  pub shut_ : v.is_open ≡ false → length v.incoming ≡ 0
  pub origins : Origins v.incoming

abbrev pub SystemOk : System → Type 0
SystemOk s = InboxOk (s.addresses + s.announced) s.inbox

pub data Reach : System → System → Type 0 where
  stop : (s : System) → Reach s s
  go : {s t u : System} → Step s t → Reach t u → Reach s u

-- A new actor: an open inbox with one address, that of the parent.
abbrev pub new_inbox : System
new_inbox = record {
  inbox = record {
    recv_fiber = none;
    work_guard = false;
    is_open = true;
    incoming = [];
    nsenders = 1;
    services = [];
    checks = 0;
    wakes = [];
    closed = [];
  };
  addresses = 1;
  announced = 0;
}
