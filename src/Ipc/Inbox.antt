-- ===== src/Ipc/Inbox.antt =====
-- src/actor.ypp, src/ipc_actor.cpp, include/emilua/core.hpp: the inbox of an actor, with the senders
-- of its own process and the sockets of other processes.
pub mod Steps
pub mod Invariant
pub mod Services
pub mod Operations
pub mod Histories
pub mod Closing
use emilua.Common.{
  ℕ, ◌+◌, ◌-◌, Bool, true, false, ◌||◌, Option, none, some, List, [], ◌∷◌, ◌++◌, if◌then◌else◌,
  ◌==◌, ltb,
}
use emilua.Ipc.{Message}
use emilua.Ipc.Values.{Value, Received, received, refused}
use emilua.Ipc.Queue.{queue_message}
use emilua.Ipc.Push.{push_message}

-- A message of an actor of this process is a token, one of another process a value that was read.
pub data Msg : Type 0 where
  local : (token : ℕ) → Msg
  remote : Value → Msg

pub data Result : Type 0 where
  no_senders : Result
  interrupted : Result
  channel_closed : Result
  delivered : Msg → Result

-- `inbox_t::sender_state`: the fiber that is woken, or none for a message of another process, whose
-- pointer to a VM is null.
pub record Entry : Type 0 where
  pub sender : Option ℕ
  pub msg : Msg

-- `ipc_actor_inbox_service`, by its descriptor.
pub record Service : Type 0 where
  pub fd : ℕ
  pub running : Bool

-- What a call posts to the fibers: the receiver or a sender is resumed, with an error or none; or
-- `fiber_resume` is to be called with the null pointer for its fiber.
pub data Wake : Type 0 where
  receiver : (fiber : ℕ) → Result → Wake
  sender_ : (fiber : ℕ) → Option Result → Wake
  null_fiber : Result → Wake

-- `inbox_t`, the services among the pending operations, the checks for senders that were posted, the
-- wake-ups in their order, and the descriptors closed.
pub record Inbox : Type 0 where
  pub recv_fiber : Option ℕ
  pub work_guard : Bool
  pub is_open : Bool
  pub incoming : List Entry
  pub nsenders : ℕ
  pub services : List Service
  pub checks : ℕ
  pub wakes : List Wake
  pub closed : List ℕ

abbrev pub wake : Wake → Inbox → Inbox
wake w v = record v { wakes = v.wakes ++ w ∷ [] }

abbrev pub close_fds : List ℕ → Inbox → Inbox
close_fds fds v = record v { closed = v.closed ++ fds }

-- `recv_fiber = nullptr; work_guard.reset()`, and the fiber is resumed.
unfoldable pub resume_receiver : Result → Inbox → Inbox
resume_receiver result v = elim v.recv_fiber [
  | none ↦ v
  | some f ↦ wake (receiver f result) (record v { recv_fiber = none; work_guard = false })
]

abbrev pub erase : ℕ → List Service → List Service
erase id [] = []
erase id (s ∷ rest) = if s.fd == id then rest else s ∷ erase id rest

abbrev pub set_running : ℕ → Bool → List Service → List Service
set_running id b [] = []
set_running id b (s ∷ rest) =
    if s.fd == id then record s { running = b } ∷ rest else s ∷ set_running id b rest

-- `pending_operations.erase(service); delete service; --nsenders`, with its descriptor closed.
abbrev pub remove_service : ℕ → Inbox → Inbox
remove_service id v = record v {
  services = erase id v.services;
  nsenders = v.nsenders - 1;
  closed = v.closed ++ id ∷ [];
}

abbrev pub no_senders_left : Inbox → Inbox
no_senders_left v = if v.nsenders == 0 then resume_receiver no_senders v else v

-- What `async_wait` and `recvmsg` report.
pub data Event : Type 0 where
  wait_failed : Event
  again : Event
  recv_failed : Event
  datagram : (message : Message) (nread : ℕ) (truncated : Bool) (fds : List ℕ) → Event

unfoldable pub store : ℕ → Received → Inbox → Inbox
store id (received value closed) v = record (close_fds closed v) {
  incoming = v.incoming ++ record { sender = none; msg = remote value } ∷ [];
}
store id (refused closed) v = remove_service id (close_fds closed v)

-- The receiver is taken out of the inbox before it is resumed; after a bad message it is put back,
-- or told that nobody is left.
unfoldable pub hand_to : ℕ → ℕ → Received → Inbox → Inbox
hand_to id fiber (received value closed) v =
    close_fds closed (resume_receiver (delivered (remote value)) v)
hand_to id fiber (refused closed) v =
    let w : Inbox = remove_service id (record v { recv_fiber = none; work_guard = false }) in
    if w.nsenders == 0
    then close_fds closed (wake (receiver fiber no_senders) w)
    else close_fds closed (record w { recv_fiber = some fiber; work_guard = true })

unfoldable pub read : ℕ → Message → ℕ → List ℕ → Inbox → Inbox
read id message nread fds v =
    let w : Inbox = record v { services = set_running id false v.services } in
    elim v.recv_fiber [
      | none ↦ store id (queue_message message nread fds) w
      | some f ↦ hand_to id f (push_message message nread fds) w
    ]

unfoldable pub on_wait : ℕ → Event → Inbox → Inbox
on_wait id event v = elim v.is_open [
  | false ↦ remove_service id v
  | true ↦ elim event [
    | wait_failed ↦ no_senders_left (remove_service id v)
    | again ↦ v
    | recv_failed ↦ no_senders_left (remove_service id v)
    | datagram message nread truncated fds ↦
        if ltb nread 16 || truncated
        then close_fds fds (no_senders_left (remove_service id v))
        else read id message nread fds v
  ]
]

-- `chan_receive`, once its argument and the fiber's right to suspend are checked.
pub data Answer : Type 0 where
  received_msg : Msg → Answer
  channel_closed_error : Answer
  device_or_resource_busy : Answer
  no_senders_error : Answer
  suspended : Answer

abbrev pub wake_sender : Option Result → Option ℕ → Inbox → Inbox
wake_sender result none v = v
wake_sender result (some f) v = wake (sender_ f result) v

-- `async_enqueue` of every service.
abbrev pub enqueue_all : List Service → List Service
enqueue_all [] = []
enqueue_all (s ∷ rest) = record s { running = true } ∷ enqueue_all rest

unfoldable pub receiving : ℕ → Inbox → Bool → Option ℕ → List Entry → Answer × Inbox
receiving fiber v false r l = (channel_closed_error, v)
receiving fiber v true (some _) l = (device_or_resource_busy, v)
receiving fiber v true none (entry ∷ rest) =
    (received_msg entry.msg, wake_sender none entry.sender (record v { incoming = rest }))
receiving fiber v true none [] = if v.nsenders == 0 then (no_senders_error, v) else (
  suspended,
  record v { services = enqueue_all v.services; recv_fiber = some fiber; work_guard = true },
)

unfoldable pub chan_receive : ℕ → Inbox → Answer × Inbox
chan_receive fiber v = receiving fiber v v.is_open v.recv_fiber v.incoming

-- The interrupter of a receiver, which is set until the fiber runs again. By then the inbox may have
-- given up the fiber, or have another one: `recv_fiber` is resumed as it is, be it null.
unfoldable pub interrupt_receive : Inbox → Inbox
interrupt_receive v =
    let w : Inbox = record v { recv_fiber = none; work_guard = false } in
    elim v.recv_fiber [
      | none ↦ wake (null_fiber interrupted) w
      | some f ↦ wake (receiver f interrupted) w
    ]

-- The task that `chan_send` posts to the receiving actor.
unfoldable pub deliver : ℕ → Msg → Inbox → Inbox
deliver fiber m v =
    if v.is_open
    then elim v.recv_fiber [
      | none ↦ record v { incoming = v.incoming ++ record { sender = some fiber; msg = m } ∷ [] }
      | some _ ↦ wake (sender_ fiber none) (resume_receiver (delivered m) v)
    ]
    else wake (sender_ fiber (some channel_closed)) v

abbrev pub is_from : ℕ → Option ℕ → Bool
is_from fiber none = false
is_from fiber (some f) = f == fiber

-- The entries without the first one of the fiber, if there is one.
abbrev pub erase_entry : ℕ → List Entry → Option (List Entry)
erase_entry fiber [] = none
erase_entry fiber (e ∷ rest) =
    if is_from fiber e.sender
    then some rest
    else elim (erase_entry fiber rest) [ none ↦ none | some l ↦ some (e ∷ l) ]

-- The task that the interrupter of `chan_send` posts.
unfoldable pub interrupt_send : ℕ → Inbox → Inbox
interrupt_send fiber v = elim (erase_entry fiber v.incoming) [
  | none ↦ v
  | some rest ↦ wake (sender_ fiber (some interrupted)) (record v { incoming = rest })
]

-- Each entry is destroyed with `wake_on_destruct` set: the strand of its VM gets a call. For an entry
-- whose pointer to a VM is null the behaviour is undefined, which is `none`.
unfoldable pub destroyed : List Entry → Option (List Wake)
destroyed [] = some []
destroyed (e ∷ rest) = elim e.sender [
  | none ↦ none
  | some f ↦ elim (destroyed rest) [
    | none ↦ none
    | some ws ↦ some (sender_ f (some channel_closed) ∷ ws)
  ]
]

abbrev pub shut : Inbox → Option Inbox
shut v = elim (destroyed v.incoming) [
  | none ↦ none
  | some ws ↦ some (record v { is_open = false; wakes = v.wakes ++ ws; incoming = [] })
]

unfoldable pub inbox_close : Inbox → Option Inbox
inbox_close v = if v.is_open then shut (resume_receiver channel_closed v) else some v

unfoldable pub inbox_gc : Inbox → Option Inbox
inbox_gc v = if v.is_open then shut (record v { recv_fiber = none; work_guard = false }) else some v

-- `actor_address`: made, destroyed, and the task that its destructor posts.
unfoldable pub new_address : Inbox → Inbox
new_address v = record v { nsenders = v.nsenders + 1 }

unfoldable pub drop_address : Inbox → Inbox
drop_address v =
    let n : ℕ = v.nsenders - 1 in
    record v { nsenders = n; checks = if n == 0 then v.checks + 1 else v.checks }

unfoldable pub check_senders : Inbox → Inbox
check_senders v =
    let w : Inbox = record v { checks = v.checks - 1 } in
    if w.nsenders == 0 then resume_receiver no_senders w else w

-- The address of this inbox goes to another process: the socket is served from the next call of
-- `receive` on.
unfoldable pub add_own_service : ℕ → Inbox → Inbox
add_own_service fd v = record v {
  nsenders = v.nsenders + 1;
  services = v.services ++ record { fd = fd; running = false } ∷ [];
}

-- The same by another actor of this process: the count at once, the socket by a posted task, which
-- has it served if a fiber waits.
unfoldable pub announce_service : Inbox → Inbox
announce_service v = record v { nsenders = v.nsenders + 1 }

abbrev pub is_waiting : Option ℕ → Bool
is_waiting none = false
is_waiting (some _) = true

unfoldable pub add_posted_service : ℕ → Inbox → Inbox
add_posted_service fd v = record v {
  services = v.services ++ record { fd = fd; running = is_waiting v.recv_fiber } ∷ [];
}
