-- ===== src/Ipc/Leaks.antt =====
-- src/ipc_actor.cpp: both readers of a message, and all that the sender and the kernel did not fill.
use emilua.Common.{ℕ, ◌≤◌, ◌≡◌, List, count}
use emilua.Ipc.{Message}
use emilua.Ipc.Queue.{queue_message}
use emilua.Ipc.Push.{push_message}
use emilua.Ipc.Prefix.{SamePrefix}
use emilua.Ipc.Prefix.Queue.{queue_message-prefix}
use emilua.Ipc.Prefix.Push.{push_message-prefix}
use emilua.Ipc.Descriptors.{accounted}
use emilua.Ipc.Descriptors.Queue.{queue_message-accounted}
use emilua.Ipc.Descriptors.Push.{push_message-accounted}

-- Two buffers with as many members whose first `nread` bytes are the same, `nread` being at least
-- 16, are read alike, by the reader that stores a message and by the one that pushes it.
pub readers_prefix :
    (nread : ℕ) (m m' : Message)
    → SamePrefix nread m m'
    → (fds : List ℕ) → 16 ≤ nread
    → (queue_message m nread fds ≡ queue_message m' nread fds)
      × (push_message m nread fds ≡ push_message m' nread fds)
readers_prefix nread m m' h fds long =
    (queue_message-prefix nread m m' h fds long, push_message-prefix nread m m' h fds long)

-- For every buffer, size and list of descriptors, both readers account for each descriptor as often
-- as it came: those that the value owns and those that are closed or dropped make the list, whether
-- the message is read or refused.
pub readers_accounted :
    (a : ℕ) (message : Message) (nread : ℕ) (fds : List ℕ)
    → (count a (accounted (queue_message message nread fds)) ≡ count a fds)
      × (count a (accounted (push_message message nread fds)) ≡ count a fds)
readers_accounted a message nread fds =
    (queue_message-accounted a message nread fds, push_message-accounted a message nread fds)
