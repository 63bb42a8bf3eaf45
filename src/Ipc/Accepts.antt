-- ===== src/Ipc/Accepts.antt =====
-- src/actor.ypp: which values `ipc_actor_chan_send` takes, and that what it writes fits.
use emilua.Common.{ℕ, ◌≡◌, inr, Bool, not, ◌&&◌, leb, ltb, length}
use emilua.Ipc.Kind
use emilua.Ipc.Send.{Argument, value, table, Setting, SendOp, Sending, ok}
use emilua.Ipc.Written.{words, is_sendable, are_sendable}

-- Strings of at most 255 bytes, and tables without metatable that have 1 to `max` string keys.
module _ (s : Setting) where
  abbrev pub accepts : Argument → Bool
  accepts (value v) = is_sendable s v
  accepts (table m pairs) =
      not m
      && are_sendable s pairs
      && ltb 0 (length (words pairs))
      && leb (length (words pairs)) s.max

  -- The system has sockets left.
  abbrev pub HasSockets : Type 0
  HasSockets = (n : ℕ) → (rx : ℕ) × (tx : ℕ) × (s.socketpair n ≡ inr (rx, tx))

  abbrev Succeeds : Sending → Type 0
  Succeeds o = (op : SendOp) × (o ≡ ok op)
