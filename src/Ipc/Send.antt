-- ===== src/Ipc/Send.antt =====
-- src/actor.ypp: `ipc_actor_chan_send`, which writes the message for an actor of another process.
use emilua.Common.{
  ℕ, ◌+◌, ◌-◌, ◌*◌, Bool, true, false, Option, none, some, ◌⊎◌, inl, inr, List, [], ◌∷◌, ◌++◌,
  if◌then◌else◌, ◌==◌, ltb, length, get_or, set, drop, replicate,
}
use emilua.Ipc.{Message, tag}
use emilua.Ipc.Kind
use emilua.Ipc.Values.{nil_word}

-- A userdata, told by its metatable. A channel names the actor that receives from it, and a
-- descriptor the handle that holds it.
pub data Userdata : Type 0 where
  tx_chan : (dest : ℕ) → Userdata
  inbox : Userdata
  handle : (reference : ℕ) → Userdata
  foreign : Userdata

-- A Lua value that is no table at the root: `other` stands for nil, functions, threads, light
-- userdata and the tables inside a table.
pub data LuaValue : Type 0 where
  lua_boolean : Bool → LuaValue
  lua_number : (bits : ℕ) → LuaValue
  lua_string : List ℕ → LuaValue
  lua_userdata : Userdata → LuaValue
  other : LuaValue

-- A key that is no string is `none`.
abbrev pub Pair : Type 0
Pair = Option (List ℕ) × LuaValue

-- Argument 2. The pairs of a table come in the order of `lua_next`.
pub data Argument : Type 0 where
  value : LuaValue → Argument
  table : (has_metatable : Bool) (pairs : List Pair) → Argument

pub data Errc : Type 0 where
  invalid_argument : (arg : ℕ) → Errc
  device_or_resource_busy : Errc
  system : (errno : ℕ) → Errc

-- `descriptors[i]`: a socket that this message made, or the handle of the sender's descriptor.
pub data Descriptor : Type 0 where
  socket : (fd : ℕ) → Descriptor
  reference : (handle_ : ℕ) → Descriptor

-- `ipc_actor_send_op`, with the members and the bytes of `strbuf` that were written, and what
-- the call changes elsewhere (`descriptors_size` is a `std::uint8_t`, so these lists are those of a
-- build with at most 255 members; the default is 20): the sockets asked for, the services added to this inbox, those
-- posted to other actors, and the sockets closed.
pub record SendOp : Type 0 where
  pub members : List ℕ
  pub strbuf : List ℕ
  pub descriptors : List Descriptor
  pub calls : ℕ
  pub services : List ℕ
  pub posted : List (ℕ × ℕ)
  pub closed : List ℕ

pub data Sending : Type 0 where
  ok : SendOp → Sending
  error : Errc → SendOp → Sending

abbrev pub then_ : Sending → (SendOp → Sending) → Sending
then_ (ok op) f = f op
then_ (error e op) f = error e op

abbrev pub put_member : ℕ → SendOp → SendOp
put_member word op = record {
  members = op.members ++ word ∷ [];
  strbuf = op.strbuf;
  descriptors = op.descriptors;
  calls = op.calls;
  services = op.services;
  posted = op.posted;
  closed = op.closed;
}

-- The size byte and the bytes of a string.
abbrev pub put_string : List ℕ → SendOp → SendOp
put_string s op = record {
  members = op.members;
  strbuf = op.strbuf ++ length s ∷ s;
  descriptors = op.descriptors;
  calls = op.calls;
  services = op.services;
  posted = op.posted;
  closed = op.closed;
}

abbrev pub put_descriptor : Descriptor → SendOp → SendOp
put_descriptor d op = record {
  members = op.members;
  strbuf = op.strbuf;
  descriptors = op.descriptors ++ d ∷ [];
  calls = op.calls;
  services = op.services;
  posted = op.posted;
  closed = op.closed;
}

abbrev pub called : SendOp → SendOp
called op = record {
  members = op.members;
  strbuf = op.strbuf;
  descriptors = op.descriptors;
  calls = op.calls + 1;
  services = op.services;
  posted = op.posted;
  closed = op.closed;
}

-- The receiving end goes to this inbox, to the actor of the channel, or is closed when that actor is
-- gone.
abbrev pub add_service : ℕ → SendOp → SendOp
add_service fd op = record {
  members = op.members;
  strbuf = op.strbuf;
  descriptors = op.descriptors;
  calls = op.calls;
  services = op.services ++ fd ∷ [];
  posted = op.posted;
  closed = op.closed;
}

abbrev pub post_service : Bool → ℕ → ℕ → SendOp → SendOp
post_service alive dest fd op = record {
  members = op.members;
  strbuf = op.strbuf;
  descriptors = op.descriptors;
  calls = op.calls;
  services = op.services;
  posted = if alive then op.posted ++ (dest, fd) ∷ [] else op.posted;
  closed = if alive then op.closed else op.closed ++ fd ∷ [];
}

abbrev pub new_op : SendOp
new_op = record {
  members = [];
  strbuf = [];
  descriptors = [];
  calls = 0;
  services = [];
  posted = [];
  closed = [];
}

abbrev pub put_members : List ℕ → SendOp → SendOp
put_members words op = record {
  members = op.members ++ words;
  strbuf = op.strbuf;
  descriptors = op.descriptors;
  calls = op.calls;
  services = op.services;
  posted = op.posted;
  closed = op.closed;
}

-- What the rest of the system answers: the number of members of a message, the `socketpair` call
-- with a given number (its errno, or the two ends), whether an actor still runs, and the
-- descriptor that a handle holds.
pub record Setting : Type 0 where
  pub max : ℕ
  pub socketpair : ℕ → ℕ ⊎ (ℕ × ℕ)
  pub lock : ℕ → Bool
  pub handles : List (Option ℕ)

module _ (s : Setting) where
  -- The address of an actor: `f` disposes of the receiving end.
  unfoldable pub put_address : (ℕ → SendOp → SendOp) → SendOp → Sending
  put_address f op = elim (s.socketpair op.calls) [
    | inl errno ↦ error (system errno) (called op)
    | inr (rx, tx) ↦
        ok (put_descriptor (socket tx) (put_member (tag Kind.actor_address) (f rx (called op))))
  ]

  unfoldable pub put_userdata : Userdata → SendOp → Sending
  put_userdata (tx_chan dest) op = put_address (post_service (s.lock dest) dest) op
  put_userdata inbox op = put_address add_service op
  put_userdata (handle h) op = elim (get_or s.handles h none) [
    | none ↦ error device_or_resource_busy op
    | some _ ↦ ok (put_descriptor (reference h) (put_member (tag Kind.file_descriptor) op))
  ]
  put_userdata foreign op = error (invalid_argument 2) op

  -- The value of a member, behind its key or behind the nil of a flat message.
  unfoldable pub put_value : LuaValue → SendOp → Sending
  put_value (lua_boolean true) op = ok (put_member (tag Kind.boolean_true) op)
  put_value (lua_boolean false) op = ok (put_member (tag Kind.boolean_false) op)
  put_value (lua_number bits) op = ok (put_member bits op)
  put_value (lua_string v) op =
      if ltb 255 (length v)
      then error (invalid_argument 2) op
      else ok (put_string v (put_member (tag Kind.string) op))
  put_value (lua_userdata u) op = put_userdata u op
  put_value other op = error (invalid_argument 2) op

  unfoldable pub put_pair : List ℕ → LuaValue → SendOp → Sending
  put_pair key v op =
      if length op.members == s.max
      then error (invalid_argument 2) op
      else (if ltb 255 (length key)
          then error (invalid_argument 2) op
          else put_value v (put_string key op))

  unfoldable pub put_pairs : List Pair → SendOp → Sending
  put_pairs [] op = ok op
  put_pairs ((none, v) ∷ rest) op = put_pairs rest op
  put_pairs ((some key, v) ∷ rest) op = elim (put_pair key v op) [
    | ok op' ↦ put_pairs rest op'
    | error e op' ↦ error e op'
  ]

  -- A string at the root zeroes the members behind the first two.
  unfoldable pub finish_flat : LuaValue → SendOp → SendOp
  finish_flat (lua_string _) op = put_members (replicate (s.max - 2) 0) op
  finish_flat _ op = op

  unfoldable pub finish_table : SendOp → Sending
  finish_table op =
      if length op.members == 0
      then error (invalid_argument 2) op
      else ok (put_members (replicate (s.max - length op.members) nil_word) op)

  unfoldable pub put_argument : Argument → Sending
  put_argument (value v) =
      then_ (put_value v (put_member nil_word new_op)) (λ op. ok (finish_flat v op))
  put_argument (table true pairs) = error (invalid_argument 2) new_op
  put_argument (table false pairs) = then_ (put_pairs pairs new_op) finish_table

-- `message_size`.
unfoldable pub message_size : ℕ → Argument → SendOp → ℕ
message_size max (value (lua_string _)) op = 8 * max + length op.strbuf
message_size max (value _) op = 16
message_size max (table _ _) op = 8 * max + length op.strbuf

-- The buffer of the operation: what was written, over memory that holds anything.
abbrev pub buffer : SendOp → Message → Message
buffer op memory = record {
  members = op.members ++ drop (length op.members) memory.members;
  strbuf = op.strbuf ++ drop (length op.strbuf) memory.strbuf;
}

-- The sender's descriptors move into the message; a handle that was emptied gives none.
unfoldable pub take_descriptors : List Descriptor → List (Option ℕ) → List (Option ℕ)
take_descriptors [] handles = []
take_descriptors (socket fd ∷ rest) handles = some fd ∷ take_descriptors rest handles
take_descriptors (reference h ∷ rest) handles =
    get_or handles h none ∷ take_descriptors rest (set handles h none)

unfoldable pub empty_handles : List Descriptor → List (Option ℕ) → List (Option ℕ)
empty_handles [] handles = handles
empty_handles (socket fd ∷ rest) handles = empty_handles rest handles
empty_handles (reference h ∷ rest) handles = empty_handles rest (set handles h none)

abbrev pub sockets : List Descriptor → List ℕ
sockets [] = []
sockets (socket fd ∷ rest) = fd ∷ sockets rest
sockets (reference _ ∷ rest) = sockets rest

-- What the call leaves: the message handed to `sendmsg`, or the error, after which the sockets made
-- for it are closed.
pub data Sent : Type 0 where
  sent :
      (message : Message) (size : ℕ) (values : List (Option ℕ)) (handles : List (Option ℕ))
      (op : SendOp)
      → Sent
  failed : (e : Errc) (closed : List ℕ) (op : SendOp) → Sent

unfoldable pub ipc_actor_chan_send : Setting → Message → Argument → Sent
ipc_actor_chan_send s memory a = elim (put_argument s a) [
  | ok op ↦
      sent (buffer op memory) (message_size s.max a op) (take_descriptors op.descriptors s.handles)
        (empty_handles op.descriptors s.handles) op
  | error e op ↦ failed e (op.closed ++ sockets op.descriptors) op
]
