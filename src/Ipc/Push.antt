-- ===== src/Ipc/Push.antt =====
-- src/ipc_actor.cpp: the `deserializer` of `on_wait`, which pushes the message on the stack of the
-- fiber that waits, and throws `bad_message_t`.
use Prim.Native.Nat.{bit_and}
use emilua.Common.{ℕ, true, false, List, [], ◌∷◌, ◌++◌, if◌then◌else◌, ◌==◌, ltb, get_or}
use emilua.Ipc.{
  Message, StringView, chars, nextstr, boundsvalid, sizeof_members, is_snan, mantissa_mask,
}
use emilua.Ipc.Kind
use emilua.Ipc.Values.{
  Scalar, boolean, number, string, file_descriptor, actor_address, flat, dict, Reading, Outcome, ok,
  bad_message, Received, received, refused, owned, rawset, seek, take_fds, behind, nil_word, begin,
}

-- A value on the stack, or the exception.
pub data Pushed : Type 0 where
  pushed : Scalar → Reading → Pushed
  thrown : Reading → Pushed

-- A sole descriptor.
unfoldable pub push_sole : (ℕ → Scalar) → List ℕ → Pushed
push_sole f (fd ∷ []) = pushed (f fd) (begin [])
push_sole f fds = thrown (begin fds)

-- The switch of the flat case; the descriptors that the vector still holds are closed when the
-- scope is left.
unfoldable pub flat_kind : Message → ℕ → ℕ → List ℕ → Pushed
flat_kind message nread kind fds =
    let v : StringView = record { start = 1; size = get_or message.strbuf 0 0 } in
    if kind == Kind.boolean_true
    then pushed (boolean true) (begin fds)
    else (if kind == Kind.boolean_false
        then pushed (boolean false) (begin fds)
        else (if kind == Kind.string
            then (if boundsvalid message nread v
                then pushed (string (chars message v)) (begin fds)
                else thrown (begin fds))
            else (if kind == Kind.file_descriptor
                then push_sole file_descriptor fds
                else (if kind == Kind.actor_address
                    then push_sole actor_address fds
                    else thrown (begin fds)))))

unfoldable pub push_flat : Message → ℕ → List ℕ → Pushed
push_flat message nread fds =
    let word = get_or message.members 1 0 in
    if is_snan word
    then flat_kind message nread (bit_and word mantissa_mask) fds
    else pushed (number word) (begin fds)

module _ (message : Message) (nread : ℕ) where
  -- `push(recv_fiber, nextstr())`, and the descriptors `fds[fdsidx++]`.
  unfoldable pub push_nextstr : Reading → Pushed
  push_nextstr r =
      let v = nextstr message r.strit in
      if boundsvalid message nread v
      then pushed (string (chars message v)) (seek (behind v) r)
      else thrown (seek (behind v) r)

  unfoldable pub push_fd : (ℕ → Scalar) → Reading → Pushed
  push_fd f r = elim r.fds [ [] ↦ thrown r | fd ∷ fds ↦ pushed (f fd) (take_fds fds r) ]

  unfoldable pub push_kind : ℕ → Reading → Pushed
  push_kind kind r =
      if kind == Kind.boolean_true
      then pushed (boolean true) r
      else (if kind == Kind.boolean_false
          then pushed (boolean false) r
          else (if kind == Kind.string
              then push_nextstr r
              else (if kind == Kind.file_descriptor
                  then push_fd file_descriptor r
                  else (if kind == Kind.actor_address then push_fd actor_address r else thrown r))))

  unfoldable pub push_value : ℕ → Reading → Pushed
  push_value word r =
      if is_snan word then push_kind (bit_and word mantissa_mask) r else pushed (number word) r

  unfoldable pub push_member : ℕ → Reading → Outcome
  push_member word r =
      let key = nextstr message r.strit in
      if boundsvalid message nread key
      then elim (push_value word (seek (behind key) r)) [
        | pushed s r' ↦ ok (rawset (chars message key) s r')
        | thrown r' ↦ bad_message r'
      ]
      else bad_message (seek (behind key) r)

  -- The loop over the members, to the first nil or to the end.
  unfoldable pub push_members : List ℕ → Reading → Outcome
  push_members [] r = ok r
  push_members (word ∷ rest) r = elim (word == nil_word) [
    | true ↦ ok r
    | false ↦ elim (push_member word r) [
      | ok r' ↦ push_members rest r'
      | bad_message r' ↦ bad_message r'
    ]
  ]

unfoldable pub push_close : Pushed → Received
push_close (pushed s r) = received (flat s) r.fds
push_close (thrown r) = refused r.fds

-- The table on the stack, or what the exception leaves behind: the values on the stack are
-- collected with it, and close the descriptors that they own.
unfoldable pub push_close_table : Outcome → Received
push_close_table (ok r) = received (dict r.entries) (r.dropped ++ r.fds)
push_close_table (bad_message r) = refused (owned r.entries ++ r.dropped ++ r.fds)

unfoldable pub push_message : Message → ℕ → List ℕ → Received
push_message message nread fds =
    if get_or message.members 0 0 == nil_word
    then push_close (push_flat message nread fds)
    else (if ltb nread (sizeof_members message)
        then refused fds
        else push_close_table (push_members message nread message.members (begin fds)))
