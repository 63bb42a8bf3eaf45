-- ===== src/Ipc/Queue.antt =====
-- src/ipc_actor.cpp: the reader of `on_wait` that stores the message in the inbox, for no fiber waits.
use Prim.Native.Nat.{bit_and}
use emilua.Common.{ℕ, true, false, List, [], ◌∷◌, ◌++◌, if◌then◌else◌, ◌==◌, ltb, get_or}
use emilua.Ipc.{
  Message, StringView, chars, nextstr, boundsvalid, sizeof_members, is_snan, mantissa_mask,
}
use emilua.Ipc.Kind
use emilua.Ipc.Values.{
  boolean, number, string, file_descriptor, actor_address, flat, dict, Reading, Outcome, ok,
  bad_message, Received, received, refused, owned, emplace, seek, take_fds, behind, nil_word, begin,
}

-- A message that is refused leaves every descriptor to be closed: those in the vector, and those
-- whose owners the entry that is popped held.
unfoldable pub queue_flat : Message → ℕ → List ℕ → Received
queue_flat message nread fds =
    let word = get_or message.members 1 0 in
    let kind = bit_and word mantissa_mask in
    let v : StringView = record { start = 1; size = get_or message.strbuf 0 0 } in
    if is_snan word
    then (if kind == Kind.boolean_true
        then received (flat (boolean true)) fds
        else (if kind == Kind.boolean_false
            then received (flat (boolean false)) fds
            else (if kind == Kind.string
                then (if boundsvalid message nread v
                    then received (flat (string (chars message v))) fds
                    else refused fds)
                else (if kind == Kind.file_descriptor
                    then elim fds [
                      | fd ∷ [] ↦ received (flat (file_descriptor fd)) []
                      | other ↦ refused other
                    ]
                    else (if kind == Kind.actor_address
                        then elim fds [
                          | fd ∷ [] ↦ received (flat (actor_address fd)) []
                          | other ↦ refused other
                        ]
                        else refused fds)))))
    else received (flat (number word)) fds

module _ (message : Message) (nread : ℕ) where
  unfoldable pub queue_string : List ℕ → Reading → Outcome
  queue_string key r =
      let value = nextstr message r.strit in
      let r = seek (behind value) r in
      if boundsvalid message nread value
      then ok (emplace key (string (chars message value)) r)
      else bad_message r

  unfoldable pub queue_value : ℕ → List ℕ → Reading → Outcome
  queue_value word key r =
      let kind = bit_and word mantissa_mask in
      if is_snan word
      then (if kind == Kind.boolean_true
          then ok (emplace key (boolean true) r)
          else (if kind == Kind.boolean_false
              then ok (emplace key (boolean false) r)
              else (if kind == Kind.string
                  then queue_string key r
                  else (if kind == Kind.file_descriptor
                      then elim r.fds [
                        | fd ∷ fds ↦ ok (emplace key (file_descriptor fd) (take_fds fds r))
                        | [] ↦ bad_message r
                      ]
                      else (if kind == Kind.actor_address
                          then elim r.fds [
                            | fd ∷ fds ↦ ok (emplace key (actor_address fd) (take_fds fds r))
                            | [] ↦ bad_message r
                          ]
                          else bad_message r)))))
      else ok (emplace key (number word) r)

  unfoldable pub queue_member : ℕ → Reading → Outcome
  queue_member word r =
      let key = nextstr message r.strit in
      let r = seek (behind key) r in
      if boundsvalid message nread key
      then queue_value word (chars message key) r
      else bad_message r

  -- The loop over the members, to the first nil or to the end.
  unfoldable pub queue_members : List ℕ → Reading → Outcome
  queue_members [] r = ok r
  queue_members (word ∷ rest) r = elim (word == nil_word) [
    | true ↦ ok r
    | false ↦ elim (queue_member word r) [
      | ok r' ↦ queue_members rest r'
      | bad_message r' ↦ bad_message r'
    ]
  ]

unfoldable pub queue_close : Outcome → Received
queue_close (ok r) = received (dict r.entries) (r.dropped ++ r.fds)
queue_close (bad_message r) = refused (owned r.entries ++ r.dropped ++ r.fds)

unfoldable pub queue_message : Message → ℕ → List ℕ → Received
queue_message message nread fds =
    if get_or message.members 0 0 == nil_word
    then queue_flat message nread fds
    else (if ltb nread (sizeof_members message)
        then refused fds
        else queue_close (queue_members message nread message.members (begin fds)))
