-- ===== src/Tests/Messages.antt =====
-- Messages between processes and the inbox at concrete inputs.
use emilua.Common.{
  not, ℕ, ◌+◌, ◌≡◌, refl, inr, true, false, Option, none, some, List, [], ◌∷◌, arith, if◌then◌else◌,
  ltb, ◌==◌, replicate, length-replicate, count,
}
use emilua.Ipc.{is_snan, Message, overwrite, tag, is_snan}
use emilua.Ipc.Values.{dict, flat, boolean, number, string, file_descriptor, received, nil_word}
use emilua.Ipc.Queue.{queue_flat, queue_message}
use emilua.Ipc.Push.{push_message}
use emilua.Ipc.Send.{
  lua_number, lua_boolean, lua_string, lua_userdata, handle, Argument, table, Setting, SendOp,
  reference, put_argument, put_pairs, put_pair, put_value, put_userdata, finish_table, ok,
  message_size, buffer, take_descriptors, empty_handles,
}
use emilua.Ipc.RoundTrip.{carried}
use emilua.Ipc.Tables.{carried_pairs}
use emilua.Ipc.Delivery.{IsBuffer, push_message-send}
use emilua.Ipc.Readers.{Agree, readers-Agree}
use emilua.Ipc.Prefix.{SamePrefix}
use emilua.Ipc.Leaks.{readers_prefix, readers_accounted}
use emilua.Ipc.Descriptors.{accounted}
use emilua.Ipc.Locks.{written, over, on_writable, on_writable_lem, uses_of, at_handle}
use emilua.Ipc.Content.{content}
use emilua.Ipc.Inbox.{
  on_wait, read, store, datagram, destroyed, resume_receiver, interrupt_receive, receiver,
  null_fiber, channel_closed, interrupted, Inbox, remote, inbox_close, inbox_gc, add_own_service,
}
use emilua.Ipc.Inbox.Steps.{System, socket_ready, Reach, stop, go, share_own, new_inbox}
use emilua.Ipc.Inbox.Closing.{has_remote, is_defined, closing-defined}

abbrev setting : Setting
setting = record {
  max = 3;
  socketpair = λ n. inr (10 + n, 20 + n);
  lock = λ n. true;
  handles = some 7 ∷ [];
}

-- { k = 5, [1] = true, s = "ab", d = <descriptor> }.
abbrev sample : Argument
sample = table false (
    (some (b'k' ∷ []), lua_number 5)
    ∷ ((none, lua_boolean true)
        ∷ ((some (b's' ∷ []), lua_string (b'a' ∷ b'b' ∷ []))
            ∷ ((some (b'd' ∷ []), lua_userdata (handle 0)) ∷ []))))

abbrev sample_op : SendOp
sample_op = record {
  members = 5 ∷ tag 3 ∷ tag 4 ∷ [];
  strbuf = 1 ∷ b'k' ∷ 1 ∷ b's' ∷ 2 ∷ b'a' ∷ b'b' ∷ 1 ∷ b'd' ∷ [];
  descriptors = reference 0 ∷ [];
  calls = 0;
  services = [];
  posted = [];
  closed = [];
}

sample_written : put_argument setting sample ≡ ok sample_op
unfolding put_argument put_pairs put_pair put_value put_userdata finish_table
sample_written = refl

-- A buffer that holds something else.
abbrev dirty : Message
dirty = record { members = 99 ∷ 98 ∷ 97 ∷ []; strbuf = replicate 1536 96 }

dirty-IsBuffer : IsBuffer 3 dirty
dirty-IsBuffer = record { members = refl; strbuf = length-replicate {A = ℕ} 1536 96 }

five_number : is_snan 5 ≡ false
unfolding is_snan
five_number = refl

push_message-send_example :
    push_message (overwrite 33 (buffer sample_op dirty) dirty) 33 (21 ∷ [])
    ≡ received
        (dict (
          (b'k' ∷ [], number 5)
          ∷ ((b's' ∷ [], string (b'a' ∷ b'b' ∷ [])) ∷ ((b'd' ∷ [], file_descriptor 21) ∷ []))))
        []
unfolding carried_pairs carried message_size
push_message-send_example =
    push_message-send setting dirty dirty dirty-IsBuffer dirty-IsBuffer (omega arith) (21 ∷ [])
      sample_op refl sample sample_written
      ((five_number, (tt, (tt, tt))), (refl, (refl, (refl, tt))))

-- A table with one key twice: the inbox keeps the first value, the stack the last.
abbrev doubled : Message
doubled = record { members = tag 1 ∷ tag 2 ∷ nil_word ∷ []; strbuf = 1 ∷ b'k' ∷ 1 ∷ b'k' ∷ [] }

readers-Agree_example :
    Agree (content doubled 28 []) (queue_message doubled 28 []) (push_message doubled 28 [])
readers-Agree_example = readers-Agree doubled 28 []

abbrev flat_true : ℕ → Message
flat_true garbage = record { members = nil_word ∷ tag 1 ∷ garbage ∷ []; strbuf = garbage ∷ [] }

flat_true-SamePrefix : SamePrefix 16 (flat_true 1) (flat_true 2)
flat_true-SamePrefix = record { size = refl; members = refl; strbuf = refl }

readers_prefix_example :
    (queue_message (flat_true 1) 16 (5 ∷ []) ≡ queue_message (flat_true 2) 16 (5 ∷ []))
    × (push_message (flat_true 1) 16 (5 ∷ []) ≡ push_message (flat_true 2) 16 (5 ∷ []))
readers_prefix_example =
    readers_prefix 16 (flat_true 1) (flat_true 2) flat_true-SamePrefix (5 ∷ []) (omega arith)

readers_accounted_example :
    (count 21 (accounted (queue_message doubled 28 (21 ∷ []))) ≡ count 21 (21 ∷ []))
    × (count 21 (accounted (push_message doubled 28 (21 ∷ []))) ≡ count 21 (21 ∷ []))
readers_accounted_example = readers_accounted 21 doubled 28 (21 ∷ [])

-- A message that names one handle twice.
on_writable_example :
    (at_handle 0 (empty_handles (reference 0 ∷ reference 0 ∷ []) (some 7 ∷ []))
      ≡ (if uses_of 0 (reference 0 ∷ reference 0 ∷ []) == 0 then some 7 else none))
    × (final : List (Option ℕ)) × (r : Option ℕ) × (on_writable written
          (reference 0 ∷ reference 0 ∷ [])
          (take_descriptors (reference 0 ∷ reference 0 ∷ []) (some 7 ∷ []))
          (empty_handles (reference 0 ∷ reference 0 ∷ []) (some 7 ∷ []))
        ≡ over final [] (some r))
    × (at_handle 0 final
        ≡ (if ltb 1 (uses_of 0 (reference 0 ∷ reference 0 ∷ [])) then none else some 7))
on_writable_example =
    on_writable_lem 0 written (reference 0 ∷ reference 0 ∷ []) (some 7 ∷ []) tt (omega arith)

-- An actor that gave its address to another process and waits for a message.
abbrev waiting : System
waiting = record {
  inbox = record {
    recv_fiber = some 0;
    work_guard = true;
    is_open = true;
    incoming = [];
    nsenders = 2;
    services = record { fd = 9; running = true } ∷ [];
    checks = 0;
    wakes = [];
    closed = [];
  };
  addresses = 1;
  announced = 0;
}

-- The receiver is interrupted after the inbox was closed and before it runs again.
late_interrupt :
    ((v : Inbox) × (inbox_close waiting.inbox ≡ some v)
      × ((interrupt_receive v).wakes ≡ receiver 0 channel_closed ∷ null_fiber interrupted ∷ []))
unfolding inbox_close resume_receiver destroyed interrupt_receive
late_interrupt = (_, refl, refl)

-- An actor that has a message of another process and nobody waits for it.
abbrev unread : System
unread = record {
  inbox = record {
    recv_fiber = none;
    work_guard = false;
    is_open = true;
    incoming = record { sender = none; msg = remote (flat (boolean true)) } ∷ [];
    nsenders = 2;
    services = record { fd = 9; running = false } ∷ [];
    checks = 0;
    wakes = [];
    closed = [];
  };
  addresses = 1;
  announced = 0;
}

new_inbox-unread : Reach new_inbox unread
unfolding add_own_service on_wait read store queue_message queue_flat is_snan
new_inbox-unread =
    go (share_own new_inbox 9)
      (go (socket_ready _ 9 (datagram (flat_true 0) 16 false []) refl) (stop unread))

closing-defined_example :
    (is_defined (inbox_close unread.inbox) ≡ not (has_remote unread.inbox.incoming))
    × (is_defined (inbox_gc unread.inbox) ≡ not (has_remote unread.inbox.incoming))
closing-defined_example = closing-defined unread new_inbox-unread refl
