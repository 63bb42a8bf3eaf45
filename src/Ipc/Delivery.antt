-- ===== src/Ipc/Delivery.antt =====
-- src/actor.ypp, src/ipc_actor.cpp: the whole way of a message, from `ipc_actor_chan_send` over the
-- socket to the fiber that waits.
use Prim.Native.Nat.{◌/◌}
use emilua.Common.{
  contrary, append-nil, ℕ, ◌+◌, ◌-◌, ◌*◌, ◌≤◌, ◌<◌, ◌≡◌, refl, sym, ap, ◌∙◌, ltb, ◌==◌, true, false,
  none, some, List, [], ◌∷◌, ◌++◌, arith, length, get_or, drop, take, take_all, drop_all,
  take-append, length-append, replicate, length-replicate,
}
use emilua.Ipc.{Message, sizeof_members, overwrite, is_snan}
use emilua.Ipc.Values.{
  Value, boolean, number, string, flat, dict, Received, received, begin, nil_word,
}
use emilua.Ipc.Push.{push_message, push_flat, flat_kind, push_sole, push_close, push_close_table}
use emilua.Ipc.Send.{
  LuaValue, lua_boolean, lua_number, lua_string, lua_userdata, other, tx_chan, inbox, handle,
  foreign, Argument, value, table, Pair, Setting, SendOp, ok, put_argument, message_size, buffer,
}
use emilua.Ipc.Written.{word, bytes, taken, is_sendable, words, all_bytes, all_taken, are_sendable}
use emilua.Ipc.Finished.{put_argument-TableWritten, put_argument-FlatWritten, metatable_refused}
use emilua.Ipc.Strings.{nextstr-fits, chars-nextstr}
use emilua.Ipc.RoundTrip.{IsNumber, carried, word-not_nil}
use emilua.Ipc.Tables.{AreNumbers, IsTable, carried_pairs, push_members-words, Apart-nil}

-- The value that the receiver gets.
abbrev pub delivered : Argument → List ℕ → Value
delivered (value v) fds = flat (carried v fds)
delivered (table m pairs) fds = dict (carried_pairs pairs fds)

-- Numbers are no signalling NaN, and the keys of a table differ.
abbrev pub IsArgument : Argument → Type 0
IsArgument (value v) = IsNumber v
IsArgument (table m pairs) = AreNumbers pairs × IsTable pairs

-- A buffer of the size of the build: `max` members and 512 bytes for each.
pub record IsBuffer (max : ℕ) (m : Message) : Type 0 where
  pub members : length m.members ≡ max
  pub strbuf : length m.strbuf ≡ 512 * max

abbrev mk : List ℕ → List ℕ → Message
mk members strbuf = record { members = members; strbuf = strbuf }

overwrite_whole :
    (sent old : Message) (n : ℕ)
    → length sent.members ≡ length old.members
    → overwrite (sizeof_members sent + n) sent old
      ≡ mk sent.members (take n sent.strbuf ++ drop n old.strbuf)
overwrite_whole sent old n e =
    let words_ : ℕ = (8 * length sent.members + n) / 8 in
    let all : take words_ sent.members ≡ sent.members =
      take_all words_ sent.members (omega arith) in
    let gone : drop words_ old.members ≡ [] = drop_all words_ old.members (omega (arith, e)) in
    let bytes_ : sizeof_members sent + n - sizeof_members sent ≡ n = omega arith in
    let tail : List ℕ =
      take (sizeof_members sent + n - sizeof_members sent) sent.strbuf
      ++ drop (sizeof_members sent + n - sizeof_members sent) old.strbuf in
    ap (λ l. mk (l ++ drop words_ old.members) tail) all
    ∙ ap (λ l. mk (sent.members ++ l) tail) gone
    ∙ ap (λ l. mk l tail) (append-nil sent.members)
    ∙ ap (λ k. mk sent.members (take k sent.strbuf ++ drop k old.strbuf)) bytes_

module _ (max : ℕ) (memory old : Message) (hm : IsBuffer max memory) (ho : IsBuffer max old) where
  received_whole :
      (op : SendOp)
      → length op.members ≡ max
      → overwrite (8 * max + length op.strbuf) (buffer op memory) old
        ≡ mk op.members (op.strbuf ++ drop (length op.strbuf) old.strbuf)
  received_whole op e =
      let n : ℕ = length op.strbuf in
      let tail : List ℕ = drop n memory.strbuf in
      let written : drop (length op.members) memory.members ≡ [] =
        drop_all (length op.members) memory.members (omega (arith, hm.members, e)) in
      let same_members : op.members ++ drop (length op.members) memory.members ≡ op.members =
        ap (λ l. op.members ++ l) written ∙ append-nil op.members in
      let size : 8 * max + n ≡ sizeof_members (mk op.members (op.strbuf ++ tail)) + n =
        omega (arith, e) in
      ap (λ l. overwrite (8 * max + n) (mk l (op.strbuf ++ tail)) old) same_members
      ∙ ap (λ k. overwrite k (mk op.members (op.strbuf ++ tail)) old) size
      ∙ overwrite_whole (mk op.members (op.strbuf ++ tail)) old n (omega (arith, e, ho.members))
      ∙ ap (λ l. mk op.members (l ++ drop n old.strbuf))
          (take-append n op.strbuf tail (omega arith) ∙ take_all n op.strbuf (omega arith))

-- The first member of a table is no nil.
first_word :
    (pairs : List Pair) (tail : List ℕ)
    → AreNumbers pairs
    → 0 < length (words pairs)
    → (get_or (words pairs ++ tail) 0 0 == nil_word) ≡ false
first_word [] tail n h = absurd (omega arith)
first_word ((none, v) ∷ rest) tail n h = first_word rest tail n h
first_word ((some key, v) ∷ rest) tail (n, ns) h = word-not_nil v n

-- What a table looks like to the reader, once the message is whole.
push_table :
    (s : Setting) (pairs : List Pair) (k : ℕ) (garbage fds : List ℕ)
    → AreNumbers pairs
    → IsTable pairs
    → are_sendable s pairs ≡ true
    → 0 < length (words pairs)
    → all_taken pairs ≡ length fds
    → (nread : ℕ)
    → 8 * (length (words pairs ++ replicate k nil_word)) + length (all_bytes pairs) ≡ nread
    → push_message (mk (words pairs ++ replicate k nil_word) (all_bytes pairs ++ garbage)) nread fds
      ≡ received (dict (carried_pairs pairs fds)) []
unfolding push_message push_close_table
push_table s pairs k garbage fds n t ok_ some_ count nread size =
    let m : Message = mk (words pairs ++ replicate k nil_word) (all_bytes pairs ++ garbage) in
    let loop =
      push_members-words s m nread pairs k (begin fds) garbage n ok_ t (Apart-nil pairs) refl
        (omega (arith, size)) (omega (arith, count)) in
    let long : ltb nread (sizeof_members m) ≡ false = ground (arith, size) in
    let rest : drop (all_taken pairs) fds ≡ [] =
      drop_all (all_taken pairs) fds (omega (arith, count)) in
    rw (first_word pairs (replicate k nil_word) n some_, long, loop)
      (ap (received (dict (carried_pairs pairs fds))) rest)

no_fds : (fds : List ℕ) → 0 ≡ length fds → fds ≡ []
no_fds [] e = refl
no_fds (fd ∷ fds) e = absurd (omega arith)

-- What a flat message looks like to the reader.
module _ (s : Setting) (members strbuf : List ℕ) (nread : ℕ) where
  abbrev push_word : LuaValue → List ℕ → Received
  push_word v fds = push_message (mk (nil_word ∷ word v ∷ members) strbuf) nread fds

  push_bits :
      (bits : ℕ) (fds : List ℕ)
      → is_snan bits ≡ false
      → fds ≡ []
      → push_close (push_flat (mk (nil_word ∷ bits ∷ members) strbuf) nread fds)
        ≡ received (flat (number bits)) []
  unfolding push_flat push_close
  push_bits bits fds n e = rw n (ap (received (flat (number bits))) e)

  push_word_lem :
      (v : LuaValue) (fds : List ℕ)
      → IsNumber v
      → is_sendable s v ≡ true
      → taken v ≡ length fds
      → (0 < length (bytes v)
          → (garbage : List ℕ) × (strbuf ≡ bytes v ++ garbage)
            × (8 * length (nil_word ∷ word v ∷ members) + length (bytes v) ≤ nread))
      → push_word v fds ≡ received (flat (carried v fds)) []
  unfolding push_message push_flat flat_kind push_sole push_close carried word is_snan
  push_word_lem (lua_boolean true) fds n k d h = ap (received (flat (boolean true))) (no_fds fds d)
  push_word_lem (lua_boolean false) fds n k d h =
      ap (received (flat (boolean false))) (no_fds fds d)
  push_word_lem (lua_number bits) fds n k d h = push_bits bits fds n (no_fds fds d)
  push_word_lem (lua_string v) fds n k d h =
      let (garbage, e, fits) = h (omega arith) in
      let m : Message = mk (nil_word ∷ word (lua_string v) ∷ members) strbuf in
      let inside = nextstr-fits m 0 v garbage e nread (omega arith) in
      rw inside (
        ap (λ t. received (flat (string t)) fds) (chars-nextstr m 0 v garbage e)
        ∙ ap (received (flat (string v))) (no_fds fds d))
  push_word_lem (lua_userdata (tx_chan dest)) (fd ∷ []) n k d h = refl
  push_word_lem (lua_userdata inbox) (fd ∷ []) n k d h = refl
  push_word_lem (lua_userdata (handle i)) (fd ∷ []) n k d h = refl
  push_word_lem (lua_userdata foreign) fds n k d h = absurd (contrary (sym k))
  push_word_lem other fds n k d h = absurd (contrary (sym k))
  push_word_lem (lua_userdata u) [] n k d h = absurd (omega arith)
  push_word_lem (lua_userdata u) (fd ∷ fd' ∷ fds) n k d h = absurd (omega arith)

module _ (s : Setting) (memory old : Message) (hm : IsBuffer s.max memory) (ho : IsBuffer s.max old)
    (more : 2 < s.max) (fds : List ℕ) (op : SendOp)
    (count : length op.descriptors ≡ length fds) where
  table_delivered :
      (pairs : List Pair)
      → put_argument s (table false pairs) ≡ ok op
      → IsArgument (table false pairs)
      → push_message
          (overwrite (message_size s.max (table false pairs) op) (buffer op memory) old)
          (message_size s.max (table false pairs) op)
          fds
        ≡ received (delivered (table false pairs) fds) []
  unfolding message_size
  table_delivered pairs e (n, t) =
      let w = put_argument-TableWritten s pairs op e in
      let nils : ℕ = s.max - length (words pairs) in
      let full : length op.members ≡ s.max =
        ap length w.members
        ∙ length-append (words pairs) (replicate nils nil_word)
        ∙ omega (arith, length-replicate nils nil_word, w.fits) in
      let size : ℕ = 8 * s.max + length op.strbuf in
      let garbage : List ℕ = drop (length op.strbuf) old.strbuf in
      ap (λ m. push_message m size fds) (received_whole s.max memory old hm ho op full)
      ∙ ap (λ l. push_message (mk l (op.strbuf ++ garbage)) size fds) w.members
      ∙ ap (λ l. push_message (mk (words pairs ++ replicate nils nil_word) (l ++ garbage)) size fds)
          w.strbuf
      ∙ push_table s pairs nils garbage fds n t w.sendable w.some_
          (omega (arith, count, w.descriptors)) size
          (omega (arith, full, ap length w.members, ap length w.strbuf))

  plain_delivered :
      (v : LuaValue)
      → put_argument s (value v) ≡ ok op
      → IsNumber v
      → length (bytes v) ≡ 0
      → push_message (overwrite 16 (buffer op memory) old) 16 fds
        ≡ received (flat (carried v fds)) []
  plain_delivered v e n none_ =
      let w = put_argument-FlatWritten s v op e in
      let tail : List ℕ = drop (length op.members) memory.members in
      let m : Message = overwrite 16 (buffer op memory) old in
      let bytes_ : List ℕ = m.strbuf in
      ap (λ l. push_message (mk (take 2 (l ++ tail) ++ drop 2 old.members) bytes_) 16 fds) w.members
      ∙ push_word_lem s (drop 2 old.members) bytes_ 16 v fds n w.sendable
          (omega (arith, count, w.descriptors)) (λ h. absurd (omega arith))

  string_delivered :
      (v : List ℕ)
      → put_argument s (value (lua_string v)) ≡ ok op
      → push_message
          (overwrite (8 * s.max + length op.strbuf) (buffer op memory) old)
          (8 * s.max + length op.strbuf)
          fds
        ≡ received (flat (carried (lua_string v) fds)) []
  string_delivered v e =
      let w = put_argument-FlatWritten s (lua_string v) op e in
      let full : length op.members ≡ s.max = w.whole (omega arith) (omega arith) in
      let size : ℕ = 8 * s.max + length op.strbuf in
      let garbage : List ℕ = drop (length op.strbuf) old.strbuf in
      ap (λ m. push_message m size fds) (received_whole s.max memory old hm ho op full)
      ∙ ap (λ l. push_message (mk l (op.strbuf ++ garbage)) size fds) w.members
      ∙ push_word_lem s w.rest (op.strbuf ++ garbage) size (lua_string v) fds tt w.sendable
          (omega (arith, count, w.descriptors))
          (λ h. (
            garbage,
            ap (λ l. l ++ garbage) w.strbuf,
            omega (arith, full, ap length w.members, ap length w.strbuf),
          ))

  -- For a value that the sender takes, whose numbers are no signalling NaN and whose table has no
  -- key twice, with two buffers of the size of the build (more than two members, 512 bytes for
  -- each) that hold anything: if the bytes that are sent arrive with as many descriptors as the
  -- message has, the reader of a waiting fiber gives that value, the descriptors in their order in
  -- place of the sender's, and leaves no descriptor to be closed. The pairs of a table whose key is
  -- no string are left out.
  pub push_message-send :
      (a : Argument)
      → put_argument s a ≡ ok op
      → IsArgument a
      → push_message
          (overwrite (message_size s.max a op) (buffer op memory) old)
          (message_size s.max a op)
          fds
        ≡ received (delivered a fds) []
  unfolding message_size
  push_message-send (value (lua_string v)) e h = string_delivered v e
  push_message-send (value (lua_boolean b)) e h = plain_delivered (lua_boolean b) e h refl
  push_message-send (value (lua_number b)) e h = plain_delivered (lua_number b) e h refl
  push_message-send (value (lua_userdata b)) e h = plain_delivered (lua_userdata b) e h refl
  push_message-send (value other) e h = plain_delivered other e h refl
  push_message-send (table true pairs) e h = absurd (metatable_refused s pairs op e)
  push_message-send (table false pairs) e h = table_delivered pairs e h
