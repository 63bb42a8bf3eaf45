-- ===== src/Ipc/Readers.antt =====
-- src/ipc_actor.cpp: the two readers of `ipc_actor_inbox_op::on_wait` compared with what a
-- message says.
use Prim.Native.Nat.{bit_and}
use emilua.Common.{
  ℕ, ◌≡◌, refl, Bool, true, false, Option, none, some, ◌⊎◌, inl, inr, List, [], ◌∷◌, if◌then◌else◌,
  ◌==◌, ltb, get_or,
}
use emilua.Ipc.{Message, StringView, chars, boundsvalid, sizeof_members, is_snan, mantissa_mask}
use emilua.Ipc.Kind
use emilua.Ipc.Values.{
  Scalar, boolean, number, string, file_descriptor, actor_address, Table, flat, dict, Outcome,
  Received, received, refused, nil_word, begin,
}
use emilua.Ipc.Content.{
  Meaning, text, owner, meaning, sole_content, flat_content, members_content, as_table, content,
}
use emilua.Ipc.Queue.{queue_flat, queue_members, queue_close, queue_message}
use emilua.Ipc.Push.{
  Pushed, pushed, thrown, push_sole, flat_kind, push_flat, push_members, push_close,
  push_close_table, push_message,
}
use emilua.Ipc.Agreement.{firsts, lasts, Run, bad_run, ok_run, members_Run}

-- Both refuse what says nothing; both read the value; or both read the table, of which one keeps the
-- first value of a key and the other the last.
pub data Agree : Option (Scalar ⊎ Table) → Received → Received → Type 0 where
  both_refuse : (c d : List ℕ) → Agree none (refused c) (refused d)
  same_value :
      (s : Scalar) (c : List ℕ) → Agree (some (inl s)) (received (flat s) c) (received (flat s) c)
  same_table :
      (t q p : Table) (c d : List ℕ)
      → q ≡ firsts [] t
      → p ≡ lasts [] t
      → Agree (some (inr t)) (received (dict q) c) (received (dict p) d)

module _ (message : Message) (nread : ℕ) (fds : List ℕ) where
  abbrev Means : Meaning → Received → Pushed → Type 0
  Means m x y = Agree (flat_content message nread fds m) x (push_close y)

  Means-if :
      (b : Bool) (m n : Meaning) (x y : Received) (x' y' : Pushed)
      → Means m x x'
      → Means n y y'
      → Means (if b then m else n) (if b then x else y) (if b then x' else y')
  Means-if true m n x y x' y' h k = h
  Means-if false m n x y x' y' h k = k

  sole_Means :
      (f : ℕ → Scalar)
      → Means
          (owner f)
          (elim fds [ fd ∷ [] ↦ received (flat (f fd)) [] | other ↦ refused other ])
          (push_sole f fds)
  unfolding push_sole push_close
  sole_Means f = by_case fds
    where
      by_case :
          (l : List ℕ)
          → Agree
              (sole_content f l)
              (elim l [ fd ∷ [] ↦ received (flat (f fd)) [] | other ↦ refused other ])
              (push_close (push_sole f l))
      by_case [] = both_refuse [] []
      by_case (fd ∷ []) = same_value (f fd) []
      by_case (fd ∷ fd' ∷ rest) = both_refuse _ _

  text_Means :
      let v : StringView = record { start = 1; size = get_or message.strbuf 0 0 } in
      Means text
        (if boundsvalid message nread v
          then received (flat (string (chars message v))) fds
          else refused fds)
        (if boundsvalid message nread v
          then pushed (string (chars message v)) (begin fds)
          else thrown (begin fds))
  unfolding push_close
  text_Means =
      let v : StringView = record { start = 1; size = get_or message.strbuf 0 0 } in
      elim (boundsvalid message nread v)
        as (λ b.
          Agree (if b then some (inl (string (chars message v))) else none)
            (if b then received (flat (string (chars message v))) fds else refused fds)
            (push_close
              (if b then pushed (string (chars message v)) (begin fds) else thrown (begin fds)))) [
                | true ↦ same_value (string (chars message v)) fds
                | false ↦ both_refuse fds fds
              ]

  flat_Agree :
      Means
        (meaning (get_or message.members 1 0))
        (queue_flat message nread fds)
        (push_flat message nread fds)
  unfolding queue_flat push_flat flat_kind push_close
  flat_Agree =
      let word : ℕ = get_or message.members 1 0 in
      let kind : ℕ = bit_and word mantissa_mask in
      Means-if (is_snan word) _ _ _ _ _ _
        (Means-if (kind == Kind.boolean_true) _ _ _ _ _ _ (same_value (boolean true) fds) (
          Means-if (kind == Kind.boolean_false) _ _ _ _ _ _ (same_value (boolean false) fds) (
            Means-if (kind == Kind.string) _ _ _ _ _ _ text_Means (
              Means-if (kind == Kind.file_descriptor) _ _ _ _ _ _ (sole_Means file_descriptor) (
                Means-if (kind == Kind.actor_address) _ _ _ _ _ _ (sole_Means actor_address)
                  (both_refuse fds fds))))))
        (same_value (number word) fds)

  table_Agree :
      {o : Option Table} {a b : Outcome}
      → Run (begin fds) (begin fds) o a b
      → Agree (as_table o) (queue_close a) (push_close_table b)
  unfolding queue_close push_close_table
  table_Agree (bad_run q' p') = both_refuse _ _
  table_Agree (ok_run t q' p' e f) = same_table t q'.entries p'.entries _ _ e f

  -- For every buffer, size and list of descriptors: if the message says nothing, both readers
  -- refuse it; if it says one value, both give this value and leave the same descriptors to be
  -- closed; and if it says a table, by a sequence of keys and values, both give a table, in which
  -- the one that stores the message keeps the first value of each key and the one that pushes it
  -- the last. What a message says is read off it once, member by member, without a table or owners.
  pub readers-Agree :
      Agree
        (content message nread fds)
        (queue_message message nread fds)
        (push_message message nread fds)
  unfolding queue_message push_message content
  readers-Agree =
      elim (get_or message.members 0 0 == nil_word)
        as (λ b.
          Agree
            (if b
              then flat_content message nread fds (meaning (get_or message.members 1 0))
              else (if ltb nread (sizeof_members message)
                  then none
                  else as_table (members_content message nread message.members 0 fds)))
            (if b
              then queue_flat message nread fds
              else (if ltb nread (sizeof_members message)
                  then refused fds
                  else queue_close (queue_members message nread message.members (begin fds))))
            (if b
              then push_close (push_flat message nread fds)
              else (if ltb nread (sizeof_members message)
                  then refused fds
                  else push_close_table
                      (push_members message nread message.members (begin fds))))) [
                        | true ↦ flat_Agree
                        | false ↦ table_part (ltb nread (sizeof_members message))
                      ]
    where
      table_part :
          (b : Bool)
          → Agree
              (if b then none else as_table (members_content message nread message.members 0 fds))
              (if b
                then refused fds
                else queue_close (queue_members message nread message.members (begin fds)))
              (if b
                then refused fds
                else push_close_table (push_members message nread message.members (begin fds)))
      table_part true = both_refuse fds fds
      table_part false =
          table_Agree (members_Run message nread message.members (begin fds) (begin fds) refl refl)
