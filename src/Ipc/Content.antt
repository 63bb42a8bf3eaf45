-- ===== src/Ipc/Content.antt =====
-- include/emilua/actor.hpp: what a message between processes says, apart from how it is read: the word
-- of a member has a meaning, the strings follow one another, and the descriptors belong to the members
-- that name one, in their order.
use Prim.Native.Nat.{bit_and}
use emilua.Common.{
  ℕ, true, false, Option, none, some, ◌⊎◌, inl, inr, List, [], ◌∷◌, if◌then◌else◌, ◌==◌, ltb,
  get_or,
}
use emilua.Ipc.{
  Message, StringView, nextstr, chars, boundsvalid, sizeof_members, is_snan, mantissa_mask,
}
use emilua.Ipc.Kind
use emilua.Ipc.Values.{
  Scalar, boolean, number, string, file_descriptor, actor_address, Table, behind, nil_word,
}

pub data Meaning : Type 0 where
  plain : Scalar → Meaning
  text : Meaning
  owner : (ℕ → Scalar) → Meaning
  unknown : Meaning

abbrev pub meaning : ℕ → Meaning
meaning word =
    let kind = bit_and word mantissa_mask in
    if is_snan word
    then (if kind == Kind.boolean_true
        then plain (boolean true)
        else (if kind == Kind.boolean_false
            then plain (boolean false)
            else (if kind == Kind.string
                then text
                else (if kind == Kind.file_descriptor
                    then owner file_descriptor
                    else (if kind == Kind.actor_address then owner actor_address else unknown)))))
    else plain (number word)

-- A member with its key, and where the strings and the descriptors of the next one begin.
pub record Item : Type 0 where
  pub key : List ℕ
  pub value : Scalar
  pub strit : ℕ
  pub fds : List ℕ

abbrev pub prepend : List ℕ × Scalar → Option Table → Option Table
prepend x none = none
prepend x (some t) = some (x ∷ t)

abbrev pub sole_content : (ℕ → Scalar) → List ℕ → Option (Scalar ⊎ Table)
sole_content f (fd ∷ []) = some (inl (f fd))
sole_content f fds = none

module _ (message : Message) (nread : ℕ) where
  abbrev pub value_content : List ℕ → ℕ → List ℕ → Meaning → Option Item
  value_content key strit fds (plain s) =
      some (record { key = key; value = s; strit = strit; fds = fds })
  value_content key strit fds text =
      let v : StringView = nextstr message strit in
      if boundsvalid message nread v
      then some
          (record { key = key; value = string (chars message v); strit = behind v; fds = fds })
      else none
  value_content key strit fds (owner f) = elim fds [
    | [] ↦ none
    | fd ∷ rest ↦ some (record { key = key; value = f fd; strit = strit; fds = rest })
  ]
  value_content key strit fds unknown = none

  abbrev pub member_content : ℕ → ℕ → List ℕ → Option Item
  member_content word strit fds =
      let v : StringView = nextstr message strit in
      if boundsvalid message nread v
      then value_content (chars message v) (behind v) fds (meaning word)
      else none

  -- The keys and values of a table in their order.
  unfoldable pub members_content : List ℕ → ℕ → List ℕ → Option Table
  members_content [] strit fds = some []
  members_content (word ∷ rest) strit fds = elim (word == nil_word) [
    | true ↦ some []
    | false ↦ elim (member_content word strit fds) [
      | none ↦ none
      | some item ↦ prepend (item.key, item.value) (members_content rest item.strit item.fds)
    ]
  ]

  -- A message that is no table has one value, and no descriptor beside that of the value.
  abbrev pub flat_content : List ℕ → Meaning → Option (Scalar ⊎ Table)
  flat_content fds (plain s) = some (inl s)
  flat_content fds text =
      let v : StringView = record { start = 1; size = get_or message.strbuf 0 0 } in
      if boundsvalid message nread v then some (inl (string (chars message v))) else none
  flat_content fds (owner f) = sole_content f fds
  flat_content fds unknown = none

abbrev pub as_table : Option Table → Option (Scalar ⊎ Table)
as_table none = none
as_table (some t) = some (inr t)

unfoldable pub content : Message → ℕ → List ℕ → Option (Scalar ⊎ Table)
content message nread fds =
    if get_or message.members 0 0 == nil_word
    then flat_content message nread fds (meaning (get_or message.members 1 0))
    else (if ltb nread (sizeof_members message)
        then none
        else as_table (members_content message nread message.members 0 fds))
