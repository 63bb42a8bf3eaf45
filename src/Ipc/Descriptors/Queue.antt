-- ===== src/Ipc/Descriptors/Queue.antt =====
-- src/ipc_actor.cpp: the descriptors that the reader which stores a message is handed.
use Prim.Native.Nat.{bit_and}
use emilua.Common.{
  ℕ, ◌≡◌, refl, ap, ◌∙◌, true, false, List, [], ◌∷◌, ◌++◌, ◌==◌, ltb, arith, get_or, count,
  count-append,
}
use emilua.Ipc.{
  Message, StringView, nextstr, chars, boundsvalid, sizeof_members, is_snan, mantissa_mask,
}
use emilua.Ipc.Kind
use emilua.Ipc.Values.{
  Scalar, boolean, number, string, file_descriptor, actor_address, descriptors, flat, Reading,
  Outcome, ok, bad_message, received, refused, owned, emplace, seek, take_fds, behind, nil_word,
  begin,
}
use emilua.Ipc.Queue.{
  queue_flat, queue_string, queue_value, queue_member, queue_members, queue_close, queue_message,
}
use emilua.Ipc.Descriptors.{
  value_owned, accounted, weight, outcome_weight, weight-emplace, weight-if, plain_weight,
  accounted-if, weight-begin, refused-accounted,
}

module _ (a : ℕ) where
  -- A descriptor goes from the vector to a value.
  fd_weight :
      (fds : List ℕ) (r : Reading) (key : List ℕ) (f : ℕ → Scalar)
      → ((fd : ℕ) → descriptors (f fd) ≡ fd ∷ [])
      → r.fds ≡ fds
      → outcome_weight a
          (elim fds [ fd ∷ rest ↦ ok (emplace key (f fd) (take_fds rest r)) | [] ↦ bad_message r ])
        ≡ weight a r
  unfolding count
  fd_weight [] r key f h e = refl
  fd_weight (fd ∷ rest) r key f h e =
      omega
        (arith, weight-emplace a key (f fd) (take_fds rest r), ap (count a) (h fd), ap (count a) e)

module _ (a : ℕ) (message : Message) (nread : ℕ) where
  queue_value-weight :
      (word : ℕ) (key : List ℕ) (r : Reading)
      → outcome_weight a (queue_value message nread word key r) ≡ weight a r
  unfolding queue_value queue_string
  queue_value-weight word key r =
      let kind : ℕ = bit_and word mantissa_mask in
      let v : StringView = nextstr message r.strit in
      let w : ℕ = weight a r in
      weight-if a w (is_snan word) _ _
        (weight-if a w (kind == Kind.boolean_true) _ _ (plain_weight a key (boolean true) r refl) (
          weight-if a w (kind == Kind.boolean_false) _ _ (plain_weight a key (boolean false) r refl)
            (weight-if a w (kind == Kind.string) _ _
              (weight-if a w (boundsvalid message nread v) _ _
                (plain_weight a key (string (chars message v)) (seek (behind v) r) refl) refl)
              (weight-if a w (kind == Kind.file_descriptor) _ _
                (fd_weight a r.fds r key file_descriptor (λ fd. refl) refl)
                (weight-if a w (kind == Kind.actor_address) _ _
                  (fd_weight a r.fds r key actor_address (λ fd. refl) refl) refl)))))
        (plain_weight a key (number word) r refl)

  queue_member-weight :
      (word : ℕ) (r : Reading) → outcome_weight a (queue_member message nread word r) ≡ weight a r
  unfolding queue_member
  queue_member-weight word r =
      let key : StringView = nextstr message r.strit in
      weight-if a (weight a r) (boundsvalid message nread key) _ _
        (queue_value-weight word (chars message key) (seek (behind key) r)) refl

  queue-cons :
      (word : ℕ) (rest : List ℕ) (r : Reading)
      → ((r : Reading) → outcome_weight a (queue_members message nread rest r) ≡ weight a r)
      → outcome_weight a (queue_members message nread (word ∷ rest) r) ≡ weight a r
  unfolding queue_members
  queue-cons word rest r ih =
      elim (word == nil_word)
        as (λ b.
          outcome_weight a (elim b [
            | true ↦ ok r
            | false ↦ elim (queue_member message nread word r) [
              | ok u ↦ queue_members message nread rest u
              | bad_message u ↦ bad_message u
            ]
          ])
          ≡ weight a r) [
            | true ↦ refl
            | false ↦ go (queue_member message nread word r) (queue_member-weight word r)
          ]
    where
      go :
          (o : Outcome)
          → outcome_weight a o ≡ weight a r
          → outcome_weight a
              (elim o [ ok u ↦ queue_members message nread rest u | bad_message u ↦ bad_message u ])
            ≡ weight a r
      go (ok u) e = ih u ∙ e
      go (bad_message u) e = e

  queue_members-weight :
      (words : List ℕ) (r : Reading)
      → outcome_weight a (queue_members message nread words r) ≡ weight a r
  unfolding queue_members
  queue_members-weight [] r = refl
  queue_members-weight (word ∷ rest) r = queue-cons word rest r (queue_members-weight rest)

  close-weight : (o : Outcome) → count a (accounted (queue_close o)) ≡ outcome_weight a o
  unfolding queue_close accounted value_owned
  close-weight (ok r) =
      omega (
        arith,
        count-append a (owned r.entries) (r.dropped ++ r.fds),
        count-append a r.dropped r.fds,
      )
  close-weight (bad_message r) = omega (
    arith,
    count-append a (owned r.entries ++ r.dropped) r.fds,
    count-append a (owned r.entries) r.dropped,
  )

  sole-accounted :
      (f : ℕ → Scalar) (fds : List ℕ)
      → ((fd : ℕ) → descriptors (f fd) ≡ fd ∷ [])
      → count a
          (accounted (elim fds [ fd ∷ [] ↦ received (flat (f fd)) [] | other ↦ refused other ]))
        ≡ count a fds
  unfolding accounted value_owned
  sole-accounted f [] h = refl
  sole-accounted f (fd ∷ []) h = ap (λ l. count a (l ++ [])) (h fd)
  sole-accounted f (fd ∷ fd' ∷ rest) h = refl

  flat-accounted : (fds : List ℕ) → count a (accounted (queue_flat message nread fds)) ≡ count a fds
  unfolding queue_flat accounted value_owned
  flat-accounted fds =
      let word : ℕ = get_or message.members 1 0 in
      let kind : ℕ = bit_and word mantissa_mask in
      let n : ℕ = count a fds in
      accounted-if a n (is_snan word) _ _
        (accounted-if a n (kind == Kind.boolean_true) _ _ refl (
          accounted-if a n (kind == Kind.boolean_false) _ _ refl (
            accounted-if a n (kind == Kind.string) _ _
              (accounted-if a n (boundsvalid message nread (nextstr message 0)) _ _ refl refl)
              (accounted-if a n (kind == Kind.file_descriptor) _ _
                (sole-accounted file_descriptor fds (λ fd. refl))
                (accounted-if a n (kind == Kind.actor_address) _ _
                  (sole-accounted actor_address fds (λ fd. refl)) refl)))))
        refl

  pub queue_message-accounted :
      (fds : List ℕ) → count a (accounted (queue_message message nread fds)) ≡ count a fds
  unfolding queue_message
  queue_message-accounted fds =
      accounted-if a (count a fds) (get_or message.members 0 0 == nil_word) _ _ (flat-accounted fds)
        (accounted-if a (count a fds) (ltb nread (sizeof_members message)) _ _
          (refused-accounted a fds)
          (close-weight (queue_members message nread message.members (begin fds))
            ∙ queue_members-weight message.members (begin fds)
            ∙ weight-begin a fds))
