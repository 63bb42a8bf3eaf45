-- ===== src/Ipc/Descriptors/Push.antt =====
-- src/ipc_actor.cpp: the descriptors that the reader which pushes a message is handed.
use Prim.Native.Nat.{bit_and}
use emilua.Common.{
  ℕ, ◌+◌, ◌≡◌, refl, ap, ◌∙◌, Bool, true, false, List, [], ◌∷◌, ◌++◌, if◌then◌else◌, ◌==◌, ltb,
  arith, get_or, count, count-append,
}
use emilua.Ipc.{
  Message, StringView, nextstr, chars, boundsvalid, sizeof_members, is_snan, mantissa_mask,
}
use emilua.Ipc.Kind
use emilua.Ipc.Values.{
  Scalar, boolean, number, string, file_descriptor, actor_address, descriptors, Reading, Outcome,
  ok, bad_message, owned, rawset, seek, take_fds, behind, nil_word, begin,
}
use emilua.Ipc.Push.{
  Pushed, pushed, thrown, push_sole, flat_kind, push_flat, push_nextstr, push_fd, push_kind,
  push_value, push_member, push_members, push_close, push_close_table, push_message,
}
use emilua.Ipc.Descriptors.{
  value_owned, accounted, weight, outcome_weight, weight-rawset, weight-if, accounted-if,
  weight-begin, refused-accounted,
}

module _ (a : ℕ) where
  abbrev pushed_weight : Pushed → ℕ
  pushed_weight (pushed s r) = weight a r + count a (descriptors s)
  pushed_weight (thrown r) = weight a r

  pushed_weight-if :
      (n : ℕ) (b : Bool) (x y : Pushed)
      → pushed_weight x ≡ n
      → pushed_weight y ≡ n
      → pushed_weight (if b then x else y) ≡ n
  pushed_weight-if n true x y h k = h
  pushed_weight-if n false x y h k = k

  plain_pushed :
      (s : Scalar) (r : Reading) → descriptors s ≡ [] → pushed_weight (pushed s r) ≡ weight a r
  unfolding count
  plain_pushed s r e = omega (arith, ap (count a) e)

  -- A descriptor goes from the vector to a value.
  fd_pushed :
      (fds : List ℕ) (r : Reading) (f : ℕ → Scalar)
      → ((fd : ℕ) → descriptors (f fd) ≡ fd ∷ [])
      → r.fds ≡ fds
      → pushed_weight (elim fds [ [] ↦ thrown r | fd ∷ rest ↦ pushed (f fd) (take_fds rest r) ])
        ≡ weight a r
  unfolding count
  fd_pushed [] r f h e = refl
  fd_pushed (fd ∷ rest) r f h e = omega (arith, ap (count a) (h fd), ap (count a) e)

module _ (a : ℕ) (message : Message) (nread : ℕ) where
  push_value-weight :
      (word : ℕ) (r : Reading) → pushed_weight a (push_value message nread word r) ≡ weight a r
  unfolding push_value push_kind push_nextstr push_fd
  push_value-weight word r =
      let kind : ℕ = bit_and word mantissa_mask in
      let v : StringView = nextstr message r.strit in
      let w : ℕ = weight a r in
      pushed_weight-if a w (is_snan word) _ _
        (pushed_weight-if a w (kind == Kind.boolean_true) _ _ (plain_pushed a (boolean true) r refl)
          (pushed_weight-if a w (kind == Kind.boolean_false) _ _
            (plain_pushed a (boolean false) r refl)
            (pushed_weight-if a w (kind == Kind.string) _ _
              (pushed_weight-if a w (boundsvalid message nread v) _ _
                (plain_pushed a (string (chars message v)) (seek (behind v) r) refl) refl)
              (pushed_weight-if a w (kind == Kind.file_descriptor) _ _
                (fd_pushed a r.fds r file_descriptor (λ fd. refl) refl)
                (pushed_weight-if a w (kind == Kind.actor_address) _ _
                  (fd_pushed a r.fds r actor_address (λ fd. refl) refl) refl)))))
        (plain_pushed a (number word) r refl)

  push_member-weight :
      (word : ℕ) (r : Reading) → outcome_weight a (push_member message nread word r) ≡ weight a r
  unfolding push_member
  push_member-weight word r =
      let key : StringView = nextstr message r.strit in
      let u : Reading = seek (behind key) r in
      weight-if a (weight a r) (boundsvalid message nread key) _ _
        (go (push_value message nread word u) (push_value-weight word u)) refl
    where
      go :
          (p : Pushed)
          → pushed_weight a p ≡ weight a r
          → outcome_weight a (elim p [
            | pushed s u ↦ ok (rawset (chars message (nextstr message r.strit)) s u)
            | thrown u ↦ bad_message u
          ])
            ≡ weight a r
      go (pushed s u) e = weight-rawset a _ s u ∙ e
      go (thrown u) e = e

  push-cons :
      (word : ℕ) (rest : List ℕ) (r : Reading)
      → ((r : Reading) → outcome_weight a (push_members message nread rest r) ≡ weight a r)
      → outcome_weight a (push_members message nread (word ∷ rest) r) ≡ weight a r
  unfolding push_members
  push-cons word rest r ih =
      elim (word == nil_word)
        as (λ b.
          outcome_weight a (elim b [
            | true ↦ ok r
            | false ↦ elim (push_member message nread word r) [
              | ok u ↦ push_members message nread rest u
              | bad_message u ↦ bad_message u
            ]
          ])
          ≡ weight a r) [
            | true ↦ refl
            | false ↦ go (push_member message nread word r) (push_member-weight word r)
          ]
    where
      go :
          (o : Outcome)
          → outcome_weight a o ≡ weight a r
          → outcome_weight a
              (elim o [ ok u ↦ push_members message nread rest u | bad_message u ↦ bad_message u ])
            ≡ weight a r
      go (ok u) e = ih u ∙ e
      go (bad_message u) e = e

  push_members-weight :
      (words : List ℕ) (r : Reading)
      → outcome_weight a (push_members message nread words r) ≡ weight a r
  unfolding push_members
  push_members-weight [] r = refl
  push_members-weight (word ∷ rest) r = push-cons word rest r (push_members-weight rest)

  close-weight : (o : Outcome) → count a (accounted (push_close_table o)) ≡ outcome_weight a o
  unfolding push_close_table accounted value_owned
  close-weight (ok r) =
      omega (
        arith,
        count-append a (owned r.entries) (r.dropped ++ r.fds),
        count-append a r.dropped r.fds,
      )
  close-weight (bad_message r) = omega (
    arith,
    count-append a (owned r.entries ++ r.dropped) r.fds,
    count-append a (owned r.entries) r.dropped,
  )

  -- A flat message leaves what is in the vector to be closed.
  abbrev flat_weight : Pushed → ℕ
  flat_weight p = count a (accounted (push_close p))

  flat_weight-if :
      (n : ℕ) (b : Bool) (x y : Pushed)
      → flat_weight x ≡ n
      → flat_weight y ≡ n
      → flat_weight (if b then x else y) ≡ n
  flat_weight-if n true x y h k = h
  flat_weight-if n false x y h k = k

  sole-accounted :
      (f : ℕ → Scalar) (fds : List ℕ)
      → ((fd : ℕ) → descriptors (f fd) ≡ fd ∷ [])
      → flat_weight (push_sole f fds) ≡ count a fds
  unfolding push_sole push_close accounted value_owned
  sole-accounted f [] h = refl
  sole-accounted f (fd ∷ []) h = ap (λ l. count a (l ++ [])) (h fd)
  sole-accounted f (fd ∷ fd' ∷ rest) h = refl

  flat-accounted : (fds : List ℕ) → flat_weight (push_flat message nread fds) ≡ count a fds
  unfolding push_flat flat_kind accounted value_owned push_close
  flat-accounted fds =
      let word : ℕ = get_or message.members 1 0 in
      let kind : ℕ = bit_and word mantissa_mask in
      let n : ℕ = count a fds in
      flat_weight-if n (is_snan word) _ _
        (flat_weight-if n (kind == Kind.boolean_true) _ _ refl (
          flat_weight-if n (kind == Kind.boolean_false) _ _ refl (
            flat_weight-if n (kind == Kind.string) _ _
              (flat_weight-if n (boundsvalid message nread (nextstr message 0)) _ _ refl refl)
              (flat_weight-if n (kind == Kind.file_descriptor) _ _
                (sole-accounted file_descriptor fds (λ fd. refl))
                (flat_weight-if n (kind == Kind.actor_address) _ _
                  (sole-accounted actor_address fds (λ fd. refl)) refl)))))
        refl

  pub push_message-accounted :
      (fds : List ℕ) → count a (accounted (push_message message nread fds)) ≡ count a fds
  unfolding push_message
  push_message-accounted fds =
      accounted-if a (count a fds) (get_or message.members 0 0 == nil_word) _ _ (flat-accounted fds)
        (accounted-if a (count a fds) (ltb nread (sizeof_members message)) _ _
          (refused-accounted a fds)
          (close-weight (push_members message nread message.members (begin fds))
            ∙ push_members-weight message.members (begin fds)
            ∙ weight-begin a fds))
