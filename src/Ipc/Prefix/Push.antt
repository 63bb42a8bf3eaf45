-- ===== src/Ipc/Prefix/Push.antt =====
-- src/ipc_actor.cpp: the reader that pushes a message on the stack uses only the received bytes.
use Prim.Native.Nat.{bit_and}
use emilua.Common.{
  ℕ, ◌*◌, ◌≤◌, ◌≡◌, refl, sym, ap, subst, ◌∙◌, inl, inr, Bool, true, false, List, [], ◌∷◌,
  if◌then◌else◌, ◌==◌, ltb, arith, get_or, Bool-cases,
}
use emilua.Ipc.{
  Message, StringView, nextstr, chars, boundsvalid, sizeof_members, is_snan, mantissa_mask,
}
use emilua.Ipc.Kind
use emilua.Ipc.Values.{
  string, Reading, Outcome, ok, bad_message, rawset, seek, behind, nil_word, begin,
}
use emilua.Ipc.Push.{
  Pushed, pushed, thrown, flat_kind, push_flat, push_nextstr, push_fd, push_kind, push_value,
  push_member, push_members, push_close, push_close_table, push_message,
}
use emilua.Ipc.Prefix.{
  SamePrefix, string_SameString, member, all_members, Same, same, both_bad, if_eq,
}

-- The same value, the read position after an exception aside.
data SamePushed : Pushed → Pushed → Type 0 where
  same_pushed : (p : Pushed) → SamePushed p p
  both_thrown :
      (r : Reading) (strit strit' : ℕ) → SamePushed (thrown (seek strit r)) (thrown (seek strit' r))

Same-if :
    (b : Bool) (x y x' y' : Pushed)
    → SamePushed x x'
    → SamePushed y y'
    → SamePushed (if b then x else y) (if b then x' else y')
Same-if true x y x' y' h k = h
Same-if false x y x' y' h k = k

Same-eq : {a b : Pushed} → a ≡ b → SamePushed a b
Same-eq {a} e = subst (SamePushed a) e (same_pushed a)

abbrev set_key : List ℕ → Pushed → Outcome
set_key key (pushed s r) = ok (rawset key s r)
set_key key (thrown r) = bad_message r

set_Same : (key : List ℕ) {a b : Pushed} → SamePushed a b → Same (set_key key a) (set_key key b)
set_Same key (same_pushed (pushed s r)) = same _
set_Same key (same_pushed (thrown r)) = same _
set_Same key (both_thrown r i j) = both_bad r i j

module _ (nread : ℕ) (m m' : Message) (h : SamePrefix nread m m') where
  push_nextstr_Same : (r : Reading) → SamePushed (push_nextstr m nread r) (push_nextstr m' nread r)
  unfolding push_nextstr
  push_nextstr_Same r = elim (string_SameString nread m m' h r.strit) [
    | inl (v, c, b, b') ↦
        rw (b, b')
          (Same-eq (
            ap (λ t. pushed (string t) (seek (behind (nextstr m r.strit)) r)) c
            ∙ ap
                (λ (w : StringView).
                  pushed (string (chars m' (nextstr m' r.strit))) (seek (behind w) r))
                v))
    | inr (b, b') ↦ rw (b, b') (both_thrown r _ _)
  ]

  push_value_Same :
      (word : ℕ) (r : Reading) → SamePushed (push_value m nread word r) (push_value m' nread word r)
  unfolding push_value push_kind push_fd
  push_value_Same word r =
      let kind : ℕ = bit_and word mantissa_mask in
      Same-if (is_snan word) _ _ _ _
        (Same-if (kind == Kind.boolean_true) _ _ _ _ (same_pushed _) (
          Same-if (kind == Kind.boolean_false) _ _ _ _ (same_pushed _)
            (Same-if (kind == Kind.string) _ _ _ _ (push_nextstr_Same r) (same_pushed _))))
        (same_pushed _)

  push_member_Same :
      (word : ℕ) (r : Reading) → Same (push_member m nread word r) (push_member m' nread word r)
  unfolding push_member
  push_member_Same word r = elim (string_SameString nread m m' h r.strit) [
    | inl (v, c, b, b') ↦
        rw (b, b')
          (subst
            (λ t.
              Same
                (set_key (chars m (nextstr m r.strit))
                  (push_value m nread word (seek (behind (nextstr m r.strit)) r)))
                (set_key t (push_value m' nread word (seek (behind (nextstr m' r.strit)) r))))
            c
            (subst
              (λ (w : StringView).
                Same
                  (set_key (chars m (nextstr m r.strit))
                    (push_value m nread word (seek (behind (nextstr m r.strit)) r)))
                  (set_key (chars m (nextstr m r.strit))
                    (push_value m' nread word (seek (behind w) r))))
              v (set_Same (chars m (nextstr m r.strit)) (push_value_Same word _))))
    | inr (b, b') ↦ rw (b, b') (both_bad r _ _)
  ]

  Same-cons :
      (word : ℕ) (rest : List ℕ) (r : Reading)
      → ((r : Reading) → Same (push_members m nread rest r) (push_members m' nread rest r))
      → Same (push_members m nread (word ∷ rest) r) (push_members m' nread (word ∷ rest) r)
  unfolding push_members
  Same-cons word rest r ih =
      elim (word == nil_word)
        as (λ b.
          Same
            (elim b [
              | true ↦ ok r
              | false ↦ elim (push_member m nread word r) [
                | ok u ↦ push_members m nread rest u
                | bad_message u ↦ bad_message u
              ]
            ])
            (elim b [
              | true ↦ ok r
              | false ↦ elim (push_member m' nread word r) [
                | ok u ↦ push_members m' nread rest u
                | bad_message u ↦ bad_message u
              ]
            ])) [ true ↦ same (ok r) | false ↦ go (push_member_Same word r) ]
    where
      go :
          {a b : Outcome}
          → Same a b
          → Same
              (elim a [ ok u ↦ push_members m nread rest u | bad_message u ↦ bad_message u ])
              (elim b [ ok u ↦ push_members m' nread rest u | bad_message u ↦ bad_message u ])
      go (same (ok u)) = ih u
      go (same (bad_message u)) = same (bad_message u)
      go (both_bad u i j) = both_bad u i j

  push_members_Same :
      (words : List ℕ) (r : Reading)
      → Same (push_members m nread words r) (push_members m' nread words r)
  unfolding push_members
  push_members_Same [] r = same _
  push_members_Same (word ∷ rest) r = Same-cons word rest r (push_members_Same rest)

  flat_string :
      (fds : List ℕ)
      → (if boundsvalid m nread (nextstr m 0)
          then pushed (string (chars m (nextstr m 0))) (begin fds)
          else thrown (begin fds))
        ≡ (if boundsvalid m' nread (nextstr m' 0)
            then pushed (string (chars m' (nextstr m' 0))) (begin fds)
            else thrown (begin fds))
  flat_string fds = elim (string_SameString nread m m' h 0) [
    | inl (v, c, b, b') ↦ rw (b, b') (ap (λ t. pushed (string t) (begin fds)) c)
    | inr (b, b') ↦ rw (b, b') refl
  ]

  flat_same :
      (fds : List ℕ)
      → get_or m.members 1 0 ≡ get_or m'.members 1 0
      → push_close (push_flat m nread fds) ≡ push_close (push_flat m' nread fds)
  unfolding push_flat flat_kind
  flat_same fds e =
      let word : ℕ = get_or m'.members 1 0 in
      let kind : ℕ = bit_and word mantissa_mask in
      rw e (
        ap push_close (
          if_eq (is_snan word) _ _ _ _
            (if_eq (kind == Kind.boolean_true) _ _ _ _ refl (
              if_eq (kind == Kind.boolean_false) _ _ _ _ refl
                (if_eq (kind == Kind.string) _ _ _ _ (flat_string fds) refl)))
            refl))

  Same-close : {a b : Outcome} → Same a b → push_close_table a ≡ push_close_table b
  unfolding push_close_table
  Same-close (same o) = refl
  Same-close (both_bad r i j) = refl

  table_same :
      (fds : List ℕ)
      → (ltb nread (sizeof_members m) ≡ false)
      → push_close_table (push_members m nread m.members (begin fds))
        ≡ push_close_table (push_members m' nread m'.members (begin fds))
  table_same fds long =
      Same-close (push_members_Same m.members (begin fds))
      ∙ ap (λ l. push_close_table (push_members m' nread l (begin fds)))
          (all_members nread m m' h (ground arith))

  pub push_message-prefix :
      (fds : List ℕ) → 16 ≤ nread → push_message m nread fds ≡ push_message m' nread fds
  unfolding push_message
  push_message-prefix fds long =
      let first : get_or m.members 0 0 ≡ get_or m'.members 0 0 =
        member nread m m' h 0 (omega arith) in
      let size : sizeof_members m ≡ sizeof_members m' = ap (λ n. 8 * n) h.size in
      rw first (
        if_eq (get_or m'.members 0 0 == nil_word) _ _ _ _
          (flat_same fds (member nread m m' h 1 (omega arith)))
          (elim (Bool-cases (ltb nread (sizeof_members m))) [
            | inl e ↦ rw (e, sym size, e) refl
            | inr e ↦ rw (e, sym size, e) (table_same fds e)
          ]))
