-- ===== src/Ipc/Prefix/Queue.antt =====
-- src/ipc_actor.cpp: the reader that stores a message in the inbox uses only the received bytes.
use Prim.Native.Nat.{bit_and}
use emilua.Common.{
  ℕ, ◌*◌, ◌≤◌, ◌≡◌, refl, sym, ap, subst, ◌∙◌, inl, inr, Bool, true, false, List, [], ◌∷◌,
  if◌then◌else◌, ◌==◌, ltb, arith, get_or, Bool-cases,
}
use emilua.Ipc.{
  Message, StringView, nextstr, chars, boundsvalid, sizeof_members, is_snan, mantissa_mask,
}
use emilua.Ipc.Kind
use emilua.Ipc.Values.{
  string, flat, Reading, Outcome, ok, bad_message, received, refused, emplace, seek, behind,
  nil_word, begin,
}
use emilua.Ipc.Queue.{
  queue_flat, queue_string, queue_value, queue_member, queue_members, queue_close, queue_message,
}
use emilua.Ipc.Prefix.{
  SamePrefix, string_SameString, member, all_members, Same, same, both_bad, if_eq,
}

Same-if :
    (b : Bool) (x y x' y' : Outcome)
    → Same x x'
    → Same y y'
    → Same (if b then x else y) (if b then x' else y')
Same-if true x y x' y' h k = h
Same-if false x y x' y' h k = k

Same-eq : {a b : Outcome} → a ≡ b → Same a b
Same-eq {a} e = subst (Same a) e (same a)

module _ (nread : ℕ) (m m' : Message) (h : SamePrefix nread m m') where
  queue_string_Same :
      (key : List ℕ) (r : Reading) → Same (queue_string m nread key r) (queue_string m' nread key r)
  unfolding queue_string
  queue_string_Same key r = elim (string_SameString nread m m' h r.strit) [
    | inl (v, c, b, b') ↦
        rw (b, b')
          (Same-eq (
            ap (λ t. ok (emplace key (string t) (seek (behind (nextstr m r.strit)) r))) c
            ∙ ap
                (λ (w : StringView).
                  ok (emplace key (string (chars m' (nextstr m' r.strit))) (seek (behind w) r)))
                v))
    | inr (b, b') ↦ rw (b, b') (both_bad r _ _)
  ]

  queue_value_Same :
      (word : ℕ) (key : List ℕ) (r : Reading)
      → Same (queue_value m nread word key r) (queue_value m' nread word key r)
  unfolding queue_value
  queue_value_Same word key r =
      let kind : ℕ = bit_and word mantissa_mask in
      Same-if (is_snan word) _ _ _ _
        (Same-if (kind == Kind.boolean_true) _ _ _ _ (same _) (
          Same-if (kind == Kind.boolean_false) _ _ _ _ (same _)
            (Same-if (kind == Kind.string) _ _ _ _ (queue_string_Same key r) (same _))))
        (same _)

  queue_member_Same :
      (word : ℕ) (r : Reading) → Same (queue_member m nread word r) (queue_member m' nread word r)
  unfolding queue_member
  queue_member_Same word r = elim (string_SameString nread m m' h r.strit) [
    | inl (v, c, b, b') ↦
        rw (b, b')
          (subst
            (λ t.
              Same
                (queue_value m nread word (chars m (nextstr m r.strit))
                  (seek (behind (nextstr m r.strit)) r))
                (queue_value m' nread word t (seek (behind (nextstr m' r.strit)) r)))
            c
            (subst
              (λ (w : StringView).
                Same
                  (queue_value m nread word (chars m (nextstr m r.strit))
                    (seek (behind (nextstr m r.strit)) r))
                  (queue_value m' nread word (chars m (nextstr m r.strit)) (seek (behind w) r)))
              v (queue_value_Same word _ _)))
    | inr (b, b') ↦ rw (b, b') (both_bad r _ _)
  ]

  Same-cons :
      (word : ℕ) (rest : List ℕ) (r : Reading)
      → ((r : Reading) → Same (queue_members m nread rest r) (queue_members m' nread rest r))
      → Same (queue_members m nread (word ∷ rest) r) (queue_members m' nread (word ∷ rest) r)
  unfolding queue_members
  Same-cons word rest r ih =
      elim (word == nil_word)
        as (λ b.
          Same
            (elim b [
              | true ↦ ok r
              | false ↦ elim (queue_member m nread word r) [
                | ok u ↦ queue_members m nread rest u
                | bad_message u ↦ bad_message u
              ]
            ])
            (elim b [
              | true ↦ ok r
              | false ↦ elim (queue_member m' nread word r) [
                | ok u ↦ queue_members m' nread rest u
                | bad_message u ↦ bad_message u
              ]
            ])) [ true ↦ same (ok r) | false ↦ go (queue_member_Same word r) ]
    where
      go :
          {a b : Outcome}
          → Same a b
          → Same
              (elim a [ ok u ↦ queue_members m nread rest u | bad_message u ↦ bad_message u ])
              (elim b [ ok u ↦ queue_members m' nread rest u | bad_message u ↦ bad_message u ])
      go (same (ok u)) = ih u
      go (same (bad_message u)) = same (bad_message u)
      go (both_bad u i j) = both_bad u i j

  queue_members_Same :
      (words : List ℕ) (r : Reading)
      → Same (queue_members m nread words r) (queue_members m' nread words r)
  unfolding queue_members
  queue_members_Same [] r = same _
  queue_members_Same (word ∷ rest) r = Same-cons word rest r (queue_members_Same rest)

  flat_string :
      (fds : List ℕ)
      → (if boundsvalid m nread (nextstr m 0)
          then received (flat (string (chars m (nextstr m 0)))) fds
          else refused fds)
        ≡ (if boundsvalid m' nread (nextstr m' 0)
            then received (flat (string (chars m' (nextstr m' 0)))) fds
            else refused fds)
  flat_string fds = elim (string_SameString nread m m' h 0) [
    | inl (v, c, b, b') ↦ rw (b, b') (ap (λ t. received (flat (string t)) fds) c)
    | inr (b, b') ↦ rw (b, b') refl
  ]

  flat_same :
      (fds : List ℕ)
      → get_or m.members 1 0 ≡ get_or m'.members 1 0
      → queue_flat m nread fds ≡ queue_flat m' nread fds
  unfolding queue_flat
  flat_same fds e =
      let word : ℕ = get_or m'.members 1 0 in
      let kind : ℕ = bit_and word mantissa_mask in
      rw e (
        if_eq (is_snan word) _ _ _ _
          (if_eq (kind == Kind.boolean_true) _ _ _ _ refl (
            if_eq (kind == Kind.boolean_false) _ _ _ _ refl
              (if_eq (kind == Kind.string) _ _ _ _ (flat_string fds) refl)))
          refl)

  Same-close : {a b : Outcome} → Same a b → queue_close a ≡ queue_close b
  unfolding queue_close
  Same-close (same o) = refl
  Same-close (both_bad r i j) = refl

  table_same :
      (fds : List ℕ)
      → (ltb nread (sizeof_members m) ≡ false)
      → queue_close (queue_members m nread m.members (begin fds))
        ≡ queue_close (queue_members m' nread m'.members (begin fds))
  table_same fds long =
      Same-close (queue_members_Same m.members (begin fds))
      ∙ ap (λ l. queue_close (queue_members m' nread l (begin fds)))
          (all_members nread m m' h (ground arith))

  pub queue_message-prefix :
      (fds : List ℕ) → 16 ≤ nread → queue_message m nread fds ≡ queue_message m' nread fds
  unfolding queue_message
  queue_message-prefix fds long =
      let first : get_or m.members 0 0 ≡ get_or m'.members 0 0 =
        member nread m m' h 0 (omega arith) in
      let size : sizeof_members m ≡ sizeof_members m' = ap (λ n. 8 * n) h.size in
      rw first (
        if_eq (get_or m'.members 0 0 == nil_word) _ _ _ _
          (flat_same fds (member nread m m' h 1 (omega arith)))
          (elim (Bool-cases (ltb nread (sizeof_members m))) [
            | inl e ↦ rw (e, sym size, e) refl
            | inr e ↦ rw (e, sym size, e) (table_same fds e)
          ]))
