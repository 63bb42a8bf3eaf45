-- ===== src/Ipc/Descriptors.antt =====
-- src/ipc_actor.cpp: every descriptor that a message brings is owned by the value that is read, or
-- is closed, and is so once.
pub mod Queue
pub mod Push
use Prim.Native.Nat.{bit_and}
use emilua.Common.{
  ℕ, ◌+◌, ◌≡◌, refl, sym, ap, ◌∙◌, inl, inr, Bool, true, false, List, [], ◌∷◌, ◌++◌, if◌then◌else◌,
  ◌==◌, ltb, arith, get_or, count, count-append, Bool-cases,
}
use emilua.Ipc.{Message, nextstr, chars, boundsvalid, sizeof_members, is_snan, mantissa_mask}
use emilua.Ipc.Kind
use emilua.Ipc.Values.{
  Scalar, boolean, number, string, file_descriptor, actor_address, descriptors, Table, Value, flat,
  dict, Reading, Outcome, ok, bad_message, Received, received, refused, owned, has_key, same,
  replace, replaced, emplace, rawset, seek, take_fds, behind, nil_word, begin,
}
use emilua.Ipc.Queue.{
  queue_flat, queue_string, queue_value, queue_member, queue_members, queue_close, queue_message,
}
use emilua.Ipc.Push.{
  Pushed, pushed, thrown, push_sole, flat_kind, push_flat, push_nextstr, push_fd, push_kind,
  push_value, push_member, push_members, push_close, push_close_table, push_message,
}

-- The descriptors of a value, and all that are accounted for when a message has been read.
unfoldable pub value_owned : Value → List ℕ
value_owned (flat s) = descriptors s
value_owned (dict entries) = owned entries

unfoldable pub accounted : Received → List ℕ
accounted (received v closed) = value_owned v ++ closed
accounted (refused closed) = closed

module _ (a : ℕ) where
  abbrev pub weight : Reading → ℕ
  weight r = count a (owned r.entries) + count a r.dropped + count a r.fds

  abbrev pub outcome_weight : Outcome → ℕ
  outcome_weight (ok r) = weight r
  outcome_weight (bad_message r) = weight r

  owned-snoc :
      (t : Table) (key : List ℕ) (s : Scalar)
      → count a (owned (t ++ (key, s) ∷ [])) ≡ count a (owned t) + count a (descriptors s)
  unfolding count
  owned-snoc [] key s = omega (arith, count-append a (descriptors s) [])
  owned-snoc ((k, v) ∷ t) key s = omega (
    arith,
    count-append a (descriptors v) (owned (t ++ (key, s) ∷ [])),
    count-append a (descriptors v) (owned t),
    owned-snoc t key s,
  )

  owned-replace :
      (key : List ℕ) (s : Scalar) (t : Table)
      → has_key key t ≡ true
      → count a (owned (replace key s t)) + count a (replaced key t)
        ≡ count a (owned t) + count a (descriptors s)
  owned-replace key s [] h = cc
  owned-replace key s ((k, v) ∷ t) h = elim (Bool-cases (same key k)) [
    | inl e ↦ rw e (
        omega (
          arith,
          count-append a (descriptors s) (owned t),
          count-append a (descriptors v) (owned t),
        ))
    | inr e ↦ rw e (
        omega (
          arith,
          count-append a (descriptors v) (owned (replace key s t)),
          count-append a (descriptors v) (owned t),
          owned-replace key s t (rw e at h),
        ))
  ]

  pub weight-emplace :
      (key : List ℕ) (s : Scalar) (r : Reading)
      → weight (emplace key s r) ≡ weight r + count a (descriptors s)
  unfolding emplace
  weight-emplace key s r = elim (Bool-cases (has_key key r.entries)) [
    | inl e ↦ rw e (omega (arith, count-append a r.dropped (descriptors s)))
    | inr e ↦ rw e (omega (arith, owned-snoc r.entries key s))
  ]

  pub weight-rawset :
      (key : List ℕ) (s : Scalar) (r : Reading)
      → weight (rawset key s r) ≡ weight r + count a (descriptors s)
  unfolding rawset
  weight-rawset key s r = elim (Bool-cases (has_key key r.entries)) [
    | inl e ↦ rw e (
        omega (
          arith,
          count-append a r.dropped (replaced key r.entries),
          owned-replace key s r.entries e,
        ))
    | inr e ↦ rw e (omega (arith, owned-snoc r.entries key s))
  ]

  pub weight-if :
      (n : ℕ) (b : Bool) (x y : Outcome)
      → outcome_weight x ≡ n
      → outcome_weight y ≡ n
      → outcome_weight (if b then x else y) ≡ n
  weight-if n true x y h k = h
  weight-if n false x y h k = k

  pub plain_weight :
      (key : List ℕ) (s : Scalar) (r : Reading)
      → descriptors s ≡ []
      → weight (emplace key s r) ≡ weight r
  unfolding count
  plain_weight key s r e = omega (arith, weight-emplace key s r, ap (count a) e)

  pub refused-accounted : (fds : List ℕ) → count a (accounted (refused fds)) ≡ count a fds
  unfolding accounted
  refused-accounted fds = refl

  pub weight-begin : (fds : List ℕ) → weight (begin fds) ≡ count a fds
  unfolding count
  weight-begin fds = omega arith

  pub accounted-if :
      (n : ℕ) (b : Bool) (x y : Received)
      → count a (accounted x) ≡ n
      → count a (accounted y) ≡ n
      → count a (accounted (if b then x else y)) ≡ n
  accounted-if n true x y h k = h
  accounted-if n false x y h k = k
