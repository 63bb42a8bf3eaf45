-- ===== src/Ipc/Agreement.antt =====
-- src/ipc_actor.cpp: the reader that stores a message in the inbox and the reader that pushes it on
-- the stack read the members that the message says.
use Prim.Native.Nat.{bit_and}
use emilua.Common.{
  ℕ, ◌≡◌, refl, sym, ap, subst, ◌∙◌, Bool, true, false, Option, none, some, Bool-cases, inl, inr,
  List, [], ◌∷◌, ◌++◌, if◌then◌else◌, ◌==◌,
}
use emilua.Ipc.{Message, StringView, nextstr, chars, boundsvalid, is_snan, mantissa_mask}
use emilua.Ipc.Kind
use emilua.Ipc.Values.{
  Scalar, boolean, number, string, file_descriptor, actor_address, Table, Reading, Outcome, ok,
  bad_message, has_key, replace, emplace, rawset, take_fds, behind, nil_word,
}
use emilua.Ipc.Content.{
  Meaning, text, owner, meaning, Item, prepend, value_content, member_content, members_content,
}
use emilua.Ipc.Queue.{queue_string, queue_value, queue_member, queue_members}
use emilua.Ipc.Push.{
  Pushed, pushed, thrown, push_nextstr, push_fd, push_kind, push_value, push_member, push_members,
}

-- A dictionary that keeps the first value of a key, and one that keeps the last, both in the order
-- in which the keys came.
unfoldable pub firsts : Table → Table → Table
firsts acc [] = acc
firsts acc ((key, s) ∷ rest) = firsts (if has_key key acc then acc else acc ++ (key, s) ∷ []) rest

unfoldable pub lasts : Table → Table → Table
lasts acc [] = acc
lasts acc ((key, s) ∷ rest) =
    lasts (if has_key key acc then replace key s acc else acc ++ (key, s) ∷ []) rest

-- The same step of both readers.
abbrev at_ : ℕ → List ℕ → Reading → Reading
at_ strit fds r = record { entries = r.entries; strit = strit; fds = fds; dropped = r.dropped }

data Step (q p : Reading) : Option Item → Outcome → Outcome → Type 0 where
  both_bad : (q' p' : Reading) → Step q p none (bad_message q') (bad_message p')
  both_ok :
      (key : List ℕ) (s : Scalar) (strit : ℕ) (fds : List ℕ)
      → Step q p
          (some (record { key = key; value = s; strit = strit; fds = fds }))
          (ok (emplace key s (at_ strit fds q)))
          (ok (rawset key s (at_ strit fds p)))

abbrev set_pushed : List ℕ → Pushed → Outcome
set_pushed key (pushed s r) = ok (rawset key s r)
set_pushed key (thrown r) = bad_message r

module _ (message : Message) (nread : ℕ) (strit : ℕ) (fds : List ℕ) (q p : Reading)
    (key : List ℕ) where
  abbrev q_ : Reading
  q_ = at_ strit fds q

  abbrev p_ : Reading
  p_ = at_ strit fds p

  abbrev Means : Meaning → Outcome → Pushed → Type 0
  Means m x y = Step q p (value_content message nread key strit fds m) x (set_pushed key y)

  Means-if :
      (b : Bool) (m n : Meaning) (x y : Outcome) (x' y' : Pushed)
      → Means m x x'
      → Means n y y'
      → Means (if b then m else n) (if b then x else y) (if b then x' else y')
  Means-if true m n x y x' y' h k = h
  Means-if false m n x y x' y' h k = k

  fd_Means :
      (f : ℕ → Scalar)
      → Means
          (owner f)
          (elim fds [
            | fd ∷ rest ↦ ok (emplace key (f fd) (take_fds rest q_))
            | [] ↦ bad_message q_
          ])
          (push_fd message nread f p_)
  unfolding push_fd
  fd_Means f =
      elim fds
        as (λ l.
          Step q p
            (elim l [
              | [] ↦ none
              | fd ∷ rest ↦ some (record { key = key; value = f fd; strit = strit; fds = rest })
            ])
            (elim l [
              | fd ∷ rest ↦ ok (emplace key (f fd) (take_fds rest q_))
              | [] ↦ bad_message q_
            ])
            (set_pushed key
              (elim l [ [] ↦ thrown p_ | fd ∷ rest ↦ pushed (f fd) (take_fds rest p_) ]))) [
                | [] ↦ both_bad _ _
                | fd ∷ rest ↦ both_ok key (f fd) strit rest
              ]

  text_Means :
      let v : StringView = nextstr message strit in
      Means text
        (if boundsvalid message nread v
          then ok (emplace key (string (chars message v)) (at_ (behind v) fds q))
          else bad_message (at_ (behind v) fds q))
        (if boundsvalid message nread v
          then pushed (string (chars message v)) (at_ (behind v) fds p)
          else thrown (at_ (behind v) fds p))
  text_Means =
      let v : StringView = nextstr message strit in
      elim (boundsvalid message nread v)
        as (λ b.
          Step q p
            (if b
              then some (record {
                key = key;
                value = string (chars message v);
                strit = behind v;
                fds = fds;
              })
              else none)
            (if b
              then ok (emplace key (string (chars message v)) (at_ (behind v) fds q))
              else bad_message (at_ (behind v) fds q))
            (set_pushed key (
              if b
              then pushed (string (chars message v)) (at_ (behind v) fds p)
              else thrown (at_ (behind v) fds p)))) [
                | true ↦ both_ok key (string (chars message v)) (behind v) fds
                | false ↦ both_bad _ _
              ]

  value_Means :
      (word : ℕ)
      → Means
          (meaning word)
          (queue_value message nread word key q_)
          (push_value message nread word p_)
  unfolding queue_value push_value push_kind push_nextstr queue_string
  value_Means word =
      let kind : ℕ = bit_and word mantissa_mask in
      Means-if (is_snan word) _ _ _ _ _ _
        (Means-if (kind == Kind.boolean_true) _ _ _ _ _ _ (both_ok key (boolean true) strit fds) (
          Means-if (kind == Kind.boolean_false) _ _ _ _ _ _ (both_ok key (boolean false) strit fds)
            (Means-if (kind == Kind.string) _ _ _ _ _ _ text_Means (
              Means-if (kind == Kind.file_descriptor) _ _ _ _ _ _ (fd_Means file_descriptor) (
                Means-if (kind == Kind.actor_address) _ _ _ _ _ _ (fd_Means actor_address)
                  (both_bad _ _))))))
        (both_ok key (number word) strit fds)

module _ (message : Message) (nread word : ℕ) (q p : Reading) where
  member_Step_at :
      (strit : ℕ) (fds : List ℕ)
      → Step q p
          (member_content message nread word strit fds)
          (queue_member message nread word (at_ strit fds q))
          (push_member message nread word (at_ strit fds p))
  unfolding queue_member push_member
  member_Step_at strit fds =
      let v : StringView = nextstr message strit in
      elim (boundsvalid message nread v)
        as (λ b.
          Step q p
            (if b
              then value_content message nread (chars message v) (behind v) fds (meaning word)
              else none)
            (if b
              then queue_value message nread word (chars message v) (at_ (behind v) fds q)
              else bad_message (at_ (behind v) fds q))
            (if b
              then set_pushed (chars message v)
                  (push_value message nread word (at_ (behind v) fds p))
              else bad_message (at_ (behind v) fds p))) [
                | true ↦ value_Means message nread (behind v) fds q p (chars message v) word
                | false ↦ both_bad _ _
              ]

  member_Step :
      q.strit ≡ p.strit
      → q.fds ≡ p.fds
      → Step q p
          (member_content message nread word q.strit q.fds)
          (queue_member message nread word q)
          (push_member message nread word p)
  member_Step e f =
      subst
        (λ t.
          Step q p (member_content message nread word q.strit q.fds)
            (queue_member message nread word q) (push_member message nread word (at_ t p.fds p)))
        e
        (subst
          (λ l.
            Step q p (member_content message nread word q.strit q.fds)
              (queue_member message nread word q)
              (push_member message nread word (at_ q.strit l p)))
          f (member_Step_at q.strit q.fds))

-- What a step leaves alone, and what it does to the entries.
module _ (key : List ℕ) (s : Scalar) (r : Reading) where
  emplace-strit : (emplace key s r).strit ≡ r.strit
  unfolding emplace
  emplace-strit = elim (Bool-cases (has_key key r.entries)) [
    | inl e ↦ rw e refl
    | inr e ↦ rw e refl
  ]

  emplace-fds : (emplace key s r).fds ≡ r.fds
  unfolding emplace
  emplace-fds = elim (Bool-cases (has_key key r.entries)) [ inl e ↦ rw e refl | inr e ↦ rw e refl ]

  emplace-entries :
      (emplace key s r).entries
      ≡ (if has_key key r.entries then r.entries else r.entries ++ (key, s) ∷ [])
  unfolding emplace
  emplace-entries = elim (Bool-cases (has_key key r.entries)) [
    | inl e ↦ rw e refl
    | inr e ↦ rw e refl
  ]

  rawset-strit : (rawset key s r).strit ≡ r.strit
  unfolding rawset
  rawset-strit = elim (Bool-cases (has_key key r.entries)) [ inl e ↦ rw e refl | inr e ↦ rw e refl ]

  rawset-fds : (rawset key s r).fds ≡ r.fds
  unfolding rawset
  rawset-fds = elim (Bool-cases (has_key key r.entries)) [ inl e ↦ rw e refl | inr e ↦ rw e refl ]

  rawset-entries :
      (rawset key s r).entries
      ≡ (if has_key key r.entries then replace key s r.entries else r.entries ++ (key, s) ∷ [])
  unfolding rawset
  rawset-entries = elim (Bool-cases (has_key key r.entries)) [
    | inl e ↦ rw e refl
    | inr e ↦ rw e refl
  ]

-- Both loops read the members that the message says, or refuse them.
pub data Run (q p : Reading) : Option Table → Outcome → Outcome → Type 0 where
  bad_run : (q' p' : Reading) → Run q p none (bad_message q') (bad_message p')
  ok_run :
      (t : Table) (q' p' : Reading)
      → q'.entries ≡ firsts q.entries t
      → p'.entries ≡ lasts p.entries t
      → Run q p (some t) (ok q') (ok p')

module _ (message : Message) (nread : ℕ) (rest : List ℕ)
    (ih : (q p : Reading)
      → q.strit ≡ p.strit
      → q.fds ≡ p.fds
      → Run q p
          (members_content message nread rest q.strit q.fds)
          (queue_members message nread rest q)
          (push_members message nread rest p)) where
  Run-cons :
      (q p q1 p1 : Reading) (key : List ℕ) (s : Scalar)
      → q1.entries ≡ (if has_key key q.entries then q.entries else q.entries ++ (key, s) ∷ [])
      → p1.entries
        ≡ (if has_key key p.entries then replace key s p.entries else p.entries ++ (key, s) ∷ [])
      → {o : Option Table} {a b : Outcome} → Run q1 p1 o a b
      → Run q p (prepend (key, s) o) a b
  unfolding firsts lasts
  Run-cons q p q1 p1 key s e f (bad_run q' p') = bad_run q' p'
  Run-cons q p q1 p1 key s e f (ok_run t q' p' g h) =
      ok_run ((key, s) ∷ t) q' p' (g ∙ ap (λ l. firsts l t) e) (h ∙ ap (λ l. lasts l t) f)

  Step-Run :
      (q p : Reading) {o : Option Item} {a b : Outcome}
      → Step q p o a b
      → Run q p
          (elim o [
            | none ↦ none
            | some item ↦
                prepend
                  (item.key, item.value)
                  (members_content message nread rest item.strit item.fds)
          ])
          (elim a [ ok r ↦ queue_members message nread rest r | bad_message r ↦ bad_message r ])
          (elim b [ ok r ↦ push_members message nread rest r | bad_message r ↦ bad_message r ])
  Step-Run q p (both_bad q' p') = bad_run q' p'
  Step-Run q p (both_ok key s strit fds) =
      let q0 : Reading = at_ strit fds q in
      let p0 : Reading = at_ strit fds p in
      let q1 : Reading = emplace key s q0 in
      let p1 : Reading = rawset key s p0 in
      let a : Outcome = queue_members message nread rest q1 in
      let b : Outcome = push_members message nread rest p1 in
      Run-cons q p q1 p1 key s (emplace-entries key s q0) (rawset-entries key s p0) (
        subst (λ i. Run q1 p1 (members_content message nread rest i fds) a b)
          (emplace-strit key s q0)
          (subst (λ l. Run q1 p1 (members_content message nread rest q1.strit l) a b)
            (emplace-fds key s q0)
            (ih q1 p1 (emplace-strit key s q0 ∙ sym (rawset-strit key s p0))
              (emplace-fds key s q0 ∙ sym (rawset-fds key s p0)))))

pub members_Run :
    (message : Message) (nread : ℕ) (words : List ℕ) (q p : Reading)
    → q.strit ≡ p.strit
    → q.fds ≡ p.fds
    → Run q p
        (members_content message nread words q.strit q.fds)
        (queue_members message nread words q)
        (push_members message nread words p)
unfolding queue_members push_members members_content firsts lasts
members_Run message nread [] q p e f = ok_run [] q p refl refl
members_Run message nread (word ∷ rest) q p e f =
    elim (word == nil_word)
      as (λ b.
        Run q p
          (elim b [
            | true ↦ some []
            | false ↦ elim (member_content message nread word q.strit q.fds) [
              | none ↦ none
              | some item ↦
                  prepend (item.key, item.value)
                    (members_content message nread rest item.strit item.fds)
            ]
          ])
          (elim b [
            | true ↦ ok q
            | false ↦ elim (queue_member message nread word q) [
              | ok r ↦ queue_members message nread rest r
              | bad_message r ↦ bad_message r
            ]
          ])
          (elim b [
            | true ↦ ok p
            | false ↦ elim (push_member message nread word p) [
              | ok r ↦ push_members message nread rest r
              | bad_message r ↦ bad_message r
            ]
          ])) [
            | true ↦ ok_run [] q p refl refl
            | false ↦
                Step-Run message nread rest (members_Run message nread rest) q p
                  (member_Step message nread word q p e f)
          ]
