-- ===== src/Ipc/Prefix.antt =====
-- src/ipc_actor.cpp: the readers of `on_wait` use only the bytes that were received. What the
-- buffer held before, on the stack of the caller, never reaches a value.
pub mod Queue
pub mod Push
use Prim.Native.Nat.{◌/◌, bit_and}
use emilua.Common.{
  ℕ, ◌+◌, ◌-◌, ◌*◌, ◌≤◌, ◌<◌, ◌≡◌, refl, sym, ap, subst, ◌∙◌, ◌⊎◌, inl, inr, Bool, true, false,
  List, [], ◌∷◌, if◌then◌else◌, ◌==◌, leb, ltb, arith, length, get_or, take, drop, take-take,
  drop-take, get_or-take, take_all, Bool-cases,
}
use emilua.Ipc.{
  Message, StringView, nextstr, chars, boundsvalid, sizeof_members, is_snan, mantissa_mask,
}
use emilua.Ipc.Kind
use emilua.Ipc.Values.{
  Scalar, boolean, number, string, file_descriptor, actor_address, Table, flat, Reading, Outcome,
  ok, bad_message, Received, received, refused, emplace, rawset, seek, take_fds, behind, nil_word,
  begin,
}
use emilua.Ipc.Queue.{
  queue_flat, queue_string, queue_value, queue_member, queue_members, queue_close, queue_message,
}
use emilua.Ipc.Push.{
  Pushed, pushed, thrown, push_sole, flat_kind, push_flat, push_nextstr, push_fd, push_kind,
  push_value, push_member, push_members, push_close, push_close_table, push_message,
}

-- The first `nread` bytes are the same.
pub record SamePrefix (nread : ℕ) (m m' : Message) : Type 0 where
  pub size : length m.members ≡ length m'.members
  pub members : take (nread / 8) m.members ≡ take (nread / 8) m'.members
  pub strbuf : take (nread - sizeof_members m) m.strbuf ≡ take (nread - sizeof_members m) m'.strbuf

module _ (nread : ℕ) (m m' : Message) (h : SamePrefix nread m m') where
  within :
      (i n : ℕ)
      → i + n ≤ nread - sizeof_members m
      → take n (drop i m.strbuf) ≡ take n (drop i m'.strbuf)
  within i n le =
      let k : ℕ = nread - sizeof_members m in
      let cut = λ (b : List ℕ). take-take n (k - i) (drop i b) (omega arith) in
      sym (cut m.strbuf)
      ∙ ap (λ l. take n l) (sym (drop-take i k m.strbuf))
      ∙ ap (λ l. take n (drop i l)) h.strbuf
      ∙ ap (λ l. take n l) (drop-take i k m'.strbuf)
      ∙ cut m'.strbuf

  byte : (i : ℕ) → i < nread - sizeof_members m → get_or m.strbuf i 0 ≡ get_or m'.strbuf i 0
  byte i lt =
      let k : ℕ = nread - sizeof_members m in
      sym (get_or-take k i m.strbuf 0 lt)
      ∙ ap (λ l. get_or l i 0) h.strbuf
      ∙ get_or-take k i m'.strbuf 0 lt

  -- A string is in bounds in both buffers, and the same, or in none.
  abbrev pub SameString : ℕ → Type 0
  SameString strit =
      ((nextstr m strit ≡ nextstr m' strit)
        × (chars m (nextstr m strit) ≡ chars m' (nextstr m' strit))
        × (boundsvalid m nread (nextstr m strit) ≡ true)
        × (boundsvalid m' nread (nextstr m' strit) ≡ true))
      ⊎ ((boundsvalid m nread (nextstr m strit) ≡ false)
          × (boundsvalid m' nread (nextstr m' strit) ≡ false))

  pub string_SameString : (strit : ℕ) → SameString strit
  string_SameString strit =
      let k : ℕ = nread - sizeof_members m in
      let n : ℕ = get_or m.strbuf strit 0 in
      let n' : ℕ = get_or m'.strbuf strit 0 in
      let size = h.size in
      elim (Bool-cases (ltb strit k)) [
        | inr far ↦ inr (ground arith, ground arith)
        | inl near ↦
            let e : n ≡ n' = byte strit (ground arith) in
            elim (Bool-cases (boundsvalid m nread (nextstr m strit))) [
              | inr out ↦ inr (out, ground arith)
              | inl in_ ↦ inl (
                ap (λ (n : ℕ). record { start = strit + 1; size = n }) e,
                within (strit + 1) n (ground arith)
                    ∙ ap (λ n. take n (drop (strit + 1) m'.strbuf)) e,
                in_,
                ground arith,
              )
            ]
      ]

  -- The members that `nread` bytes hold.
  pub member : (i : ℕ) → 8 * i + 8 ≤ nread → get_or m.members i 0 ≡ get_or m'.members i 0
  member i le =
      sym (get_or-take (nread / 8) i m.members 0 (omega arith))
      ∙ ap (λ l. get_or l i 0) h.members
      ∙ get_or-take (nread / 8) i m'.members 0 (omega arith)

  pub all_members : sizeof_members m ≤ nread → m.members ≡ m'.members
  all_members le =
      sym (take_all (nread / 8) m.members (omega arith))
      ∙ h.members
      ∙ take_all (nread / 8) m'.members (omega (arith, h.size))

-- The same outcome, the read position of a refused message aside.
pub data Same : Outcome → Outcome → Type 0 where
  same : (o : Outcome) → Same o o
  both_bad :
      (r : Reading) (strit strit' : ℕ)
      → Same (bad_message (seek strit r)) (bad_message (seek strit' r))

pub if_eq {ℓ} :
    {A : Type ℓ} (b : Bool) (x y x' y' : A)
    → x ≡ x'
    → y ≡ y'
    → (if b then x else y) ≡ (if b then x' else y')
if_eq true x y x' y' h k = h
if_eq false x y x' y' h k = k
