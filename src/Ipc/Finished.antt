-- ===== src/Ipc/Finished.antt =====
-- src/actor.ypp: the finished message of a table, and of another value, at the end of
-- `ipc_actor_chan_send`.
use emilua.Common.{
  ℕ, ◌-◌, ◌≤◌, ◌<◌, replicate, length-replicate, ◌≡◌, refl, sym, ap, subst, ◌∙◌, inl, inr, true,
  false, List, [], ◌∷◌, ◌++◌, ◌==◌, arith, length, length-append, Bool-cases,
}
use emilua.Ipc.Values.{nil_word}
use emilua.Ipc.Send.{
  LuaValue, lua_boolean, lua_number, lua_string, lua_userdata, other, Pair, SendOp, Sending, ok,
  error, Setting, put_value, put_pairs, put_argument, new_op, finish_table, finish_flat,
  put_members, then_, value, table, put_member,
}
use emilua.Ipc.Written.{
  word, bytes, taken, words, all_bytes, all_taken, is_sendable, are_sendable, Written, AllWritten,
  put_value-Written, put_pairs-AllWritten, clash, ok_inj,
}

module _ (s : Setting) where
  pub metatable_refused :
      (pairs : List Pair) (op : SendOp) → put_argument s (table true pairs) ≡ ok op → ⊥
  unfolding put_argument
  metatable_refused pairs op e = clash s e

  -- The finished message of a table, and of another value behind the nil of a flat message.
  pub record TableWritten (pairs : List Pair) (op : SendOp) : Type 0 where
    pub members : op.members ≡ words pairs ++ replicate (s.max - length (words pairs)) nil_word
    pub strbuf : op.strbuf ≡ all_bytes pairs
    pub descriptors : length op.descriptors ≡ all_taken pairs
    pub sendable : are_sendable s pairs ≡ true
    pub fits : length (words pairs) ≤ s.max
    pub some_ : 0 < length (words pairs)

  finish_table-TableWritten :
      (pairs : List Pair) (op op' : SendOp)
      → AllWritten s pairs new_op op
      → finish_table s op ≡ ok op'
      → TableWritten pairs op'
  unfolding finish_table
  finish_table-TableWritten pairs op op' w e = elim (Bool-cases (length op.members == 0)) [
    | inl f ↦ absurd (clash s (rw f at e))
    | inr f ↦
        let whole : op' ≡ put_members (replicate (s.max - length op.members) nil_word) op =
          sym (ok_inj s (rw f at e)) in
        let n : length op.members ≡ length (words pairs) = ap length w.members in
        record {
          members =
              ap (λ o. o.members) whole
              ∙ ap (λ l. l ++ replicate (s.max - length op.members) nil_word) w.members
              ∙ ap (λ k. words pairs ++ replicate (s.max - k) nil_word) n;
          strbuf = ap (λ o. o.strbuf) whole ∙ w.strbuf;
          descriptors = omega (arith, ap (λ o. length o.descriptors) whole, w.descriptors);
          sendable = w.sendable;
          fits = omega (arith, n, w.fits (omega arith));
          some_ = ground (arith, n);
        }
  ]

  pub put_argument-TableWritten :
      (pairs : List Pair) (op : SendOp)
      → put_argument s (table false pairs) ≡ ok op
      → TableWritten pairs op
  unfolding put_argument
  put_argument-TableWritten pairs op e = go (put_pairs s pairs new_op) refl e
    where
      go :
          (o : Sending)
          → put_pairs s pairs new_op ≡ o
          → then_ o (finish_table s) ≡ ok op
          → TableWritten pairs op
      go (ok op1) k f =
          finish_table-TableWritten pairs op1 op (put_pairs-AllWritten s pairs new_op op1 k) f
      go (error c op1) k f = absurd (clash s f)

  pub record FlatWritten (v : LuaValue) (op : SendOp) : Type 0 where
    pub rest : List ℕ
    pub members : op.members ≡ nil_word ∷ word v ∷ rest
    pub strbuf : op.strbuf ≡ bytes v
    pub descriptors : length op.descriptors ≡ taken v
    pub sendable : is_sendable s v ≡ true
    pub room : 2 ≤ s.max → length op.members ≤ s.max
    pub whole : 0 < length (bytes v) → 2 ≤ s.max → length op.members ≡ s.max

  plain_flat :
      (v : LuaValue) (op : SendOp)
      → Written s v (put_member nil_word new_op) op
      → length (bytes v) ≡ 0
      → FlatWritten v op
  plain_flat v op w e = record {
    rest = [];
    members = w.members;
    strbuf = w.strbuf;
    descriptors = omega (arith, w.descriptors);
    sendable = w.sendable;
    room = λ le. omega (arith, ap length w.members);
    whole = λ h le. absurd (omega arith);
  }

  finish_flat-FlatWritten :
      (v : LuaValue) (op : SendOp)
      → Written s v (put_member nil_word new_op) op
      → FlatWritten v (finish_flat s v op)
  unfolding finish_flat
  finish_flat-FlatWritten (lua_string t) op w = record {
    rest = replicate (s.max - 2) 0;
    members = ap (λ l. l ++ replicate (s.max - 2) 0) w.members;
    strbuf = w.strbuf;
    descriptors = omega (arith, w.descriptors);
    sendable = w.sendable;
    room = λ le.
        let n : length op.members ≡ 2 = ap length w.members in
        omega (
          arith,
          n,
          length-append op.members (replicate (s.max - 2) 0),
          length-replicate {A = ℕ} (s.max - 2) 0,
        );
    whole = λ h le.
        let n : length op.members ≡ 2 = ap length w.members in
        omega (
          arith,
          n,
          length-append op.members (replicate (s.max - 2) 0),
          length-replicate {A = ℕ} (s.max - 2) 0,
        );
  }
  finish_flat-FlatWritten (lua_boolean b) op w = plain_flat (lua_boolean b) op w refl
  finish_flat-FlatWritten (lua_number b) op w = plain_flat (lua_number b) op w refl
  finish_flat-FlatWritten (lua_userdata b) op w = plain_flat (lua_userdata b) op w refl
  finish_flat-FlatWritten other op w = plain_flat other op w refl

  pub put_argument-FlatWritten :
      (v : LuaValue) (op : SendOp) → put_argument s (value v) ≡ ok op → FlatWritten v op
  unfolding put_argument
  put_argument-FlatWritten v op e = go (put_value s v (put_member nil_word new_op)) refl e
    where
      go :
          (o : Sending)
          → put_value s v (put_member nil_word new_op) ≡ o
          → then_ o (λ op. ok (finish_flat s v op)) ≡ ok op
          → FlatWritten v op
      go (ok op1) k f =
          subst (FlatWritten v) (ok_inj s f)
            (finish_flat-FlatWritten v op1 (put_value-Written s v _ op1 k))
      go (error c op1) k f = absurd (clash s f)
