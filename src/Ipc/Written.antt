-- ===== src/Ipc/Written.antt =====
-- src/actor.ypp: what `ipc_actor_chan_send` writes for a value and for a table, member by member.
use emilua.Common.{
  ℕ, ◌+◌, ◌≤◌, ◌≡◌, refl, sym, ap, subst, ◌≢◌, ◌∙◌, inl, inr, Bool, true, false, ◌&&◌, Option, none,
  some, List, [], ◌∷◌, ◌++◌, ◌==◌, leb, ltb, arith, length, length-append, get_or, append_assoc,
  append-nil, Bool-cases,
}
use emilua.Ipc.{tag}
use emilua.Ipc.Kind
use emilua.Ipc.Send.{
  Userdata, tx_chan, inbox, handle, foreign, LuaValue, lua_boolean, lua_number, lua_string,
  lua_userdata, other, Pair, SendOp, Sending, ok, error, Setting, Errc, put_address, put_userdata,
  put_value, put_pair, put_pairs, put_string, put_member, put_descriptor, called, socket, reference,
  system, device_or_resource_busy,
}

-- The word of a value, its bytes in `strbuf`, and the number of its descriptors.
unfoldable pub word : LuaValue → ℕ
word (lua_boolean true) = tag Kind.boolean_true
word (lua_boolean false) = tag Kind.boolean_false
word (lua_number bits) = bits
word (lua_string v) = tag Kind.string
word (lua_userdata (handle h)) = tag Kind.file_descriptor
word (lua_userdata _) = tag Kind.actor_address
word other = 0

abbrev pub bytes : LuaValue → List ℕ
bytes (lua_string v) = length v ∷ v
bytes _ = []

abbrev pub taken : LuaValue → ℕ
taken (lua_userdata u) = 1
taken _ = 0

abbrev pub is_some : Option ℕ → Bool
is_some none = false
is_some (some _) = true

-- The same of the pairs of a table, those with another key than a string left out.
abbrev pub words : List Pair → List ℕ
words [] = []
words ((none, v) ∷ rest) = words rest
words ((some key, v) ∷ rest) = word v ∷ words rest

abbrev pub all_bytes : List Pair → List ℕ
all_bytes [] = []
all_bytes ((none, v) ∷ rest) = all_bytes rest
all_bytes ((some key, v) ∷ rest) = (length key ∷ key) ++ (bytes v ++ all_bytes rest)

abbrev pub all_taken : List Pair → ℕ
all_taken [] = 0
all_taken ((none, v) ∷ rest) = all_taken rest
all_taken ((some key, v) ∷ rest) = taken v + all_taken rest

module _ (s : Setting) where
  abbrev pub is_sendable : LuaValue → Bool
  is_sendable (lua_string v) = leb (length v) 255
  is_sendable (lua_userdata (handle h)) = is_some (get_or s.handles h none)
  is_sendable (lua_userdata foreign) = false
  is_sendable other = false
  is_sendable _ = true

  pub record Written (v : LuaValue) (op op' : SendOp) : Type 0 where
    pub members : op'.members ≡ op.members ++ word v ∷ []
    pub strbuf : op'.strbuf ≡ op.strbuf ++ bytes v
    pub descriptors : length op'.descriptors ≡ length op.descriptors + taken v
    pub sendable : is_sendable v ≡ true

  pub ok_inj : {op op' : SendOp} → ok op ≡ ok op' → op ≡ op'
  ok_inj k = cc

  pub clash : {e : Errc} {op op' : SendOp} → error e op ≡ ok op' → ⊥
  clash k = cc

  abbrev Writes : LuaValue → SendOp → Sending → Type 0
  Writes v op (ok op') = Written v op op'
  Writes v op (error e op') = Unit

  put_address-Writes :
      (u : Userdata) (f : ℕ → SendOp → SendOp) (op : SendOp)
      → ((fd : ℕ) (op : SendOp) → (f fd op).members ≡ op.members)
      → ((fd : ℕ) (op : SendOp) → (f fd op).strbuf ≡ op.strbuf)
      → ((fd : ℕ) (op : SendOp) → (f fd op).descriptors ≡ op.descriptors)
      → word (lua_userdata u) ≡ tag Kind.actor_address
      → is_sendable (lua_userdata u) ≡ true
      → Writes (lua_userdata u) op (put_address s f op)
  unfolding put_address
  put_address-Writes u f op m b d w k =
      elim (s.socketpair op.calls)
        as (λ o. Writes (lua_userdata u) op (elim o [
          | inl errno ↦ error (system errno) (called op)
          | inr (rx, tx) ↦
              ok (
                put_descriptor (socket tx) (put_member (tag Kind.actor_address) (f rx (called op))))
        ])) [
          | inl errno ↦ tt
          | inr (rx, tx) ↦ record {
            members = rw (m rx _, w) refl;
            strbuf = rw (b rx _) (sym (append-nil op.strbuf));
            descriptors = rw (d rx _) (length-append op.descriptors (_ ∷ []));
            sendable = k;
          }
        ]

  put_handle-Writes :
      (h : ℕ) (op : SendOp) (o : Option ℕ)
      → get_or s.handles h none ≡ o
      → Writes (lua_userdata (handle h)) op (elim o [
        | none ↦ error device_or_resource_busy op
        | some _ ↦ ok (put_descriptor (reference h) (put_member (tag Kind.file_descriptor) op))
      ])
  unfolding word
  put_handle-Writes h op none e = tt
  put_handle-Writes h op (some fd) e = record {
    members = refl;
    strbuf = sym (append-nil op.strbuf);
    descriptors = length-append op.descriptors (_ ∷ []);
    sendable = ap is_some e;
  }

  put_value-Writes : (v : LuaValue) (op : SendOp) → Writes v op (put_value s v op)
  unfolding put_value put_userdata word
  put_value-Writes (lua_boolean true) op = record {
    members = refl;
    strbuf = sym (append-nil op.strbuf);
    descriptors = omega arith;
    sendable = refl;
  }
  put_value-Writes (lua_boolean false) op = record {
    members = refl;
    strbuf = sym (append-nil op.strbuf);
    descriptors = omega arith;
    sendable = refl;
  }
  put_value-Writes (lua_number bits) op = record {
    members = refl;
    strbuf = sym (append-nil op.strbuf);
    descriptors = omega arith;
    sendable = refl;
  }
  put_value-Writes (lua_string v) op = elim (Bool-cases (ltb 255 (length v))) [
    | inl e ↦ rw e tt
    | inr e ↦ rw e (record {
      members = refl;
      strbuf = refl;
      descriptors = omega arith;
      sendable = ground arith;
    })
  ]
  put_value-Writes (lua_userdata (tx_chan dest)) op =
      put_address-Writes (tx_chan dest) _ op (λ fd op. refl) (λ fd op. refl) (λ fd op. refl) refl
        refl
  put_value-Writes (lua_userdata inbox) op =
      put_address-Writes inbox _ op (λ fd op. refl) (λ fd op. refl) (λ fd op. refl) refl refl
  put_value-Writes (lua_userdata (handle h)) op = put_handle-Writes h op _ refl
  put_value-Writes (lua_userdata foreign) op = tt
  put_value-Writes other op = tt

  pub put_value-Written :
      (v : LuaValue) (op op' : SendOp) → put_value s v op ≡ ok op' → Written v op op'
  put_value-Written v op op' e = subst (Writes v op) e (put_value-Writes v op)

  abbrev pub are_sendable : List Pair → Bool
  are_sendable [] = true
  are_sendable ((none, v) ∷ rest) = are_sendable rest
  are_sendable ((some key, v) ∷ rest) = leb (length key) 255 && is_sendable v && are_sendable rest

  pub put_pair-Written :
      (key : List ℕ) (v : LuaValue) (op op' : SendOp)
      → put_pair s key v op ≡ ok op'
      → (leb (length key) 255 ≡ true)
        × (length op.members ≢ s.max)
        × Written v (put_string key op) op'
  unfolding put_pair
  put_pair-Written key v op op' e = elim (Bool-cases (length op.members == s.max)) [
    | inl f ↦ absurd (clash (rw f at e))
    | inr f ↦ elim (Bool-cases (ltb 255 (length key))) [
      | inl g ↦ absurd (clash (rw (f, g) at e))
      | inr g ↦ (ground arith, ground arith, put_value-Written v _ op' (rw (f, g) at e))
    ]
  ]

  pub record AllWritten (pairs : List Pair) (op op' : SendOp) : Type 0 where
    pub members : op'.members ≡ op.members ++ words pairs
    pub strbuf : op'.strbuf ≡ op.strbuf ++ all_bytes pairs
    pub descriptors : length op'.descriptors ≡ length op.descriptors + all_taken pairs
    pub sendable : are_sendable pairs ≡ true
    pub fits : length op.members ≤ s.max → length op'.members ≤ s.max

  abbrev AllWrites : List Pair → SendOp → Sending → Type 0
  AllWrites pairs op (ok op') = AllWritten pairs op op'
  AllWrites pairs op (error e op') = Unit

  module _ (key : List ℕ) (v : LuaValue) (rest : List Pair) (op : SendOp) where
    AllWritten-cons :
        (op1 op2 : SendOp)
        → put_pair s key v op ≡ ok op1
        → AllWritten rest op1 op2
        → AllWritten ((some key, v) ∷ rest) op op2
    AllWritten-cons op1 op2 e h =
        let (short, room, w) = put_pair-Written key v op op1 e in
        record {
          members =
              h.members
              ∙ ap (λ l. l ++ words rest) w.members
              ∙ append_assoc op.members (word v ∷ []) (words rest);
          strbuf =
              h.strbuf
              ∙ ap (λ l. l ++ all_bytes rest) w.strbuf
              ∙ append_assoc (op.strbuf ++ length key ∷ key) (bytes v) (all_bytes rest)
              ∙ append_assoc op.strbuf (length key ∷ key) (bytes v ++ all_bytes rest);
          descriptors = omega (arith, h.descriptors, w.descriptors);
          sendable = rw (short, w.sendable, h.sendable) refl;
          fits = λ le.
              h.fits
                (omega (arith, room, ap length w.members, length-append op.members (word v ∷ [])));
        }

    AllWrites-cons :
        (o : Sending)
        → put_pair s key v op ≡ o
        → ((op1 : SendOp) → AllWrites rest op1 (put_pairs s rest op1))
        → AllWrites
            ((some key, v) ∷ rest)
            op
            (elim o [ ok op1 ↦ put_pairs s rest op1 | error e op1 ↦ error e op1 ])
    AllWrites-cons (error e op1) k ih = tt
    AllWrites-cons (ok op1) k ih = AllWrites-ok (put_pairs s rest op1) (ih op1)
      where
        AllWrites-ok : (o : Sending) → AllWrites rest op1 o → AllWrites ((some key, v) ∷ rest) op o
        AllWrites-ok (ok op2) h = AllWritten-cons op1 op2 k h
        AllWrites-ok (error e op2) h = tt

  put_pairs-AllWrites :
      (pairs : List Pair) (op : SendOp) → AllWrites pairs op (put_pairs s pairs op)
  unfolding put_pairs
  put_pairs-AllWrites [] op = record {
    members = sym (append-nil op.members);
    strbuf = sym (append-nil op.strbuf);
    descriptors = omega arith;
    sendable = refl;
    fits = λ le. le;
  }
  put_pairs-AllWrites ((none, v) ∷ rest) op = go (put_pairs s rest op) (put_pairs-AllWrites rest op)
    where
      go : (o : Sending) → AllWrites rest op o → AllWrites ((none, v) ∷ rest) op o
      go (error e op') h = tt
      go (ok op') h = record {
        members = h.members;
        strbuf = h.strbuf;
        descriptors = h.descriptors;
        sendable = h.sendable;
        fits = h.fits;
      }
  put_pairs-AllWrites ((some key, v) ∷ rest) op =
      AllWrites-cons key v rest op _ refl (put_pairs-AllWrites rest)

  pub put_pairs-AllWritten :
      (pairs : List Pair) (op op' : SendOp)
      → put_pairs s pairs op ≡ ok op'
      → AllWritten pairs op op'
  put_pairs-AllWritten pairs op op' e = subst (AllWrites pairs op) e (put_pairs-AllWrites pairs op)
