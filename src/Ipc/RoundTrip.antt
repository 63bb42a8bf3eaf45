-- ===== src/Ipc/RoundTrip.antt =====
-- src/ipc_actor.cpp, src/actor.ypp: a message that an actor sends is the message that the other
-- receives.
use emilua.Common.{
  ℕ, suc, ◌+◌, ◌≤◌, ◌≡◌, refl, ap, subst, ◌∙◌, true, false, List, [], ◌∷◌, ◌++◌, ◌==◌, arith,
  length, get_or, drop, Bool-cases, inl, inr,
}
use emilua.Ipc.{Message, sizeof_members, nextstr, is_snan}
use emilua.Ipc.Values.{
  Scalar, boolean, number, string, file_descriptor, actor_address, Reading, ok, nil_word, seek,
  behind, take_fds, has_key, rawset,
}
use emilua.Ipc.Push.{
  Pushed, pushed, thrown, push_value, push_kind, push_nextstr, push_fd, push_member,
}
use emilua.Ipc.Send.{
  tx_chan, inbox, handle, foreign, LuaValue, lua_boolean, lua_number, lua_string, lua_userdata,
  other, Setting,
}
use emilua.Ipc.Written.{word, bytes, taken, is_sendable}
use emilua.Ipc.Strings.{chars-nextstr, drop-nextstr, behind-nextstr, nextstr-fits}

-- A number of Lua is never a signalling NaN.
abbrev pub IsNumber : LuaValue → Type 0
IsNumber (lua_number bits) = is_snan bits ≡ false
IsNumber _ = Unit

-- What the value `v` is for the receiver, which was handed the descriptors `fds`.
unfoldable pub carried : LuaValue → List ℕ → Scalar
carried (lua_boolean b) fds = boolean b
carried (lua_number bits) fds = number bits
carried (lua_string v) fds = string v
carried (lua_userdata (handle h)) fds = file_descriptor (get_or fds 0 0)
carried (lua_userdata _) fds = actor_address (get_or fds 0 0)
carried other fds = boolean false

pub word-not_nil : (v : LuaValue) → IsNumber v → (word v == nil_word) ≡ false
unfolding word is_snan
word-not_nil (lua_boolean true) h = refl
word-not_nil (lua_boolean false) h = refl
word-not_nil (lua_number bits) h = elim (Bool-cases (bits == nil_word)) [
  | inl e ↦
      let same_word : bits ≡ nil_word = ground arith in
      let plain : is_snan nil_word ≡ false = subst (λ w. is_snan w ≡ false) same_word h in cc
  | inr e ↦ e
]
word-not_nil (lua_string v) h = refl
word-not_nil (lua_userdata (tx_chan dest)) h = refl
word-not_nil (lua_userdata inbox) h = refl
word-not_nil (lua_userdata (handle k)) h = refl
word-not_nil (lua_userdata foreign) h = refl
word-not_nil other h = refl

-- The reading behind the value.
abbrev pub moved : LuaValue → Reading → Reading
moved v r = record {
  entries = r.entries;
  strit = r.strit + length (bytes v);
  fds = drop (taken v) r.fds;
  dropped = r.dropped;
}

abbrev at_strit : Scalar → Reading → ℕ → Pushed
at_strit v r strit = pushed v (seek strit r)

module _ (message : Message) (nread : ℕ) where
  push_number :
      (bits : ℕ) (r : Reading)
      → is_snan bits ≡ false
      → push_value message nread bits r ≡ pushed (number bits) (moved (lua_number bits) r)
  unfolding push_value
  push_number bits r n = rw n (ap (at_strit (number bits) r) (omega arith))

  push_fd_lem :
      (f : ℕ → Scalar) (r : Reading)
      → 1 ≤ length r.fds
      → push_fd message nread f r ≡ pushed (f (get_or r.fds 0 0)) (moved (lua_userdata inbox) r)
  unfolding push_fd
  push_fd_lem f r h =
      (elim r.fds
          as (λ fds.
            1 ≤ length fds
            → ◌≡◌ {A = Pushed}
                (elim fds [ [] ↦ thrown r | fd ∷ rest ↦ pushed (f fd) (take_fds rest r) ])
                (pushed (f (get_or fds 0 0)) (seek (r.strit + 0) (take_fds (drop 1 fds) r)))) [
                  | [] ↦ λ k. absurd (omega arith)
                  | fd ∷ rest ↦ λ k. ap (at_strit (f fd) (take_fds rest r)) (omega arith)
                ])
        h

  push_nextstr_lem :
      (v : List ℕ) (r : Reading) (rest : List ℕ)
      → drop r.strit message.strbuf ≡ bytes (lua_string v) ++ rest
      → sizeof_members message + r.strit + length (bytes (lua_string v)) ≤ nread
      → push_nextstr message nread r ≡ pushed (string v) (moved (lua_string v) r)
  unfolding push_nextstr
  push_nextstr_lem v r rest at fits =
      let e = nextstr-fits message r.strit v rest at nread fits in
      rw e (
        ap (λ t. pushed (string t) (seek (behind (nextstr message r.strit)) r))
          (chars-nextstr message r.strit v rest at)
        ∙ ap (at_strit (string v) r) (behind-nextstr message r.strit v rest at))

module _ (s : Setting) (message : Message) (nread : ℕ) where
  pub push_value-word :
      (v : LuaValue) (r : Reading) (rest : List ℕ)
      → IsNumber v
      → is_sendable s v ≡ true
      → drop r.strit message.strbuf ≡ bytes v ++ rest
      → sizeof_members message + r.strit + length (bytes v) ≤ nread
      → taken v ≤ length r.fds
      → push_value message nread (word v) r ≡ pushed (carried v r.fds) (moved v r)
  unfolding push_value push_kind word carried is_snan
  push_value-word (lua_boolean true) r rest n k at fits d =
      ap (at_strit (boolean true) r) (omega arith)
  push_value-word (lua_boolean false) r rest n k at fits d =
      ap (at_strit (boolean false) r) (omega arith)
  push_value-word (lua_number bits) r rest n k at fits d = push_number message nread bits r n
  push_value-word (lua_string v) r rest n k at fits d =
      push_nextstr_lem message nread v r rest at fits
  push_value-word (lua_userdata (tx_chan dest)) r rest n k at fits d =
      push_fd_lem message nread actor_address r d
  push_value-word (lua_userdata inbox) r rest n k at fits d =
      push_fd_lem message nread actor_address r d
  push_value-word (lua_userdata (handle h)) r rest n k at fits d =
      push_fd_lem message nread file_descriptor r d
  push_value-word (lua_userdata foreign) r rest n k at fits d = cc
  push_value-word other r rest n k at fits d = cc

  abbrev pub added : List ℕ → LuaValue → Reading → Reading
  added key v r = record {
    entries = r.entries ++ (key, carried v r.fds) ∷ [];
    strit = r.strit + suc (length key) + length (bytes v);
    fds = drop (taken v) r.fds;
    dropped = r.dropped;
  }

  pub push_member-word :
      (key : List ℕ) (v : LuaValue) (r : Reading) (rest : List ℕ)
      → IsNumber v
      → is_sendable s v ≡ true
      → has_key key r.entries ≡ false
      → drop r.strit message.strbuf ≡ (length key ∷ key) ++ (bytes v ++ rest)
      → sizeof_members message + r.strit + suc (length key) + length (bytes v) ≤ nread
      → taken v ≤ length r.fds
      → push_member message nread (word v) r ≡ ok (added key v r)
  unfolding push_member rawset
  push_member-word key v r rest n k fresh at fits d =
      let key_fits = nextstr-fits message r.strit key (bytes v ++ rest) at nread (omega arith) in
      let behind_key = behind-nextstr message r.strit key (bytes v ++ rest) at in
      let step =
        push_value-word v (seek (behind (nextstr message r.strit)) r) rest n k
          (drop-nextstr message r.strit key (bytes v ++ rest) at) (omega (arith, behind_key)) d in
      let chars_key = chars-nextstr message r.strit key (bytes v ++ rest) at in
      rw (key_fits, step, chars_key, fresh)
        (ap
          (λ t. ok (record {
            entries = r.entries ++ (key, carried v r.fds) ∷ [];
            strit = t + length (bytes v);
            fds = drop (taken v) r.fds;
            dropped = r.dropped;
          }))
          behind_key)
