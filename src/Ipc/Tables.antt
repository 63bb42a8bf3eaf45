-- ===== src/Ipc/Tables.antt =====
-- src/ipc_actor.cpp, src/actor.ypp: the members of a table that an actor sends are the members that
-- the other receives.
use emilua.Common.{
  contrary, ℕ, zero, suc, ◌+◌, ◌-◌, ◌≤◌, ◌≡◌, refl, sym, ap, ◌∙◌, Bool, true, false, ◌&&◌, none,
  some, List, [], ◌∷◌, ◌++◌, if◌then◌else◌, ◌==◌, arith, length, drop, replicate, leb, append_assoc,
  append-nil, length-append, length-drop, drop-drop, drop-append_ge, Bool-cases, inl, inr,
}
use emilua.Ipc.{Message, sizeof_members}
use emilua.Ipc.Values.{Scalar, Table, Reading, Outcome, ok, bad_message, nil_word, has_key, same}
use emilua.Ipc.Push.{push_member, push_members}
use emilua.Ipc.Send.{Pair, Setting}
use emilua.Ipc.Written.{word, bytes, taken, words, all_bytes, all_taken, are_sendable}
use emilua.Ipc.RoundTrip.{IsNumber, carried, word-not_nil, added, push_member-word}

abbrev pub AreNumbers : List Pair → Type 0
AreNumbers [] = Unit
AreNumbers ((none, v) ∷ rest) = AreNumbers rest
AreNumbers ((some key, v) ∷ rest) = IsNumber v × AreNumbers rest

-- A table of Lua has no key twice.
abbrev pub has_pair : List ℕ → List Pair → Bool
has_pair key [] = false
has_pair key ((none, v) ∷ rest) = has_pair key rest
has_pair key ((some k, v) ∷ rest) = if same k key then true else has_pair key rest

abbrev pub IsTable : List Pair → Type 0
IsTable [] = Unit
IsTable ((none, v) ∷ rest) = IsTable rest
IsTable ((some key, v) ∷ rest) = (has_pair key rest ≡ false) × IsTable rest

unfoldable pub carried_pairs : List Pair → List ℕ → Table
carried_pairs [] fds = []
carried_pairs ((none, v) ∷ rest) fds = carried_pairs rest fds
carried_pairs ((some key, v) ∷ rest) fds =
    (key, carried v fds) ∷ carried_pairs rest (drop (taken v) fds)

abbrev pub Apart : List Pair → Table → Type 0
Apart [] t = Unit
Apart ((none, v) ∷ rest) t = Apart rest t
Apart ((some key, v) ∷ rest) t = (has_key key t ≡ false) × Apart rest t

has_key-snoc :
    (k key : List ℕ) (v : Scalar) (t : Table)
    → has_key k t ≡ false
    → same k key ≡ false
    → has_key k (t ++ (key, v) ∷ []) ≡ false
has_key-snoc k key v [] h e = rw e refl
has_key-snoc k key v ((k', s) ∷ t) h e = elim (Bool-cases (same k k')) [
  | inl f ↦ absurd (contrary (rw f at h))
  | inr f ↦ rw f (has_key-snoc k key v t (rw f at h) e)
]

Apart-snoc :
    (pairs : List Pair) (key : List ℕ) (v : Scalar) (t : Table)
    → Apart pairs t
    → has_pair key pairs ≡ false
    → Apart pairs (t ++ (key, v) ∷ [])
Apart-snoc [] key v t a h = tt
Apart-snoc ((none, w) ∷ rest) key v t a h = Apart-snoc rest key v t a h
Apart-snoc ((some k, w) ∷ rest) key v t (a, b) h = elim (Bool-cases (same k key)) [
  | inl f ↦ absurd (contrary (rw f at h))
  | inr f ↦ (has_key-snoc k key v t a f, Apart-snoc rest key v t b (rw f at h))
]

pub Apart-nil : (pairs : List Pair) → Apart pairs []
Apart-nil [] = tt
Apart-nil ((none, v) ∷ rest) = Apart-nil rest
Apart-nil ((some key, v) ∷ rest) = (refl, Apart-nil rest)

and_parts : (a b c : Bool) → (a && b && c) ≡ true → (b ≡ true) × (c ≡ true)
and_parts true true true e = (refl, refl)
and_parts true true false e = (refl, e)
and_parts true false c e = absurd (contrary (sym e))
and_parts false b c e = absurd (contrary (sym e))

drop-past : (n p : ℕ) (l xs ys : List ℕ) → length xs ≡ n → drop p l ≡ xs ++ ys → drop (p + n) l ≡ ys
drop-past n p l xs ys e h =
    let none_left : n - length xs ≡ 0 = omega arith in
    sym (drop-drop n p l)
    ∙ ap (λ t. drop n t) h
    ∙ drop-append_ge n xs ys (omega arith)
    ∙ ap (λ i. drop i ys) none_left

abbrev finished : Reading → Table → ℕ → List ℕ → Outcome
finished r entries strit fds =
    ok (record { entries = entries; strit = strit; fds = fds; dropped = r.dropped })

module _ (s : Setting) (message : Message) (nread : ℕ) where
  push_members-nil :
      (k : ℕ) (r : Reading) → push_members message nread (replicate k nil_word) r ≡ ok r
  unfolding push_members
  push_members-nil zero r = refl
  push_members-nil (suc k) r = refl

  push_members-step :
      (w : ℕ) (rest : List ℕ) (r r' : Reading)
      → (w == nil_word) ≡ false
      → push_member message nread w r ≡ ok r'
      → push_members message nread (w ∷ rest) r ≡ push_members message nread rest r'
  unfolding push_members
  push_members-step w rest r r' e f =
      (elim (w == nil_word)
          as (λ b.
            b ≡ false
            → ◌≡◌ {A = Outcome}
                (elim b [
                  | true ↦ ok r
                  | false ↦ elim (push_member message nread w r) [
                    | ok u ↦ push_members message nread rest u
                    | bad_message u ↦ bad_message u
                  ]
                ])
                (push_members message nread rest r')) [
                  | true ↦ λ k. absurd (contrary k)
                  | false ↦ λ k.
                      ap
                        (λ o. elim o [
                          | ok u ↦ push_members message nread rest u
                          | bad_message u ↦ bad_message u
                        ])
                        f
                ])
        e

  pub push_members-words :
      (pairs : List Pair) (k : ℕ) (r : Reading) (rest : List ℕ)
      → AreNumbers pairs
      → are_sendable s pairs ≡ true
      → IsTable pairs
      → Apart pairs r.entries
      → drop r.strit message.strbuf ≡ all_bytes pairs ++ rest
      → sizeof_members message + r.strit + length (all_bytes pairs) ≤ nread
      → all_taken pairs ≤ length r.fds
      → push_members message nread (words pairs ++ replicate k nil_word) r
        ≡ ok (record {
          entries = r.entries ++ carried_pairs pairs r.fds;
          strit = r.strit + length (all_bytes pairs);
          fds = drop (all_taken pairs) r.fds;
          dropped = r.dropped;
        })
  unfolding push_members carried_pairs
  push_members-words [] k r rest n ok_ t a at fits d =
      push_members-nil k r
      ∙ ap (λ t. finished r t r.strit r.fds) (sym (append-nil r.entries))
      ∙ ap (λ p. finished r (r.entries ++ []) p r.fds) (omega arith)
  push_members-words ((none, v) ∷ pairs) k r rest n ok_ t a at fits d =
      push_members-words pairs k r rest n ok_ t a at fits d
  push_members-words ((some key, v) ∷ pairs) k r rest (n, ns) ok_ (t, ts) (a, as_) at fits d =
      let (v_ok, rest_ok) = and_parts (leb (length key) 255) _ _ ok_ in
      let here : drop r.strit message.strbuf
          ≡ (length key ∷ key) ++ (bytes v ++ (all_bytes pairs ++ rest)) =
        at
        ∙ append_assoc (length key ∷ key) (bytes v ++ all_bytes pairs) rest
        ∙ ap (λ l. (length key ∷ key) ++ l) (append_assoc (bytes v) (all_bytes pairs) rest) in
      let len : length (key ++ (bytes v ++ all_bytes pairs))
          ≡ length key + (length (bytes v) + length (all_bytes pairs)) =
        length-append key (bytes v ++ all_bytes pairs)
        ∙ ap (λ n. length key + n) (length-append (bytes v) (all_bytes pairs)) in
      let last : r.strit + suc (length key) + length (bytes v) + length (all_bytes pairs)
          ≡ r.strit + suc (length (key ++ (bytes v ++ all_bytes pairs))) =
        omega (arith, len) in
      let whole : Table = r.entries ++ carried_pairs ((some key, v) ∷ pairs) r.fds in
      let first =
        push_member-word s message nread key v r (all_bytes pairs ++ rest) n v_ok a here
          (omega (arith, len)) (omega arith) in
      let others =
        push_members-words pairs k (added s message nread key v r) rest ns rest_ok ts
          (Apart-snoc pairs key _ r.entries as_ t)
          (ap (λ i. drop i message.strbuf) (omega arith)
            ∙ drop-past (length (bytes v)) (r.strit + suc (length key)) message.strbuf (bytes v)
                (all_bytes pairs ++ rest) refl
                (drop-past (suc (length key)) r.strit message.strbuf (length key ∷ key)
                  (bytes v ++ (all_bytes pairs ++ rest)) refl here))
          (omega (arith, len)) (omega (arith, length-drop (taken v) r.fds)) in
      push_members-step (word v) (words pairs ++ replicate k nil_word) r _ (word-not_nil v n) first
      ∙ others
      ∙ ap
          (λ l.
            finished r l (r.strit + suc (length key) + length (bytes v) + length (all_bytes pairs))
              (drop (all_taken pairs) (drop (taken v) r.fds)))
          (append_assoc r.entries ((key, carried v r.fds) ∷ []) _)
      ∙ ap (λ p. finished r whole p (drop (all_taken pairs) (drop (taken v) r.fds))) last
      ∙ ap (finished r whole _) (drop-drop (all_taken pairs) (taken v) r.fds)
