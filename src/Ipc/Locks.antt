-- ===== src/Ipc/Locks.antt =====
-- src/actor.ypp: `ipc_actor_send_op::on_wait`, which hands the message to the socket and gives the
-- descriptors back that the message had borrowed from the sender's handles.
use emilua.Common.{
  ℕ, suc, ◌+◌, ◌<◌, ◌≡◌, ◌≢◌, refl, sym, ap, ◌∙◌, inl, inr, Option, none, some, List, [], ◌∷◌,
  if◌then◌else◌, ◌==◌, ltb, arith, length, length-set, get_or, set, hit, Bool-cases,
  get_or-set_self, get_or-set_ne,
}
use emilua.Ipc.Send.{Descriptor, socket, reference, sockets, take_descriptors, empty_handles}

-- The values go back to the handles, in the order of the descriptors.
unfoldable pub give_back : List Descriptor → List (Option ℕ) → List (Option ℕ) → List (Option ℕ)
give_back [] values handles = handles
give_back (d ∷ rest) [] handles = handles
give_back (socket fd ∷ rest) (_ ∷ values) handles = give_back rest values handles
give_back (reference h ∷ rest) (value ∷ values) handles =
    give_back rest values (set handles h value)

-- What the wait for the socket and `sendmsg` report.
pub data SendEvent : Type 0 where
  vm_closed : SendEvent
  wait_failed : (ec : ℕ) → SendEvent
  again : SendEvent
  send_failed : (errno : ℕ) → SendEvent
  written : SendEvent

-- The operation waits again, or is over: the handles, the descriptors closed, and whether the fiber
-- is resumed, with an error or none.
pub data SendDone : Type 0 where
  waits : SendDone
  over : (handles : List (Option ℕ)) (closed : List ℕ) (resumed : Option (Option ℕ)) → SendDone

abbrev pub all_values : List (Option ℕ) → List ℕ
all_values [] = []
all_values (none ∷ rest) = all_values rest
all_values (some fd ∷ rest) = fd ∷ all_values rest

unfoldable pub on_writable :
    SendEvent → List Descriptor → List (Option ℕ) → List (Option ℕ) → SendDone
on_writable vm_closed ds values handles = over handles (all_values values) none
on_writable (wait_failed ec) ds values handles =
    over (give_back ds values handles) (sockets ds) (some (some ec))
on_writable again ds values handles = waits
on_writable (send_failed errno) ds values handles =
    over (give_back ds values handles) (sockets ds) (some (some errno))
on_writable written ds values handles = over (give_back ds values handles) (sockets ds) (some none)

-- How often a message names a handle.
unfoldable pub uses_of : ℕ → List Descriptor → ℕ
uses_of h [] = 0
uses_of h (socket fd ∷ rest) = uses_of h rest
uses_of h (reference g ∷ rest) = hit h g + uses_of h rest

length-empty :
    (ds : List Descriptor) (handles : List (Option ℕ))
    → length (empty_handles ds handles) ≡ length handles
unfolding empty_handles
length-empty [] handles = refl
length-empty (socket fd ∷ rest) handles = length-empty rest handles
length-empty (reference h ∷ rest) handles =
    length-empty rest (set handles h none) ∙ length-set handles h none

module _ (h : ℕ) where
  abbrev pub at_handle : List (Option ℕ) → Option ℕ
  at_handle handles = get_or handles h none

  -- A handle that is named twice is empty when its value is taken for the second time.
  abbrev pub taken_value : ℕ → Option ℕ → Option ℕ → Option ℕ
  taken_value n kept v = if n == 0 then kept else (if n == 1 then v else none)

  taken_once : (n m : ℕ) (x y : Option ℕ) → m ≡ suc n → taken_value n y none ≡ taken_value m x y
  taken_once n m x y e = ground arith

  give_back-handle :
      (ds : List Descriptor) (handles now : List (Option ℕ))
      → h < length handles
      → h < length now
      → at_handle (give_back ds (take_descriptors ds handles) now)
        ≡ taken_value (uses_of h ds) (at_handle now) (at_handle handles)
  unfolding give_back take_descriptors uses_of
  give_back-handle [] handles now lt lt' = refl
  give_back-handle (socket fd ∷ rest) handles now lt lt' = give_back-handle rest handles now lt lt'
  give_back-handle (reference g ∷ rest) handles now lt lt' =
      let v : Option ℕ = get_or handles g none in
      let ih =
        give_back-handle rest (set handles g none) (set now g v)
          (omega (arith, length-set handles g none)) (omega (arith, length-set now g v)) in
      elim (Bool-cases (g == h)) [
        | inl e ↦
            let same : h ≡ g = ground arith in
            let new : at_handle (set now g v) ≡ at_handle handles =
              ap (λ i. get_or (set now g v) i none) same
              ∙ get_or-set_self now g v none (omega (arith, same))
              ∙ ap (λ i. get_or handles i none) (sym same) in
            let gone : at_handle (set handles g none) ≡ none =
              ap (λ i. get_or (set handles g none) i none) same
              ∙ get_or-set_self handles g none none (omega (arith, same)) in
            ih
            ∙ ap (λ x. taken_value (uses_of h rest) x (at_handle (set handles g none))) new
            ∙ ap (taken_value (uses_of h rest) (at_handle handles)) gone
            ∙ taken_once (uses_of h rest) (hit h g + uses_of h rest) (at_handle now)
                (at_handle handles) (ground arith)
        | inr e ↦
            let other : g ≢ h = ground arith in
            let none_ : uses_of h rest ≡ hit h g + uses_of h rest = ground arith in
            ih
            ∙ ap (λ x. taken_value (uses_of h rest) x (at_handle (set handles g none)))
                (get_or-set_ne now g h v none other)
            ∙ ap (taken_value (uses_of h rest) (at_handle now))
                (get_or-set_ne handles g h none none other)
            ∙ ap (λ n. taken_value n (at_handle now) (at_handle handles)) none_
      ]

  emptied :
      (n m : ℕ) (x y : Option ℕ)
      → x ≡ none
      → m ≡ suc n
      → (if n == 0 then x else none) ≡ (if m == 0 then y else none)
  emptied n m x y e f = ground (arith, e)

  given :
      (n : ℕ) (x y : Option ℕ)
      → x ≡ (if n == 0 then y else none)
      → taken_value n x y ≡ (if ltb 1 n then none else y)
  given n x y e = rw e (ground arith)

  empty_handles-handle :
      (ds : List Descriptor) (handles : List (Option ℕ))
      → h < length handles
      → at_handle (empty_handles ds handles)
        ≡ (if uses_of h ds == 0 then at_handle handles else none)
  unfolding empty_handles uses_of
  empty_handles-handle [] handles lt = refl
  empty_handles-handle (socket fd ∷ rest) handles lt = empty_handles-handle rest handles lt
  empty_handles-handle (reference g ∷ rest) handles lt =
      let ih =
        empty_handles-handle rest (set handles g none) (omega (arith, length-set handles g none)) in
      elim (Bool-cases (g == h)) [
        | inl e ↦
            let same : h ≡ g = ground arith in
            let gone : at_handle (set handles g none) ≡ none =
              ap (λ i. get_or (set handles g none) i none) same
              ∙ get_or-set_self handles g none none (omega (arith, same)) in
            ih
            ∙ emptied (uses_of h rest) (hit h g + uses_of h rest) _ (at_handle handles) gone
                (ground arith)
        | inr e ↦
            let other : g ≢ h = ground arith in
            let none_ : uses_of h rest ≡ hit h g + uses_of h rest = ground arith in
            ih
            ∙ ap (λ x. if uses_of h rest == 0 then x else none)
                (get_or-set_ne handles g h none none other)
            ∙ ap (λ n. if n == 0 then at_handle handles else none) none_
      ]

  give_back_lem :
      (ds : List Descriptor) (handles : List (Option ℕ))
      → h < length handles
      → (at_handle (empty_handles ds handles)
          ≡ (if uses_of h ds == 0 then at_handle handles else none))
        × (at_handle (give_back ds (take_descriptors ds handles) (empty_handles ds handles))
            ≡ (if ltb 1 (uses_of h ds) then none else at_handle handles))
  give_back_lem ds handles lt = (
    empty_handles-handle ds handles lt,
    give_back-handle ds handles (empty_handles ds handles) lt
          (omega (arith, lt, length-empty ds handles))
        ∙ given (uses_of h ds) _ (at_handle handles) (empty_handles-handle ds handles lt),
  )

  -- The events after which the fiber goes on.
  abbrev pub Resumes : SendEvent → Type 0
  Resumes vm_closed = ⊥
  Resumes again = ⊥
  Resumes _ = Unit

  -- While a message is sent, each handle of the sender that the message names is empty and the
  -- others are as they were. When the wait or `sendmsg` fails, or the message was written, exactly
  -- the sockets made for the message are closed, the fiber is resumed, and each handle holds what
  -- it held, but for a handle that the message names more than once: that one stays empty.
  pub on_writable_lem :
      (event : SendEvent) (ds : List Descriptor) (handles : List (Option ℕ))
      → Resumes event
      → h < length handles
      → (at_handle (empty_handles ds handles)
          ≡ (if uses_of h ds == 0 then at_handle handles else none))
        × (final : List (Option ℕ)) × (r : Option ℕ) × (on_writable event ds
              (take_descriptors ds handles)
              (empty_handles ds handles)
            ≡ over final (sockets ds) (some r))
        × (at_handle final ≡ (if ltb 1 (uses_of h ds) then none else at_handle handles))
  unfolding on_writable
  on_writable_lem vm_closed ds handles k lt = absurd k
  on_writable_lem again ds handles k lt = absurd k
  on_writable_lem (wait_failed ec) ds handles k lt =
      let (e, f) = give_back_lem ds handles lt in (e, _, some ec, refl, f)
  on_writable_lem (send_failed ec) ds handles k lt =
      let (e, f) = give_back_lem ds handles lt in (e, _, some ec, refl, f)
  on_writable_lem written ds handles k lt =
      let (e, f) = give_back_lem ds handles lt in (e, _, none, refl, f)
