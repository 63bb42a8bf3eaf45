-- ===== src/Future/Once.antt =====
-- src/future.cpp: a promise is satisfied once, every waiter is woken with the value, and the value
-- is there for later calls.
use emilua.Common.{
  ℕ, ◌≡◌, ◌≢◌, refl, sym, ap, subst, ◌∙◌, none, some, List, [], ◌∷◌, ◌++◌, get_elem?, set,
  get_elem?-set_found, get_elem?-set_ne, map, if◌then◌else◌, append_assoc, append-nil, false,
}
use emilua.Runtime.{
  arg, promise_already_satisfied, broken_promise, Value, nil, userdata, failure, FutureState, empty,
  broken, value_ready, error_ready, SharedState, Object, shared_state, promise, future, Post, Vm,
  after, done, raised, post, post_all, check_userdata, unsafe_can_suspend, M, fail, return,
}
use emilua.Runtime.Checks.{check_userdata_ok, bind_done}
use emilua.Future.{
  promise_kind, future_kind, shared, satisfy, promise_set_value, promise_set_error, promise_mt_gc,
  get, get_from, is_nil,
}

abbrev pub wake_with : List Value → ℕ → Post
wake_with args f = record { fiber = f; arguments = args; skip_clear_interrupter = false }

-- The posts stand behind the strand, in the order of the waiters.
post_all_lem :
    (args : List Value) (fs : List ℕ) (v : Vm)
    → post_all args fs v ≡ record v { strand = v.strand ++ map (wake_with args) fs }
unfolding post_all
post_all_lem args [] v = rw (append-nil v.strand) refl
post_all_lem args (f ∷ fs) v =
    post_all_lem args fs (post (wake_with args f) v)
    ∙ ap (λ s. record v { strand = s })
        (append_assoc v.strand (wake_with args f ∷ []) (map (wake_with args) fs))

shared_lem :
    (s : ℕ) (state : SharedState) (v : Vm)
    → get_elem? v.objects s ≡ some (shared_state state)
    → shared s v ≡ done state v
unfolding shared
shared_lem s state v e = rw (e, shared) refl

-- The state that a satisfied promise leaves.
abbrev pub satisfied : FutureState → Value → List Value → ℕ → List ℕ → Vm → Vm
satisfied ready value args s waiters v = record v {
  objects =
      set v.objects s
        (shared_state (record { waiters = []; state = ready; value_ref = some value }));
  strand = v.strand ++ map (wake_with args) waiters;
}

module _ (v : Vm) (p s : ℕ) (is_promise : get_elem? v.objects p ≡ some (promise s)) where
  promise_found : check_userdata promise_kind 1 1 (userdata p) v ≡ done (p, s) v
  unfolding promise_kind
  promise_found = check_userdata_ok promise_kind 1 1 p s v is_promise refl

  set_value_first :
      (state : SharedState) (value : Value)
      → get_elem? v.objects s ≡ some (shared_state state)
      → state.state ≡ empty
      → promise_set_value (userdata p) value v
        ≡ done tt (satisfied value_ready value (nil ∷ value ∷ []) s state.waiters v)
  unfolding promise_set_value satisfy
  set_value_first state value at is_empty =
      bind_done (check_userdata promise_kind 1 1 (userdata p)) _ promise_found
      ∙ bind_done (shared s) _ (shared_lem s state v at)
      ∙ rw (is_empty, post_all_lem (nil ∷ value ∷ []) state.waiters v) refl

  set_value_again :
      (state : SharedState) (value : Value)
      → get_elem? v.objects s ≡ some (shared_state state)
      → state.state ≢ empty
      → promise_set_value (userdata p) value v ≡ raised (failure promise_already_satisfied) v
  unfolding promise_set_value satisfy
  set_value_again state value at not_empty =
      bind_done (check_userdata promise_kind 1 1 (userdata p)) _ promise_found
      ∙ bind_done (shared s) _ (shared_lem s state v at)
      ∙ go state.state refl
    where
      go :
          (q : FutureState)
          → state.state ≡ q
          → satisfy value_ready value (nil ∷ value ∷ []) s state v
            ≡ raised (failure promise_already_satisfied) v
      go empty e = absurd (not_empty e)
      go broken e = rw e refl
      go value_ready e = rw e refl
      go error_ready e = rw e refl

  set_error_first :
      (state : SharedState) (value : Value)
      → get_elem? v.objects s ≡ some (shared_state state)
      → state.state ≡ empty
      → is_nil value ≡ false
      → promise_set_error (userdata p) value v
        ≡ done tt (satisfied error_ready value (value ∷ []) s state.waiters v)
  unfolding promise_set_error satisfy
  set_error_first state value at is_empty given =
      let test : M (Unit {0}) = if is_nil value then fail (arg 2) else return tt in
      let passes : test v ≡ done tt v = ap (λ b. (if b then fail (arg 2) else return tt) v) given in
      bind_done (check_userdata promise_kind 1 1 (userdata p)) _ promise_found
      ∙ bind_done test _ passes
      ∙ bind_done (shared s) _ (shared_lem s state v at)
      ∙ rw (is_empty, post_all_lem (value ∷ []) state.waiters v) refl

-- `get` on a state that is satisfied.
module _ (v : Vm) (f s : ℕ) (is_future : get_elem? v.objects f ≡ some (future s))
    (may : unsafe_can_suspend v ≡ done tt v) where
  get_first :
      (state : SharedState)
      → get_elem? v.objects s ≡ some (shared_state state)
      → get (userdata f) v ≡ get_from s state v
  unfolding get future_kind
  get_first state at =
      bind_done (check_userdata future_kind 1 1 (userdata f)) _
        (check_userdata_ok future_kind 1 1 f s v is_future refl)
      ∙ bind_done unsafe_can_suspend _ may
      ∙ bind_done (shared s) _ (shared_lem s state v at)

-- The promise and the future of one shared state that is still empty.
pub record Pair (v : Vm) (p f s : ℕ) (waiters : List ℕ) : Type 0 where
  pub is_promise : get_elem? v.objects p ≡ some (promise s)
  pub is_future : get_elem? v.objects f ≡ some (future s)
  pub is_empty :
      get_elem? v.objects s
      ≡ some (shared_state (record { waiters = waiters; state = empty; value_ref = none }))

-- Other objects are kept when the shared state changes.
Pair-others :
    (v : Vm) (s j : ℕ) (o o' new : Object)
    → get_elem? v.objects s ≡ some o
    → get_elem? v.objects j ≡ some o'
    → o ≢ o'
    → get_elem? (set v.objects s new) j ≡ some o'
Pair-others v s j o o' new a b ne =
    get_elem?-set_ne v.objects new
      (λ e. ne (some_inj (sym a ∙ subst (λ k. get_elem? v.objects k ≡ some o') (sym e) b)))
    ∙ b
  where
    some_inj : some o ≡ some o' → o ≡ o'
    some_inj e = cc

module _ (v : Vm) (p f s : ℕ) (waiters : List ℕ) (value : Value) (pair : Pair v p f s waiters) where
  abbrev before : SharedState
  before = record { waiters = waiters; state = empty; value_ref = none }

  abbrev now : FutureState → SharedState
  now ready = record { waiters = []; state = ready; value_ref = some value }

  kept :
      (new : Object) (j : ℕ) (o : Object)
      → get_elem? v.objects j ≡ some o
      → shared_state before ≢ o
      → get_elem? (set v.objects s new) j ≡ some o
  kept new j o at ne = Pair-others v s j (shared_state before) o new pair.is_empty at ne

  put_found :
      (ready : FutureState)
      → get_elem? (set v.objects s (shared_state (now ready))) s ≡ some (shared_state (now ready))
  put_found ready =
      get_elem?-set_found v.objects s (shared_state before) (shared_state (now ready)) pair.is_empty

  -- For a promise and a future of one empty shared state, `set_value` succeeds: it posts a wake-up
  -- with nil and the value for every waiter in order, leaves the shared state with the value and no
  -- waiter, and a second `set_value` raises `promise_already_satisfied` and changes nothing.
  pub set_value_lem :
      (other : Value)
      → (w : Vm) × (promise_set_value (userdata p) value v ≡ done tt w)
        × (w.strand ≡ v.strand ++ map (wake_with (nil ∷ value ∷ [])) waiters)
        × (get_elem? w.objects s ≡ some (shared_state (now value_ready)))
        × (promise_set_value (userdata p) other w ≡ raised (failure promise_already_satisfied) w)
  set_value_lem other =
      let w : Vm = satisfied value_ready value (nil ∷ value ∷ []) s waiters v in
      (
        w,
        set_value_first v p s pair.is_promise before value pair.is_empty refl,
        refl,
        put_found value_ready,
        set_value_again w p s
            (kept (shared_state (now value_ready)) p (promise s) pair.is_promise (λ e. cc))
            (now value_ready) other (put_found value_ready) (λ e. cc),
      )

  module _ (u : Vm) (may : unsafe_can_suspend u ≡ done tt u) where
    -- With a promise and a future of one empty shared state, `set_value` with a value leaves
    -- objects in which `get`, called by a fiber that the suspension guard lets through, returns nil
    -- and that value.
    pub set_value-get :
        u.objects ≡ (after (promise_set_value (userdata p) value v)).objects
        → get (userdata f) u ≡ done (nil ∷ value ∷ []) u
    unfolding get_from
    set_value-get same =
        let e : u.objects ≡ set v.objects s (shared_state (now value_ready)) =
          same
          ∙ ap (λ o. (after o).objects)
              (set_value_first v p s pair.is_promise before value pair.is_empty refl) in
        get_first u f s
          (subst (λ t. get_elem? t f ≡ some (future s)) (sym e)
            (kept (shared_state (now value_ready)) f (future s) pair.is_future (λ e. cc)))
          may (now value_ready)
          (subst (λ t. get_elem? t s ≡ some (shared_state (now value_ready))) (sym e)
            (put_found value_ready))

    -- With a promise and a future of one empty shared state, `set_error` with a value that is not
    -- nil leaves objects in which `get`, called by a fiber that the suspension guard lets through,
    -- raises that value.
    pub set_error-get :
        is_nil value ≡ false
        → u.objects ≡ (after (promise_set_error (userdata p) value v)).objects
        → get (userdata f) u ≡ raised value u
    unfolding get_from
    set_error-get given same =
        let e : u.objects ≡ set v.objects s (shared_state (now error_ready)) =
          same
          ∙ ap (λ o. (after o).objects)
              (set_error_first v p s pair.is_promise before value pair.is_empty refl given) in
        get_first u f s
          (subst (λ t. get_elem? t f ≡ some (future s)) (sym e)
            (kept (shared_state (now error_ready)) f (future s) pair.is_future (λ e. cc)))
          may (now error_ready)
          (subst (λ t. get_elem? t s ≡ some (shared_state (now error_ready))) (sym e)
            (put_found error_ready))

-- The collection of a promise posts a wake-up with `broken_promise` for every waiter in order, and
-- afterwards `get` by a fiber that the suspension guard lets through raises `broken_promise`,
-- whatever the shared state was before, also one with a value.
pub promise_mt_gc-get :
    (v u : Vm) (f s : ℕ) (state : SharedState)
    → get_elem? v.objects f ≡ some (future s)
    → get_elem? v.objects s ≡ some (shared_state state)
    → u.objects ≡ (after (promise_mt_gc s v)).objects
    → unsafe_can_suspend u ≡ done tt u
    → ((after (promise_mt_gc s v)).strand
        ≡ v.strand ++ map (wake_with (failure broken_promise ∷ [])) state.waiters)
      × (get (userdata f) u ≡ raised (failure broken_promise) u)
unfolding promise_mt_gc get_from
promise_mt_gc-get v u f s state is_future at same may =
    let new : Object = shared_state (record state { waiters = []; state = broken }) in
    let collected : promise_mt_gc s v
        ≡ done tt (record v {
          objects = set v.objects s new;
          strand = v.strand ++ map (wake_with (failure broken_promise ∷ [])) state.waiters;
        }) =
      bind_done (shared s) _ (shared_lem s state v at)
      ∙ rw (post_all_lem (failure broken_promise ∷ []) state.waiters v) refl in
    let e : u.objects ≡ set v.objects s new = same ∙ ap (λ o. (after o).objects) collected in
    (
      ap (λ o. (after o).strand) collected,
      get_first u f s
          (subst (λ t. get_elem? t f ≡ some (future s)) (sym e)
            (Pair-others v s f (shared_state state) (future s) new at is_future (λ e. cc)))
          may (record state { waiters = []; state = broken })
          (subst (λ t. get_elem? t s ≡ some new) (sym e)
            (get_elem?-set_found v.objects s (shared_state state) new at)),
    )
