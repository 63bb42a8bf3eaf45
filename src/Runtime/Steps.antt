-- ===== src/Runtime/Steps.antt =====
-- What a call leaves of the state when it changes one object and posts wake-ups: src/mutex.cpp and
-- src/recursive_mutex.cpp.
use emilua.Common.{
  ℕ, ◌≡◌, ◌≢◌, refl, sym, ap, subst, ◌∙◌, true, List, [], ◌∷◌, ◌++◌, get_elem?, get_elem?-set_found,
  get_elem?-set_ne, map, map-append, append_assoc, append-nil, none, some,
}
use emilua.Runtime.{Post, Vm, Object, Value, boolean, Outcome, done, raised, yielded, put, post}
use emilua.Runtime.Checks.{MaySuspend}

-- Whether a call is over, waits for its turn, or is refused.
pub data Answer : Type 0 where
  completed waits refused : Answer

-- The answer of a native function that returns nothing, or a boolean, and the state that it leaves.
abbrev pub reply : Outcome (Unit {0}) → Answer × Vm
reply (done a w) = (completed, w)
reply (raised e w) = (refused, w)
reply (yielded w) = (waits, w)

abbrev pub reply_bool : Outcome Value → Answer × Vm
reply_bool (done (boolean true) w) = (completed, w)
reply_bool (done a w) = (refused, w)
reply_bool (raised e w) = (refused, w)
reply_bool (yielded w) = (waits, w)

abbrev pub woken : ℕ → Post
woken f = record { fiber = f; arguments = []; skip_clear_interrupter = true }

-- What a call, or several, make of the object; the wake-ups that they post; and what they leave as
-- it is.
pub record Step (id : ℕ) (v w : Vm) (o : Object) (posted : List ℕ) : Type 0 where
  pub object : get_elem? w.objects id ≡ some o
  pub strand : w.strand ≡ v.strand ++ map woken posted
  pub others : (j : ℕ) → id ≢ j → get_elem? w.objects j ≡ get_elem? v.objects j
  pub fibers : w.fibers ≡ v.fibers
  pub async_event_thread : w.async_event_thread ≡ v.async_event_thread

pub Step-refl : (id : ℕ) (v : Vm) (o : Object) → get_elem? v.objects id ≡ some o → Step id v v o []
Step-refl id v o e = record {
  object = e;
  strand = sym (append-nil v.strand);
  others = λ j ne. refl;
  fibers = refl;
  async_event_thread = refl;
}

pub Step-trans :
    (id : ℕ) (u v w : Vm) (o q : Object) (p r : List ℕ)
    → Step id u v o p
    → Step id v w q r
    → Step id u w q (p ++ r)
Step-trans id u v w o q p r a b = record {
  object = b.object;
  strand =
      b.strand
      ∙ ap (λ s. s ++ map woken r) a.strand
      ∙ append_assoc u.strand (map woken p) (map woken r)
      ∙ ap (◌++◌ u.strand) (sym (map-append woken p r));
  others = λ j ne. b.others j ne ∙ a.others j ne;
  fibers = b.fibers ∙ a.fibers;
  async_event_thread = b.async_event_thread ∙ a.async_event_thread;
}

pub Step-MaySuspend :
    (id : ℕ) (v w : Vm) (o : Object) (p : List ℕ)
    → Step id v w o p
    → (f : ℕ) → MaySuspend v f
    → MaySuspend w f
Step-MaySuspend id v w o p s f may = record {
  not_system = λ e. may.not_system (e ∙ s.async_event_thread);
  allowed = λ fiber found.
      may.allowed fiber (
        ap (λ t. elim (get_elem? t f) [ none ↦ none | some entry ↦ entry ]) (sym s.fibers) ∙ found);
}

module _ (id f : ℕ) (v : Vm) where
  -- The state in which `f` runs.
  abbrev pub by : Vm
  by = record v { current_fiber = f }

  module _ (o : Object) (held : get_elem? v.objects id ≡ some o) where
    pub Step-none : Step id v by o []
    Step-none = record {
      object = held;
      strand = sym (append-nil v.strand);
      others = λ j ne. refl;
      fibers = refl;
      async_event_thread = refl;
    }

    pub Step-put : (new : Object) → Step id v (put id new by) new []
    Step-put new = record {
      object = get_elem?-set_found v.objects id o new held;
      strand = sym (append-nil v.strand);
      others = λ j ne. get_elem?-set_ne v.objects new ne;
      fibers = refl;
      async_event_thread = refl;
    }

    pub Step-post :
        (new : Object) (next : ℕ) → Step id v (post (woken next) (put id new by)) new (next ∷ [])
    Step-post new next = record {
      object = get_elem?-set_found v.objects id o new held;
      strand = refl;
      others = λ j ne. get_elem?-set_ne v.objects new ne;
      fibers = refl;
      async_event_thread = refl;
    }

  -- The step of a call whose outcome is known.
  pub by_outcome :
      {A : Type 0} (reply_of : Outcome A → Answer × Vm) {x o : Outcome A} (a : Answer) (q : Object)
      (p : List ℕ)
      → x ≡ o
      → ((reply_of o).0 ≡ a) × Step id v (reply_of o).1 q p
      → ((reply_of x).0 ≡ a) × Step id v (reply_of x).1 q p
  by_outcome reply_of a q p e got =
      subst (λ o. ((reply_of o).0 ≡ a) × Step id v (reply_of o).1 q p) (sym e) got
