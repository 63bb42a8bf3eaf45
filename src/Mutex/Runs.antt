-- ===== src/Mutex/Runs.antt =====
-- src/mutex.cpp: sequences of calls refine the queue.
use emilua.Common.{ℕ, ◌≡◌, refl, List, [], ◌∷◌, ◌++◌}
use emilua.Runtime.{Object, Vm}
use emilua.Runtime.Checks.{MaySuspend}
use emilua.Runtime.Steps.{Answer, Step, Step-refl, Step-trans, Step-MaySuspend}
use emilua.Mutex.Queue.{Call, as_object, Represents, call, call_lem, answer, next_queue, wakes}

-- Sequences of calls, of the code and of the queue.
unfoldable pub run_calls : ℕ → List (ℕ × Call) → Vm → List Answer × Vm
run_calls id [] v = ([], v)
run_calls id ((f, c) ∷ cs) v =
    let (a, w) = call id c f v in let (answers, u) = run_calls id cs w in (a ∷ answers, u)

unfoldable pub answers : List (ℕ × Call) → List ℕ → List Answer
answers [] queue = []
answers ((f, c) ∷ cs) queue = answer c queue ∷ answers cs (next_queue c f queue)

unfoldable pub last_queue : List (ℕ × Call) → List ℕ → List ℕ
last_queue [] queue = queue
last_queue ((f, c) ∷ cs) queue = last_queue cs (next_queue c f queue)

unfoldable pub all_wakes : List (ℕ × Call) → List ℕ → List ℕ
all_wakes [] queue = []
all_wakes ((f, c) ∷ cs) queue = wakes c queue ++ all_wakes cs (next_queue c f queue)

abbrev pub AllMaySuspend : Vm → List (ℕ × Call) → Type 0
AllMaySuspend v [] = Unit {0}
AllMaySuspend v ((f, c) ∷ cs) = MaySuspend v f × AllMaySuspend v cs

AllMaySuspend-Step :
    (id : ℕ) (v w : Vm) (o : Object) (p : List ℕ)
    → Step id v w o p
    → (cs : List (ℕ × Call)) → AllMaySuspend v cs
    → AllMaySuspend w cs
AllMaySuspend-Step id v w o p s [] all = tt
AllMaySuspend-Step id v w o p s ((f, c) ∷ cs) (may, all) =
    (Step-MaySuspend id v w o p s f may, AllMaySuspend-Step id v w o p s cs all)

-- For a mutex in the state that a queue of fibers stands for (its head holds the mutex, the rest is
-- pending), any sequence of `lock`, `try_lock` and `unlock` calls by fibers that the suspension
-- guard lets through gives the answers of the queue, leaves the mutex in the state of the queue at
-- the end, appends to the strand the wake-ups of the fibers that the queue hands the mutex to, in
-- order, and leaves the other objects and the fiber table.
pub run_calls_lem :
    (id : ℕ) (cs : List (ℕ × Call)) (v : Vm) (queue : List ℕ)
    → Represents v id queue
    → AllMaySuspend v cs
    → ((run_calls id cs v).0 ≡ answers cs queue)
      × Step id v (run_calls id cs v).1 (as_object (last_queue cs queue)) (all_wakes cs queue)
unfolding run_calls answers last_queue all_wakes
run_calls_lem id [] v queue rep all = (refl, Step-refl id v (as_object queue) rep)
run_calls_lem id ((f, c) ∷ cs) v queue rep (may, all) =
    let (said, step) = call_lem id c f v queue rep may in
    let w : Vm = (call id c f v).1 in
    let new : List ℕ = next_queue c f queue in
    let (rest_said, rest) =
      run_calls_lem id cs w new step.object
        (AllMaySuspend-Step id v w (as_object new) (wakes c queue) step cs all) in
    (
      rw (said, rest_said) refl,
      Step-trans id v w (run_calls id cs w).1 (as_object new) (as_object (last_queue cs new))
          (wakes c queue) (all_wakes cs new) step rest,
    )
